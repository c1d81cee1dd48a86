-- ===== src/ServerUtils.antt =====
-- src/server/serverUtils.c: the sockets on which the server listens. What the system answers is an
-- argument; `FdSet` is the set of the descriptors that are open.
pub mod Listening
use pop.Common.{
  ℕ, Bool, true, false, ◌&&◌, Option, none, some, List, [], ◌∷◌, ℤ, pos, negsuc, if◌then◌else◌,
}
use pop.Selector.{FdSet, fd_put}

-- What `socket` gives for an address, and whether `bind` succeeds on it.
pub record Address : Type 0 where
  pub socket : ℤ
  pub bound : Bool

-- The addresses of `getaddrinfo` (`none` where it fails), and whether `listen` accepts a descriptor
-- that is open.
pub record Answers : Type 0 where
  pub addresses : Option (List Address)
  pub listens : Bool

-- The loop over the addresses, while `fd` is below 0. A descriptor that cannot be bound is closed.
unfoldable pub open_first : List Address → ℤ → FdSet → ℤ × FdSet
open_first [] fd o = (fd, o)
open_first (a ∷ rest) (pos n) o = (pos n, o)
open_first (a ∷ rest) (negsuc k) o = elim a.socket [
  | negsuc j ↦ open_first rest (negsuc j) o
  | pos n ↦
      open_first rest (pos n)
        (if a.bound then fd_put true n o else fd_put false n (fd_put true n o))
]

-- `listen` fails on a descriptor that is not open, and so does the `close` behind it.
unfoldable pub listen_on : Bool → ℤ × FdSet → ℤ × FdSet
listen_on listens (negsuc k, o) = (negsuc 0, o)
listen_on listens (pos n, o) = if o n && listens then (pos n, o) else (negsuc 0, fd_put false n o)

abbrev pub create_from : Option (List Address) → Bool → FdSet → ℤ × FdSet
create_from none listens o = (negsuc 0, o)
create_from (some found) listens o = listen_on listens (open_first found (negsuc 0) o)

unfoldable pub create_tcp_socket_server : Answers → FdSet → ℤ × FdSet
unfolding open_first listen_on
create_tcp_socket_server e o = create_from e.addresses e.listens o
