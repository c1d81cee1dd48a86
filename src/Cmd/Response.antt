-- ===== src/Cmd/Response.antt =====
-- src/client/cmd.c: how the client reads an answer of the monitor, through a ring of bytes.
pub mod Ring
pub mod Answers
use pop.Common.{
  ℕ, zero, suc, ◌+◌, ◌%◌, Bool, true, false, Option, none, some, List, [], ◌∷◌, ◌++◌, Str, codes, ℤ,
  pos, negsuc, ◌==◌, if◌then◌else◌, ◌>>=◌, get_elem?, store, replicate, ◌-◌,
}

abbrev pub buffer_size : ℕ
buffer_size = 32768

abbrev pub monitor_terminator : Str
monitor_terminator = codes "\r\n\r\n"

-- `buffer_t`
pub record BufferT : Type 0 where
  pub b : List ℕ
  pub r : ℕ
  pub w : ℕ
  pub last : List ℕ

unfoldable pub blank : BufferT
blank = record { b = replicate buffer_size 0; r = 0; w = 0; last = replicate 4 0 }

-- `for (i...) last[i] = last[i + 1]`, with the rounds left.
unfoldable pub shift : ℕ → ℕ → List ℕ → Option (List ℕ)
shift zero i last = some last
shift (suc k) i last = do c ← get_elem? last (i + 1); last' ← store last i c; shift k (i + 1) last'

unfoldable pub buffer_write : BufferT → ℕ → Option BufferT
unfolding shift
buffer_write s c = do
  b ← store s.b s.w c
  last ← shift 3 0 s.last
  last' ← store last 3 c
  some (record s { b = b; w = (s.w + 1) % buffer_size; last = last' })

unfoldable pub buffer_read : BufferT → Option (ℕ × BufferT)
buffer_read s = do c ← get_elem? s.b s.r; some (c, record s { r = (s.r + 1) % buffer_size })

-- The loop of `has_terminator`, with the rounds left.
unfoldable pub agrees : ℕ → ℕ → List ℕ → Option Bool
agrees zero i last = some true
agrees (suc k) i last = do
  c ← get_elem? last i
  d ← get_elem? monitor_terminator i
  let rest = agrees k (i + 1) last
  if c == d then rest else some false

unfoldable pub has_terminator : BufferT → Option Bool
unfolding agrees
has_terminator s = agrees 4 0 s.last

-- The bytes of one `recv`.
unfoldable pub write_all : List ℕ → BufferT → Option BufferT
write_all [] s = some s
write_all (c ∷ cs) s = buffer_write s c >>= write_all cs

-- `while (response.w != response.r)`, with the rounds left: what is printed.
unfoldable pub print_all : ℕ → BufferT → Option (Str × BufferT)
print_all zero s = none
print_all (suc k) s =
    let go = (do (c, s') ← buffer_read s; (out, s'') ← print_all k s'; some (c ∷ out, s'')) in
    if s.w == s.r then some ([], s) else go

-- The loop of `recv_cmd` on what `recv` answers (`none` is a result below 0): the result, what has
-- been printed, and the answers left. The inner `none` is a `recv` that does not return.
unfoldable pub recv_loop :
    List (Option Str) → Str → BufferT → Option (Option (ℤ × Str × List (Option Str)))
recv_loop [] out s =
    has_terminator s >>= λ over. (if over then some (some (pos 0, out, [])) else some none)
recv_loop (none ∷ rs) out s = has_terminator s >>= λ over.
    (if over then some (some (pos 0, out, none ∷ rs)) else some (some (negsuc 0, out, rs)))
recv_loop (some cs ∷ rs) out s =
    let go = (do
      s1 ← write_all cs s
      (more, s2) ← print_all buffer_size s1
      recv_loop rs (out ++ more) s2) in
    has_terminator s >>= λ over. (if over then some (some (pos 0, out, some cs ∷ rs)) else go)
