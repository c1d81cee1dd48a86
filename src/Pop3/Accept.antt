-- ===== src/Pop3/Accept.antt =====
-- src/server/pop3.c, src/server/monitor.c: how a new connection enters the selector. What `accept`
-- answers and whether memory is given are arguments; the socket of a connection that is refused is
-- closed, which is not followed.
use pop.Common.{ℕ, Bool, true, false, Option, some, ℤ, pos, negsuc, ltb, if◌then◌else◌, ◌>>=◌}
use pop.Selector.{SelectorStatus, success, Selector, selector_register}
use pop.Client.{Counters, monitor_add_connection}

-- MAX_SOCKETS
abbrev pub max_sockets : ℕ
max_sockets = 1023

-- OP_READ and OP_WRITE
abbrev pub read_bit : ℕ
read_bit = 1

abbrev pub write_bit : ℕ
write_bit = 4

abbrev pub is_success : SelectorStatus → Bool
is_success success = true
is_success _ = false

module _ {ℓ} {H D : Type ℓ} where
  -- What `pop3AcceptPassive` and `acceptMonitorConnection` share: whether the connection is
  -- registered, and the selector.
  unfoldable pub enroll : ℕ → Bool → ℤ → H → D → Selector H D → Option (Bool × Selector H D)
  enroll interest alloc (negsuc n) handler data_ptr s = some (false, s)
  enroll interest alloc (pos n) handler data_ptr s =
      let registered = (do
        (status, s') ← selector_register true (pos n) (some handler) interest (some data_ptr) s
        some (is_success status, s')) in
      if ltb max_sockets n then some (false, s) else if alloc then registered else some (false, s)

  unfoldable pub pop3_accept_passive :
      Bool → ℤ → H → D → Selector H D × Counters → Option (Selector H D × Counters)
  unfolding enroll
  pop3_accept_passive alloc fd handler data_ptr (s, c) = do
    (ok, s') ← enroll write_bit alloc fd handler data_ptr s
    some (s', if ok then monitor_add_connection c else c)

  unfoldable pub accept_monitor_connection :
      Bool → ℤ → H → D → Selector H D × Counters → Option (Selector H D × Counters)
  unfolding enroll
  accept_monitor_connection alloc fd handler data_ptr (s, c) = do
    (ok, s') ← enroll read_bit alloc fd handler data_ptr s
    some (s', c)
