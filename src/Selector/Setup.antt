-- ===== src/Selector/Setup.antt =====
-- `selector_init`, `selector_close` and `selector_fd_set_nio` of src/server/selector.c, on what the system
-- answers.
use pop.Common.{
  ℕ, ◌+◌, ◌/◌, ◌%◌, Bool, true, false, Option, none, some, ℤ, pos, negsuc, ◌==◌, if◌then◌else◌,
}
use pop.Selector.{SelectorStatus, success, io}

-- Whether `sigprocmask` and `sigaction` succeed.
unfoldable pub selector_init : Bool → Bool → SelectorStatus
selector_init false handled = io
selector_init true false = io
selector_init true true = success

unfoldable pub selector_close : SelectorStatus
selector_close = success

-- O_NONBLOCK of Linux.
abbrev pub o_nonblock : ℕ
o_nonblock = 2048

-- `flags | O_NONBLOCK`
abbrev pub with_nonblock : ℕ → ℕ
with_nonblock flags = if flags / o_nonblock % 2 == 1 then flags else flags + o_nonblock

-- What `fcntl` answers to F_GETFD, with `none` for -1, and whether it accepts what F_SETFL sets.
pub record Fcntl : Type 0 where
  pub flags : Option ℕ
  pub sets : ℕ → Bool

-- The result, and what F_SETFL is called with.
unfoldable pub selector_fd_set_nio : Fcntl → ℤ × Option ℕ
selector_fd_set_nio f = elim f.flags [
  | none ↦ (negsuc 0, none)
  | some flags ↦
      (if f.sets (with_nonblock flags) then pos 0 else negsuc 0, some (with_nonblock flags))
]
