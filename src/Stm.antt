-- ===== src/Stm.antt =====
-- src/server/stm.c, include/server/stm.h: a state machine over a world `W` whose field `current` the
-- machine reads and sets; `none` of a result is `abort`.
use pop.Common.{
  ℕ, zero, suc, ◌+◌, Bool, true, false, not, ◌&&◌, Option, none, some, List, ltb, ◌==◌,
  if◌then◌else◌, ◌>>=◌, get_elem?,
}

-- `struct state_definition`; a NULL function is `none`. `E` is what the system answers in a call.
pub record StateDefinition {ℓ} (E : Type ℓ) (W : Type ℓ) : Type ℓ where
  pub state : ℕ
  pub on_arrival : Option (ℕ → W → W)
  pub on_departure : Option (ℕ → W → W)
  pub on_read_ready : Option (E → W → Option (ℕ × W))
  pub on_write_ready : Option (E → W → Option (ℕ × W))
  pub on_block_ready : Option (E → W → Option (ℕ × W))

-- `struct state_machine`, with its field `current` by two functions on the world.
pub record StateMachine {ℓ} (E : Type ℓ) (W : Type ℓ) : Type ℓ where
  pub initial : ℕ
  pub max_state : ℕ
  pub states : List (StateDefinition E W)
  pub get_current : W → Option ℕ
  pub set_current : Option ℕ → W → W

module _ {ℓ} {E : Type ℓ} {W : Type ℓ} (stm : StateMachine E W) where
  -- The check of the states `i`, `i + 1`, and so on, with the rounds left.
  unfoldable pub are_numbered : ℕ → ℕ → Bool
  are_numbered zero i = true
  are_numbered (suc k) i =
      let rest = are_numbered k (i + 1) in
      elim (get_elem? stm.states i) [ none ↦ false | some s ↦ (i == s.state) && rest ]

  unfoldable pub stm_init : W → Option W
  unfolding are_numbered
  stm_init w =
      if not (are_numbered (suc stm.max_state) 0)
      then none
      else if ltb stm.initial stm.max_state
      then some (stm.set_current none w)
      else none

  abbrev calls : Option (ℕ → W → W) → ℕ → W → W
  calls none state w = w
  calls (some f) state w = f state w

  -- Entering the state `n`.
  unfoldable pub enter : ℕ → W → Option W
  enter n w =
      get_elem? stm.states n >>= λ s. some (calls s.on_arrival s.state (stm.set_current (some n) w))

  unfoldable pub handle_first : W → Option W
  unfolding enter
  handle_first w = elim (stm.get_current w) [ none ↦ enter stm.initial w | some n ↦ some w ]

  unfoldable pub leave : W → Option W
  leave w = elim (stm.get_current w) [
    | none ↦ some w
    | some n ↦ (get_elem? stm.states n >>= λ s. some (calls s.on_departure s.state w))
  ]

  -- `stm->current != stm->states + next`
  abbrev is_at : Option ℕ → ℕ → Bool
  is_at none next = false
  is_at (some n) next = n == next

  unfoldable pub jump : ℕ → W → Option W
  unfolding leave enter
  jump next w =
      let move = (leave w >>= enter next) in
      if ltb stm.max_state next
      then none
      else if is_at (stm.get_current w) next
      then some w
      else move

  -- `stm_handler_read`, `stm_handler_write` and `stm_handler_block`, which differ in the function that
  -- they call.
  unfoldable pub handle :
      (StateDefinition E W → Option (E → W → Option (ℕ × W))) → E → W → Option (ℕ × W)
  handle on_ready env w = do
    w1 ← handle_first w
    n ← stm.get_current w1
    s ← get_elem? stm.states n
    f ← on_ready s
    (ret, w2) ← f env w1
    w3 ← jump ret w2
    some (ret, w3)

  unfoldable pub stm_handler_read : E → W → Option (ℕ × W)
  stm_handler_read = handle (λ s. s.on_read_ready)

  unfoldable pub stm_handler_write : E → W → Option (ℕ × W)
  stm_handler_write = handle (λ s. s.on_write_ready)

  unfoldable pub stm_handler_block : E → W → Option (ℕ × W)
  stm_handler_block = handle (λ s. s.on_block_ready)

  unfoldable pub stm_handler_close : W → Option W
  unfolding leave
  stm_handler_close = leave

  unfoldable pub stm_state : W → ℕ
  stm_state w = elim (stm.get_current w) [ none ↦ stm.initial | some n ↦ n ]
