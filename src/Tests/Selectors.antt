-- ===== src/Tests/Selectors.antt =====
-- The selector on concrete inputs.
use pop.Common.{
  ℕ, zero, suc, ◌<◌, ◌≤◌, ◌≡◌, refl, sym, ◌∙◌, ap, inl, inr, Bool, true, false, none, some, [], ◌∷◌,
  pos, arith, get_elem?, ◌==◌,
}
use pop.Selector.{
  SelectorStatus, success, fdinuse, Selector, Item, FdSet, FdHandler, items_init, selector_register,
  next_capacity,
}
use pop.Selector.Capacity.{next_capacity_lem}
use pop.Selector.Valid.{IsValid, slot_used}
use pop.Selector.Register.{
  Puts, placed, placed-IsValid, registered, selector_register_lem, expected,
}
use pop.Selector.Unregister.{free_item}
use pop.Selector.New.{IsSound, fresh-IsValid, new_lem, fresh, first_items, new-IsSound}
use pop.Selector.Reach.{Reach, starts, steps, registers, works, AtRest, Reach-defined, Reach-open}
use pop.Selector.Closing.{server}
use pop.Selector.Events.{selector_unregister_fd}

-- The one pointer, to a handler and to data.
data Token : Type 0 where
  token : Token

next_capacity_lem_example : (c : ℕ) × (next_capacity 1000 ≡ some c) × (1000 < c) × (c ≤ 1025)
next_capacity_lem_example = next_capacity_lem 1000 (omega arith)

-- Handlers that do nothing; the one handler is that of a connection of the monitor.
abbrev idle : FdHandler Token Token (FdSet × ℕ)
idle = record {
  handle_read = λ h. none;
  handle_write = λ h. none;
  handle_block = λ h. none;
  handle_close = λ h. none;
}

abbrev is_monitor : Token → Bool
is_monitor h = true

abbrev all_open : FdSet
all_open j = false

-- Four free slots, and the state with the descriptor 3 registered for reading.
abbrev four : Selector Token Token
four = fresh (free_item ∷ (free_item ∷ (free_item ∷ (free_item ∷ []))))

all_free : (i : ℕ) → slot_used (get_elem? four.fds i) ≡ false
all_free zero = refl
all_free (suc zero) = refl
all_free (suc (suc zero)) = refl
all_free (suc (suc (suc zero))) = refl
all_free (suc (suc (suc (suc i)))) = refl

abbrev third : Item Token Token
third = registered 3 token 1 (some token)

four-IsValid : IsValid four
four-IsValid = fresh-IsValid four.fds (omega arith) all_free

abbrev three : Selector Token Token
three = placed four 3 third 3

three-IsValid : IsValid three
three-IsValid = placed-IsValid four 3 third 3 four-IsValid (omega arith) refl refl refl

-- The server's selector.
abbrev start : Selector Token Token
start = fresh first_items

start-IsSound : IsSound start
start-IsSound = new-IsSound start new_lem

with_three :
    (r : SelectorStatus × Selector Token Token) × (selector_register true
        (pos 3)
        (some token)
        1
        (some token)
        start
      ≡ some r)
    × (r.0 ≡ expected fdinuse success (slot_used (get_elem? start.fds 3)))
    × Puts start 3 third r
with_three =
    selector_register_lem true 3 token 1 (some token) start start-IsSound.0
      (omega (arith, start-IsSound.1)) (omega arith)

reached : Reach idle is_monitor suc (with_three.0.1, (all_open, 0))
reached =
    steps (starts new_lem)
      (registers true (pos 3) (some token) 1 (some token) with_three.0.0 with_three.1)

-- The connection on the descriptor 3 has set `closed`.
abbrev three_closed : FdSet
three_closed j = j == 3

closing : Reach idle is_monitor suc (with_three.0.1, (three_closed, 0))
closing = steps reached works

three-AtRest : AtRest idle is_monitor suc (pos 3) (with_three.0.1, (three_closed, 0))
three-AtRest n it e at h f m = let same : 3 ≡ n = cc in ap three_closed (sym same)

-- Then it is unregistered.
ends :
    (r : SelectorStatus × (Selector Token Token × (FdSet × ℕ))) × (selector_unregister_fd
        (server idle is_monitor suc)
        (pos 3)
        (with_three.0.1, (three_closed, 0))
      ≡ some r)
ends =
    (Reach-defined idle is_monitor suc {x = (with_three.0.1, (three_closed, 0))} true (pos 3)
      (some token) 4 none closing three-AtRest).1

three_free : slot_used (get_elem? start.fds 3) ≡ false
unfolding first_items items_init
three_free = refl

at_three : get_elem? with_three.0.1.fds 3 ≡ some third
at_three = elim with_three.3.change [
  | inl (ok, slots) ↦ slots 3
  | inr (failed, same) ↦ absurd (failed (with_three.2 ∙ (ap (expected fdinuse success) three_free)))
]

Reach-open_example :
    selector_unregister_fd (server idle is_monitor suc) (pos 3) (with_three.0.1, (all_open, 0))
    ≡ none
Reach-open_example =
    Reach-open idle is_monitor suc {x = (with_three.0.1, (all_open, 0))} 3 third token reached
      (omega arith) at_three refl refl refl refl
