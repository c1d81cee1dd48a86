-- ===== src/Parser.antt =====
-- src/server/parser.c, include/server/parser.h: a table-driven state machine over characters.
-- The key that the callbacks change is the state `S`. A parser is a value here, so the tests on a
-- NULL parser or transition have no counterpart.
pub mod Line
pub mod Auth
pub mod Trans
pub mod Monitor
pub mod Update
pub mod Ranges
use pop.Common.{
  ℕ, zero, suc, ◌+◌, ◌-◌, ◌^◌, ◌%◌, Bool, true, false, ◌||◌, Option, none, some, List, [], ◌∷◌, ℤ,
  pos, negsuc, ltb, leb, ◌==◌, if◌then◌else◌, ◌>>=◌, get_elem?, store, replicate,
}

-- Delete - ' ' + 1 + \n + \r
abbrev pub activators_len : ℕ
activators_len = 127 - 32 + 1 + 2

abbrev pub Callback : Type 0 → Type 0
Callback S = S → ℕ → Option S

-- `none` is a NULL callback.
pub record ParserState (S : Type 0) : Type 0 where
  pub id : ℕ
  pub on_arrival : Option (Callback S)
  pub on_departure : Option (Callback S)
  pub is_final : Bool

pub record ParserTransition : Type 0 where
  pub from_state : ℕ
  pub to_state : ℕ
  pub activators : List Bool

pub record Parser (S : Type 0) : Type 0 where
  pub initial_state : ParserState S
  pub error_state : ParserState S
  pub states : List (ParserState S)
  pub transitions : List (List ParserTransition)
  pub transitions_per_state : List ℕ

-- The index that `process_char` gives to a character; `none` where it returns -1.
unfoldable pub activator_of : ℕ → Option ℕ
activator_of c =
    if ltb c 32 || ltb 127 c
    then (if c == b'\r'
        then some (activators_len - 2)
        else if c == b'\n'
        then some (activators_len - 1)
        else none)
    else some (c - b' ')

-- The index that `add_activator` and the others compute; `c - ' '` wraps at the width of `size_t`.
unfoldable pub activator_index : ℕ → ℕ
activator_index c =
    if ltb c 20 || ltb 127 c
    then (if c == b'\r' then activators_len - 2 else if c == b'\n' then activators_len - 1 else 0)
    else (c + 2 ^ 64 - b' ') % 2 ^ 64

unfoldable pub add_activator : ParserTransition → ℕ → Option ParserTransition
unfolding activator_index
add_activator t c = do
  a ← store t.activators (activator_index c) true
  some (record t { activators = a })

-- The loop of `add_activator_range` from `i` on, whose `uint8_t` wraps around. The inner `none` is a
-- loop that has not ended within the rounds given.
unfoldable pub add_range : ℕ → ℕ → ℕ → ℕ → ParserTransition → Option (Option ParserTransition)
unfolding add_activator
add_range zero start end i t = some none
add_range (suc k) start end i t =
    let go = add_activator t ((start + i) % 256) >>= add_range k start end ((i + 1) % 256) in
    if leb i end then go else some (some t)

abbrev is_line_end : ℕ → Bool
is_line_end c = c == b'\r' || c == b'\n'

-- With the rounds that the loop is given; it makes one for each value of `i` at most, or never ends.
unfoldable pub add_activator_range : ℕ → ParserTransition → ℕ → ℕ → Option (Option ParserTransition)
unfolding add_range
add_activator_range rounds t start end =
    if is_line_end start || is_line_end end
    then some (some t)
    else add_range rounds start end start t

-- The second loop of `add_activator_except`, over the exceptions that are left.
unfoldable pub remove_exceptions : ParserTransition → List ℕ → Option ParserTransition
unfolding activator_index
remove_exceptions t [] = some t
remove_exceptions t (c ∷ cs) = if c == 0 then some t else do
  a ← store t.activators (activator_index c) false
  remove_exceptions (record t { activators = a }) cs

unfoldable pub add_activator_except : ParserTransition → List ℕ → Option ParserTransition
unfolding remove_exceptions
add_activator_except t exceptions =
    remove_exceptions (record t { activators = replicate activators_len true }) exceptions

-- The search through the first `n` transitions of a state: the states that the activated one
-- goes from and to.
unfoldable pub find_activated : ℕ → List ParserTransition → ℕ → Option (Option (ℕ × ℕ))
find_activated zero ts i = some none
find_activated (suc n) [] i = none
find_activated (suc n) (t ∷ ts) i =
    let rest = find_activated n ts i in
    do
      active ← get_elem? t.activators i
      if active then some (some (t.from_state, t.to_state)) else rest

-- The search of `transit_to`, by target.
unfoldable pub find_target : ℕ → List ParserTransition → ℕ → Option (Option ℕ)
find_target zero ts to = some none
find_target (suc n) [] to = none
find_target (suc n) (t ∷ ts) to =
    if t.to_state == to then some (some t.from_state) else find_target n ts to

module _ {S : Type 0} where
  unfoldable pub notify : Option (Callback S) → S → ℕ → Option S
  notify none s c = some s
  notify (some f) s c = f s c

  unfoldable pub follow : Parser S → S → ℕ → ℕ → ℕ → Option (ℤ × S)
  unfolding notify
  follow p s from to c = do
    from_state ← get_elem? p.states from
    to_state ← get_elem? p.states to
    s ← notify from_state.on_departure s c
    s ← notify to_state.on_arrival s c
    some (pos to_state.id, s)

  -- What stands below "If not matching transition".
  unfoldable pub reject : Parser S → S → ℕ → ℕ → Option (ℤ × S)
  unfolding notify
  reject p s current c = do
    state ← get_elem? p.states current
    s ← notify state.on_departure s c
    s ← notify p.error_state.on_arrival s c
    some (pos p.error_state.id, s)

  -- The loop over the transitions of the current state.
  unfoldable pub search_transitions : Parser S → ℕ → ℕ → Option (Option (ℕ × ℕ))
  search_transitions p current i = do
    ts ← get_elem? p.transitions current
    n ← get_elem? p.transitions_per_state current
    find_activated n ts i

  unfoldable pub act_on : Parser S → S → ℕ → ℕ → Option (ℕ × ℕ) → Option (ℤ × S)
  unfolding follow reject
  act_on p s current c (some (from, to)) = follow p s from to c
  act_on p s current c none = reject p s current c

  -- What follows the computation of `activator_index`; `none` is its early return.
  unfoldable pub on_activator : Parser S → S → ℕ → ℕ → Option ℕ → Option (ℤ × S)
  on_activator p s current c none = some (negsuc 0, s)
  on_activator p s current c (some i) = do
    found ← search_transitions p current i
    act_on p s current c found

  unfoldable pub process_char : Parser S → S → ℕ → ℕ → Option (ℤ × S)
  unfolding on_activator
  process_char p s current c = on_activator p s current c (activator_of c)

  unfoldable pub transit_to : Parser S → S → ℕ → ℕ → Option (ℤ × S)
  transit_to p s current to = do
    ts ← get_elem? p.transitions current
    n ← get_elem? p.transitions_per_state current
    found ← find_target n ts to
    elim found [ some from ↦ follow p s from to 0 | none ↦ reject p s current 0 ]

  unfoldable pub is_final : ParserState S → Bool
  is_final state = state.is_final
