-- ===== src/Parser/Line/Table.antt =====
-- What the transition tables of the command-line parsers say: the search that `process_char` makes
-- in them is the function `edge`.
use pop.Common.{
  ℕ, zero, suc, ◌<◌, ◌-◌, ◌^◌, ◌≡◌, refl, Bool, true, false, ◌&&◌, Option, none, some, List, [],
  ◌∷◌, ◌==◌, if◌then◌else◌, ◌>>=◌, get_elem?, arith,
}
use pop.Parser.{ParserTransition, Parser, activators_len, find_activated, search_transitions}
use pop.Parser.Line.{
  LineSpec, LineParser, conf_transitions, conf_line_parser, state_serr, line_states, s0, s1, s2, s3,
  save_cmd,
}

from_some {ℓ} : {A : Type ℓ} → A → Option A → A
from_some d none = d
from_some d (some a) = a

pub tables : List (List ParserTransition)
unfolding from_some conf_transitions
tables = from_some [] conf_transitions

abbrev pub counts : List ℕ
counts = 3 ∷ 2 ∷ 1 ∷ 0 ∷ 0 ∷ []

unfoldable pub engine : LineSpec → Parser LineParser
engine spec = record {
  initial_state = record {
    id = s0;
    on_arrival = none;
    on_departure = some (save_cmd spec);
    is_final = false;
  };
  error_state = state_serr spec;
  states = line_states spec;
  transitions = tables;
  transitions_per_state = counts;
}

-- The configuration writes inside every table, and so has a result.
pub conf_line_parser_lem : (spec : LineSpec) → conf_line_parser spec ≡ some (engine spec)
unfolding conf_line_parser engine tables
conf_line_parser_lem spec = refl

-- The states that a character with the given activator goes from and to.
abbrev pub edge : ℕ → ℕ → Option (ℕ × ℕ)
edge zero i =
    if i == 0
    then some (s0, s1)
    else if i == 96
    then some (s0, s2)
    else if i == 97
    then none
    else some (s0, s0)
edge (suc zero) i = if i == 96 then some (s1, s2) else if i == 97 then none else some (s1, s1)
edge (suc (suc zero)) i = if i == 97 then some (s2, s3) else none
edge (suc (suc (suc n))) i = none

-- The callbacks play no part in the search.
search_tables : ℕ → ℕ → Option (Option (ℕ × ℕ))
unfolding search_transitions
search_tables state i = do
  ts ← get_elem? tables state
  n ← get_elem? counts state
  find_activated n ts i

same : Option (Option (ℕ × ℕ)) → Option (ℕ × ℕ) → Bool
same none e = false
same (some none) none = true
same (some none) (some e) = false
same (some (some (a, b))) none = false
same (some (some (a, b))) (some (c, d)) = a == c && b == d

same_sound : (x : Option (Option (ℕ × ℕ))) (e : Option (ℕ × ℕ)) → same x e ≡ true → x ≡ some e
unfolding same
same_sound none e h = cc
same_sound (some none) none h = refl
same_sound (some none) (some e) h = cc
same_sound (some (some (a, b))) none h = cc
same_sound (some (some (a, b))) (some (c, d)) h = ground arith

module _ (test : ℕ → Bool) where
  -- The test holds at every index below the bound: a finite table is checked by evaluation.
  passes : ℕ → Bool
  passes zero = true
  passes (suc bound) = if test bound then passes bound else false

  test-passes : {i : ℕ} (bound : ℕ) → i < bound → passes bound ≡ true → test i ≡ true
  unfolding passes
  test-passes zero less ok = elim less [ ]
  test-passes {i} (suc bound) less ok = ground (arith, test-passes {i = i} bound)

row : ℕ → Bool
row state = passes (λ i. same (search_tables state i) (edge state i)) activators_len

rows : passes row 5 ≡ true
unfolding passes row same search_tables tables find_activated
rows = refl

pub search_transitions-engine :
    (spec : LineSpec) (state i : ℕ)
    → state < 5
    → i < activators_len
    → search_transitions (engine spec) state i ≡ some (edge state i)
unfolding search_tables row engine
search_transitions-engine spec state i h k = same_sound _ _ (
    test-passes (λ j. same (search_tables state j) (edge state j)) activators_len k
      (test-passes row 5 h rows))

-- The state that -1 becomes on its way to `process_char` is beyond every table.
pub search_transitions-wild :
    (spec : LineSpec) (i : ℕ) → search_transitions (engine spec) (2 ^ 32 - 1) i ≡ none
unfolding search_transitions engine tables
search_transitions-wild spec i = refl
