-- ===== src/Parser/Line/Step.antt =====
-- One character in each state of a configured command-line parser.
use pop.Common.{
  ℕ, ◌-◌, ◌^◌, ◌≤◌, ◌<◌, ◌≡◌, ◌≢◌, refl, Bool, true, false, not, none, some, pos, negsuc, ltb, ◌==◌,
  ◌||◌, ◌&&◌, ◌∙◌, ◌>>=◌, is_print, arith, Option-cases, inl, inr,
}
use pop.Parser.{activators_len, activator_of, process_char, act_on}
use pop.Parser.Line.{
  LineSpec, LineParser, save_cmd, save_arg, final_arrival, error_arrival, s0, s1, s2, s3, serr,
}
use pop.Parser.Line.Table.{engine, edge, search_transitions-engine, search_transitions-wild}

-- What the three classes of command characters have in common: they are printable and no space.
pub record IsLineSpec (spec : LineSpec) : Type 0 where
  pub cmd_chars : (c : ℕ) → spec.is_cmd_char c ≡ true → (33 ≤ c) × (c ≤ 126)

-- A byte for which `process_char` returns -1.
abbrev pub is_illegal : ℕ → Bool
is_illegal c = (ltb c 32 || ltb 127 c) && not (c == 10 || c == 13)

module _ (spec : LineSpec) (p : LineParser) where
  process_edge :
      (state c i : ℕ)
      → state < 5
      → i < activators_len
      → activator_of c ≡ some i
      → process_char (engine spec) p state c ≡ act_on (engine spec) p state c (edge state i)
  unfolding process_char
  process_edge state c i h k e = rw (e, search_transitions-engine spec state i h k)

  -- A byte that is neither printable, DEL, CR nor LF makes the result -1, in any state.
  pub process-illegal :
      (state c : ℕ)
      → is_illegal c ≡ true
      → process_char (engine spec) p state c ≡ some (negsuc 0, p)
  unfolding process_char activator_of
  process-illegal state c h = ground arith

  legal-activator : (c : ℕ) → is_illegal c ≡ false → activator_of c ≢ none
  unfolding activator_of
  legal-activator c h = ground arith

  -- In the state that -1 becomes, any other byte reads past the end of the table of transitions.
  pub process-wild :
      (c : ℕ) → is_illegal c ≡ false → process_char (engine spec) p (2 ^ 32 - 1) c ≡ none
  unfolding process_char
  process-wild c h = elim (Option-cases (activator_of c)) [
    | inl e ↦ absurd (legal-activator c h e)
    | inr (i, e) ↦ rw (e, search_transitions-wild spec i)
  ]

  pub process-s0_word :
      (c : ℕ)
      → 33 ≤ c
      → c ≤ 127
      → process_char (engine spec) p s0 c ≡ (save_cmd spec p c >>= λ p'. some (pos s0, p'))
  unfolding act_on activator_of engine
  process-s0_word c h k =
      process_edge s0 c (c - 32) (omega arith) (omega arith) (ground arith) ∙ ground arith

  pub process-s1_arg :
      (c : ℕ)
      → 32 ≤ c
      → c ≤ 127
      → process_char (engine spec) p s1 c ≡ (save_arg spec p c >>= λ p'. some (pos s1, p'))
  unfolding act_on activator_of engine
  process-s1_arg c h k =
      process_edge s1 c (c - 32) (omega arith) (omega arith) (ground arith) ∙ ground arith

  pub process-s1_cr : process_char (engine spec) p s1 13 ≡ some (pos s2, p)
  unfolding act_on activator_of engine save_arg is_print
  process-s1_cr = process_edge s1 13 96 (omega arith) (omega arith) refl ∙ refl

  pub process-s2_lf : process_char (engine spec) p s2 10 ≡ some (pos s3, record p { ended = true })
  unfolding act_on activator_of engine final_arrival
  process-s2_lf = process_edge s2 10 97 (omega arith) (omega arith) refl ∙ refl

  module _ (legal : IsLineSpec spec) where
    pub process-s0_space : process_char (engine spec) p s0 32 ≡ some (pos s1, p)
    unfolding act_on activator_of engine save_cmd
    process-s0_space =
        process_edge s0 32 0 (omega arith) (omega arith) refl ∙ ground (arith, legal.cmd_chars 32)

    pub process-s0_cr : process_char (engine spec) p s0 13 ≡ some (pos s2, p)
    unfolding act_on activator_of engine save_cmd
    process-s0_cr =
        process_edge s0 13 96 (omega arith) (omega arith) refl ∙ ground (arith, legal.cmd_chars 13)

    -- A line feed out of place leads to the error state.
    pub process-s0_lf :
        process_char (engine spec) p s0 10
        ≡ some (pos serr, record p { err_value = spec.invalid_char; ended = true })
    unfolding act_on activator_of engine save_cmd error_arrival
    process-s0_lf =
        process_edge s0 10 97 (omega arith) (omega arith) refl ∙ ground (arith, legal.cmd_chars 10)
