-- ===== src/Parser/Line/Errors.antt =====
-- Lines that the parser does not end: too long an argument, and a byte that is not legal.
use pop.Common.{
  ℕ, ◌-◌, ◌^◌, ◌≤◌, ◌≡◌, ◌≢◌, ◌∙◌, refl, ap, true, false, none, some, ◌∷◌, ◌++◌, length, Str,
  is_print, arith, [], pos, le→leb, ◌>>=◌,
}
use pop.Parser.Line.{LineSpec, LineParser, save_arg, s0, s1}
use pop.Parser.Line.Table.{engine}
use pop.Parser.Line.Step.{
  IsLineSpec, is_illegal, process-illegal, process-wild, process-s0_space, process-s1_arg,
}
use pop.Parser.Line.Loop.{feed, is_open}
use pop.Parser.Line.Command.{
  All, holding, fresh, feed-word, feed-arg, feed-step, feed-fault, feed-shut, print_bounds,
}

module _ (spec : LineSpec) where
  -- The parser that an argument of full length and one more character leave.
  abbrev pub overflowed : ℕ → Str → Str → LineParser
  overflowed size w a = record (holding spec size w a s1 false) { err_value = spec.invalid_arg }

  save_arg-full :
      (size : ℕ) (w a : Str) (c : ℕ)
      → is_print c ≡ true
      → length a ≡ spec.max_arg_len
      → save_arg spec (holding spec size w a s1 false) c ≡ some (overflowed size w a)
  unfolding save_arg
  save_arg-full size w a c h k = rw (h, le→leb spec.max_arg_len (length a) (omega arith))

  pub feed-too_long :
      IsLineSpec spec
      → (size : ℕ) (w a : Str) (c : ℕ) (rest : Str) → spec.max_arg_len ≤ size
      → spec.invalid_arg ≢ 0
      → All (λ x. spec.is_cmd_char x ≡ true) w
      → length w ≤ spec.max_cmd_len
      → All (λ x. is_print x ≡ true) a
      → length a ≡ spec.max_arg_len
      → is_print c ≡ true
      → feed (engine spec) (fresh spec size) (w ++ (b' ' ∷ (a ++ (c ∷ rest))))
        ≡ some (overflowed size w a, rest)
  unfolding is_open
  feed-too_long legal size w a c rest room code hw kw ha ka hc =
      feed-word spec legal size [] w _ hw (omega arith)
      ∙ feed-step (engine spec) _ 32 _ refl
          (process-s0_space spec (holding spec size w [] s0 false) legal)
      ∙ feed-arg spec legal size room w [] a _ ha (omega arith)
      ∙ feed-step (engine spec) _ c _ refl (
          process-s1_arg spec (holding spec size w a s1 false) c (print_bounds c hc).0
            (omega (arith, print_bounds c hc))
          ∙ ap (λ o. o >>= λ p'. some (pos s1, p')) (save_arg-full size w a c hc ka))
      ∙ feed-shut (engine spec) (overflowed size w a) rest (ground arith)

  -- A byte that is neither printable, DEL, CR nor LF, followed by any that is: an access out of
  -- bounds, in whatever state the open parser is.
  pub feed-illegal :
      (p : LineParser) (c d : ℕ) (rest : Str)
      → is_open p ≡ true
      → is_illegal c ≡ true
      → is_illegal d ≡ false
      → feed (engine spec) p (c ∷ d ∷ rest) ≡ none
  unfolding is_open
  feed-illegal p c d rest o hc hd =
      let q : LineParser = record p { state_id = 2 ^ 64 - 1 } in
      feed-step (engine spec) p c (d ∷ rest) o (process-illegal spec p _ c hc)
      ∙ feed-fault (engine spec) q d rest o (process-wild spec q d hd)
