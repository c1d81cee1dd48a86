-- ===== src/Parser/Line/Loop.antt =====
-- The parsing loop over a buffer is a loop over the bytes that the buffer holds.
use pop.Common.{
  ℕ, zero, suc, ◌-◌, ◌≤◌, ◌<◌, ◌≡◌, ◌∙◌, refl, ap, Bool, false, not, ◌&&◌, inl, inr, Option, none,
  some, List, [], ◌∷◌, ◌==◌, if◌then◌else◌, ◌>>=◌, Bool-cases, length, arith, ℤ,
}
use pop.Buffer.{Buffer, buffer_can_read, contents}
use pop.Buffer.Inv.{IsValid, length-contents, buffer_read_lem}
use pop.Parser.{Parser, process_char}
use pop.Parser.Line.{
  LineParser, no_error, to_size, to_unsigned, goes_on, parse_round, parse_loop, line_parse,
}

-- The part of the loop's condition that does not look at the buffer.
unfoldable pub is_open : LineParser → Bool
is_open p = p.err_value == no_error && not p.ended

-- The loop over a list of bytes: the parser and the bytes that it leaves.
unfoldable pub feed : Parser LineParser → LineParser → List ℕ → Option (LineParser × List ℕ)
feed engine p [] = some (p, [])
feed engine p (c ∷ cs) =
    let next = process_char engine p (to_unsigned p.state_id) c >>= λ r.
    feed engine (record r.1 { state_id = to_size r.0 }) cs in
    if is_open p then next else some (p, c ∷ cs)

-- The loop over a buffer does what the loop over its bytes does: both are undefined, or both end
-- with the same parser, and then the buffer is valid and holds the bytes left, and the condition of
-- the `while` is false.
abbrev pub Agrees : Option (LineParser × List ℕ) → Option (LineParser × Buffer) → Type 0
Agrees none none = Unit
Agrees none (some r) = ⊥
Agrees (some r) none = ⊥
Agrees (some (p, rest)) (some (p', b)) =
    (p ≡ p') × IsValid b × (contents b ≡ rest) × (goes_on p' b ≡ false)

goes_on_cons :
    (p : LineParser) {b : Buffer} {c : ℕ} {cs : List ℕ}
    → IsValid b
    → contents b ≡ c ∷ cs
    → goes_on p b ≡ is_open p
unfolding goes_on is_open buffer_can_read
goes_on_cons p {b} v e = ground (arith, length-contents v, ap length e)

goes_on_nil : (p : LineParser) {b : Buffer} → IsValid b → contents b ≡ [] → goes_on p b ≡ false
unfolding goes_on buffer_can_read
goes_on_nil p {b} v e = ground (arith, length-contents v, ap length e)

module _ (engine : Parser LineParser) where
  -- One round, on a byte read.
  Agrees-round :
      (fuel : ℕ) (p : LineParser) (b : Buffer) (c : ℕ) (cs : List ℕ)
      → IsValid b
      → contents b ≡ c ∷ cs
      → length cs ≤ fuel
      → ((q : LineParser) (b' : Buffer)
          → IsValid b'
          → contents b' ≡ cs
          → Agrees (feed engine q cs) (parse_loop fuel engine q b'))
      → Agrees (feed engine p (c ∷ cs)) (parse_loop (suc fuel) engine p b)
  unfolding feed parse_loop parse_round
  Agrees-round fuel p b c cs v e n ih = elim (Bool-cases (is_open p)) [
    | inl go ↦
        let there : b.read < b.write = omega (arith, length-contents v, ap length e) in
        let (b', eq, v', e') = buffer_read_lem v there c cs e in
        rw (goes_on_cons p v e, go, eq)
          (after (process_char engine p (to_unsigned p.state_id) c) b' v' e')
    | inr stop ↦ let off = goes_on_cons p v e ∙ stop in rw (off, stop) (refl, v, e, off)
  ]
    where
      after :
          (o : Option (ℤ × LineParser)) (b' : Buffer)
          → IsValid b'
          → contents b' ≡ cs
          → Agrees (o >>= λ r. feed engine (record r.1 { state_id = to_size r.0 }) cs) (
              o
              >>= (λ r.
                  let s : Option (LineParser × Buffer) =
                    some (record r.1 { state_id = to_size r.0 }, b') in
                  s)
              >>= λ r. parse_loop fuel engine r.0 r.1)
      after none b' v' e' = tt
      after (some r) b' v' e' = ih (record r.1 { state_id = to_size r.0 }) b' v' e'

  Agrees-parse_loop :
      (fuel : ℕ) (p : LineParser) (b : Buffer) (cs : List ℕ)
      → IsValid b
      → contents b ≡ cs
      → length cs ≤ fuel
      → Agrees (feed engine p cs) (parse_loop fuel engine p b)
  unfolding feed parse_loop
  Agrees-parse_loop zero p b [] v e n = (refl, v, e, goes_on_nil p v e)
  Agrees-parse_loop zero p b (c ∷ cs) v e n = elim n [ ]
  Agrees-parse_loop (suc fuel) p b [] v e n =
      let off = goes_on_nil p v e in rw off (refl, v, e, off)
  Agrees-parse_loop (suc fuel) p b (c ∷ cs) v e n =
      Agrees-round fuel p b c cs v e (omega arith)
        (λ q b' v' e'. Agrees-parse_loop fuel q b' cs v' e' (omega arith))

  -- On any parser and any valid buffer the parsing loop ends, with the fuel that its buffer gives it,
  -- exactly as the loop over the buffer's bytes does: both are undefined, or the parsers are equal,
  -- the buffer is valid and holds the bytes left, and the condition of the `while` is false.
  pub Agrees-line_parse :
      (p : LineParser) (b : Buffer)
      → IsValid b
      → Agrees (feed engine p (contents b)) (line_parse engine p b)
  unfolding line_parse
  Agrees-line_parse p b v =
      Agrees-parse_loop (b.write - b.read) p b (contents b) v refl
        (omega (arith, length-contents v))
