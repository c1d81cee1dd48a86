-- ===== src/Parser/Line/Parse.antt =====
-- What `auth_parse`, `trans_parse` and `monitor_parse` do with the bytes of a buffer.
use pop.Common.{
  ℕ, ◌≤◌, ◌≡◌, ◌≢◌, refl, true, false, Option, none, some, List, [], ◌∷◌, ◌++◌, length, Str,
  is_print, arith,
}
use pop.Buffer.{Buffer, contents}
use pop.Buffer.Inv.{IsValid}
use pop.Parser.Line.{LineSpec, LineParser, goes_on, line_parse, s3}
use pop.Parser.Line.Table.{engine}
use pop.Parser.Line.Step.{IsLineSpec, is_illegal}
use pop.Parser.Line.Loop.{feed, is_open, Agrees, Agrees-line_parse}
use pop.Parser.Line.Command.{All, holding, fresh, feed-line, feed-line_no_args, feed-shut}
use pop.Parser.Line.Errors.{overflowed, feed-too_long, feed-illegal}

-- The parser ends as `q` and leaves a valid buffer that holds `rest`, with nothing more to do.
abbrev pub Leaves : Option (LineParser × Buffer) → LineParser → List ℕ → Type 0
Leaves o q rest =
    (b : Buffer) × (o ≡ some (q, b)) × IsValid b × (contents b ≡ rest) × (goes_on q b ≡ false)

Leaves-of-Agrees :
    (x : Option (LineParser × List ℕ)) (o : Option (LineParser × Buffer)) {q : LineParser}
    {rest : List ℕ}
    → Agrees x o
    → x ≡ some (q, rest)
    → Leaves o q rest
Leaves-of-Agrees none none h e = cc
Leaves-of-Agrees none (some r) h e = absurd h
Leaves-of-Agrees (some r) none h e = absurd h
Leaves-of-Agrees (some (p, cs)) (some (p', b)) (same, v, c, stop) e = (b, cc, v, cc, cc)

none-of-Agrees :
    (x : Option (LineParser × List ℕ)) (o : Option (LineParser × Buffer))
    → Agrees x o
    → x ≡ none
    → o ≡ none
none-of-Agrees none none h e = refl
none-of-Agrees none (some r) h e = absurd h
none-of-Agrees (some r) none h e = refl
none-of-Agrees (some (p, cs)) (some (p', b)) h e = cc

-- A command line, and what follows it.
abbrev pub line : Str → Option Str → Str → Str
line w none rest = w ++ (b'\r' ∷ b'\n' ∷ rest)
line w (some a) rest = w ++ (b' ' ∷ (a ++ (b'\r' ∷ b'\n' ∷ rest)))

abbrev pub argument : Option Str → Str
argument none = []
argument (some a) = a

module _ (spec : LineSpec) where
  feed_to_buffer :
      (p : LineParser) (b : Buffer) (cs : List ℕ) {q : LineParser} {rest : List ℕ}
      → IsValid b
      → contents b ≡ cs
      → feed (engine spec) p cs ≡ some (q, rest)
      → Leaves (line_parse (engine spec) p b) q rest
  feed_to_buffer p b cs v e f =
      Leaves-of-Agrees _ _ (Agrees-line_parse (engine spec) p b v) (rw e f)

  -- From a valid buffer that holds a line, a command and maybe an argument within the limits, a
  -- fresh parser ends without an error, holds the command and the argument as they were sent (an
  -- empty one where there is none), and leaves in the buffer what follows the line.
  pub line_parse-line :
      IsLineSpec spec
      → (size : ℕ) (w : Str) (a : Option Str) (rest : Str) (b : Buffer) → spec.max_arg_len ≤ size
      → All (λ c. spec.is_cmd_char c ≡ true) w
      → length w ≤ spec.max_cmd_len
      → All (λ c. is_print c ≡ true) (argument a)
      → length (argument a) ≤ spec.max_arg_len
      → IsValid b
      → contents b ≡ line w a rest
      → Leaves
          (line_parse (engine spec) (fresh spec size) b)
          (holding spec size w (argument a) s3 true)
          rest
  line_parse-line legal size w none rest b room hw kw ha ka v e =
      feed_to_buffer _ b _ v e (feed-line_no_args spec legal size w rest hw kw)
  line_parse-line legal size w (some a) rest b room hw kw ha ka v e =
      feed_to_buffer _ b _ v e (feed-line spec legal size room w a rest hw kw ha ka)

  -- An argument of one character more than the limit stops a fresh parser short of the end of the
  -- line: it has not ended, and from then on it takes no byte from any valid buffer.
  pub line_parse-too_long :
      IsLineSpec spec
      → (size : ℕ) (w a : Str) (c : ℕ) (rest : Str) (b later : Buffer) → spec.max_arg_len ≤ size
      → spec.invalid_arg ≢ 0
      → All (λ x. spec.is_cmd_char x ≡ true) w
      → length w ≤ spec.max_cmd_len
      → All (λ x. is_print x ≡ true) a
      → length a ≡ spec.max_arg_len
      → is_print c ≡ true
      → IsValid b
      → IsValid later
      → contents b ≡ w ++ (b' ' ∷ (a ++ (c ∷ rest)))
      → let q = overflowed spec size w a in
        Leaves (line_parse (engine spec) (fresh spec size) b) q rest
        × (q.ended ≡ false)
        × Leaves (line_parse (engine spec) q later) q (contents later)
  unfolding is_open
  line_parse-too_long legal size w a c rest b later room code hw kw ha ka hc v v' e = (
    feed_to_buffer _ b _ v e (feed-too_long spec legal size w a c rest room code hw kw ha ka hc),
    refl,
    feed_to_buffer _ later _ v' refl
        (feed-shut (engine spec) (overflowed spec size w a) (contents later) (ground arith)),
  )

  -- A byte that is neither printable, DEL, CR nor LF, with any legal byte behind it in a valid
  -- buffer, makes an open parser read out of the bounds of its tables.
  pub line_parse-illegal :
      (p : LineParser) (c d : ℕ) (rest : Str) (b : Buffer)
      → is_open p ≡ true
      → is_illegal c ≡ true
      → is_illegal d ≡ false
      → IsValid b
      → contents b ≡ c ∷ d ∷ rest
      → line_parse (engine spec) p b ≡ none
  line_parse-illegal p c d rest b o hc hd v e =
      none-of-Agrees _ _ (Agrees-line_parse (engine spec) p b v)
        (rw e (feed-illegal spec p c d rest o hc hd))
