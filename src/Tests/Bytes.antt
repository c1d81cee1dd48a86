-- ===== src/Tests/Bytes.antt =====
-- The buffer and the command-line parsers on concrete bytes.
use pop.Common.{
  ℕ, ◌≡◌, refl, Bool, true, false, some, List, [], ◌∷◌, ◌++◌, Str, codes, replicate, is_print,
  is_alpha, window, arith, ◌&&◌,
}
use pop.Buffer.{contents}
use pop.Buffer.Queue.{Op, put, get, compact, Run, run, Conserves, run-Conserves}
use pop.Parser.Line.{line_parse, s3}
use pop.Parser.Line.Table.{engine}
use pop.Parser.Line.Loop.{feed, is_open, Agrees, Agrees-line_parse}
use pop.Parser.Line.Command.{All, holding, fresh}
use pop.Parser.Line.Errors.{overflowed}
use pop.Parser.Line.Parse.{Leaves, argument, line_parse-line, line_parse-too_long}
use pop.Parser.Auth.{auth_spec, auth_arg_size, auth_spec-IsLineSpec}
use pop.Tests.{holds, holds-IsValid}

abbrev calls : List Op
calls = get ∷ (put 9 ∷ (compact ∷ (put 8 ∷ [])))

run-Conserves_example :
    (r : Run) × (run (holds (1 ∷ (2 ∷ []))) calls ≡ some r) × Conserves (holds (1 ∷ (2 ∷ []))) r
run-Conserves_example = run-Conserves calls (holds-IsValid (1 ∷ (2 ∷ [])))

abbrev input : List ℕ
input = codes "PASS a b\r\nQUIT\r\n"

Agrees-line_parse_example :
    Agrees
      (feed (engine auth_spec) (fresh auth_spec auth_arg_size) (contents (holds input)))
      (line_parse (engine auth_spec) (fresh auth_spec auth_arg_size) (holds input))
Agrees-line_parse_example =
    Agrees-line_parse (engine auth_spec) (fresh auth_spec auth_arg_size) (holds input)
      (holds-IsValid input)

abbrev all : (ℕ → Bool) → Str → Bool
all p [] = true
all p (c ∷ cs) = p c && all p cs

All-of-all : (p : ℕ → Bool) (s : Str) → all p s ≡ true → All (λ c. p c ≡ true) s
All-of-all p [] h = ground arith
All-of-all p (c ∷ cs) h = ground (arith, All-of-all p cs)

word-IsCommand : All (λ c. auth_spec.is_cmd_char c ≡ true) (codes "PASS")
unfolding is_alpha
word-IsCommand = All-of-all is_alpha (codes "PASS") refl

arg-IsPrint : All (λ c. is_print c ≡ true) (argument (some (codes "a b")))
unfolding is_print
arg-IsPrint = All-of-all is_print (codes "a b") refl

contents-input : contents (holds input) ≡ input
unfolding contents window
contents-input = refl

line_parse-line_example :
    Leaves
      (line_parse (engine auth_spec) (fresh auth_spec auth_arg_size) (holds input))
      (holding auth_spec auth_arg_size (codes "PASS") (codes "a b") s3 true)
      (codes "QUIT\r\n")
line_parse-line_example =
    line_parse-line auth_spec auth_spec-IsLineSpec auth_arg_size (codes "PASS") (some (codes "a b"))
      (codes "QUIT\r\n") (holds input) (omega arith) word-IsCommand (omega arith) arg-IsPrint
      (omega arith) (holds-IsValid input) contents-input

-- 40 characters
abbrev long_arg : Str
long_arg = replicate 40 b'x'

abbrev long_input : List ℕ
long_input = codes "PASS" ++ (b' ' ∷ (long_arg ++ (b'y' ∷ codes "\r\n")))

long_arg-IsPrint : All (λ c. is_print c ≡ true) long_arg
unfolding is_print
long_arg-IsPrint = All-of-all is_print long_arg refl

contents-long_input : contents (holds long_input) ≡ long_input
unfolding contents window
contents-long_input = refl

y-IsPrint : is_print b'y' ≡ true
unfolding is_print
y-IsPrint = refl

line_parse-too_long_example :
    Leaves
      (line_parse (engine auth_spec) (fresh auth_spec auth_arg_size) (holds long_input))
      (overflowed auth_spec auth_arg_size (codes "PASS") long_arg)
      (codes "\r\n")
    × ((overflowed auth_spec auth_arg_size (codes "PASS") long_arg).ended ≡ false)
    × Leaves
        (line_parse
          (engine auth_spec)
          (overflowed auth_spec auth_arg_size (codes "PASS") long_arg)
          (holds input))
        (overflowed auth_spec auth_arg_size (codes "PASS") long_arg)
        (contents (holds input))
line_parse-too_long_example =
    line_parse-too_long auth_spec auth_spec-IsLineSpec auth_arg_size (codes "PASS") long_arg b'y'
      (codes "\r\n") (holds long_input) (holds input) (omega arith) (λ e. cc) word-IsCommand
      (omega arith) long_arg-IsPrint refl y-IsPrint (holds-IsValid long_input) (holds-IsValid input)
      contents-long_input

contents-tab : contents (holds (9 ∷ codes "QUIT")) ≡ 9 ∷ b'Q' ∷ codes "UIT"
unfolding contents window
contents-tab = refl

fresh-is_open : is_open (fresh auth_spec auth_arg_size) ≡ true
unfolding is_open
fresh-is_open = refl
