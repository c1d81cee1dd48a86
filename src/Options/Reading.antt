-- ===== src/Options/Reading.antt =====
-- How the options with a user and with a port are read.
use pop.Common.{
  ℕ, zero, suc, ◌%◌, ◌^◌, ◌<◌, ◌≤◌, ◌≡◌, ◌≢◌, refl, sym, ◌∙◌, ap, true, false, some, [], ◌∷◌, ◌++◌,
  append-nil, Str, pos, ◌==◌, arith, is_space, skip_space, print_u, print_digits,
}
use pop.Args.{to_number, is_digit}
use pop.Args.Numbers.{starts, to_number-print_digits, to_number-nil}
use pop.Options.{
  ArgsT, u, p, defaults, capped, parse_port, at_colon, set_user, handle_option, handle_options,
  parse_args, goes_on,
}

-- A string without a colon.
abbrev pub HasNoColon : Str → Type 0
HasNoColon [] = Unit
HasNoColon (c ∷ cs) = ((c == b':') ≡ false) × HasNoColon cs

at_colon_lem :
    (name pass : Str) → HasNoColon name → at_colon (name ++ (b':' ∷ pass)) ≡ some (name, pass)
unfolding at_colon
at_colon_lem [] pass h = refl
at_colon_lem (c ∷ cs) pass (h, hs) = rw (h, at_colon) (rw (at_colon_lem cs pass hs) refl)

set_user_lem :
    (name pass : Str) (a : ArgsT)
    → HasNoColon name
    → name ≢ []
    → pass ≢ []
    → set_user (name ++ (b':' ∷ pass)) a ≡ (true, record a { user = some name; pass = some pass })
unfolding set_user
set_user_lem [] pass a h n m = absurd (n refl)
set_user_lem (c ∷ cs) [] a h n m = absurd (m refl)
set_user_lem (c ∷ cs) (d ∷ ds) a h n m = rw (at_colon_lem (c ∷ cs) (d ∷ ds) h, set_user) refl

-- The first digit is no white space and no sign.
digit_lem :
    (c : ℕ)
    → is_digit c ≡ true
    → (is_space c ≡ false) × ((c == b'-') ≡ false) × ((c == b'+') ≡ false)
unfolding is_space
digit_lem c h = ground arith

parse_port-print_u : (n : ℕ) → n < 2 ^ 32 → parse_port (print_u n) ≡ n
unfolding parse_port print_u skip_space
parse_port-print_u n h =
    let (c, s, e, d) = starts 10 n (omega arith) in
    let (space, minus, plus) = digit_lem c d in
    let value : to_number 0 (c ∷ s) ≡ n =
      ap (to_number 0) (sym (e ∙ refl) ∙ sym (append-nil (print_digits 10 n)))
      ∙ to_number-print_digits 10 n [] (omega arith)
      ∙ to_number-nil n in
    let small : capped n % 2 ^ 32 ≡ n = ground arith in
    rw (e, parse_port) (rw (space, skip_space) (rw minus (rw plus (rw value small))))

option_p :
    (n : ℕ) (a : ArgsT)
    → 0 < n
    → n < 2 ^ 32
    → handle_option (p (print_u n)) a
      ≡ goes_on (record a { server = record a.server { port = n; port_s = print_u n } })
unfolding handle_option
option_p n a g h =
    let some_port : (n == 0) ≡ false = ground arith in
    rw (parse_port-print_u n h, handle_option) (rw some_port refl)

option_u :
    (name pass : Str) (a : ArgsT)
    → HasNoColon name
    → name ≢ []
    → pass ≢ []
    → handle_option (u (name ++ (b':' ∷ pass))) a
      ≡ goes_on (record a { user = some name; pass = some pass })
unfolding handle_option
option_u name pass a h n m = rw (set_user_lem name pass a h n m, handle_option) refl

-- The options of a user and its password with a colon between, and of a port above 0 as "%u" prints
-- it, are read back as these, and leave all else at the defaults, where the program has at least two
-- arguments; the name has no colon, and neither part is empty.
pub parse_args-user_port :
    (argc n optind : ℕ) (name pass : Str)
    → 2 ≤ argc
    → 0 < n
    → n < 2 ^ 32
    → HasNoColon name
    → name ≢ []
    → pass ≢ []
    → parse_args argc (u (name ++ (b':' ∷ pass)) ∷ (p (print_u n) ∷ [])) optind ≡ (
      pos optind,
      record defaults {
        user = some name;
        pass = some pass;
        server = record defaults.server { port = n; port_s = print_u n };
      },
    )
unfolding parse_args handle_options
parse_args-user_port zero n optind name pass c g h k e f = absurd (omega arith)
parse_args-user_port (suc zero) n optind name pass c g h k e f = absurd (omega arith)
parse_args-user_port (suc (suc zero)) n optind name pass c g h k e f =
    rw (option_u name pass defaults k e f, parse_args, handle_options)
      (rw (option_p n (record defaults { user = some name; pass = some pass }) g h) refl)
parse_args-user_port (suc (suc (suc argc))) n optind name pass c g h k e f =
    rw (option_u name pass defaults k e f, parse_args, handle_options)
      (rw (option_p n (record defaults { user = some name; pass = some pass }) g h) refl)
