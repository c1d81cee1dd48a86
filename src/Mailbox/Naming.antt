-- ===== src/Mailbox/Naming.antt =====
-- How a command names a mail.
use pop.Common.{
  ℕ, zero, suc, ◌+◌, ◌/◌, ◌%◌, ◌^◌, ◌<◌, ◌≡◌, refl, true, some, [], ◌∷◌, ◌++◌, Str, pos, ltb,
  lt→ltb, length, length-print_u, print_digits, print_u, arith,
}
use pop.Client.{World, put_client}
use pop.Args.Numbers.{is_word, atoi-print_u, get_next_arg-word}
use pop.Mailbox.{next_number}

is_word-append : (s t : Str) → is_word s ≡ true → is_word t ≡ true → is_word (s ++ t) ≡ true
is_word-append [] t h k = k
is_word-append (c ∷ s) t h k = ground (arith, h, is_word-append s t)

is_word-last : (n : ℕ) → is_word ((48 + n % 10) ∷ []) ≡ true
is_word-last n = ground arith

is_word-print_digits : (fuel n : ℕ) → is_word (print_digits fuel n) ≡ true
unfolding print_digits
is_word-print_digits zero n = refl
is_word-print_digits (suc fuel) n =
    let last : Str = (48 + n % 10) ∷ [] in
    ground (
      arith,
      is_word-last n,
      is_word-append (print_digits fuel (n / 10)) last (is_word-print_digits fuel (n / 10)),
    )

is_word-print_u : (n : ℕ) → is_word (print_u n) ≡ true
unfolding print_u
is_word-print_u n = is_word-print_digits 10 n

-- A command of a fresh parser whose argument is a number below 2^31, as "%u" prints it, takes just
-- that number.
pub next_number-print_u :
    (w : World) (n : ℕ) (rest : Str)
    → n < 2 ^ 31
    → w.client.trans_parser.arg_read ≡ 0
    → w.client.trans_parser.arg ≡ print_u n ++ (0 ∷ rest)
    → next_number w
      ≡ some (
        pos n,
        put_client w (record w.client {
          trans_parser = record w.client.trans_parser {
            arg_read = w.client.trans_parser.arg_read + 1;
          };
        }),
      )
unfolding next_number
next_number-print_u w n rest h r a =
    let fits : ltb (length (print_u n)) 40 ≡ true =
      lt→ltb (length (print_u n)) 40 (omega (arith, length-print_u n)) in
    let word =
      get_next_arg-word w.client.trans_parser (print_u n) 0 rest r a (is_word-print_u n) refl in
    simp (word, fits, atoi-print_u n h)
