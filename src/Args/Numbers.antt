-- ===== src/Args/Numbers.antt =====
-- How the argument of a command is taken from its array, and read as a number.
use pop.Common.{
  ℕ, zero, suc, ◌+◌, ◌-◌, ◌*◌, ◌/◌, ◌%◌, ◌^◌, ◌<◌, ◌≡◌, ◌∙◌, refl, sym, ap, Bool, true, false, ◌&&◌,
  ◌||◌, none, some, [], ◌∷◌, ◌++◌, append_assoc, append-nil, Str, pos, ltb, ◌==◌, if◌then◌else◌,
  length, length-append, not, get_elem?, print_digits, print_u, arith, ltb→lt, Bool-cases, inl, inr,
}
use pop.Parser.Line.{LineParser}
use pop.Args.{copy_arg, skip_args, get_next_arg, is_digit, to_number, to_int, atoi}

-- 10 ^ fuel
abbrev pub bound : ℕ → ℕ
bound zero = 1
bound (suc fuel) = 10 * bound fuel

last-is_digit : (n : ℕ) → is_digit (48 + n % 10) ≡ true
last-is_digit n = ground arith

pub to_number-print_digits :
    (fuel n : ℕ) (s : Str) → n < bound fuel → to_number 0 (print_digits fuel n ++ s) ≡ to_number n s
unfolding print_digits to_number
to_number-print_digits zero n s h = ground arith
to_number-print_digits (suc fuel) n s h =
    let last : Str = (48 + n % 10) ∷ [] in
    let rest = to_number-print_digits fuel (n / 10) (last ++ s) (omega arith) in
    let d = last-is_digit n in
    elim (Bool-cases (ltb n 10)) [
      | inl small ↦
          let e : 0 + (48 + n % 10 - 48) ≡ n = omega (arith, ltb→lt n 10 small) in
          rw small (rw d (ap (λ k. to_number k s) e))
      | inr big ↦
          let e : n / 10 * 10 + (48 + n % 10 - 48) ≡ n = omega arith in
          rw big (
            rw (append_assoc (print_digits fuel (n / 10)) last s)
              (rest ∙ rw d (ap (λ k. to_number k s) e)))
    ]

pub starts :
    (fuel n : ℕ)
    → 0 < fuel
    → (c : ℕ) × (s : Str) × (print_digits fuel n ≡ c ∷ s) × (is_digit c ≡ true)
unfolding print_digits
starts zero n h = elim h [ ]
starts (suc zero) n h = (48 + n % 10, [], ground arith, last-is_digit n)
starts (suc (suc fuel)) n h =
    let (c, s, e, d) = starts (suc fuel) (n / 10) (omega arith) in
    let last : Str = (48 + n % 10) ∷ [] in
    elim (Bool-cases (ltb n 10)) [
      | inl small ↦ (48 + n % 10, [], rw small refl, last-is_digit n)
      | inr big ↦ (c, s ++ last, rw big (ap (λ t. t ++ last) e), d)
    ]

pub to_number-nil : (n : ℕ) → to_number n [] ≡ n
unfolding to_number
to_number-nil n = refl

atoi-digits :
    (c : ℕ) (s : Str) (n : ℕ)
    → is_digit c ≡ true
    → to_number 0 (c ∷ s) ≡ n
    → n < 2 ^ 31
    → atoi (c ∷ s) ≡ pos n
unfolding atoi to_int
atoi-digits c s n d e h =
    let minus : (c == b'-') ≡ false = ground (arith, d) in
    let plus : (c == b'+') ≡ false = ground (arith, d) in rw minus (rw plus (rw e (ground arith)))

-- What "%u" prints of a number below 2^31 is read back by `atoi`.
pub atoi-print_u : (n : ℕ) → n < 2 ^ 31 → atoi (print_u n) ≡ pos n
unfolding print_u
atoi-print_u n h =
    let (c, s, e, d) = starts 10 n (omega arith) in
    let back = to_number-print_digits 10 n [] (omega arith) in
    let number : to_number 0 (c ∷ s) ≡ n =
      ap (to_number 0) (sym (append-nil (print_digits 10 n) ∙ e)) ∙ (back ∙ to_number-nil n) in
    rw e (atoi-digits c s n d number h)

-- What ends a word: the separator, or the end of the string.
abbrev pub is_end : ℕ → Bool
is_end c = c == b' ' || c == 0

abbrev pub is_word : Str → Bool
is_word [] = true
is_word (c ∷ s) = not (is_end c) && is_word s

get_elem?-behind :
    (pre : Str) (c : ℕ) (rest : Str) → get_elem? (pre ++ (c ∷ rest)) (length pre) ≡ some c
get_elem?-behind [] c rest = refl
get_elem?-behind (x ∷ pre) c rest = get_elem?-behind pre c rest

copy_arg_lem :
    (pre word : Str) (z : ℕ) (rest : Str) (k : ℕ)
    → is_word word ≡ true
    → is_end z ≡ true
    → copy_arg (pre ++ (word ++ (z ∷ rest))) k (length pre)
      ≡ (if ltb (length word) k then some word else none)
unfolding copy_arg
copy_arg_lem pre word z rest zero w e = ground arith
copy_arg_lem pre [] z rest (suc k) w e = rw (get_elem?-behind pre z rest) (rw e (ground arith))
copy_arg_lem pre (c ∷ word) z rest (suc k) w e =
    let one : Str = c ∷ [] in
    let inner : (is_word word ≡ true) = ground (arith, w) in
    let ongoing : is_end c ≡ false = ground (arith, w) in
    let next = copy_arg_lem (pre ++ one) word z rest k inner e in
    rw (get_elem?-behind pre c (word ++ (z ∷ rest))) (
      rw ongoing (
        rw (rw (length-append pre one, append_assoc pre one (word ++ (z ∷ rest))) at next)
          (ground arith)))

-- The argument of a fresh parser whose array starts with a word is that word, if it has fewer than 40
-- characters; a word of 40 characters or more is written past the end of the array that it is copied
-- to.
pub get_next_arg-word :
    (p : LineParser) (word : Str) (z : ℕ) (rest : Str)
    → p.arg_read ≡ 0
    → p.arg ≡ word ++ (z ∷ rest)
    → is_word word ≡ true
    → is_end z ≡ true
    → get_next_arg p
      ≡ (if ltb (length word) 40 then some (word, record p { arg_read = p.arg_read + 1 }) else none)
unfolding get_next_arg skip_args
get_next_arg-word p word z rest r a w e =
    rw r (rw a (rw (copy_arg_lem [] word z rest 40 w e) (ground arith)))
