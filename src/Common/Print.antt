-- ===== src/Common/Print.antt =====
-- The conversions of `printf` that the answers use.
use Prim.Native.Nat.{ℕ, zero, suc, ◌+◌, ◌-◌, ◌/◌, ◌%◌, ◌^◌, ◌≤◌}
use mathlib.Core.List.{[], ◌∷◌, ◌++◌}
use native.Mathlib.Omega.{arith}
use pop.Common.Tests.{ltb, if◌then◌else◌}
use pop.Common.Lists.{length, length-append}
use pop.Common.Strings.{Str}

-- At most `fuel` decimal digits of `n`; 10 are enough for 32 bits and 20 for 64.
unfoldable pub print_digits : ℕ → ℕ → Str
print_digits zero n = []
print_digits (suc fuel) n =
    let rest = print_digits fuel (n / 10) in
    let last = (48 + n % 10) ∷ [] in if ltb n 10 then last else rest ++ last

-- "%u", and "%d" of an argument whose 32 bits are `n`
unfoldable pub print_u : ℕ → Str
print_u n = print_digits 10 n

unfoldable pub print_d : ℕ → Str
unfolding print_u
print_d n = if ltb n (2 ^ 31) then print_u n else 45 ∷ print_u (2 ^ 32 - n)

length-print_digits : (fuel n : ℕ) → length (print_digits fuel n) ≤ fuel
unfolding print_digits
length-print_digits zero n = omega arith
length-print_digits (suc fuel) n =
    let last : Str = (48 + n % 10) ∷ [] in
    ground
      (arith, length-print_digits fuel (n / 10), length-append (print_digits fuel (n / 10)) last)

pub length-print_u : (n : ℕ) → length (print_u n) ≤ 10
unfolding print_u
length-print_u n = length-print_digits 10 n

pub length-print_d : (n : ℕ) → length (print_d n) ≤ 11
unfolding print_d print_u
length-print_d n = ground (arith, length-print_digits 10 n, length-print_digits 10 (2 ^ 32 - n))

-- `a - b` on an `unsigned`, for `b` below 2^32
abbrev pub sub32 : ℕ → ℕ → ℕ
sub32 a b = (a + 2 ^ 32 - b) % 2 ^ 32
