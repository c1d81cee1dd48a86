-- ===== src/Args.antt =====
-- src/server/transaction.c: how a command of the transaction state reads its argument. `none` is an
-- access outside an array, or a loop that never ends.
pub mod Numbers
use pop.Common.{
  ℕ, zero, suc, ◌+◌, ◌-◌, ◌*◌, ◌^◌, ◌%◌, Bool, true, false, ◌&&◌, ◌||◌, Option, none, some, List,
  [], ◌∷◌, Str, ℤ, pos, negsuc, ltb, leb, ◌==◌, if◌then◌else◌, ◌>>=◌, get_elem?,
}
use pop.Pop3Def.{max_arg_len}
use pop.Parser.Line.{LineParser}
use pop.Parser.Trans.{trans_arg_size}

-- The inner loop that skips one argument, with the rounds left; past the array the outer loop goes on
-- for ever.
unfoldable pub skip_arg : List ℕ → ℕ → ℕ → Option ℕ
skip_arg arg zero i = none
skip_arg arg (suc k) i =
    let rest = skip_arg arg k (i + 1) in
    get_elem? arg i >>= λ c. if c == b' ' then some (i + 1) else if c == 0 then some i else rest

unfoldable pub skip_args : List ℕ → ℕ → ℕ → Option ℕ
skip_args arg zero i = some i
skip_args arg (suc n) i = skip_arg arg (trans_arg_size - i) i >>= skip_args arg n

-- The loop that copies an argument into `buf`, with the bytes of `buf` that are left.
unfoldable pub copy_arg : List ℕ → ℕ → ℕ → Option Str
copy_arg arg zero i = none
copy_arg arg (suc k) i =
    let rest = copy_arg arg k (i + 1) in
    get_elem? arg i >>= λ c. if c == b' ' || c == 0 then some [] else (rest >>= λ s. some (c ∷ s))

unfoldable pub get_next_arg : LineParser → Option (Str × LineParser)
get_next_arg p = do
  i ← skip_args p.arg p.arg_read 0
  buf ← copy_arg p.arg max_arg_len i
  some (buf, record p { arg_read = p.arg_read + 1 })

abbrev pub is_digit : ℕ → Bool
is_digit c = leb b'0' c && leb c b'9'

-- The decimal digits that `s` starts with, read behind the value `acc`.
unfoldable pub to_number : ℕ → Str → ℕ
to_number acc [] = acc
to_number acc (c ∷ s) =
    let rest = to_number (acc * 10 + (c - b'0')) s in if is_digit c then rest else acc

-- The lowest 32 bits as an `int`
unfoldable pub to_int : ℕ → ℤ
to_int n = let low = n % 2 ^ 32 in if ltb low (2 ^ 31) then pos low else negsuc (2 ^ 32 - 1 - low)

abbrev saturate : ℕ → ℕ → ℕ
saturate top n = if ltb n top then n else top

-- `(int)strtol(s, NULL, 10)` on a text without white space; a value that no `long` has is the nearest
-- one that some `long` has.
unfoldable pub atoi : Str → ℤ
atoi [] = pos 0
atoi (c ∷ s) =
    if c == b'-'
    then to_int (2 ^ 64 - saturate (2 ^ 63) (to_number 0 s))
    else if c == b'+'
    then to_int (saturate (2 ^ 63 - 1) (to_number 0 s))
    else to_int (saturate (2 ^ 63 - 1) (to_number 0 (c ∷ s)))
