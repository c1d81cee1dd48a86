-- ===== src/Selector/Capacity.antt =====
-- How many descriptors the selector makes room for: the loop on bits, and the growth of the array.
use pop.Common.{
  ℕ, zero, suc, ◌+◌, ◌*◌, ◌/◌, ◌^◌, ◌≤◌, ◌<◌, ◌≡◌, refl, ◌∙◌, ap, true, some, arith, leb, lt→ltb,
}
use pop.Selector.{count_bits, next_capacity, capped, items_max_size}

doubled : (k : ℕ) → 2 ^ suc k ≡ 2 * 2 ^ k
doubled k = omega arith

-- The rounds are enough for a number of `m` bits, and the result is at most `m`.
count_bits_lem :
    (fuel m tmp bits : ℕ)
    → m ≤ fuel
    → tmp < 2 ^ m
    → (k : ℕ) × (count_bits (suc fuel) tmp bits ≡ some (bits + k)) × (tmp < 2 ^ k) × (k ≤ m)
unfolding count_bits
count_bits_lem fuel m zero bits f h = (0, ground arith, omega arith, omega arith)
count_bits_lem fuel zero (suc t) bits f h = absurd (omega arith)
count_bits_lem zero (suc m) (suc t) bits f h = absurd (omega arith)
count_bits_lem (suc fuel) (suc m) (suc t) bits f h =
    let (k, e, below, few) =
      count_bits_lem fuel m (suc t / 2) (bits + 1) (omega arith) (omega arith) in
    let last : bits + 1 + k ≡ bits + suc k = omega arith in
    (suc k, ground (arith, e, last), omega (arith, doubled k), omega arith)

capped_lem :
    (n t : ℕ)
    → n ≤ items_max_size
    → n < t
    → (leb n t ≡ true) × (n < capped t) × (capped t ≤ suc items_max_size)
capped_lem n t h k = ground arith

from_bits :
    (n k : ℕ)
    → n ≤ items_max_size
    → count_bits 65 n 0 ≡ some k
    → n < 2 ^ k
    → k < 64
    → (c : ℕ) × (next_capacity n ≡ some c) × (n < c) × (c ≤ suc items_max_size)
unfolding next_capacity
from_bits n k h e below few =
    let (fits, more, most) = capped_lem n (2 ^ k) h below in
    (capped (2 ^ k), rw e (rw (lt→ltb k 64 few) (rw fits refl)), more, most)

-- For a number that the array can hold, the bits are counted, the `assert` holds, and the capacity
-- is greater than the number and at most one more than what `select` handles.
pub next_capacity_lem :
    (n : ℕ)
    → n ≤ items_max_size
    → (c : ℕ) × (next_capacity n ≡ some c) × (n < c) × (c ≤ suc items_max_size)
next_capacity_lem n h =
    let (k, e, below, few) = count_bits_lem 64 11 n 0 (omega arith) (omega arith) in
    from_bits n k h (e ∙ ap some (omega arith)) below (omega arith)
