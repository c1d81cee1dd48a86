-- ===== src/Selector/New.antt =====
-- `selector_new` as main.c calls it, for 1024 descriptors.
use pop.Common.{
  some_inj, ℕ, zero, suc, ◌<◌, ◌≡◌, refl, sym, ◌∙◌, ap, subst, inl, Bool, true, false, Option, none,
  some, List, [], ◌∷◌, arith, length, replicate, length-replicate, get_elem?,
}
use pop.Selector.{
  Selector, item_used, items_max_size, selector_new, reads, writes, blank, empty_set, Item,
  ensure_capacity, next_capacity, items_init, count_bits,
}
use pop.Selector.Valid.{IsValid, slot_used, wants}

most : next_capacity 1024 ≡ some 1025
unfolding next_capacity count_bits
most = refl

module _ {ℓ} {H D : Type ℓ} where
  abbrev pub IsSound : Selector H D → Type ℓ
  IsSound s = IsValid s × (length s.fds ≡ 1025)

  items_init-unused :
      (xs : List (Item H D)) (i : ℕ) → slot_used (get_elem? (items_init xs 0) i) ≡ false
  unfolding items_init
  items_init-unused [] i = refl
  items_init-unused (x ∷ xs) zero = refl
  items_init-unused (x ∷ xs) (suc i) = items_init-unused xs i

  length-items_init : (xs : List (Item H D)) → length (items_init xs 0) ≡ length xs
  unfolding items_init
  length-items_init [] = refl
  length-items_init (x ∷ xs) = ap suc (length-items_init xs)

  wants-unused :
      (bit : ℕ → Bool) (o : Option (Item H D)) → slot_used o ≡ false → wants bit o ≡ false
  wants-unused bit none h = refl
  wants-unused bit (some it) h = rw h refl

  -- The state with these items, none of which is in use.
  abbrev pub fresh : List (Item H D) → Selector H D
  fresh fds = record {
    fds = fds;
    max_fd = 0;
    master_r = empty_set;
    master_w = empty_set;
    slave_r = empty_set;
    slave_w = empty_set;
    resolution_jobs = [];
  }

  pub fresh-IsValid :
      (fds : List (Item H D))
      → 0 < length fds
      → ((i : ℕ) → slot_used (get_elem? fds i) ≡ false)
      → IsValid (fresh fds)
  fresh-IsValid fds b h = record {
    room = b;
    own = λ i it e u. let no : item_used it ≡ false = ap slot_used (sym e) ∙ h i in absurd cc;
    attained = inl refl;
    readers = λ i. sym (wants-unused reads (get_elem? fds i) (h i));
    writers = λ i. sym (wants-unused writes (get_elem? fds i) (h i));
  }

  abbrev blanks : List (Item H D)
  blanks = replicate 1025 blank

  unfoldable pub first_items : List (Item H D)
  first_items = items_init blanks 0

  pub new_lem : selector_new true true items_max_size ≡ some (some (fresh first_items))
  unfolding selector_new ensure_capacity first_items
  new_lem = rw most refl

  pub new-IsSound :
      (s : Selector H D) → selector_new true true items_max_size ≡ some (some s) → IsSound s
  unfolding first_items
  new-IsSound s e =
      let same : fresh first_items ≡ s = some_inj (some_inj (sym new_lem ∙ e)) in
      let size : length first_items ≡ 1025 =
        length-items_init blanks ∙ length-replicate 1025 (blank {H = H} {D = D}) in
      let room : 0 < length first_items = omega (arith, size) in
      subst (λ t. IsSound t) same (fresh-IsValid first_items room (items_init-unused blanks), size)
