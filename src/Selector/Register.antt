-- ===== src/Selector/Register.antt =====
-- `selector_register` and `selector_set_interest`: what they do on each branch, and that the table
-- stays valid.
use pop.Common.{
  ℕ, ◌≤◌, ◌<◌, ◌≡◌, ◌≢◌, refl, sym, ◌∙◌, ap, ◌⊎◌, inl, inr, Bool, true, false, Option, some, List,
  pos, arith, length, length-set, get_elem?, get_elem?-set, get_elem?-set_cases, set,
  length-get_elem?, get_elem?-below, ltb, lt→ltb, ◌==◌, if◌then◌else◌, Bool-cases,
}
use pop.Selector.{
  SelectorStatus, success, fdinuse, iargs, Item, Selector, FdSet, fd_put, reads, writes, item_used,
  put_item, put_interest, occupy, selector_register, selector_set_interest,
  items_update_fdset_for_fd, items_max_size,
}
use pop.Selector.Valid.{IsValid, slot_used, wants, has_handler, larger_of}

abbrev pub expected : SelectorStatus → SelectorStatus → Bool → SelectorStatus
expected held other b = if b then held else other

module _ {ℓ} {H D : Type ℓ} where
  used_of : (it : Item H D) (n : ℕ) → it.fd ≡ pos n → item_used it ≡ true
  used_of it n e = rw e refl

  -- The state after an item is put in the slot `n`.
  abbrev pub placed : Selector H D → ℕ → Item H D → ℕ → Selector H D
  placed s n it max = put_interest n it.interest (record (put_item n it s) { max_fd = max })

  wants-placed :
      (bit : ℕ → Bool) (m : FdSet) (fds : List (Item H D)) (n : ℕ) (it : Item H D)
      → n < length fds
      → it.fd ≡ pos n
      → ((i : ℕ) → m i ≡ wants bit (get_elem? fds i))
      → (i : ℕ) → fd_put (bit it.interest) n m i ≡ wants bit (get_elem? (set fds n it) i)
  wants-placed bit m fds n it b f h i = elim (Bool-cases (i == n)) [
    | inl e ↦ rw (get_elem?-set fds n i it b) (rw e (rw (used_of it n f) refl))
    | inr e ↦ rw (get_elem?-set fds n i it b) (rw e (h i))
  ]

  slot-placed :
      (fds : List (Item H D)) (n i : ℕ) (it : Item H D)
      → n < length fds
      → it.fd ≡ pos n
      → (slot_used (get_elem? fds i) ≡ true) ⊎ (i ≡ n)
      → slot_used (get_elem? (set fds n it) i) ≡ true
  slot-placed fds n i it b f h = elim (get_elem?-set_cases fds n i it b) [
    | inl (x, e) ↦ rw e (used_of it n f)
    | inr (x, e) ↦ rw e (elim h [ inl u ↦ u | inr y ↦ absurd (x y) ])
  ]

  own-placed :
      (s : Selector H D) (n : ℕ) (it : Item H D) (max : ℕ)
      → IsValid s
      → n < length s.fds
      → it.fd ≡ pos n
      → has_handler it ≡ true
      → s.max_fd ≤ max
      → n ≤ max
      → (i : ℕ) (o : Item H D) → get_elem? (set s.fds n it) i ≡ some o
      → item_used o ≡ true
      → (o.fd ≡ pos i) × (i ≤ max) × (has_handler o ≡ true)
  own-placed s n it max v b f g k l i o e u = elim (get_elem?-set_cases s.fds n i it b) [
    | inl (x, a) ↦
        let same : it ≡ o = cc in
        (sym (ap (λ t. t.fd) same) ∙ f ∙ ap pos (sym x), omega arith, ap has_handler (sym same) ∙ g)
    | inr (x, a) ↦ let (c, d, h) = v.own i o (sym a ∙ e) u in (c, omega arith, h)
  ]

  pub placed-IsValid :
      (s : Selector H D) (n : ℕ) (it : Item H D) (max : ℕ)
      → IsValid s
      → n < length s.fds
      → it.fd ≡ pos n
      → has_handler it ≡ true
      → max ≡ (if ltb s.max_fd n then n else s.max_fd)
      → IsValid (placed s n it max)
  placed-IsValid s n it max v b f g e =
      let (more, mine, which) = larger_of s.max_fd n in
      record {
        room =
            rw (e, length-set s.fds n it)
              (elim which [ inl x ↦ omega (arith, x, v.room) | inr x ↦ rw x b ]);
        own = own-placed s n it max v b f g (rw e more) (rw e mine);
        attained = elim which [
          | inl x ↦ rw (e ∙ x) (elim v.attained [
            | inl z ↦ inl z
            | inr u ↦ inr (slot-placed s.fds n s.max_fd it b f (inl u))
          ])
          | inr x ↦ inr (slot-placed s.fds n max it b f (inr (e ∙ x)))
        ];
        readers = wants-placed reads s.master_r s.fds n it b f v.readers;
        writers = wants-placed writes s.master_w s.fds n it b f v.writers;
      }

  -- The whole result of an operation on the slot `n`: it succeeds with the item put there and all
  -- other slots as they were, or it fails with no change. The state is valid and of the same size.
  pub record Puts (s : Selector H D) (n : ℕ) (it : Item H D) (r : SelectorStatus × Selector H D)
      : Type ℓ where
    pub valid : IsValid r.1
    pub size : length r.1.fds ≡ length s.fds
    pub change :
        ((r.0 ≡ success)
          × ((i : ℕ) → get_elem? r.1.fds i ≡ (if i == n then some it else get_elem? s.fds i)))
        ⊎ ((r.0 ≢ success) × (r.1 ≡ s))

  placed-Puts :
      (s : Selector H D) (n : ℕ) (it : Item H D) (max : ℕ)
      → IsValid s
      → n < length s.fds
      → it.fd ≡ pos n
      → has_handler it ≡ true
      → max ≡ (if ltb s.max_fd n then n else s.max_fd)
      → Puts s n it (success, placed s n it max)
  placed-Puts s n it max v b f g e = record {
    valid = placed-IsValid s n it max v b f g e;
    size = length-set s.fds n it;
    change = inl (refl, λ i. get_elem?-set s.fds n i it b);
  }

  abbrev pub registered : ℕ → H → ℕ → Option D → Item H D
  registered n handler interest data_ptr = record {
    fd = pos n;
    interest = interest;
    handler = some handler;
    data_ptr = data_ptr;
  }

  unchanged-Puts :
      (s : Selector H D) (n : ℕ) (it : Item H D) (status : SelectorStatus)
      → IsValid s
      → status ≢ success
      → Puts s n it (status, s)
  unchanged-Puts s n it status v h = record { valid = v; size = refl; change = inr (h, refl) }

  occupy_lem :
      (n : ℕ) (h : H) (i : ℕ) (d : Option D) (s : Selector H D)
      → IsValid s
      → n < length s.fds
      → (r : SelectorStatus × Selector H D) × (occupy n h i d s ≡ some r)
        × (r.0 ≡ expected fdinuse success (slot_used (get_elem? s.fds n)))
        × Puts s n (registered n h i d) r
  unfolding occupy
  occupy_lem n h i d s v b =
      let (old, e) = get_elem?-below s.fds n b in
      let max = if ltb s.max_fd n then n else s.max_fd in
      elim (Bool-cases (item_used old)) [
        | inl u ↦ (
          (fdinuse, s),
          rw e (rw u refl),
          rw e (rw u refl),
          unchanged-Puts s n (registered n h i d) fdinuse v (λ x. cc),
        )
        | inr u ↦ (
          (success, placed s n (registered n h i d) max),
          rw e (rw u refl),
          rw e (rw u refl),
          placed-Puts s n (registered n h i d) max v b refl refl refl,
        )
      ]

  -- With room for the descriptor `n`, its registration does not fail to allocate: it succeeds if the
  -- descriptor is not in use, and is refused otherwise. On success the slot `n` holds it and every
  -- other slot is as it was; a refusal changes nothing. The state stays valid.
  pub selector_register_lem :
      (alloc : Bool) (n : ℕ) (h : H) (i : ℕ) (d : Option D) (s : Selector H D)
      → IsValid s
      → n < length s.fds
      → n < items_max_size
      → (r : SelectorStatus × Selector H D) × (selector_register alloc (pos n) (some h) i d s
          ≡ some r)
        × (r.0 ≡ expected fdinuse success (slot_used (get_elem? s.fds n)))
        × Puts s n (registered n h i d) r
  unfolding selector_register
  selector_register_lem alloc n h i d s v b c =
      let (r, e, x, p) = occupy_lem n h i d s v b in
      let room : ltb (length s.fds) n ≡ false = ground arith in
      (r, rw (lt→ltb n items_max_size c, selector_register) (rw room e), x, p)

  pub update_lem :
      (it : Item H D) (n : ℕ) (s : Selector H D)
      → it.fd ≡ pos n
      → items_update_fdset_for_fd it s ≡ some (put_interest n it.interest s)
  unfolding items_update_fdset_for_fd
  update_lem it n s f = rw f refl

  -- A change of interest succeeds on a descriptor in use, whose item changes in its interest alone.
  pub selector_set_interest_lem :
      (n i : ℕ) (it : Item H D) (s : Selector H D)
      → IsValid s
      → get_elem? s.fds n ≡ some it
      → n < items_max_size
      → (r : SelectorStatus × Selector H D) × (selector_set_interest (pos n) i s ≡ some r)
        × (r.0 ≡ expected success iargs (item_used it))
        × Puts s n (record it { interest = i }) r
  unfolding selector_set_interest
  selector_set_interest_lem n i it s v e c =
      let b = length-get_elem? s.fds n it e in
      let new = record it { interest = i } in
      elim (Bool-cases (item_used it)) [
        | inr u ↦ (
          (iargs, s),
          rw (lt→ltb n items_max_size c, selector_set_interest) (rw e (rw u refl)),
          rw u refl,
          unchanged-Puts s n new iargs v (λ x. cc),
        )
        | inl u ↦
            let (f, under, g) = v.own n it e u in
            let same : s.max_fd ≡ (if ltb s.max_fd n then n else s.max_fd) = ground arith in
            (
              (success, placed s n new s.max_fd),
              rw (lt→ltb n items_max_size c, selector_set_interest)
                  (rw e (rw u (rw (update_lem new n (put_item n new s) f) refl))),
              rw u refl,
              placed-Puts s n new s.max_fd v b f g same,
            )
      ]
