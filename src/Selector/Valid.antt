-- ===== src/Selector/Valid.antt =====
-- When the table of a selector, its greatest descriptor and the sets for `select` agree.
use pop.Common.{
  ℕ, zero, suc, ◌+◌, ◌≤◌, ◌<◌, ◌≡◌, refl, ◌∙◌, ap, ◌⊎◌, inl, inr, Bool, true, false, ◌&&◌, Option,
  none, some, List, [], ◌∷◌, ℤ, pos, negsuc, arith, length, get_elem?, ltb, if◌then◌else◌,
}
use pop.Selector.{Item, Selector, FdSet, reads, writes, item_used, scan_max, larger}

module _ {ℓ} {H D : Type ℓ} where
  abbrev pub slot_used : Option (Item H D) → Bool
  slot_used none = false
  slot_used (some it) = item_used it

  abbrev pub wants : (ℕ → Bool) → Option (Item H D) → Bool
  wants bit none = false
  wants bit (some it) = item_used it && bit it.interest

  abbrev pub has_handler : Item H D → Bool
  has_handler it = elim it.handler [ none ↦ false | some h ↦ true ]

  -- A slot in use holds the descriptor that is its index, which is at most `max`, and a handler.
  abbrev pub IsOwn : ℕ → ℕ → Option (Item H D) → Type ℓ
  IsOwn max i o =
      (it : Item H D)
      → o ≡ some it
      → item_used it ≡ true
      → (it.fd ≡ pos i) × (i ≤ max) × (has_handler it ≡ true)

-- The state between two calls: `max_fd` is in the array and is the greatest descriptor in use, or 0;
-- and each set has the descriptors in use with that interest.
pub record IsValid {ℓ} {H : Type ℓ} {D : Type ℓ} (s : Selector H D) : Type ℓ where
  pub room : s.max_fd < length s.fds
  pub own : (i : ℕ) → IsOwn s.max_fd i (get_elem? s.fds i)
  pub attained : (s.max_fd ≡ 0) ⊎ (slot_used (get_elem? s.fds s.max_fd) ≡ true)
  pub readers : (i : ℕ) → s.master_r i ≡ wants reads (get_elem? s.fds i)
  pub writers : (i : ℕ) → s.master_w i ≡ wants writes (get_elem? s.fds i)

abbrev magnitude : ℤ → ℕ
magnitude (pos n) = n
magnitude (negsuc n) = n

pub larger_of :
    (a b : ℕ)
    → (a ≤ (if ltb a b then b else a))
      × (b ≤ (if ltb a b then b else a))
      × (((if ltb a b then b else a) ≡ a) ⊎ ((if ltb a b then b else a) ≡ b))
larger_of a b = ground arith

module _ {ℓ} {H D : Type ℓ} where
  abbrev IsLarger : Item H D → ℕ → ℕ → Type 0
  IsLarger it k max =
      (max ≤ larger it max)
      × (item_used it ≡ true → k ≤ larger it max)
      × ((larger it max ≡ max) ⊎ ((item_used it ≡ true) × (larger it max ≡ k)))

  IsLarger-at :
      (it : Item H D) (fd : ℤ) (k max : ℕ)
      → (item_used (record it { fd = fd }) ≡ true → fd ≡ pos k)
      → IsLarger (record it { fd = fd }) k max
  IsLarger-at it (pos n) k max h =
      let e : n ≡ k = ap magnitude (h refl) in
      let (more, mine, which) = larger_of max n in
      (more, λ u. omega arith, elim which [ inl x ↦ inl x | inr x ↦ inr (refl, x ∙ e) ])
  IsLarger-at it (negsuc zero) k max h = (omega arith, λ u. absurd cc, inl refl)
  IsLarger-at it (negsuc (suc n)) k max h = let e : negsuc (suc n) ≡ pos k = h refl in absurd cc

  larger_lem :
      (it : Item H D) (k max : ℕ) → (item_used it ≡ true → it.fd ≡ pos k) → IsLarger it k max
  larger_lem it k max h = IsLarger-at it it.fd k max h

  -- What the loop for the greatest descriptor finds in a part of the array that begins at index `k`.
  pub scan_max_lem :
      (count k : ℕ) (fds : List (Item H D)) (max top : ℕ)
      → count ≤ length fds
      → ((i : ℕ) → IsOwn top (i + k) (get_elem? fds i))
      → (r : ℕ) × (scan_max count fds max ≡ some r)
        × (max ≤ r)
        × ((i : ℕ) → i < count → slot_used (get_elem? fds i) ≡ true → i + k ≤ r)
        × ((r ≡ max) ⊎ ((i : ℕ) × (i < count) × (slot_used (get_elem? fds i) ≡ true) × (r ≡ i + k)))
  unfolding scan_max
  scan_max_lem zero k fds max top h own =
      (max, refl, omega arith, λ i b. absurd (omega arith), inl refl)
  scan_max_lem (suc count) k [] max top h own = absurd (omega arith)
  scan_max_lem (suc count) k (it ∷ fds) max top h own =
      let (more, mine, which) =
        larger_lem it k max (λ u. (own 0 it refl u).0 ∙ ap pos (omega arith)) in
      let (r, e, above, all, from) =
        scan_max_lem count (suc k) fds (larger it max) top (omega arith) (λ i o f u.
          let (a, b, c) = own (suc i) o f u in (a ∙ ap pos (omega arith), omega arith, c)) in
      let reached : (i : ℕ)
          → i < suc count
          → slot_used (get_elem? (it ∷ fds) i) ≡ true
          → i + k ≤ r =
        λ i b u.
          elim i as (λ i. i < suc count → slot_used (get_elem? (it ∷ fds) i) ≡ true → i + k ≤ r) [
            | zero ↦ λ b u. omega (arith, mine u)
            | suc j ↦ λ b u. omega (arith, all j (omega arith) u)
          ]
            b u in
      (
        r,
        e,
        omega arith,
        λ i b u. reached i b u,
        elim from [
          | inr (i, b, u, x) ↦ inr (suc i, omega arith, u, omega arith)
          | inl x ↦ elim which [
            | inl y ↦ inl (x ∙ y)
            | inr (u, y) ↦ inr (0, omega arith, u, x ∙ y ∙ omega arith)
          ]
        ],
      )

  -- The loop over the items up to an upper bound of the descriptors in use finds the greatest one.
  pub scan_max-greatest :
      (fds : List (Item H D)) (top : ℕ)
      → top < length fds
      → ((i : ℕ) → IsOwn top i (get_elem? fds i))
      → (r : ℕ) × (scan_max (suc top) fds 0 ≡ some r)
        × (r ≤ top)
        × ((i : ℕ) → IsOwn r i (get_elem? fds i))
        × ((r ≡ 0) ⊎ (slot_used (get_elem? fds r) ≡ true))
  scan_max-greatest fds top b own =
      let (r, e, above, all, from) =
        scan_max_lem (suc top) 0 fds 0 top b
          (λ i o f u. let (x, y, z) = own i o f u in (x ∙ ap pos (omega arith), omega arith, z)) in
      let under : (i : ℕ) → IsOwn r i (get_elem? fds i) = λ i o f u.
        let (x, y, z) = own i o f u in (x, omega (arith, all i (omega arith) (rw f u)), z) in
      elim from [
        | inl z ↦ (r, e, omega arith, under, inl z)
        | inr (i, c, u, x) ↦
            let same : r ≡ i = omega arith in (r, e, omega arith, under, inr (rw same u))
      ]

  -- The other fields do not matter.
  pub aside-IsValid :
      (s : Selector H D) (r t : FdSet) (js : List ℤ)
      → IsValid s
      → IsValid (record s { slave_r = r; slave_w = t; resolution_jobs = js })
  aside-IsValid s r t js v = record {
    room = v.room;
    own = v.own;
    attained = v.attained;
    readers = v.readers;
    writers = v.writers;
  }
