-- ===== src/Selector/Unregister.antt =====
-- `selector_unregister_fd`: the slot is freed, and the greatest descriptor is found again.
use pop.Common.{
  ℕ, suc, ◌<◌, ◌≡◌, refl, sym, ◌∙◌, ap, inl, inr, Bool, true, false, some, List, pos, arith, length,
  length-set, get_elem?, get_elem?-set, get_elem?-set_cases, set-set, set, length-get_elem?, lt→ltb,
  ◌==◌, if◌then◌else◌, Bool-cases,
}
use pop.Selector.{
  success, Item, Selector, FdSet, FdHandler, fd_put, reads, writes, item_used, item_init, blank,
  put_item, put_interest, items_max_fd, items_max_size, scan_max, op_noop,
}
use pop.Selector.Valid.{IsValid, IsOwn, wants, scan_max-greatest}
use pop.Selector.Register.{update_lem}
use pop.Selector.Events.{release, call_if_any, selector_unregister_fd}

module _ {ℓ} {H D : Type ℓ} where
  abbrev pub free_item : Item H D
  free_item = item_init blank

  wants-freed :
      (bit : ℕ → Bool) (m : FdSet) (fds : List (Item H D)) (n : ℕ)
      → n < length fds
      → bit op_noop ≡ false
      → ((i : ℕ) → m i ≡ wants bit (get_elem? fds i))
      → (i : ℕ) → fd_put (bit op_noop) n m i ≡ wants bit (get_elem? (set fds n free_item) i)
  wants-freed bit m fds n b z h i = elim (Bool-cases (i == n)) [
    | inl e ↦ rw (get_elem?-set fds n i free_item b) (rw e z)
    | inr e ↦ rw (get_elem?-set fds n i free_item b) (rw e (h i))
  ]

  IsOwn-freed :
      (fds : List (Item H D)) (n top : ℕ)
      → n < length fds
      → ((i : ℕ) → IsOwn top i (get_elem? fds i))
      → (i : ℕ) → IsOwn top i (get_elem? (set fds n free_item) i)
  IsOwn-freed fds n top b own i o e u = elim (get_elem?-set_cases fds n i free_item b) [
    | inl (x, a) ↦
        let same : free_item ≡ o = cc in
        let none_used : false ≡ true = ap item_used same ∙ u in absurd cc
    | inr (x, a) ↦ own i o (sym a ∙ e) u
  ]

  -- The state after the slot `n` is freed.
  abbrev freed : Selector H D → ℕ → ℕ → Selector H D
  freed s n max = record (put_interest n op_noop (put_item n free_item s)) { max_fd = max }

  freed-IsValid :
      (s : Selector H D) (n : ℕ)
      → IsValid s
      → n < length s.fds
      → (max : ℕ) × (scan_max (suc s.max_fd) (set s.fds n free_item) 0 ≡ some max)
        × IsValid (freed s n max)
  unfolding reads writes
  freed-IsValid s n v b =
      let fds = set s.fds n free_item in
      let own = IsOwn-freed s.fds n s.max_fd b v.own in
      let bound = length-set s.fds n free_item in
      let (r, e, under, mine, which) =
        scan_max-greatest fds s.max_fd (omega (arith, bound, v.room)) own in
      (
        r,
        e,
        record {
          room = omega (arith, bound, v.room);
          own = mine;
          attained = which;
          readers = wants-freed reads s.master_r s.fds n b refl v.readers;
          writers = wants-freed writes s.master_w s.fds n b refl v.writers;
        },
      )

  release_lem :
      {W : Type ℓ} (ops : FdHandler H D W) (s : Selector H D) (w : W) (n : ℕ) (it : Item H D)
      → IsValid s
      → get_elem? s.fds n ≡ some it
      → it.fd ≡ pos n
      → (max : ℕ) × (release ops n (s, w) ≡ some (success, (freed s n max, w)))
        × IsValid (freed s n max)
  unfolding release items_max_fd
  release_lem ops s w n it v e f =
      let b = length-get_elem? s.fds n it e in
      let (max, scan, valid) = freed-IsValid s n v b in
      let new = record it { interest = op_noop } in
      (
        max,
        rw e (
            rw (update_lem new n (put_item n new s) f)
              (rw (set-set s.fds n new free_item) (rw scan refl))),
        valid,
      )

  -- The call of the closing function of this item leaves the selector as it is, and does not fail.
  abbrev pub KeepsSelector : {W : Type ℓ} → FdHandler H D W → Item H D → Selector H D → W → Type ℓ
  KeepsSelector {W} ops it s w =
      (w' : W) × (call_if_any ops ops.handle_close it (s, w) ≡ some (s, w'))

  -- A descriptor in use is unregistered: its slot is free, every other slot is as it was, and the
  -- state is valid, with the greatest of the other descriptors found again.
  pub selector_unregister_fd_lem :
      {W : Type ℓ} (ops : FdHandler H D W) (s : Selector H D) (w : W) (n : ℕ) (it : Item H D)
      → KeepsSelector ops it s w
      → IsValid s
      → n < items_max_size
      → get_elem? s.fds n ≡ some it
      → item_used it ≡ true
      → (s' : Selector H D) × (w' : W) × (selector_unregister_fd ops (pos n) (s, w)
          ≡ some (success, (s', w')))
        × IsValid s'
        × ((i : ℕ) → get_elem? s'.fds i ≡ (if i == n then some free_item else get_elem? s.fds i))
        × (length s'.fds ≡ length s.fds)
  unfolding selector_unregister_fd
  selector_unregister_fd_lem ops s w n it (w', k) v c e u =
      let (f, under, g) = v.own n it e u in
      let (max, r, valid) = release_lem ops s w' n it v e f in
      let b = length-get_elem? s.fds n it e in
      (
        freed s n max,
        w',
        rw (lt→ltb n items_max_size c, selector_unregister_fd) (rw e (rw u (rw k r))),
        valid,
        λ i. get_elem?-set s.fds n i free_item b,
        length-set s.fds n free_item,
      )
