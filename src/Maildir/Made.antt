-- ===== src/Maildir/Made.antt =====
-- That a maildir whose calls succeed has its directories.
use pop.Common.{
  ℕ, ◌≡◌, refl, sym, ◌∙◌, subst, true, Bool-cases, inl, inr, some, [], ◌∷◌, ◌++◌, append_assoc,
  append-nil, Str, ◌==◌,
}
use pop.Maildir.Making.{Outcome, FileSystem, IsLawful, then_on, ensure, create_parents, create_dir}

module _ {D : Type 0} (fs : FileSystem D) (law : IsLawful fs) where
  -- What a step that was carried out has left: the path, and all that was there.
  record Leaves (d : D) (path : Str) (r : Outcome D) : Type 0 where
    there : fs.is_there r.disk path ≡ true
    stays : (q : Str) → fs.is_there d q ≡ true → fs.is_there r.disk q ≡ true

  ensure_lem : (d : D) (p : Str) → (ensure fs d p).ok ≡ true → Leaves d p (ensure fs d p)
  unfolding ensure
  ensure_lem d p h = elim (Bool-cases (fs.is_there d p)) [
    | inl e ↦ rw e (record { there = e; stays = λ q i. i })
    | inr e ↦
        let o : ensure fs d p ≡ fs.mkdir d p = rw e refl in
        let ok : (fs.mkdir d p).ok ≡ true = subst (λ r. r.ok ≡ true) o h in
        rw e (record { there = law.made d p ok; stays = λ q. law.kept d p q })
  ]

  then_on_lem :
      (r : Outcome D) (next : D → Outcome D)
      → (then_on fs r next).ok ≡ true
      → (r.ok ≡ true) × (then_on fs r next ≡ next r.disk)
  then_on_lem r next h = elim (Bool-cases r.ok) [
    | inl e ↦ (e, rw e refl)
    | inr e ↦
        let o : then_on fs r next ≡ r = rw e refl in
        let ok : r.ok ≡ true = subst (λ x. x.ok ≡ true) o h in absurd cc
  ]

  -- One character further, where the whole succeeds.
  round :
      (d : D) (before : Str) (c : ℕ) (cs : Str)
      → (create_parents fs d before (c ∷ cs)).ok ≡ true
      → (d' : D) × (create_parents fs d before (c ∷ cs)
          ≡ create_parents fs d' (before ++ (c ∷ [])) cs)
        × ((q : Str) → fs.is_there d q ≡ true → fs.is_there d' q ≡ true)
        × ((c == b'/') ≡ true → fs.is_there d' before ≡ true)
  unfolding create_parents
  round d before c cs h =
      let later = λ (d' : D). create_parents fs d' (before ++ (c ∷ [])) cs in
      elim (Bool-cases (c == b'/')) [
        | inl e ↦
            let o : create_parents fs d before (c ∷ cs) ≡ then_on fs (ensure fs d before) later =
              rw e refl in
            let (ok, eq) = then_on_lem (ensure fs d before) later (subst (λ r. r.ok ≡ true) o h) in
            let a = ensure_lem d before ok in
            ((ensure fs d before).disk, o ∙ eq, a.stays, λ i. a.there)
        | inr e ↦ (d, rw e refl, λ q i. i, λ i. absurd cc)
      ]

  create_parents_lem :
      (d : D) (before rest : Str)
      → (create_parents fs d before rest).ok ≡ true
      → Leaves d (before ++ rest) (create_parents fs d before rest)
  unfolding create_parents
  create_parents_lem d before [] h = rw (append-nil before) (ensure_lem d before h)
  create_parents_lem d before (c ∷ cs) h =
      let (d', e, stays, there) = round d before c cs h in
      let ih = create_parents_lem d' (before ++ (c ∷ [])) cs (subst (λ r. r.ok ≡ true) e h) in
      let whole = append_assoc before (c ∷ []) cs in
      rw e (record {
        there =
            subst (λ q. fs.is_there (create_parents fs d' (before ++ (c ∷ [])) cs).disk q ≡ true)
              whole ih.there;
        stays = λ q i. ih.stays q (stays q i);
      })

  create_parents-parent :
      (d : D) (before x y : Str)
      → (create_parents fs d before (x ++ (b'/' ∷ y))).ok ≡ true
      → fs.is_there (create_parents fs d before (x ++ (b'/' ∷ y))).disk (before ++ x) ≡ true
  create_parents-parent d before [] y h =
      let (d', e, stays, there) = round d before b'/' y h in
      let ih = create_parents_lem d' (before ++ (b'/' ∷ [])) y (subst (λ r. r.ok ≡ true) e h) in
      rw (e, append-nil before) (ih.stays before (there refl))
  create_parents-parent d before (c ∷ x) y h =
      let (d', e, stays, there) = round d before c (x ++ (b'/' ∷ y)) h in
      let ih = create_parents-parent d' (before ++ (c ∷ [])) x y (subst (λ r. r.ok ≡ true) e h) in
      rw e (
        subst
          (λ q.
            fs.is_there (create_parents fs d' (before ++ (c ∷ [])) (x ++ (b'/' ∷ y))).disk q ≡ true)
          (append_assoc before (c ∷ []) x) ih)

  -- A path up to a `/`, and the whole path, are directories once `create_dir` has succeeded.
  pub create_dir-makes :
      (d : D) (c : ℕ) (x y : Str) (r : Outcome D)
      → create_dir fs d (c ∷ (x ++ (b'/' ∷ y))) ≡ some r
      → r.ok ≡ true
      → (fs.is_there r.disk (c ∷ x) ≡ true) × (fs.is_there r.disk (c ∷ (x ++ (b'/' ∷ y))) ≡ true)
  unfolding create_dir
  create_dir-makes d c x y r h ok =
      let e : create_parents fs d (c ∷ []) (x ++ (b'/' ∷ y)) ≡ r = cc in
      let ok' = subst (λ z. z.ok ≡ true) (sym e) ok in
      let l = create_parents_lem d (c ∷ []) (x ++ (b'/' ∷ y)) ok' in
      subst
        (λ z.
          (fs.is_there z.disk (c ∷ x) ≡ true) × (fs.is_there z.disk (c ∷ (x ++ (b'/' ∷ y))) ≡ true))
        e (create_parents-parent d (c ∷ []) x y ok', l.there)
