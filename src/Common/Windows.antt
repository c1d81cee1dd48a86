-- ===== src/Common/Windows.antt =====
-- The part of an array between two indices, and consecutive writes into it.
use Prim.Native.Nat.{ℕ, zero, suc, ◌+◌, ◌-◌, ◌≤◌, ◌<◌}
use mathlib.Core.Path.{◌≡◌, refl, ◌∙◌, ap}
use mathlib.Core.List.{List, [], ◌∷◌, ◌++◌, append_assoc, append-nil}
use mathlib.Core.Option.{some}
use native.Mathlib.Nat.{add-zero}
use native.Mathlib.Omega.{arith}
use pop.Common.Lists.{drop, get_elem?, length, length-set, set, take}

module _ {ℓ} {A : Type ℓ} where
  -- The entries from index `r` up to index `w`.
  unfoldable pub window : List A → ℕ → ℕ → List A
  window [] r w = []
  window (x ∷ xs) zero zero = []
  window (x ∷ xs) zero (suc w) = x ∷ window xs zero w
  window (x ∷ xs) (suc r) zero = []
  window (x ∷ xs) (suc r) (suc w) = window xs r w

  -- Consecutive writes from index `i` on.
  unfoldable pub poke : List A → ℕ → List A → List A
  poke xs i [] = xs
  poke xs i (v ∷ vs) = poke (set xs i v) (suc i) vs

module _ {ℓ} {A : Type ℓ} where
  pub window_empty : (xs : List A) (r : ℕ) → window xs r r ≡ []
  unfolding window
  window_empty [] r = refl
  window_empty (x ∷ xs) zero = refl
  window_empty (x ∷ xs) (suc r) = window_empty xs r

  pub length-window :
      (xs : List A) (r w : ℕ) → r ≤ w → w ≤ length xs → length (window xs r w) ≡ w - r
  unfolding window
  length-window [] r w h k = omega arith
  length-window (x ∷ xs) zero zero h k = refl
  length-window (x ∷ xs) zero (suc w) h k =
      omega (arith, length-window xs zero w (omega arith) (omega arith))
  length-window (x ∷ xs) (suc r) zero h k = absurd (omega arith)
  length-window (x ∷ xs) (suc r) (suc w) h k =
      omega (arith, length-window xs r w (omega arith) (omega arith))

  pub window-set :
      (xs : List A) (r w : ℕ) (v : A)
      → r ≤ w
      → w < length xs
      → window (set xs w v) r (suc w) ≡ window xs r w ++ (v ∷ [])
  unfolding window
  window-set [] r w v h k = elim k [ ]
  window-set (x ∷ []) zero zero v h k = refl
  window-set (x ∷ y ∷ xs) zero zero v h k = refl
  window-set (x ∷ xs) zero (suc w) v h k =
      ap (λ t. x ∷ t) (window-set xs zero w v (omega arith) (omega arith))
  window-set (x ∷ xs) (suc r) zero v h k = absurd (omega arith)
  window-set (x ∷ xs) (suc r) (suc w) v h k = window-set xs r w v (omega arith) (omega arith)

  pub window-poke :
      (vs xs : List A) (r w : ℕ)
      → r ≤ w
      → w + length vs ≤ length xs
      → window (poke xs w vs) r (w + length vs) ≡ window xs r w ++ vs
  unfolding poke
  window-poke [] xs r w h k = rw (add-zero w, append-nil (window xs r w))
  window-poke (v ∷ vs) xs r w h k =
      let e : w + suc (length vs) ≡ suc w + length vs = omega arith in
      let ih =
        window-poke vs (set xs w v) r (suc w) (omega arith) (omega (arith, length-set xs w v)) in
      rw (e, ih, window-set xs r w v h (omega arith), append_assoc)

  pub length-poke : (vs xs : List A) (i : ℕ) → length (poke xs i vs) ≡ length xs
  unfolding poke
  length-poke [] xs i = refl
  length-poke (v ∷ vs) xs i = length-poke vs (set xs i v) (suc i) ∙ length-set xs i v

  -- The first entry of a window, and the rest.
  pub window-cons :
      (xs : List A) (r w : ℕ)
      → r < w
      → w ≤ length xs
      → (x : A) × (get_elem? xs r ≡ some x) × (window xs r w ≡ x ∷ window xs (suc r) w)
  unfolding window
  window-cons [] r w h k = absurd (omega arith)
  window-cons (x ∷ []) zero zero h k = elim h [ ]
  window-cons (x ∷ []) zero (suc w) h k = (x, refl, refl)
  window-cons (x ∷ y ∷ xs) zero zero h k = elim h [ ]
  window-cons (x ∷ y ∷ xs) zero (suc w) h k = (x, refl, refl)
  window-cons (x ∷ xs) (suc r) zero h k = elim h [ ]
  window-cons (x ∷ xs) (suc r) (suc w) h k = window-cons xs r w (omega arith) (omega arith)

  pub window-drop :
      (n : ℕ) (xs : List A) (r w : ℕ)
      → r + n ≤ w
      → w ≤ length xs
      → window xs (r + n) w ≡ drop n (window xs r w)
  window-drop zero xs r w h k = ap (λ t. window xs t w) (omega arith)
  window-drop (suc n) xs r w h k =
      let (x, at, e) = window-cons xs r w (omega arith) k in
      let e' : r + suc n ≡ suc r + n = omega arith in
      rw (e, e') (window-drop n xs (suc r) w (omega arith) k)

  pub window-take :
      (n : ℕ) (xs : List A) (r w : ℕ)
      → r + n ≤ w
      → w ≤ length xs
      → window xs r (r + n) ≡ take n (window xs r w)
  window-take zero xs r w h k = rw (add-zero r) (window_empty xs r)
  window-take (suc n) xs r w h k =
      let (x, at, e) = window-cons xs r w (omega arith) k in
      let (x', at', e2) = window-cons xs r (r + suc n) (omega arith) (omega arith) in
      let e' : r + suc n ≡ suc r + n = omega arith in
      let same : x' ≡ x = cc in
      rw (e, e2, same)
        (ap (λ t. x ∷ t)
          (ap (λ t. window xs (suc r) t) e' ∙ window-take n xs (suc r) w (omega arith) k))

  -- A write at or behind the end of a window does not show in it.
  pub window-set_beyond :
      (xs : List A) (r w k : ℕ) (v : A) → w ≤ k → window (set xs k v) r w ≡ window xs r w
  unfolding window
  window-set_beyond [] r w k v h = refl
  window-set_beyond (x ∷ xs) zero zero zero v h = refl
  window-set_beyond (x ∷ xs) zero zero (suc k) v h = refl
  window-set_beyond (x ∷ xs) zero (suc w) zero v h = elim h [ ]
  window-set_beyond (x ∷ xs) zero (suc w) (suc k) v h =
      ap (λ t. x ∷ t) (window-set_beyond xs zero w k v (omega arith))
  window-set_beyond (x ∷ xs) (suc r) zero zero v h = refl
  window-set_beyond (x ∷ xs) (suc r) zero (suc k) v h = refl
  window-set_beyond (x ∷ xs) (suc r) (suc w) zero v h = elim h [ ]
  window-set_beyond (x ∷ xs) (suc r) (suc w) (suc k) v h =
      window-set_beyond xs r w k v (omega arith)

  -- A write of one value more than a window takes in.
  pub window-poke_one_more :
      (vs xs : List A) (r w : ℕ) (z : A)
      → r ≤ w
      → w + length vs < length xs
      → window (poke xs w (vs ++ z ∷ [])) r (w + length vs) ≡ window xs r w ++ vs
  unfolding poke
  window-poke_one_more [] xs r w z h k =
      rw (add-zero w, append-nil (window xs r w)) (window-set_beyond xs r w w z (omega arith))
  window-poke_one_more (v ∷ vs) xs r w z h k =
      let e : w + suc (length vs) ≡ suc w + length vs = omega arith in
      let ih =
        window-poke_one_more vs (set xs w v) r (suc w) z (omega arith)
          (omega (arith, length-set xs w v)) in
      rw (e, ih, window-set xs r w v h (omega arith), append_assoc)
