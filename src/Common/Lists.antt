-- ===== src/Common/Lists.antt =====
-- C arrays as lists measured and indexed by native numbers, under the library's names.
use Prim.Native.Nat.{ℕ, zero, suc, ◌+◌, ◌-◌, ◌≤◌, ◌<◌, min}
use mathlib.Core.Path.{◌≡◌, refl, sym, ◌∙◌, ap}
use mathlib.Core.Logic.{◌≢◌, ◌⊎◌, inl, inr}
use mathlib.Core.Bool.{true, false}
use mathlib.Core.List.{List, [], ◌∷◌, ◌++◌}
use mathlib.Core.Option.{Option, none, some}
use native.Mathlib.Omega.{arith}
use pop.Common.Tests.{ltb, ◌==◌, if◌then◌else◌}

module _ {ℓ} {A : Type ℓ} where
  abbrev pub length : List A → ℕ
  length [] = 0
  length (x ∷ xs) = suc (length xs)

  -- A read out of bounds is undefined.
  abbrev pub get_elem? : List A → ℕ → Option A
  get_elem? [] i = none
  get_elem? (x ∷ xs) zero = some x
  get_elem? (x ∷ xs) (suc i) = get_elem? xs i

  abbrev pub set : List A → ℕ → A → List A
  set [] i v = []
  set (x ∷ xs) zero v = v ∷ xs
  set (x ∷ xs) (suc i) v = x ∷ set xs i v

  -- A write out of bounds is undefined.
  abbrev pub store : List A → ℕ → A → Option (List A)
  store xs i v = if ltb i (length xs) then some (set xs i v) else none

  abbrev pub take : ℕ → List A → List A
  take zero xs = []
  take (suc n) [] = []
  take (suc n) (x ∷ xs) = x ∷ take n xs

  abbrev pub drop : ℕ → List A → List A
  drop zero xs = xs
  drop (suc n) [] = []
  drop (suc n) (x ∷ xs) = drop n xs

  abbrev pub replicate : ℕ → A → List A
  replicate zero a = []
  replicate (suc n) a = a ∷ replicate n a

pub eq-or-not : (i n : ℕ) → ((i ≡ n) × ((i == n) ≡ true)) ⊎ ((i ≢ n) × ((i == n) ≡ false))
eq-or-not i n = ground arith

module _ {ℓ} {A : Type ℓ} where
  pub length-append : (xs ys : List A) → length (xs ++ ys) ≡ length xs + length ys
  length-append [] ys = omega arith
  length-append (x ∷ xs) ys = omega (arith, length-append xs ys)

  pub length-set : (xs : List A) (i : ℕ) (v : A) → length (set xs i v) ≡ length xs
  length-set [] i v = refl
  length-set (x ∷ xs) zero v = refl
  length-set (x ∷ xs) (suc i) v = ap suc (length-set xs i v)

  pub get_elem?-set :
      (xs : List A) (n i : ℕ) (v : A)
      → n < length xs
      → get_elem? (set xs n v) i ≡ (if i == n then some v else get_elem? xs i)
  get_elem?-set [] n i v h = absurd (omega arith)
  get_elem?-set (x ∷ xs) zero zero v h = refl
  get_elem?-set (x ∷ xs) zero (suc i) v h = ground arith
  get_elem?-set (x ∷ xs) (suc n) zero v h = ground arith
  get_elem?-set (x ∷ xs) (suc n) (suc i) v h = ground (arith, get_elem?-set xs n i v (omega arith))

  -- What is read after a write: the value written, or what stood there.
  pub get_elem?-set_cases :
      (xs : List A) (n i : ℕ) (v : A)
      → n < length xs
      → ((i ≡ n) × (get_elem? (set xs n v) i ≡ some v))
        ⊎ ((i ≢ n) × (get_elem? (set xs n v) i ≡ get_elem? xs i))
  get_elem?-set_cases xs n i v h =
      let e = get_elem?-set xs n i v h in
      elim (eq-or-not i n) [
        | inl (x, t) ↦ inl (x, e ∙ ap (λ b. if b then some v else get_elem? xs i) t)
        | inr (x, t) ↦ inr (x, e ∙ ap (λ b. if b then some v else get_elem? xs i) t)
      ]

  pub length-get_elem? : (xs : List A) (i : ℕ) (x : A) → get_elem? xs i ≡ some x → i < length xs
  length-get_elem? [] i x h = absurd cc
  length-get_elem? (y ∷ xs) zero x h = omega arith
  length-get_elem? (y ∷ xs) (suc i) x h = omega (arith, length-get_elem? xs i x h)

  pub get_elem?-below : (xs : List A) (i : ℕ) → i < length xs → (x : A) × (get_elem? xs i ≡ some x)
  get_elem?-below [] i h = absurd (omega arith)
  get_elem?-below (y ∷ xs) zero h = (y, refl)
  get_elem?-below (y ∷ xs) (suc i) h = get_elem?-below xs i (omega arith)

  pub drop-get_elem? :
      (xs : List A) (i j : ℕ)
      → i < length xs
      → j ≡ suc i
      → (x : A) × (get_elem? xs i ≡ some x) × (drop i xs ≡ x ∷ drop j xs)
  drop-get_elem? [] i j h e = absurd (omega arith)
  drop-get_elem? (x ∷ xs) zero j h e = (x, refl, rw e refl)
  drop-get_elem? (x ∷ xs) (suc i) j h e =
      let (y, g, d) = drop-get_elem? xs i (suc i) (omega arith) refl in
      (y, g, d ∙ ap (λ k. y ∷ drop k (x ∷ xs)) (sym e))

  pub drop-nil : (n : ℕ) → drop {A = A} n [] ≡ []
  drop-nil zero = refl
  drop-nil (suc n) = refl

  pub drop-beyond : (xs : List A) (n : ℕ) → length xs ≤ n → drop n xs ≡ []
  drop-beyond [] n h = drop-nil n
  drop-beyond (x ∷ xs) zero h = absurd (omega arith)
  drop-beyond (x ∷ xs) (suc n) h = drop-beyond xs n (omega arith)

  pub drop-drop : (xs : List A) (m n k : ℕ) → k ≡ m + n → drop n (drop m xs) ≡ drop k xs
  drop-drop [] m n k e = rw (drop-nil m, drop-nil n, drop-nil k) refl
  drop-drop (x ∷ xs) zero n k e = ap (λ j. drop j (x ∷ xs)) (omega arith)
  drop-drop (x ∷ xs) (suc m) n k e =
      let e' : k ≡ suc (m + n) = omega arith in rw e' (drop-drop xs m n (m + n) refl)

  pub set-set : (xs : List A) (n : ℕ) (v u : A) → set (set xs n v) n u ≡ set xs n u
  set-set [] n v u = refl
  set-set (x ∷ xs) zero v u = refl
  set-set (x ∷ xs) (suc n) v u = ap (λ t. x ∷ t) (set-set xs n v u)

  pub length-take : (n : ℕ) (xs : List A) → length (take n xs) ≡ min n (length xs)
  length-take zero xs = omega arith
  length-take (suc n) [] = omega arith
  length-take (suc n) (x ∷ xs) = omega (arith, length-take n xs)

  pub length-drop : (n : ℕ) (xs : List A) → length (drop n xs) ≡ length xs - n
  length-drop zero xs = omega arith
  length-drop (suc n) [] = omega arith
  length-drop (suc n) (x ∷ xs) = omega (arith, length-drop n xs)

  pub take-append-drop : (n : ℕ) (xs : List A) → take n xs ++ drop n xs ≡ xs
  take-append-drop zero xs = refl
  take-append-drop (suc n) [] = refl
  take-append-drop (suc n) (x ∷ xs) = ap (λ t. x ∷ t) (take-append-drop n xs)

  pub take-length : (xs : List A) → take (length xs) xs ≡ xs
  take-length [] = refl
  take-length (x ∷ xs) = ap (λ t. x ∷ t) (take-length xs)

  pub length-replicate : (n : ℕ) (a : A) → length (replicate n a) ≡ n
  length-replicate zero a = refl
  length-replicate (suc n) a = ap suc (length-replicate n a)

  pub drop-append : (xs ys : List A) → drop (length xs) (xs ++ ys) ≡ ys
  drop-append [] ys = refl
  drop-append (x ∷ xs) ys = drop-append xs ys

  pub take-append : (xs ys : List A) → take (length xs) (xs ++ ys) ≡ xs
  take-append [] ys = refl
  take-append (x ∷ xs) ys = ap (λ t. x ∷ t) (take-append xs ys)

  -- Writing the entry behind a prefix extends the prefix.
  pub take-set_succ :
      (xs : List A) (i : ℕ) (v : A)
      → i < length xs
      → take (i + 1) (set xs i v) ≡ take i xs ++ (v ∷ [])
  take-set_succ [] i v h = elim h [ ]
  take-set_succ (x ∷ xs) zero v h = refl
  take-set_succ (x ∷ xs) (suc i) v h = ground (arith, take-set_succ xs i v)
