-- ===== src/ServerUtils/Listening.antt =====
-- Which socket the server listens on, and what is left open.
use pop.Common.{
  ℤ-cases, pos-injective, ℕ, ◌≡◌, ◌⊎◌, inl, inr, refl, sym, ap, subst, ◌∙◌, Bool, true, false, ◌&&◌,
  Bool-cases, Option, Option-cases, eq-or-not, none, some, List, [], ◌∷◌, ℤ, pos, negsuc, ◌==◌,
  if◌then◌else◌, arith,
}
use pop.Selector.{FdSet, fd_put}
use pop.ServerUtils.{Address, Answers, open_first, listen_on, create_from, create_tcp_socket_server}

-- The first address for which a socket is made.
unfoldable pub first_made : List Address → Option (ℕ × Bool)
first_made [] = none
first_made (a ∷ rest) = elim a.socket [ negsuc j ↦ first_made rest | pos n ↦ some (n, a.bound) ]

-- `socket` gives descriptors that are not open.
abbrev pub Fresh : List Address → FdSet → Type 0
Fresh [] o = Unit
Fresh (a ∷ rest) o = ((n : ℕ) → a.socket ≡ pos n → o n ≡ false) × Fresh rest o

abbrev pub AreFresh : Answers → FdSet → Type 0
AreFresh e o = (found : List Address) → e.addresses ≡ some found → Fresh found o

abbrev made : Option (ℕ × Bool) → Bool → Option ℕ
made none ok = none
made (some (n, b)) ok = if b && ok then some n else none

abbrev listening_from : Option (List Address) → Bool → Option ℕ
listening_from none ok = none
listening_from (some found) ok = made (first_made found) ok

-- The descriptor on which the server listens: that of the first socket that is made, if it can be
-- bound and listened on.
unfoldable pub listening : Answers → Option ℕ
unfolding first_made
listening e = listening_from e.addresses e.listens

abbrev pub result_of : Option ℕ → ℤ
result_of none = negsuc 0
result_of (some n) = pos n

abbrev pub opened : Option ℕ → FdSet → FdSet
opened none o = o
opened (some n) o = λ j. if j == n then true else o j

stays_open : (found : List Address) (n : ℕ) (o : FdSet) → open_first found (pos n) o ≡ (pos n, o)
unfolding open_first
stays_open [] n o = refl
stays_open (a ∷ rest) n o = refl

abbrev after : Bool → ℕ → FdSet → FdSet
after b n o = if b then fd_put true n o else fd_put false n (fd_put true n o)

open_first_lem :
    (found : List Address) (k : ℕ) (o : FdSet)
    → Fresh found o
    → ((j : ℕ) × (first_made found ≡ none) × (open_first found (negsuc k) o ≡ (negsuc j, o)))
      ⊎ ((n : ℕ) × (b : Bool) × (first_made found ≡ some (n, b))
          × (open_first found (negsuc k) o ≡ (pos n, after b n o))
          × (o n ≡ false))
unfolding open_first first_made
open_first_lem [] k o f = inl (k, refl, refl)
open_first_lem (a ∷ rest) k o (h, f) = elim (ℤ-cases a.socket) [
  | inl (n, e) ↦ inr (n, a.bound, rw e refl, rw e (stays_open rest n (after a.bound n o)), h n e)
  | inr (j, e) ↦ elim (open_first_lem rest j o f) [
    | inl (i, x, y) ↦ inl (i, rw e x, rw e y)
    | inr (n, b, x, y, z) ↦ inr (n, b, rw e x, rw e y, z)
  ]
]

-- The whole result, where the descriptor of the first socket is known.
abbrev Whole : ℤ × FdSet → Option ℕ → FdSet → Type 0
Whole r n o = (o' : FdSet) × (r ≡ (result_of n, o')) × ((j : ℕ) → o' j ≡ opened n o j)

self : (n : ℕ) → (n == n) ≡ true
self n = ground arith

closed_again :
    (n : ℕ) (o : FdSet) (b : Bool) (j : ℕ) → o n ≡ false → fd_put false n (after b n o) j ≡ o j
closed_again n o true j h = elim (eq-or-not j n) [
  | inl (e, t) ↦ rw t (sym (ap o e ∙ h))
  | inr (e, t) ↦ rw t refl
]
closed_again n o false j h = elim (eq-or-not j n) [
  | inl (e, t) ↦ rw t (sym (ap o e ∙ h))
  | inr (e, t) ↦ rw t refl
]

listen_on-Whole :
    (n : ℕ) (o : FdSet) (b ok : Bool)
    → o n ≡ false
    → Whole (listen_on ok (pos n, after b n o)) (if b && ok then some n else none) o
unfolding listen_on
listen_on-Whole n o true true h = (fd_put true n o, rw (self n) refl, λ j. refl)
listen_on-Whole n o true false h =
    (fd_put false n (fd_put true n o), rw (self n) refl, λ j. closed_again n o true j h)
listen_on-Whole n o false ok h =
    (fd_put false n (after false n o), rw (self n) refl, λ j. closed_again n o false j h)

-- The server listens on the first socket that is made, or on none: where that socket cannot be bound,
-- or not be listened on, the result is -1, whatever addresses are left. The descriptor of the result
-- is open, and every other descriptor is open or closed as before, so a failure leaves none open.
pub create_tcp_socket_server_lem :
    (e : Answers) (o : FdSet)
    → AreFresh e o
    → (o' : FdSet) × (create_tcp_socket_server e o ≡ (result_of (listening e), o'))
      × ((j : ℕ) → o' j ≡ opened (listening e) o j)
unfolding create_tcp_socket_server listening
create_tcp_socket_server_lem e o f = elim (Option-cases e.addresses) [
  | inl n ↦ (o, rw n refl, λ j. rw n refl)
  | inr (found, s) ↦
      let start : create_tcp_socket_server e o
          ≡ listen_on e.listens (open_first found (negsuc 0) o) =
        ap (λ x. create_from x e.listens o) s in
      let fd : listening e ≡ made (first_made found) e.listens =
        ap (λ x. listening_from x e.listens) s in
      let none_of = λ (x : first_made found ≡ none). ap (λ m. made m e.listens) x in
      elim (open_first_lem found 0 o (f found s)) [
        | inl (i, x, y) ↦ (
          o,
          start ∙ ap (listen_on e.listens) y ∙ ap (λ v. (result_of v, o)) (sym (fd ∙ none_of x)),
          λ j. ap (λ v. opened v o j) (sym (fd ∙ none_of x)),
        )
        | inr (n, b, x, y, z) ↦
            let (o', r, same) = listen_on-Whole n o b e.listens z in
            (
              o',
              start
                  ∙ ap (listen_on e.listens) y
                  ∙ r
                  ∙ ap (λ v. (result_of v, o')) (sym (fd ∙ ap (λ m. made m e.listens) x)),
              λ j. same j ∙ ap (λ v. opened v o j) (sym (fd ∙ ap (λ m. made m e.listens) x)),
            )
      ]
]

after-other : (b : Bool) (n : ℕ) (o : FdSet) (j : ℕ) → (j == n) ≡ false → after b n o j ≡ o j
after-other true n o j t = rw t refl
after-other false n o j t = rw t refl

open_first-opens :
    (found : List Address) (k : ℕ) (o : FdSet) (j : ℕ)
    → (open_first found (negsuc k) o).1 j ≡ true
    → (o j ≡ true) ⊎ ((open_first found (negsuc k) o).0 ≡ pos j)
unfolding open_first
open_first-opens [] k o j h = inl h
open_first-opens (a ∷ rest) k o j h = elim (ℤ-cases a.socket) [
  | inl (n, e) ↦
      let r : open_first (a ∷ rest) (negsuc k) o ≡ (pos n, after a.bound n o) =
        rw e (stays_open rest n (after a.bound n o)) in
      elim (eq-or-not j n) [
        | inl (same, t) ↦ inr (ap (λ v. v.0) r ∙ ap pos (sym same))
        | inr (other, t) ↦ inl (sym (after-other a.bound n o j t) ∙ subst (λ v. v.1 j ≡ true) r h)
      ]
  | inr (i, e) ↦
      let r : open_first (a ∷ rest) (negsuc k) o ≡ open_first rest (negsuc i) o = rw e refl in
      elim (open_first-opens rest i o j (subst (λ v. v.1 j ≡ true) r h)) [
        | inl x ↦ inl x
        | inr y ↦ inr (ap (λ v. v.0) r ∙ y)
      ]
]

listen_on-opens :
    (ok : Bool) (z : ℤ) (o1 o : FdSet) (j : ℕ)
    → (o1 j ≡ true → (o j ≡ true) ⊎ (z ≡ pos j))
    → (listen_on ok (z, o1)).1 j ≡ true
    → (o j ≡ true) ⊎ ((listen_on ok (z, o1)).0 ≡ pos j)
unfolding listen_on
listen_on-opens ok (negsuc k) o1 o j g h = elim (g h) [ inl x ↦ inl x | inr y ↦ absurd cc ]
listen_on-opens ok (pos n) o1 o j g h = elim (Bool-cases (o1 n && ok)) [
  | inl e ↦
      let r : listen_on ok (pos n, o1) ≡ (pos n, o1) = rw e refl in
      elim (g (subst (λ v. v.1 j ≡ true) r h)) [ inl x ↦ inl x | inr y ↦ inr (ap (λ v. v.0) r ∙ y) ]
  | inr e ↦
      let r : listen_on ok (pos n, o1) ≡ (negsuc 0, fd_put false n o1) = rw e refl in
      let h' : fd_put false n o1 j ≡ true = subst (λ v. v.1 j ≡ true) r h in
      elim (eq-or-not j n) [
        | inl (same, t) ↦ let no : fd_put false n o1 j ≡ false = rw t refl in absurd cc
        | inr (other, t) ↦
            let still : fd_put false n o1 j ≡ o1 j = rw t refl in
            elim (g (sym still ∙ h')) [
              | inl x ↦ inl x
              | inr y ↦ absurd (other (pos-injective n j y))
            ]
      ]
]

-- What is open behind the call was open before, or is its result.
pub create_tcp_socket_server-opens :
    (e : Answers) (o : FdSet) (j : ℕ)
    → (create_tcp_socket_server e o).1 j ≡ true
    → (o j ≡ true) ⊎ ((create_tcp_socket_server e o).0 ≡ pos j)
unfolding create_tcp_socket_server
create_tcp_socket_server-opens e o j h = from e.addresses h
  where
    from :
        (x : Option (List Address))
        → (create_from x e.listens o).1 j ≡ true
        → (o j ≡ true) ⊎ ((create_from x e.listens o).0 ≡ pos j)
    from none h' = inl h'
    from (some found) h' =
        listen_on-opens e.listens (open_first found (negsuc 0) o).0
          (open_first found (negsuc 0) o).1 o j (open_first-opens found 0 o j) h'
