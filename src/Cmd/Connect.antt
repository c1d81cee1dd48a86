-- ===== src/Cmd/Connect.antt =====
-- src/client/connect.c: the connection of the client. What the system answers is an argument; `FdSet`
-- is the set of the descriptors that are open.
use pop.Common.{
  ℤ-cases, ℕ, ◌≡◌, inl, inr, refl, sym, ap, ◌∙◌, Bool, true, false, Bool-cases, Option, none, some,
  List, [], ◌∷◌, ℤ, pos, negsuc, eq-or-not, if◌then◌else◌,
}
use pop.Selector.{FdSet, fd_put}
use pop.ServerUtils.Listening.{opened}

-- What `socket` gives for an address, and whether `connect` succeeds on it.
pub record Peer : Type 0 where
  pub socket : ℤ
  pub connects : Bool

-- The loop over the addresses, while `fd` is below 0.
unfoldable pub connect_first : List Peer → ℤ → FdSet → ℤ × FdSet
connect_first [] fd o = (fd, o)
connect_first (a ∷ rest) (pos n) o = (pos n, o)
connect_first (a ∷ rest) (negsuc k) o = elim a.socket [
  | negsuc j ↦ connect_first rest (negsuc j) o
  | pos n ↦
      let refused = connect_first rest (negsuc 0) (fd_put false n (fd_put true n o)) in
      if a.connects then connect_first rest (pos n) (fd_put true n o) else refused
]

-- The addresses are those of `getaddrinfo`, `none` where it fails.
unfoldable pub connection_open : Option (List Peer) → FdSet → ℤ × FdSet
unfolding connect_first
connection_open none o = (negsuc 0, o)
connection_open (some peers) o = connect_first peers (negsuc 0) o

-- The first address that answers.
unfoldable pub reached : List Peer → Option ℕ
reached [] = none
reached (a ∷ rest) = elim a.socket [
  | negsuc j ↦ reached rest
  | pos n ↦ let others = reached rest in if a.connects then some n else others
]

-- `socket` gives descriptors that are not open.
abbrev pub AreFresh : List Peer → FdSet → Type 0
AreFresh [] o = Unit
AreFresh (a ∷ rest) o = ((n : ℕ) → a.socket ≡ pos n → o n ≡ false) × AreFresh rest o

-- The descriptor of this address, or a number below 0.
abbrev Gives : ℤ → Option ℕ → Type 0
Gives z none = (j : ℕ) × (z ≡ negsuc j)
Gives z (some n) = z ≡ pos n

closed_again : (n : ℕ) (o : FdSet) → o n ≡ false → fd_put false n (fd_put true n o) ≡ o
closed_again n o h = λ i j. same j i
  where
    same : (j : ℕ) → fd_put false n (fd_put true n o) j ≡ o j
    same j = elim (eq-or-not j n) [ inl (e, t) ↦ rw t (sym (ap o e ∙ h)) | inr (e, t) ↦ rw t refl ]

keeps : (rest : List Peer) (n : ℕ) (o : FdSet) → connect_first rest (pos n) o ≡ (pos n, o)
unfolding connect_first
keeps [] n o = refl
keeps (a ∷ rest) n o = refl

-- The client is connected to the first address that answers, and nothing else is left open; where none
-- answers the result is below 0, and nothing is open that was not before.
pub connect_first_lem :
    (peers : List Peer) (k : ℕ) (o : FdSet)
    → AreFresh peers o
    → Gives (connect_first peers (negsuc k) o).0 (reached peers)
      × ((connect_first peers (negsuc k) o).1 ≡ opened (reached peers) o)
unfolding connect_first reached
connect_first_lem [] k o f = ((k, refl), refl)
connect_first_lem (a ∷ rest) k o (h, f) = elim (ℤ-cases a.socket) [
  | inr (j, e) ↦ rw e (connect_first_lem rest j o f)
  | inl (n, e) ↦ elim (Bool-cases a.connects) [
    | inl c ↦ rw e (rw c (rw (keeps rest n (fd_put true n o)) (refl, refl)))
    | inr c ↦ rw e (rw c (rw (closed_again n o (h n e)) (connect_first_lem rest 0 o f)))
  ]
]

-- At the start of the client no descriptor is open.
abbrev pub none_open : FdSet
none_open j = false

starts-AreFresh : (peers : List Peer) → AreFresh peers none_open
starts-AreFresh [] = tt
starts-AreFresh (a ∷ rest) = (λ n e. refl, starts-AreFresh rest)

abbrev pub is_open : ℤ → Bool
is_open (pos n) = true
is_open (negsuc n) = false

Gives-is_open : (z : ℤ) (m : Option ℕ) (n : ℕ) → Gives z m → m ≡ some n → is_open z ≡ true
Gives-is_open z none n g e = cc
Gives-is_open z (some m) n g e = ap is_open g

-- The client is connected where one of the addresses answers.
pub connection_open-connected :
    (peers : List Peer) (n : ℕ)
    → reached peers ≡ some n
    → is_open (connection_open (some peers) none_open).0 ≡ true
unfolding connection_open
connection_open-connected peers n h =
    Gives-is_open (connect_first peers (negsuc 0) none_open).0 (reached peers) n
      (connect_first_lem peers 0 none_open (starts-AreFresh peers)).0 h
