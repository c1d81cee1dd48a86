-- ===== src/Cmd/Response/Answers.antt =====
-- What the client takes for one answer, and prints.
use pop.Common.{
  ℕ, zero, suc, ◌<◌, ◌≡◌, refl, sym, ap, ◌∙◌, Bool, true, false, Bool-cases, inl, inr, Option, none,
  some, List, [], ◌∷◌, ◌++◌, Str, str_eq, append-nil, append_assoc, ℤ, pos, negsuc, ◌==◌, ◌||◌,
  ◌&&◌, length, map, replicate, if◌then◌else◌, arith,
}
use pop.Cmd.Response.{
  buffer_size, monitor_terminator, BufferT, agrees, has_terminator, recv_loop, blank,
}
use pop.Cmd.Response.Ring.{slide_all, IsRing, write_all_lem, print_all_lem, blank-IsRing}

-- Whether a text ends in the terminator: some tail of it is the terminator.
unfoldable pub ends : Str → Bool
ends [] = false
ends (c ∷ cs) = str_eq (c ∷ cs) monitor_terminator || ends cs

-- What one answer is: the pieces that `recv` gives are joined, until the text ends in the terminator
-- or `recv` fails. `none` is a text that is not complete.
unfoldable pub until : List (Option Str) → Str → Option (ℤ × Str × List (Option Str))
until [] text = if ends text then some (pos 0, text, []) else none
until (none ∷ rs) text =
    if ends text then some (pos 0, text, none ∷ rs) else some (negsuc 0, text, rs)
until (some cs ∷ rs) text =
    let rest = until rs (text ++ cs) in if ends text then some (pos 0, text, some cs ∷ rs) else rest

-- `recv` is given room for this many bytes less one.
abbrev pub Fits : List (Option Str) → Type 0
Fits [] = Unit
Fits (none ∷ rs) = Fits rs
Fits (some cs ∷ rs) = (length cs < buffer_size) × Fits rs

agrees_four : (a b c d : ℕ) → agrees 4 0 (a ∷ b ∷ c ∷ d ∷ []) ≡ some (ends (a ∷ b ∷ c ∷ d ∷ []))
unfolding agrees ends str_eq
agrees_four a b c d = ground arith

vanish : (p q r s x : Bool) → (p && (q && (r && (s && false))) || x) ≡ x
vanish true true true true x = refl
vanish true true true false x = refl
vanish true true false s x = refl
vanish true false r s x = refl
vanish false q r s x = refl

longer : (a b c d y : ℕ) (ys : Str) → ends (a ∷ b ∷ c ∷ d ∷ y ∷ ys) ≡ ends (b ∷ c ∷ d ∷ y ∷ ys)
unfolding ends str_eq
longer a b c d y ys =
    vanish (a == b'\r') (b == b'\n') (c == b'\r') (d == b'\n') (ends (b ∷ c ∷ d ∷ y ∷ ys))

agrees-slide_all :
    (a b c d : ℕ) (text : Str)
    → agrees 4 0 (slide_all a b c d text) ≡ some (ends (a ∷ b ∷ c ∷ d ∷ text))
agrees-slide_all a b c d [] = agrees_four a b c d
agrees-slide_all a b c d (y ∷ ys) =
    agrees-slide_all b c d y ys ∙ ap some (sym (longer a b c d y ys))

has_terminator_lem :
    (s : BufferT) (text held : Str) → IsRing s text held → has_terminator s ≡ some (ends text)
unfolding has_terminator ends str_eq
has_terminator_lem s text held v = ap (agrees 4 0) v.last ∙ agrees-slide_all 0 0 0 0 text

recv_loop-until :
    (rs : List (Option Str)) (s : BufferT) (text : Str)
    → IsRing s text []
    → Fits rs
    → recv_loop rs text s ≡ some (until rs text)
unfolding recv_loop until
recv_loop-until [] s text v f =
    let e = has_terminator_lem s text [] v in
    elim (Bool-cases (ends text)) [ inl t ↦ rw e (rw t refl) | inr t ↦ rw e (rw t refl) ]
recv_loop-until (none ∷ rs) s text v f =
    let e = has_terminator_lem s text [] v in
    elim (Bool-cases (ends text)) [ inl t ↦ rw e (rw t refl) | inr t ↦ rw e (rw t refl) ]
recv_loop-until (some cs ∷ rs) s text v (fits, f) =
    let e = has_terminator_lem s text [] v in
    let (s1, w, v1) = write_all_lem cs s text [] v (omega arith) in
    let (s2, p, v2) = print_all_lem cs buffer_size s1 (text ++ cs) v1 fits fits in
    let ih = recv_loop-until rs s2 (text ++ cs) v2 f in
    elim (Bool-cases (ends text)) [
      | inl t ↦ rw e (rw t refl)
      | inr t ↦ rw e (rw t (rw w (rw p ih)))
    ]

-- The loop of `recv_cmd` stays inside its arrays, and joins the pieces that `recv` gives until they
-- end in the terminator or `recv` fails, printing all of them in order, whatever their lengths are,
-- where each has less bytes than the ring has places.
pub recv_loop_lem : (rs : List (Option Str)) → Fits rs → recv_loop rs [] blank ≡ some (until rs [])
recv_loop_lem rs f = recv_loop-until rs blank [] blank-IsRing f

-- The pieces joined.
abbrev pub join : List Str → Str
join [] = []
join (p ∷ ps) = p ++ join ps

until-over :
    (rs : List (Option Str)) (text : Str)
    → ends text ≡ true
    → until rs text ≡ some (pos 0, text, rs)
unfolding until
until-over [] text h = rw h refl
until-over (none ∷ rs) text h = rw h refl
until-over (some cs ∷ rs) text h = rw h refl

until-join :
    (ps : List Str) (rs : List (Option Str)) (text : Str)
    → ends (text ++ join ps) ≡ true
    → (early : List Str) × (late : List Str) × (ps ≡ early ++ late)
      × (until (map some ps ++ rs) text ≡ some (pos 0, text ++ join early, map some late ++ rs))
      × (ends (text ++ join early) ≡ true)
unfolding until
until-join [] rs text h =
    let over : ends text ≡ true = ap ends (sym (append-nil text)) ∙ h in
    ([], [], refl, rw (append-nil text) (until-over rs text over), h)
until-join (p ∷ ps) rs text h = elim (Bool-cases (ends text)) [
  | inl t ↦ ([], p ∷ ps, refl, rw (append-nil text) (rw t refl), rw (append-nil text) t)
  | inr t ↦
      let (early, late, e, u, over) =
        until-join ps rs (text ++ p) (ap ends (append_assoc text p (join ps)) ∙ h) in
      (
        p ∷ early,
        late,
        ap (λ l. p ∷ l) e,
        rw t (u ∙ rw (append_assoc text p (join early)) refl),
        ap ends (sym (append_assoc text p (join early))) ∙ over,
      )
]

Fits-early :
    (ps : List Str) (rs : List (Option Str))
    → Fits (map some ps)
    → Fits rs
    → Fits (map some ps ++ rs)
Fits-early [] rs f g = g
Fits-early (p ∷ ps) rs (h, f) g = (h, Fits-early ps rs f g)

-- Where the pieces that arrive end, joined, in the terminator, the client takes an initial part of
-- them that does, returns 0 and has printed that part; the other pieces are left for the next answer.
pub recv_loop-answered :
    (ps : List Str) (rs : List (Option Str))
    → Fits (map some ps)
    → Fits rs
    → ends (join ps) ≡ true
    → (early : List Str) × (late : List Str) × (ps ≡ early ++ late)
      × (recv_loop (map some ps ++ rs) [] blank
          ≡ some (some (pos 0, join early, map some late ++ rs)))
      × (ends (join early) ≡ true)
recv_loop-answered ps rs f g h =
    let (early, late, e, u, over) = until-join ps rs [] h in
    (early, late, e, recv_loop_lem (map some ps ++ rs) (Fits-early ps rs f g) ∙ ap some u, over)

-- What `recv` answers on a connection that is closed, again and again.
abbrev pub closed : ℕ → List (Option Str)
closed k = replicate k (some [])

Fits-closed : (k : ℕ) → Fits (closed k)
Fits-closed zero = tt
Fits-closed (suc k) = (omega arith, Fits-closed k)

not-ends : (rs : List (Option Str)) (text : Str) → until rs text ≡ none → ends text ≡ false
not-ends rs text h = elim (Bool-cases (ends text)) [
  | inl t ↦ let e = until-over rs text t in absurd cc
  | inr t ↦ t
]

until-closed :
    (ps : List Str) (k : ℕ) (text : Str)
    → until (map some ps) text ≡ none
    → until (map some ps ++ closed k) text ≡ none
unfolding until
until-closed [] zero text h = h
until-closed [] (suc k) text h =
    rw (not-ends [] text h) (rw (append-nil text) (until-closed [] k text h))
until-closed (p ∷ ps) k text h =
    let t = not-ends (map some (p ∷ ps)) text h in
    let next : until (map some (p ∷ ps)) text ≡ until (map some ps) (text ++ p) = rw t refl in
    rw t (until-closed ps k (text ++ p) (sym next ∙ h))

-- A client that still waits after these pieces waits for ever where the monitor then closes the
-- connection: `recv` answers 0 again and again, and no number of these ends the loop.
pub recv_loop-closed :
    (ps : List Str) (k : ℕ)
    → Fits (map some ps)
    → recv_loop (map some ps) [] blank ≡ some none
    → recv_loop (map some ps ++ closed k) [] blank ≡ some none
recv_loop-closed ps k f h =
    let e = recv_loop_lem (map some ps) f in
    let open_still : until (map some ps) [] ≡ none = cc in
    recv_loop_lem (map some ps ++ closed k) (Fits-early ps (closed k) f (Fits-closed k))
    ∙ ap some (until-closed ps k [] open_still)
