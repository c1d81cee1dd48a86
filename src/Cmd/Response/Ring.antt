-- ===== src/Cmd/Response/Ring.antt =====
-- The ring of the client: what it holds, and the last four bytes that went through it.
use pop.Common.{
  ℕ, zero, suc, ◌+◌, ◌-◌, ◌%◌, ◌<◌, ◌≤◌, ◌≡◌, refl, sym, ap, subst, ◌∙◌, true, false, some, List,
  [], ◌∷◌, ◌++◌, Str, get_elem?, get_elem?-set, set, length, length-set, length-replicate,
  length-append, append_assoc, append-nil, ◌==◌, lt→ltb, arith,
}
use pop.Cmd.Response.{
  buffer_size, BufferT, blank, shift, buffer_write, buffer_read, write_all, print_all,
}

-- From place `r` on the ring holds these bytes, up to place `w`.
abbrev pub Holds : List ℕ → ℕ → Str → ℕ → Type 0
Holds b r [] w = r ≡ w
Holds b r (c ∷ cs) w = (get_elem? b r ≡ some c) × Holds b ((r + 1) % buffer_size) cs w

-- The last four of these bytes, where `a` to `d` stood before them.
abbrev pub slide_all : ℕ → ℕ → ℕ → ℕ → Str → List ℕ
slide_all a b c d [] = a ∷ b ∷ c ∷ d ∷ []
slide_all a b c d (y ∷ ys) = slide_all b c d y ys

-- `text` has gone through the ring, and `held` is not yet printed.
pub record IsRing (s : BufferT) (text : Str) (held : Str) : Type 0 where
  pub full : length s.b ≡ buffer_size
  pub start : s.r < buffer_size
  pub holds : Holds s.b s.r held s.w
  pub last : s.last ≡ slide_all 0 0 0 0 text

pub Holds-end :
    (b : List ℕ) (r : ℕ) (cs : Str) (w : ℕ)
    → r < buffer_size
    → Holds b r cs w
    → w ≡ (r + length cs) % buffer_size
Holds-end b r [] w h e = omega arith
Holds-end b r (c ∷ cs) w h (x, hs) =
    omega (arith, Holds-end b ((r + 1) % buffer_size) cs w (omega arith) hs)

-- A write `d` places behind the start does not touch the first `d` bytes.
Holds-set :
    (b : List ℕ) (r : ℕ) (cs : Str) (w p d v : ℕ)
    → r < buffer_size
    → p ≡ (r + d) % buffer_size
    → length cs ≤ d
    → d < buffer_size
    → p < length b
    → Holds b r cs w
    → Holds (set b p v) r cs w
Holds-set b r [] w p d v hr e l k q h = h
Holds-set b r (c ∷ cs) w p d v hr e l k q (x, hs) =
    let other : (r == p) ≡ false = ground arith in
    (
      get_elem?-set b p r v q ∙ rw other x,
      Holds-set b ((r + 1) % buffer_size) cs w p (d - 1) v (omega arith) (omega arith) (omega arith)
          (omega arith) q hs,
    )

Holds-snoc :
    (b : List ℕ) (r : ℕ) (cs : Str) (w c : ℕ)
    → Holds b r cs w
    → get_elem? b w ≡ some c
    → Holds b r (cs ++ c ∷ []) ((w + 1) % buffer_size)
Holds-snoc b r [] w c h e = (ap (get_elem? b) h ∙ e, ap (λ n. (n + 1) % buffer_size) h)
Holds-snoc b r (x ∷ xs) w c (h, hs) e = (h, Holds-snoc b ((r + 1) % buffer_size) xs w c hs e)

slide_all-snoc :
    (a b c d : ℕ) (text : Str) (y : ℕ)
    → (p : ℕ) × (q : ℕ) × (r : ℕ) × (s : ℕ) × (slide_all a b c d text ≡ p ∷ q ∷ r ∷ s ∷ [])
      × (slide_all a b c d (text ++ y ∷ []) ≡ q ∷ r ∷ s ∷ y ∷ [])
slide_all-snoc a b c d [] y = (a, b, c, d, refl, refl)
slide_all-snoc a b c d (x ∷ xs) y = slide_all-snoc b c d x xs y

buffer_write_lem :
    (s : BufferT) (text held : Str) (c : ℕ)
    → IsRing s text held
    → length held + 1 < buffer_size
    → (s' : BufferT) × (buffer_write s c ≡ some s') × IsRing s' (text ++ c ∷ []) (held ++ c ∷ [])
unfolding buffer_write shift
buffer_write_lem s text held c v h =
    let (p, q, r, t, e, e') = slide_all-snoc 0 0 0 0 text c in
    let end = Holds-end s.b s.r held s.w v.start v.holds in
    let room : s.w < length s.b = omega (arith, v.full) in
    let same : (s.w == s.w) ≡ true = ground arith in
    (
      record { b = set s.b s.w c; r = s.r; w = (s.w + 1) % buffer_size; last = q ∷ r ∷ t ∷ c ∷ [] },
      rw (v.last ∙ e, lt→ltb s.w (length s.b) room) refl,
      record {
        full = length-set s.b s.w c ∙ v.full;
        start = v.start;
        holds =
            Holds-snoc (set s.b s.w c) s.r held s.w c
              (Holds-set s.b s.r held s.w s.w (length held) c v.start end (omega arith)
                (omega arith) room v.holds)
              (get_elem?-set s.b s.w s.w c room ∙ rw same refl);
        last = sym e';
      },
    )

pub write_all_lem :
    (cs : Str) (s : BufferT) (text held : Str)
    → IsRing s text held
    → length held + length cs < buffer_size
    → (s' : BufferT) × (write_all cs s ≡ some s') × IsRing s' (text ++ cs) (held ++ cs)
unfolding write_all
write_all_lem [] s text held v h = (s, refl, rw (append-nil text, append-nil held) v)
write_all_lem (c ∷ cs) s text held v h =
    let (s1, e, v1) = buffer_write_lem s text held c v (omega arith) in
    let (s2, e2, v2) =
      write_all_lem cs s1 (text ++ c ∷ []) (held ++ c ∷ []) v1
        (omega (arith, length-append held (c ∷ []))) in
    (
      s2,
      rw e e2,
      subst (λ t. IsRing s2 t (held ++ c ∷ cs)) (append_assoc text (c ∷ []) cs)
          (subst (λ t. IsRing s2 ((text ++ c ∷ []) ++ cs) t) (append_assoc held (c ∷ []) cs) v2),
    )

pub print_all_lem :
    (held : Str) (k : ℕ) (s : BufferT) (text : Str)
    → IsRing s text held
    → length held < buffer_size
    → length held < k
    → (s' : BufferT) × (print_all k s ≡ some (held, s')) × IsRing s' text []
unfolding print_all buffer_read
print_all_lem held zero s text v h f = absurd (omega arith)
print_all_lem [] (suc k) s text v h f =
    let over : (s.w == s.r) ≡ true = ground (arith, v.holds) in (s, rw over refl, v)
print_all_lem (c ∷ cs) (suc k) s text v h f =
    let end = Holds-end s.b s.r (c ∷ cs) s.w v.start v.holds in
    let st = v.start in
    let more : (s.w == s.r) ≡ false = ground arith in
    let s1 = record s { r = (s.r + 1) % buffer_size } in
    let v1 : IsRing s1 text cs = record {
      full = v.full;
      start = omega arith;
      holds = v.holds.1;
      last = v.last;
    } in
    let (s2, e, v2) = print_all_lem cs k s1 text v1 (omega arith) (omega arith) in
    (s2, rw more (rw v.holds.0 (rw e refl)), v2)

pub blank-IsRing : IsRing blank [] []
unfolding blank
blank-IsRing = record {
  full = length-replicate {A = ℕ} buffer_size 0;
  start = omega arith;
  holds = refl;
  last = refl;
}
