-- ===== src/Maildir/Paths.antt =====
-- Where the update state moves a mail to.
use pop.Common.{
  ℕ, zero, suc, ◌+◌, ◌-◌, ◌^◌, ◌%◌, ◌<◌, ◌≡◌, refl, ap, [], ◌∷◌, ◌++◌, append_assoc, Str, codes,
  length, length-append, poke, set, arith,
}
use pop.Maildir.{Dir, new_mail, flagged_path}

set_behind :
    (pre post : Str) (x c : ℕ) (i : ℕ)
    → i ≡ length pre
    → set (pre ++ x ∷ post) i c ≡ pre ++ c ∷ post
set_behind [] post x c i h = rw h
set_behind (y ∷ pre) post x c zero h = absurd (omega arith)
set_behind (y ∷ pre) post x c (suc i) h = ap (λ t. y ∷ t) (set_behind pre post x c i (omega arith))

poke_behind :
    (pre old new post : Str) (i : ℕ)
    → length old ≡ length new
    → i ≡ length pre
    → poke (pre ++ (old ++ post)) i new ≡ pre ++ (new ++ post)
unfolding poke
poke_behind pre [] [] post i e h = refl
poke_behind pre [] (c ∷ new) post i e h = absurd (omega arith)
poke_behind pre (x ∷ old) [] post i e h = absurd (omega arith)
poke_behind pre (x ∷ old) (c ∷ new) post i e h =
    let ih =
      poke_behind (pre ++ c ∷ []) old new post (suc i) (omega arith)
        (omega (arith, length-append pre (c ∷ []))) in
    rw (
      set_behind pre (old ++ post) x c i h,
      ← append_assoc pre (c ∷ []) (old ++ post),
      ih,
      append_assoc pre (c ∷ []) (new ++ post),
    )

-- A mail listed in the folder `new` of a maildir goes to the folder `cur` beside it, under its name
-- with ":2," and the flags behind.
pub flagged_path-new_mail :
    (d : Dir) (base fname flags : Str)
    → length base + length fname + 4 < 2 ^ 32
    → flagged_path (new_mail d fname (base ++ codes "new")) flags
      ≡ base ++ (codes "cur/" ++ (fname ++ (codes ":2," ++ flags)))
unfolding flagged_path new_mail
flagged_path-new_mail d base fname flags h =
    let folder = base ++ codes "new" in
    let e : (length folder + length fname + 1 + 2 ^ 33 - length fname - 4) % 2 ^ 32 ≡ length base =
      omega (arith, length-append base (codes "new")) in
    rw
      (
        e,
        append_assoc base (codes "new") (b'/' ∷ fname),
        poke_behind base (codes "new") (codes "cur") (b'/' ∷ fname) (length base) refl refl,
      )
      (append_assoc base (codes "cur/" ++ fname) (codes ":2," ++ flags))
