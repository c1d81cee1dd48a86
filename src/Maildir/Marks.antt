-- ===== src/Maildir/Marks.antt =====
-- The listing of a maildir, and the marks of its mails.
use pop.Common.{
  ℕ, zero, suc, ◌+◌, ◌^◌, ◌≤◌, ◌<◌, ◌≡◌, ◌∙◌, refl, ap, Bool, true, none, some, List, [], ◌∷◌, ◌++◌,
  append_assoc, Str, codes, ◌==◌, if◌then◌else◌, length, length-set, length-append, get_elem?, set,
  store, replicate, arith, Bool-cases, inl, inr,
}
use pop.Maildir.{
  Mail, Mails, UserMaildir, Dir, maildir_set_del, count_mark, is_skipped, count_files, new_mail,
  fill_mails, maildir_list_new, blank_mail,
}

abbrev pub count_del : List Mail → ℕ
count_del [] = 0
count_del (m ∷ ms) = if m.del then suc (count_del ms) else count_del ms

-- The fields agree with the array.
pub record IsValid (ms : Mails) : Type 0 where
  pub len_exact : ms.len ≡ length ms.mails
  pub ndel_exact : ms.ndel ≡ count_del ms.mails
  pub fits : ms.len < 2 ^ 32

pub count_del-le-length : (ms : List Mail) → count_del ms ≤ length ms
count_del-le-length [] = omega arith
count_del-le-length (m ∷ ms) = ground (arith, count_del-le-length ms)

abbrev pub marked : Mail → Bool → Mail
marked m d = record m { del = d }

-- Marking one mail of the list moves the count by one, or not at all.
count_del-set :
    (ms : List Mail) (n : ℕ) (m : Mail) (d : Bool)
    → get_elem? ms n ≡ some m
    → (if m.del then 1 else 0) + count_del (set ms n (marked m d))
      ≡ (if d then 1 else 0) + count_del ms
count_del-set [] n m d e = cc
count_del-set (x ∷ ms) zero m d e = ground arith
count_del-set (x ∷ ms) (suc n) m d e = ground (arith, count_del-set ms n m d e)

pub get_elem?-lt : (ms : List Mail) (n : ℕ) {m : Mail} → get_elem? ms n ≡ some m → n < length ms
get_elem?-lt [] n e = cc
get_elem?-lt (x ∷ ms) zero e = omega arith
get_elem?-lt (x ∷ ms) (suc n) e = omega (arith, get_elem?-lt ms n e)

get_elem?-ge : (ms : List Mail) (n : ℕ) → length ms ≤ n → get_elem? ms n ≡ none
get_elem?-ge [] n h = refl
get_elem?-ge (x ∷ ms) zero h = elim h [ ]
get_elem?-ge (x ∷ ms) (suc n) h = get_elem?-ge ms n (omega arith)

pub get_elem?-some :
    (ms : List Mail) (n : ℕ) → n < length ms → (m : Mail) × (get_elem? ms n ≡ some m)
get_elem?-some [] n h = elim h [ ]
get_elem?-some (x ∷ ms) zero h = (x, refl)
get_elem?-some (x ∷ ms) (suc n) h = get_elem?-some ms n (omega arith)

pub get_elem?-set :
    (ms : List Mail) (n k : ℕ) (m : Mail)
    → n < length ms
    → get_elem? (set ms n m) k ≡ (if n == k then some m else get_elem? ms k)
get_elem?-set [] n k m h = elim h [ ]
get_elem?-set (x ∷ ms) zero zero m h = refl
get_elem?-set (x ∷ ms) zero (suc k) m h = ground arith
get_elem?-set (x ∷ ms) (suc n) zero m h = ground arith
get_elem?-set (x ∷ ms) (suc n) (suc k) m h = ground (arith, get_elem?-set ms n k m)

-- For the index of a mail, `maildir_set_del` stays in bounds, keeps the list valid with the same
-- length, and changes the mark of that mail alone.
pub maildir_set_del_lem :
    (ms : Mails) (n k : ℕ) (d : Bool) (m : Mail)
    → IsValid ms
    → get_elem? ms.mails n ≡ some m
    → (r : Mails) × (maildir_set_del ms n d ≡ some r)
      × IsValid r
      × (r.len ≡ ms.len)
      × (get_elem? r.mails k ≡ (if n == k then some (marked m d) else get_elem? ms.mails k))
unfolding maildir_set_del
maildir_set_del_lem ms n k d m v e =
    let inside = get_elem?-lt ms.mails n e in
    let r : Mails = record ms {
      mails = set ms.mails n (marked m d);
      ndel = count_mark m.del d ms.ndel;
    } in
    (
      r,
      ground (arith, e),
      ground (
        arith,
        length-set ms.mails n (marked m d),
        count_del-set ms.mails n m d e,
        count_del-le-length (set ms.mails n (marked m d)),
        count_del-le-length ms.mails,
      ),
      refl,
      get_elem?-set ms.mails n k (marked m d) inside,
    )

-- The guard lets the index one past the last mail through, and the array is read out of bounds.
pub maildir_set_del_past_end :
    (ms : Mails) (d : Bool) → IsValid ms → maildir_set_del ms ms.len d ≡ none
unfolding maildir_set_del
maildir_set_del_past_end ms d v = ground (arith, get_elem?-ge ms.mails ms.len)

-- The names that a pass of `readdir` keeps.
abbrev pub listed : List Str → List Str
listed [] = []
listed (name ∷ names) = let rest = listed names in if is_skipped name then rest else name ∷ rest

count_files-listed :
    (names : List Str) → length (listed names) < 2 ^ 32 → count_files names ≡ length (listed names)
unfolding count_files
count_files-listed [] h = refl
count_files-listed (name ∷ names) h = ground (arith, count_files-listed names)

store_next :
    (pre : List Mail) (z m : Mail) (zs : List Mail) (i : ℕ)
    → length pre ≡ i
    → store (pre ++ z ∷ zs) i m ≡ some ((pre ++ m ∷ []) ++ zs)
store_next [] z m zs zero h = ground arith
store_next [] z m zs (suc i) h = absurd (omega arith)
store_next (x ∷ pre) z m zs zero h = absurd (omega arith)
store_next (x ∷ pre) z m zs (suc i) h = ground (arith, store_next pre z m zs i)

module _ (d : Dir) (folder : Str) where
  abbrev pub mails_of : List Str → List Mail
  mails_of [] = []
  mails_of (name ∷ names) = new_mail d name folder ∷ mails_of names

  fill_mails_lem :
      (names : List Str) (pre : List Mail) (i : ℕ)
      → length pre ≡ i
      → fill_mails d folder names i (pre ++ replicate (length (listed names)) blank_mail)
        ≡ some (pre ++ mails_of (listed names))
  unfolding fill_mails
  fill_mails_lem [] pre i h = refl
  fill_mails_lem (name ∷ names) pre i h = elim (Bool-cases (is_skipped name)) [
    | inl skip ↦ rw skip (fill_mails_lem names pre i h)
    | inr keep ↦
        let m = new_mail d name folder in
        rw (keep, store_next pre blank_mail m (replicate (length (listed names)) blank_mail) i h)
          (fill_mails_lem names (pre ++ m ∷ []) (i + 1) (omega (arith, length-append pre (m ∷ [])))
            ∙ ap (λ (x : List Mail). some x) (append_assoc pre (m ∷ []) (mails_of (listed names))))
  ]

  length-mails_of : (names : List Str) → length (mails_of names) ≡ length names
  length-mails_of [] = refl
  length-mails_of (name ∷ names) = ap suc (length-mails_of names)

  count_del-mails_of : (names : List Str) → count_del (mails_of names) ≡ 0
  unfolding new_mail
  count_del-mails_of [] = refl
  count_del-mails_of (name ∷ names) = count_del-mails_of names

-- The first listing of a maildir whose directory opens and does not change between the two passes
-- has one mail for each file that is neither `.` nor `..`, in the order of `readdir`, with no mark
-- set, and it is valid; every later listing gives the mails as they stand.
pub maildir_list_new_lem :
    (d : Dir) (md : UserMaildir) (ms : Mails)
    → d.opened ≡ true
    → d.allocated ≡ true
    → d.second_pass ≡ d.first_pass
    → length (listed d.first_pass) < 2 ^ 32
    → (r : Mails) × (maildir_list_new d (record md { new = none })
        ≡ some (some r, record md { new = some r; folder = codes "new" }))
      × IsValid r
      × (r.mails ≡ mails_of d (md.dir ++ codes "new") (listed d.first_pass))
      × (maildir_list_new d (record md { new = some ms })
          ≡ some (some ms, record md { new = some ms }))
unfolding maildir_list_new fill_mails
maildir_list_new_lem d md ms o a s h =
    let folder = md.dir ++ codes "new" in
    let ms' = mails_of d folder (listed d.first_pass) in
    let r : Mails = record { mails = ms'; len = length (listed d.first_pass); ndel = 0 } in
    (
      r,
      rw
          (
            o,
            a,
            s,
            count_files-listed d.first_pass h,
            fill_mails_lem d folder d.first_pass [] 0 refl,
          )
          refl,
      omega (
        arith,
        length-mails_of d folder (listed d.first_pass),
        count_del-mails_of d folder (listed d.first_pass),
      ),
      refl,
      refl,
    )
