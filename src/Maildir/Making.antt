-- ===== src/Maildir/Making.antt =====
-- src/utils/maildir.c: the directories of a maildir. The file system is a parameter: `D` is what it
-- holds, and `IsLawful` what `stat` and `mkdir` are documented to do.
use pop.Common.{
  ltb, length, str_eq, ◌>>=◌, zero, suc, ◌≡◌, Bool, true, Option, none, some, [], ◌∷◌, ◌++◌, Str,
  codes, ◌==◌, if◌then◌else◌, ℤ, pos, negsuc,
}
use pop.Maildir.{UserMaildir}
use pop.Auth.{maildir_set_username}

-- What a call that may make directories gives: whether it succeeded, and the file system.
pub record Outcome (D : Type 0) : Type 0 where
  pub ok : Bool
  pub disk : D

-- `stat` succeeds, and `mkdir`.
pub record FileSystem (D : Type 0) : Type 0 where
  pub is_there : D → Str → Bool
  pub mkdir : D → Str → Outcome D

-- What `mkdir` has made is there, and what was there stays.
pub record IsLawful {D : Type 0} (fs : FileSystem D) : Type 0 where
  pub made : (d : D) (p : Str) → (fs.mkdir d p).ok ≡ true → fs.is_there (fs.mkdir d p).disk p ≡ true
  pub kept : (d : D) (p q : Str) → fs.is_there d q ≡ true → fs.is_there (fs.mkdir d p).disk q ≡ true

module _ {D : Type 0} (fs : FileSystem D) where
  abbrev pub done : D → Outcome D
  done d = record { ok = true; disk = d }

  -- The next step, unless the last one failed.
  abbrev pub then_on : Outcome D → (D → Outcome D) → Outcome D
  then_on r next = if r.ok then next r.disk else r

  -- What a round of the loop of `create_dir` does to the path up to `p`.
  unfoldable pub ensure : D → Str → Outcome D
  ensure d path = if fs.is_there d path then done d else fs.mkdir d path

  -- The rounds of the loop, where `strchr` has passed `before`.
  unfoldable pub create_parents : D → Str → Str → Outcome D
  unfolding ensure
  create_parents d before [] = ensure d before
  create_parents d before (c ∷ cs) =
      let later = λ (d' : D). create_parents d' (before ++ (c ∷ [])) cs in
      if c == b'/' then then_on (ensure d before) later else later d

  -- On an empty path the first `strchr` reads behind the string.
  unfoldable pub create_dir : D → Str → Option (Outcome D)
  unfolding create_parents
  create_dir d [] = none
  create_dir d (c ∷ cs) = some (create_parents d (c ∷ []) cs)

  -- The folder that `set_path_folder_md` names, and its `create_dir`. Where that fails the path is left
  -- cut at the directory that was not made: the maildir of the result is then `none`.
  unfoldable pub make_folder :
      D
      → UserMaildir
      → Str
      → (D → UserMaildir → Option (ℤ × D × Option UserMaildir))
      → Option (ℤ × D × Option UserMaildir)
  make_folder d md folder next =
      let md' = record md { folder = folder } in
      create_dir d (md.dir ++ folder) >>= λ r.
      if r.ok then next r.disk md' else some (negsuc 0, r.disk, none)

  unfoldable pub maildir_build : D → UserMaildir → Option (ℤ × D × Option UserMaildir)
  unfolding make_folder
  maildir_build d md =
      if str_eq md.user []
      then some (negsuc 1, d, some md)
      else make_folder d md (codes "cur") (λ d1 md1.
        make_folder d1 md1 (codes "new")
          (λ d2 md2. make_folder d2 md2 (codes "tmp") (λ d3 md3. some (pos 0, d3, some md3))))

  -- -1 alone is passed on by `maildir_set_username`.
  abbrev pub passed_on : ℤ → ℤ
  passed_on (pos n) = pos 0
  passed_on (negsuc zero) = negsuc 0
  passed_on (negsuc (suc n)) = pos 0

  -- All of `maildir_set_username`, whose first lines are those of `Auth`. A name of more than 40 bytes
  -- is written past the end of `user`; one of 40 leaves the path of the longest folder inside `path`.
  unfoldable pub make_maildir : D → UserMaildir → Str → Option (ℤ × D × Option UserMaildir)
  unfolding maildir_build maildir_set_username
  make_maildir d md name =
      let md' = record (maildir_set_username md name) { folder = [] } in
      let made =
        (create_dir d md'.dir >>= λ r.
        if r.ok
        then (maildir_build r.disk md' >>= λ (code, d', md''). some (passed_on code, d', md''))
        else some (negsuc 0, r.disk, none)) in
      if ltb 40 (length name) then none else made
