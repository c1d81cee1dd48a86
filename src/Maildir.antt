-- ===== src/Maildir.antt =====
-- src/utils/maildir.c, include/utils/maildir.h: the mails of a user and their marks. What the file
-- system answers is the argument `Dir`; `rename` and `remove`, whose results the code does not look
-- at, are recorded in order as `FsOp`. `strdup` and `malloc` are taken to succeed.
pub mod Made
pub mod Making
pub mod Marks
pub mod Paths
use pop.Common.{
  ℕ, zero, suc, ◌+◌, ◌-◌, ◌^◌, ◌%◌, Bool, true, false, not, ◌&&◌, ◌||◌, Option, none, some, List,
  [], ◌∷◌, ◌++◌, Str, codes, str_eq, ltb, leb, ◌==◌, if◌then◌else◌, ◌>>=◌, get_elem?, set, store,
  length, take, drop, poke, replicate, ℤ, negsuc,
}

-- `maildir_mail_t`
pub record Mail : Type 0 where
  pub fname : Str
  pub flen : ℕ
  pub size : ℕ
  pub path : Str
  pub plen : ℕ
  pub read : Bool
  pub del : Bool

-- `maildir_mails_t`, once its array is there
pub record Mails : Type 0 where
  pub mails : List Mail
  pub len : ℕ
  pub ndel : ℕ

-- `user_maildir_t`; `none` is a NULL array. `dir` is the part of `path` of length `path_len`, and
-- `folder` what stands behind it.
pub record UserMaildir : Type 0 where
  pub user : Str
  pub new : Option Mails
  pub dir : Str
  pub folder : Str

-- What `opendir` and `calloc` give, the two passes of `readdir`, and the size that `stat` gives a
-- path (`none` where it fails).
pub record Dir : Type 0 where
  pub opened : Bool
  pub allocated : Bool
  pub first_pass : List Str
  pub second_pass : List Str
  pub stat : Str → Option ℕ

pub data FsOp : Type 0 where
  rename : Str → Str → FsOp
  remove : Str → FsOp

unfoldable pub maildir_is_read : Mail → Bool
maildir_is_read m = m.read

unfoldable pub maildir_set_read : Mail → Bool → Mail
maildir_set_read m r = record m { read = r }

unfoldable pub maildir_is_del : Mail → Bool
maildir_is_del m = m.del

-- `ndel++` and `ndel--` on an `unsigned`
abbrev pub count_mark : Bool → Bool → ℕ → ℕ
count_mark false true n = (n + 1) % 2 ^ 32
count_mark true false n = (n + 2 ^ 32 - 1) % 2 ^ 32
count_mark false false n = n
count_mark true true n = n

-- `n > len` is refused; at `n == len` the array is read out of bounds.
unfoldable pub maildir_set_del : Mails → ℕ → Bool → Option Mails
maildir_set_del ms n d = if ltb ms.len n then some ms else do
  m ← get_elem? ms.mails n
  some (record ms {
    mails = set ms.mails n (record m { del = d });
    ndel = count_mark m.del d ms.ndel;
  })

-- `"."` and `".."` are skipped.
abbrev pub is_skipped : Str → Bool
is_skipped name = str_eq name (codes ".") || str_eq name (codes "..")

unfoldable pub count_files : List Str → ℕ
count_files [] = 0
count_files (name ∷ names) =
    let rest = count_files names in if is_skipped name then rest else (rest + 1) % 2 ^ 32

-- The entry is blank, as `calloc` leaves it, before `new_mail` fills it in; where `stat` fails the
-- size and the marks stay blank.
unfoldable pub new_mail : Dir → Str → Str → Mail
new_mail d fname folder =
    let path = folder ++ (b'/' ∷ fname) in
    record {
      fname = fname;
      flen = length fname;
      size = elim (d.stat path) [ none ↦ 0 | some n ↦ n % 2 ^ 32 ];
      path = path;
      plen = length folder + length fname + 1;
      read = false;
      del = false;
    }

unfoldable pub fill_mails : Dir → Str → List Str → ℕ → List Mail → Option (List Mail)
unfolding new_mail
fill_mails d folder [] i mails = some mails
fill_mails d folder (name ∷ names) i mails =
    if is_skipped name
    then fill_mails d folder names i mails
    else (store mails i (new_mail d name folder) >>= fill_mails d folder names (i + 1))

abbrev pub blank_mail : Mail
blank_mail = record {
  fname = [];
  flen = 0;
  size = 0;
  path = [];
  plen = 0;
  read = false;
  del = false;
}

-- The mails, or `none` for a NULL result, and the maildir. (A failed `calloc` leaves the array NULL
-- and the count as it was.)
unfoldable pub maildir_list_new : Dir → UserMaildir → Option (Option Mails × UserMaildir)
maildir_list_new d md =
    let list = λ (md' : UserMaildir). do
      let n = count_files d.first_pass
      mails ← fill_mails d (md'.dir ++ md'.folder) d.second_pass 0 (replicate n blank_mail)
      let ms : Mails = record { mails = mails; len = n; ndel = 0 }
      let r : Option (Option Mails × UserMaildir) = some (some ms, record md' { new = some ms })
      r
    in let md' = record md { folder = codes "new" } in
      elim md.new [
        | some ms ↦ some (some ms, md)
        | none ↦
            if not d.opened
            then some (none, md')
            else if not d.allocated
            then some (none, md')
            else list md'
      ]

-- The path in `cur`, with the flags behind it: "cur" is copied over the folder that stands four
-- characters before the file name.
unfoldable pub flagged_path : Mail → Str → Str
flagged_path m flags =
    poke m.path ((m.plen + 2 ^ 33 - m.flen - 4) % 2 ^ 32) (codes "cur") ++ (codes ":2," ++ flags)

-- `move_and_set_flags`: its success, the new path, and what it does to the files.
unfoldable pub move_and_set_flags : Mail → Str → Bool × Str × List FsOp
unfolding flagged_path
move_and_set_flags m flags = let np = flagged_path m flags in (true, np, rename m.path np ∷ [])

unfoldable pub maildir_move_as_read : Mail → Bool × List FsOp
unfolding move_and_set_flags
maildir_move_as_read m = let (success, np, ops) = move_and_set_flags m (codes "S") in (success, ops)

unfoldable pub maildir_del_permanentely : Mail → Bool × List FsOp
unfolding move_and_set_flags maildir_is_read
maildir_del_permanentely m =
    let (success, np, ops) =
      move_and_set_flags m (if maildir_is_read m then codes "ST" else codes "T") in
    (success, ops ++ (remove np ∷ []))

-- The array of the mails is given back, and its pointer kept: what it then holds is outside it.
unfoldable pub maildir_close : UserMaildir → UserMaildir
maildir_close md = record md {
  user = [];
  new = elim md.new [ none ↦ none | some ms ↦ some (record ms { mails = []; len = 0 }) ];
}

-- `opened` tells whether `opendir` finds the directory, and `removed` is what `remove` answers.
unfoldable pub maildir_destroy : Bool → ℤ → UserMaildir → ℤ × UserMaildir × List FsOp
maildir_destroy opened removed md =
    let freed : Option Mails = elim md.new [
      | none ↦ none
      | some ms ↦ some (record ms { mails = [] })
    ] in
    if str_eq md.user []
    then (negsuc 1, md, [])
    else if opened
    then (removed, md, remove (md.dir ++ md.folder) ∷ [])
    else (negsuc 2, record md { new = freed }, [])
