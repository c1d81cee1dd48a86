-- ===== src/Tests/Maildirs.antt =====
-- The mails of a user on concrete maildirs.
use pop.Common.{◌<◌, ◌^◌, length, str_eq, ◌≡◌, refl, none, some, ◌++◌, codes, arith}
use pop.Maildir.{Mails, maildir_list_new}
use pop.Maildir.Marks.{IsValid, listed, mails_of, maildir_list_new_lem}
use pop.Tests.{three_mails, maildir, no_dir}

pub three_mails-IsValid : IsValid three_mails
three_mails-IsValid = record { len_exact = refl; ndel_exact = refl; fits = omega arith }

listed_few : length (listed no_dir.first_pass) < 2 ^ 32
unfolding str_eq
listed_few = omega arith

maildir_list_new_lem_example :
    (r : Mails) × (maildir_list_new no_dir (record maildir { new = none })
      ≡ some (some r, record maildir { new = some r; folder = codes "new" }))
    × IsValid r
    × (r.mails ≡ mails_of no_dir (maildir.dir ++ codes "new") (listed no_dir.first_pass))
    × (maildir_list_new no_dir (record maildir { new = some three_mails })
        ≡ some (some three_mails, record maildir { new = some three_mails }))
maildir_list_new_lem_example =
    maildir_list_new_lem no_dir maildir three_mails refl refl refl listed_few
