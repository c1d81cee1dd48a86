-- ===== src/Tests/Makings.antt =====
-- The directories of a maildir on a small file system: a list of paths.
use pop.Common.{Bool, true, false, List, [], ◌∷◌, Str, str_eq, ◌||◌}
use pop.Maildir.Making.{FileSystem}

abbrev has : List Str → Str → Bool
has [] p = false
has (q ∷ qs) p = str_eq p q || has qs p

-- `mkdir` always succeeds.
abbrev paths : FileSystem (List Str)
paths = record { is_there = has; mkdir = λ d p. record { ok = true; disk = p ∷ d } }
