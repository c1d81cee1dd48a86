-- ===== src/Mailbox/Marking.antt =====
-- What the commands of the transaction state do to the marks, and what they tell of them.
use pop.Common.{
  ℕ, suc, ◌+◌, ◌-◌, ◌^◌, ◌%◌, ◌<◌, ◌≡◌, ◌∙◌, refl, sym, ap, subst, true, false, some, List, [], ◌∷◌,
  ◌++◌, append_assoc, codes, pos, ltb, ◌==◌, if◌then◌else◌, length, length-append, get_elem?, set,
  print_digits, print_u, print_d, sub32, arith,
}
use pop.Maildir.{Mail, Mails, maildir_is_del, maildir_set_del, maildir_list_new, count_mark}
use pop.Maildir.Marks as Marks
use pop.Maildir.Marks.{count_del, marked, maildir_set_del_lem, get_elem?-set}
use pop.Client.{World, Env, put_client}
use pop.Mailbox.{
  add64, total_size, del_size, get_new_mails, reset_marks, cmd_rset, cmd_stat, cmd_dele, find_mail,
  next_number, on_mail,
}

-- Every mark taken away.
abbrev pub unmarked : List Mail → List Mail
unmarked [] = []
unmarked (m ∷ ms) = marked m false ∷ unmarked ms

get_elem?-middle :
    (pre rest : List Mail) (m : Mail) → get_elem? (pre ++ (m ∷ rest)) (length pre) ≡ some m
get_elem?-middle [] rest m = refl
get_elem?-middle (x ∷ pre) rest m = get_elem?-middle pre rest m

set-middle :
    (pre rest : List Mail) (m n : Mail)
    → set (pre ++ (m ∷ rest)) (length pre) n ≡ (pre ++ (n ∷ [])) ++ rest
set-middle [] rest m n = refl
set-middle (x ∷ pre) rest m n = ap (λ t. x ∷ t) (set-middle pre rest m n)

count_del-unmarked : (ms : List Mail) → count_del (unmarked ms) ≡ 0
count_del-unmarked [] = refl
count_del-unmarked (m ∷ ms) = count_del-unmarked ms

length-unmarked : (ms : List Mail) → length (unmarked ms) ≡ length ms
length-unmarked [] = refl
length-unmarked (m ∷ ms) = ap suc (length-unmarked ms)

count_del-append : (ms ns : List Mail) → count_del (ms ++ ns) ≡ count_del ms + count_del ns
count_del-append [] ns = omega arith
count_del-append (m ∷ ms) ns = ground (arith, count_del-append ms ns)

-- The rounds on the mails behind `pre`, none of whose mails is marked.
reset_marks_lem :
    (pre rest : List Mail) (n k : ℕ)
    → n < 2 ^ 32
    → n ≡ length pre + length rest
    → k ≡ count_del rest
    → reset_marks (length rest) (length pre) (record { mails = pre ++ rest; len = n; ndel = k })
      ≡ some (record { mails = pre ++ unmarked rest; len = n; ndel = 0 })
unfolding reset_marks maildir_set_del
reset_marks_lem pre [] n k f e h = rw h refl
reset_marks_lem pre (m ∷ rest) n k f e h =
    let one : List Mail = marked m false ∷ [] in
    let inside : ltb n (length pre) ≡ false = ground (arith, e) in
    let counted : count_mark m.del false k ≡ count_del rest =
      ground (arith, h, Marks.count_del-le-length rest) in
    let next =
      reset_marks_lem (pre ++ one) rest n (count_del rest) f
        (omega (arith, e, length-append pre one)) refl in
    rw inside (
      rw (get_elem?-middle pre rest m) (
        rw (set-middle pre rest m (marked m false))
          (rw counted (rw (length-append pre one, append_assoc pre one (unmarked rest)) at next))))

abbrev pub with_mails : World → Mails → World
with_mails w ms =
    put_client w (record w.client { maildir = record w.client.maildir { new = some ms } })

abbrev pub all_unmarked : Mails → Mails
all_unmarked ms = record ms { mails = unmarked ms.mails; ndel = 0 }

all_unmarked-IsValid : {ms : Mails} → Marks.IsValid ms → Marks.IsValid (all_unmarked ms)
all_unmarked-IsValid {ms} v = record {
  len_exact = v.len_exact ∙ sym (length-unmarked ms.mails);
  ndel_exact = sym (count_del-unmarked ms.mails);
  fits = v.fits;
}

-- RSET on a listing whose counters are exact succeeds and takes the mark of every mail away, with the
-- mails, their order and all else as before; the counters stay exact.
pub cmd_rset-unmarks :
    (env : Env) (w : World) (ms : Mails)
    → w.client.maildir.new ≡ some ms
    → Marks.IsValid ms
    → (cmd_rset env w
        ≡ some (
          codes "+OK maildrop has "
              ++ (print_u ms.len
                  ++ (codes " messages ("
                      ++ (print_digits 20 (total_size ms.mails 0) ++ codes " octects)\r\n"))),
          with_mails w (all_unmarked ms),
        ))
      × Marks.IsValid (all_unmarked ms)
unfolding cmd_rset get_new_mails maildir_list_new
cmd_rset-unmarks env w ms e v =
    let reset : reset_marks ms.len 0 ms ≡ some (all_unmarked ms) =
      subst (λ k. reset_marks k 0 ms ≡ some (all_unmarked ms)) (sym v.len_exact)
        (reset_marks_lem [] ms.mails ms.len ms.ndel v.fits (omega (arith, v.len_exact))
          v.ndel_exact) in
    (rw e (rw reset refl), all_unmarked-IsValid v)

-- The number and the sizes of the mails that are not deleted.
abbrev pub count_kept : List Mail → ℕ
count_kept [] = 0
count_kept (m ∷ ms) = (if m.del then 0 else 1) + count_kept ms

abbrev pub size_kept : List Mail → ℕ
size_kept [] = 0
size_kept (m ∷ ms) = (if m.del then 0 else m.size) + size_kept ms

abbrev size_deleted : List Mail → ℕ
size_deleted [] = 0
size_deleted (m ∷ ms) = (if m.del then m.size else 0) + size_deleted ms

counts : (ms : List Mail) → count_kept ms + count_del ms ≡ length ms
counts [] = refl
counts (m ∷ ms) = ground (arith, counts ms)

total_size_lem :
    (ms : List Mail) (n : ℕ)
    → n < 2 ^ 64
    → total_size ms n ≡ (n + size_kept ms + size_deleted ms) % 2 ^ 64
unfolding total_size
total_size_lem [] n h = omega arith
total_size_lem (m ∷ ms) n h = ground (arith, total_size_lem ms (add64 n m.size))

del_size_lem :
    (ms : List Mail) (n : ℕ) → n < 2 ^ 64 → del_size ms n ≡ (n + size_deleted ms) % 2 ^ 64
unfolding del_size
del_size_lem [] n h = omega arith
del_size_lem (m ∷ ms) n h = ground (arith, del_size_lem ms (add64 n m.size), del_size_lem ms n)

-- STAT on a listing whose counters are exact tells the number of the mails that are not deleted, and
-- the sum of their sizes modulo 2^64, and changes nothing.
pub cmd_stat-kept :
    (env : Env) (w : World) (ms : Mails)
    → w.client.maildir.new ≡ some ms
    → Marks.IsValid ms
    → cmd_stat env w
      ≡ some (
        codes "+OK "
            ++ (print_u (count_kept ms.mails)
                ++ (codes " " ++ (print_digits 20 (size_kept ms.mails % 2 ^ 64) ++ codes "\r\n"))),
        with_mails w ms,
      )
unfolding cmd_stat get_new_mails maildir_list_new
cmd_stat-kept env w ms e v =
    let n : sub32 ms.len ms.ndel ≡ count_kept ms.mails =
      omega (arith, counts ms.mails, v.len_exact, v.ndel_exact, v.fits) in
    let size : (total_size ms.mails 0 + 2 ^ 64 - del_size ms.mails 0) % 2 ^ 64
        ≡ size_kept ms.mails % 2 ^ 64 =
      omega (arith, total_size_lem ms.mails 0, del_size_lem ms.mails 0) in
    rw e (rw (n, size) refl)

-- DELE on a listing whose counters are exact, with an argument that reads as the number `i + 1` of a
-- mail that is not deleted, succeeds and marks that mail; every other mail is as it was, and the
-- counters stay exact.
pub cmd_dele-marks :
    (env : Env) (w w1 : World) (ms : Mails) (i k : ℕ) (m : Mail)
    → w.client.maildir.new ≡ some ms
    → Marks.IsValid ms
    → (w.client.trans_parser.total_arg == 0) ≡ false
    → next_number w ≡ some (pos (suc i), w1)
    → get_elem? ms.mails i ≡ some m
    → m.del ≡ false
    → (r : Mails) × (cmd_dele env w
        ≡ some (codes "+OK message " ++ (print_d (i + 1) ++ codes " deleted\r\n"), with_mails w1 r))
      × Marks.IsValid r
      × (get_elem? r.mails k ≡ (if i == k then some (marked m true) else get_elem? ms.mails k))
unfolding cmd_dele get_new_mails maildir_list_new on_mail find_mail maildir_is_del
cmd_dele-marks env w w1 ms i k m e v a num at kept =
    let (r, set, valid, len, others) = maildir_set_del_lem ms i k true m v at in
    let inside : ltb ms.len (suc i) ≡ false =
      ground (arith, v.len_exact, Marks.get_elem?-lt ms.mails i at) in
    let same : record w {
      client = record w.client { maildir = record w.client.maildir { new = some ms } };
    }
        ≡ w =
      ap
        (λ n. record w {
          client = record w.client { maildir = record w.client.maildir { new = n } };
        })
        (sym e) in
    (r, rw e (rw a (rw same (rw num (rw (inside, at, kept, set) refl)))), valid, others)
