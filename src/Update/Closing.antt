-- ===== src/Update/Closing.antt =====
-- What the update state does to the files and sends.
use pop.Common.{
  ℕ, ◌+◌, ◌^◌, ◌%◌, ◌≤◌, ◌<◌, ◌≡◌, ◌∙◌, refl, sym, ap, some, List, [], ◌∷◌, ◌++◌, append_assoc,
  append-nil, codes, pos, if◌then◌else◌, get_elem?, length, length-append, print_d, length-print_d,
  sub32, take-length, arith,
}
use pop.Buffer.{buffer_reset, contents}
use pop.Buffer.Inv as Inv
use pop.Buffer.Inv.{contents-empty, length-contents, buffer_read_adv_all}
use pop.Maildir.{
  Mail, Mails, UserMaildir, FsOp, rename, remove, flagged_path, move_and_set_flags, maildir_is_del,
  maildir_is_read, maildir_del_permanentely, maildir_move_as_read,
}
use pop.Maildir.Marks.{count_del}
use pop.Maildir.Marks as Marks
use pop.Writter.{is_negative}
use pop.Writter.Answer.{write_msg_lem, out_of}
use pop.Client.{World, Env, put_client, done}
use pop.Update.{
  Moved, move_mail, move_mails, unmoved, closing_msg, handle_request, update_process, update_sent,
}

-- What the session's end owes to a mail: a deleted one gets the flags that say so and is removed, one
-- that was read and kept moves to the folder of the read mails.
abbrev pub effect : Mail → List FsOp
effect m =
    if m.del
    then (let path = flagged_path m (if m.read then codes "ST" else codes "T") in
        rename m.path path ∷ (remove path ∷ []))
    else if m.read
    then rename m.path (flagged_path m (codes "S")) ∷ []
    else []

abbrev pub effects : List Mail → List FsOp
effects [] = []
effects (m ∷ ms) = effect m ++ effects ms

-- The mails that were read and are kept.
abbrev pub count_read : List Mail → ℕ
count_read [] = 0
count_read (m ∷ ms) = (if m.del then 0 else if m.read then 1 else 0) + count_read ms

pub counts-le-length : (ms : List Mail) → count_del ms + count_read ms ≤ length ms
counts-le-length [] = omega arith
counts-le-length (m ∷ ms) = ground (arith, counts-le-length ms)

abbrev fold : Moved → List Mail → Moved
fold s [] = s
fold s (m ∷ ms) = fold (move_mail s m) ms

get_elem?-append :
    (pre rest : List Mail) (m : Mail) → get_elem? (pre ++ (m ∷ rest)) (length pre) ≡ some m
get_elem?-append [] rest m = refl
get_elem?-append (x ∷ pre) rest m = get_elem?-append pre rest m

move_mails-fold :
    (pre rest : List Mail) (s : Moved)
    → move_mails (pre ++ rest) (length rest) (length pre) s ≡ some (fold s rest)
unfolding move_mails
move_mails-fold pre [] s = refl
move_mails-fold pre (m ∷ rest) s =
    let next = move_mails-fold (pre ++ (m ∷ [])) rest (move_mail s m) in
    let one : List Mail = m ∷ [] in
    rw (get_elem?-append pre rest m) (rw (length-append pre one, append_assoc pre one rest) at next)

move_mail_lem :
    (s : Moved) (m : Mail)
    → ((move_mail s m).ops ≡ s.ops ++ effect m)
      × ((move_mail s m).n_read
          ≡ (if m.del then s.n_read else if m.read then (s.n_read + 1) % 2 ^ 32 else s.n_read))
unfolding move_mail maildir_del_permanentely maildir_move_as_read move_and_set_flags maildir_is_del
    maildir_is_read
move_mail_lem s m = ground (arith, append-nil s.ops)

fold_lem :
    (s : Moved) (ms : List Mail)
    → s.n_read + count_read ms < 2 ^ 32
    → ((fold s ms).ops ≡ s.ops ++ effects ms) × ((fold s ms).n_read ≡ s.n_read + count_read ms)
fold_lem s [] h = (sym (append-nil s.ops), omega arith)
fold_lem s (m ∷ ms) h =
    let (ops, n) = move_mail_lem s m in
    let (rest, total) = fold_lem (move_mail s m) ms (ground (arith, n)) in
    (rest ∙ rw ops (append_assoc s.ops (effect m) (effects ms)), ground (arith, n, total))

-- The request of a listing whose counters are exact answers with the closing text, by the number of
-- mails that were read and kept, and does to the files what is owed to each mail, in their order.
pub handle_request-effects :
    (md : UserMaildir) (ms : Mails)
    → Marks.IsValid ms
    → md.new ≡ some ms
    → handle_request md ≡ some (closing_msg ms (count_read ms.mails), effects ms.mails)
unfolding handle_request
handle_request-effects md ms v e =
    let bound = counts-le-length ms.mails in
    let small : 0 + count_read ms.mails < 2 ^ 32 = omega (arith, v.len_exact, v.fits, bound) in
    let (ops, n) = fold_lem unmoved ms.mails small in
    let start : 0 + count_read ms.mails ≡ count_read ms.mails = omega arith in
    rw e (rw (v.len_exact) (rw (move_mails-fold [] ms.mails unmoved) (rw (ops, n) (rw start refl))))

closing_msg-short : (ms : Mails) (n : ℕ) → length (closing_msg ms n) ≤ 90
unfolding closing_msg
closing_msg-short ms n =
    let unread = print_d (sub32 ms.len n) in
    let removed = print_d ms.ndel in
    let total = print_d ms.len in
    let end = total ++ codes " total)\r\n" in
    let middle = removed ++ (codes " removed, " ++ end) in
    ground (
      arith,
      length-append unread (codes " unread, " ++ middle),
      length-append removed (codes " removed, " ++ end),
      length-append total (codes " total)\r\n"),
      length-print_d (sub32 ms.len n),
      length-print_d ms.ndel,
      length-print_d ms.len,
    )

-- With an empty output buffer of at least 128 bytes, the update state does to the files what is owed
-- to each mail of the listing, in their order, sends one message, if the system takes all of it, and
-- ends the session.
pub update_process-sends :
    (env : Env) (w : World) (ms : Mails)
    → w.client.maildir.new ≡ some ms
    → Marks.IsValid ms
    → Inv.IsValid (out_of w)
    → (out_of w).read ≡ 0
    → (out_of w).write ≡ 0
    → 128 ≤ (out_of w).limit
    → env.sent ≡ pos (length (closing_msg ms (count_read ms.mails)))
    → (w' : World) × (update_process env w ≡ some (done, w'))
      × (w'.fs ≡ w.fs ++ effects ms.mails)
      × (w'.wire ≡ w.wire ++ closing_msg ms (count_read ms.mails))
      × (w'.users ≡ w.users)
unfolding update_process update_sent is_negative
update_process-sends env w ms e v out r o big s =
    let msg = closing_msg ms (count_read ms.mails) in
    let short = closing_msg-short ms (count_read ms.mails) in
    let (w2, wrote, v2, c, sent, cl, us, fs) =
      write_msg_lem env msg (record w { fs = w.fs ++ effects ms.mails }) (length msg) out
        (omega arith) s in
    let held : contents (out_of w2) ≡ msg =
      c ∙ ap (λ t. t ++ msg) (contents-empty (out_of w) r o) in
    let n : (out_of w2).read + length msg ≡ (out_of w2).write =
      omega (arith, ap length held, length-contents v2, v2.read_le_write) in
    (
      put_client w2
          (record w2.client { write_buffer = buffer_reset (out_of w2); next_state = pos done }),
      rw (handle_request-effects w.client.maildir ms v e)
          (rw wrote (rw (buffer_read_adv_all (length msg) v2 n) refl)),
      fs,
      sent ∙ rw (contents-empty (out_of w) r o) (ap (λ t. w.wire ++ t) (take-length msg)),
      us,
    )
