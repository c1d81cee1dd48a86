-- ===== src/Update.antt =====
-- src/server/update.c: the update state, which moves the mails that were read or deleted, answers and
-- ends the session.
pub mod Closing
use pop.Common.{
  ℕ, zero, suc, ◌+◌, ◌^◌, ◌%◌, Bool, true, false, ◌&&◌, Option, none, some, List, [], ◌∷◌, ◌++◌,
  Str, codes, ℤ, pos, ◌==◌, if◌then◌else◌, ◌>>=◌, get_elem?, print_d, sub32,
}
use pop.Buffer.{buffer_read_adv}
use pop.Parser.Update.{init_update_parser}
use pop.Maildir.{
  Mail, Mails, UserMaildir, FsOp, maildir_is_del, maildir_is_read, maildir_del_permanentely,
  maildir_move_as_read,
}
use pop.Client.{ClientData, World, Env, op_write, put_client, done, error_pop3}
use pop.Writter.{is_negative, write_msg}

unfoldable pub init_update : World → World
unfolding init_update_parser
init_update w =
    record (put_client w
      (record w.client { update_parser = init_update_parser w.client.update_parser })) {
        interest = op_write;
      }

-- The variables of the loop of `handle_request`, and what was done to the files.
pub record Moved : Type 0 where
  pub n_read : ℕ
  pub all_rm : Bool
  pub all_mv : Bool
  pub ops : List FsOp

-- One round of the loop.
unfoldable pub move_mail : Moved → Mail → Moved
unfolding maildir_is_del maildir_is_read
move_mail s m =
    let (removed, rm_ops) = maildir_del_permanentely m in
    let (moved, mv_ops) = maildir_move_as_read m in
    if maildir_is_del m
    then record s { all_rm = s.all_rm && removed; ops = s.ops ++ rm_ops }
    else if maildir_is_read m
    then record s {
      all_mv = s.all_mv && moved;
      n_read = (s.n_read + 1) % 2 ^ 32;
      ops = s.ops ++ mv_ops;
    }
    else s

-- The rounds that are left, from the mail `i` on.
unfoldable pub move_mails : List Mail → ℕ → ℕ → Moved → Option Moved
move_mails mails zero i s = some s
move_mails mails (suc k) i s = get_elem? mails i >>= λ m. move_mails mails k (i + 1) (move_mail s m)

-- The text that stays in `msg`: the last `sprintf` overwrites the error texts of the others.
unfoldable pub closing_msg : Mails → ℕ → Str
closing_msg m n_read =
    if sub32 (sub32 m.len m.ndel) n_read == 0
    then codes "+OK server signing off (maildrop empty)\r\n"
    else codes "+OK server signing off ("
      ++ (print_d (sub32 m.len n_read)
          ++ (codes " unread, "
              ++ (print_d m.ndel
                  ++ (codes " removed, " ++ (print_d m.len ++ codes " total)\r\n")))))

-- An array that was never made has no mails.
abbrev pub mails_or_none : Option Mails → Mails
mails_or_none none = record { mails = []; len = 0; ndel = 0 }
mails_or_none (some ms) = ms

abbrev pub unmoved : Moved
unmoved = record { n_read = 0; all_rm = true; all_mv = true; ops = [] }

-- The answer, and what is done to the files.
unfoldable pub handle_request : UserMaildir → Option (Str × List FsOp)
handle_request md = do
  let m = mails_or_none md.new
  s ← move_mails m.mails m.len 0 unmoved
  some (closing_msg m s.n_read, s.ops)

-- What follows `write_msg`, whose result is `sent`.
unfoldable pub update_sent : ℤ → World → Option (ℕ × World)
unfolding is_negative
update_sent sent w =
    let rest = (do
      out ← buffer_read_adv w.client.write_buffer sent
      some (done, put_client w (record w.client { write_buffer = out; next_state = pos done }))) in
    if is_negative sent then some (error_pop3, w) else rest

unfoldable pub update_process : Env → World → Option (ℕ × World)
update_process env w = do
  (msg, ops) ← handle_request w.client.maildir
  (sent, w') ← write_msg env msg (record w { fs = w.fs ++ ops })
  update_sent sent w'
