-- ===== src/Auth.antt =====
-- src/server/auth.c: the authorization state, the commands USER, PASS, CAPA and QUIT.
pub mod Commands
pub mod Lockout
pub mod Sending
use pop.Common.{
  ℕ, zero, suc, ◌+◌, ◌-◌, Bool, true, false, not, Option, none, some, List, [], ◌∷◌, ◌++◌, Str,
  codes, c_str, str_eq, ℤ, pos, negsuc, ltb, ◌==◌, if◌then◌else◌, ◌>>=◌, length,
}
use pop.Pop3Def
use pop.Buffer.{
  Buffer, buffer_can_write, buffer_can_read, buffer_compact, buffer_write_ptr, buffer_write_adv,
  buffer_read_ptr, buffer_read_adv, fill, contents,
}
use pop.Parser.{Parser}
use pop.Parser.Line.{LineParser}
use pop.Parser.Auth.{init_auth_parser, auth_parse}
use pop.Users.{
  UserState, offline, logging, online, state_eq, Users, user_exists, user_get_state, user_set_state,
  user_check_pass,
}
use pop.Maildir.{UserMaildir}
use pop.Client.{
  ClientData, World, Env, Interest, op_read, op_write, put_client, Counters, auth, transaction,
  done, error_pop3,
}
use pop.Writter.{send, is_negative, write_msg}

unfoldable pub init_auth : World → World
unfolding init_auth_parser
init_auth w = put_client w (record w.client { auth_parser = init_auth_parser w.client.auth_parser })

-- What `recv` brings into the buffer `b` of a connection whose data is otherwise as in `w`. The
-- handlers of the authorization and of the transaction state share it, with their own state.
unfoldable pub receive : ℕ → Env → World → Buffer → Option (ℕ × World)
receive state env w b =
    let d = w.client in
    elim env.received [
      | none ↦ some (
        error_pop3,
        put_client w (record d { read_buffer = b; err_code = Pop3Def.unknown_error }),
      )
      | some [] ↦ some (done, put_client w (record d { read_buffer = b }))
      | some (c ∷ cs) ↦ do
        p ← buffer_write_ptr b
        b' ← fill b (c ∷ cs)
        b'' ← buffer_write_adv b' (pos (length (c ∷ cs)))
        some (state, record (put_client w (record d { read_buffer = b'' })) { interest = op_write })
    ]

-- `auth_read` and `trans_read`, which differ in the state that they return alone.
unfoldable pub read_into : ℕ → Env → World → Option (ℕ × World)
unfolding receive
read_into state env w =
    let d = w.client in
    let b =
      if buffer_can_write d.read_buffer then d.read_buffer else buffer_compact d.read_buffer in
    let got = receive state env w b in
    if not d.send.finished
    then some (state, record w { interest = op_write })
    else if buffer_can_write b
    then got
    else if buffer_can_read d.write_buffer
    then some (state, record (put_client w (record d { read_buffer = b })) { interest = op_write })
    else some
        (error_pop3, put_client w (record d { read_buffer = b; err_code = Pop3Def.unknown_error }))

unfoldable pub auth_read : Env → World → Option (ℕ × World)
auth_read = read_into auth

-- `maildir_set_username` names the maildir. Here its directories can be made; Maildir/Making has all of
-- it, with the path that stays cut where they cannot.
unfoldable pub maildir_set_username : UserMaildir → Str → UserMaildir
maildir_set_username md name = record md {
  user = name;
  dir = codes "bin/maildirs/" ++ (name ++ codes "/Maildir/");
  folder = codes "tmp";
}

abbrev set_user : World → Str → UserState → World
set_user w name s = record w { users = user_set_state name s w.users }

abbrev pub cmd_of : World → Str
cmd_of w = c_str w.client.auth_parser.cmd

abbrev pub arg_of : World → Str
arg_of w = c_str w.client.auth_parser.arg

-- The result, 0 for success, and the world: the client's part is `d`.
abbrev fails : World → ClientData → ℕ → ℤ × World
fails w d code = (negsuc 0, put_client w (record d { err_code = code; next_state = pos auth }))

unfoldable pub cmd_user : World → ℤ × World
cmd_user w =
    let d = w.client in
    let w' = if not (str_eq d.user []) then set_user w d.user offline else w in
    if not (user_exists (arg_of w) w.users)
    then fails w d Pop3Def.invalid_user
    else if not (state_eq (user_get_state (arg_of w) w.users) offline)
    then fails w d Pop3Def.user_already_online
    else (
      pos 0,
      put_client (set_user w' (arg_of w) logging)
          (record d { next_state = pos auth; user = arg_of w }),
    )

unfoldable pub cmd_pass : World → ℤ × World
unfolding maildir_set_username
cmd_pass w =
    let d = w.client in
    if str_eq d.user []
    then fails w d Pop3Def.wrong_time_pass_cmd
    else if not (user_check_pass d.user (arg_of w) w.users)
    then fails (set_user w d.user offline) (record d { user = [] }) Pop3Def.wrong_password
    else (
      pos 0,
      put_client (set_user w d.user online) (record d {
        maildir = maildir_set_username d.maildir d.user;
        next_state = pos transaction;
      }),
    )

unfoldable pub process_cmd : World → ℤ × World
process_cmd w =
    let d = w.client in
    if str_eq (codes "QUIT") (cmd_of w)
    then (
      pos 0,
      put_client w
          (record d { next_state = pos done; auth_parser = record d.auth_parser { quit = true } }),
    )
    else if str_eq (codes "USER") (cmd_of w)
    then cmd_user w
    else if str_eq (codes "PASS") (cmd_of w)
    then cmd_pass w
    else if str_eq (codes "CAPA") (cmd_of w)
    then (pos 0, put_client w (record d { next_state = pos auth; err_code = Pop3Def.no_error }))
    else if not (d.err_code == Pop3Def.invalid_char)
    then (
      pos auth,
      put_client w (record d { err_code = Pop3Def.invalid_cmd; next_state = pos auth; user = [] }),
    )
    else (negsuc 0, put_client w (record d { next_state = pos error_pop3 }))

abbrev is_zero : ℤ → Bool
is_zero (pos n) = n == 0
is_zero (negsuc n) = false

unfoldable pub generate_msg : World → ℤ → Str
generate_msg w status =
    let d = w.client in
    let err = d.err_code in
    if is_zero status
    then (if d.auth_parser.quit
        then codes "+OK closing connection\r\n"
        else if state_eq (user_get_state d.user w.users) logging
        then codes "+OK valid user\r\n"
        else if str_eq (codes "CAPA") (cmd_of w)
        then codes "+OK Capability list follows\r\nUSER\r\nPIPELINING\r\n.\r\n"
        else codes "+OK logged in\r\n")
    else if err == Pop3Def.invalid_user
    then codes "-ERR never heard of that user\r\n"
    else if err == Pop3Def.wrong_time_pass_cmd
    then codes "-ERR cant use PASS before USER\r\n"
    else if err == Pop3Def.wrong_password
    then codes "-ERR invalid password :(\r\n"
    else if err == Pop3Def.invalid_cmd
    then codes "-ERR invalid command\r\n"
    else if err == Pop3Def.user_already_online
    then codes "-ERR user already online\r\n"
    else codes "-ERR unknown error\r\n"

abbrev pub set_finished : World → Bool → World
set_finished w b = put_client w (record w.client { send = record w.client.send { finished = b } })

-- `return data->next_state`, as an `unsigned`: -1 is `UINT_MAX`.
abbrev pub state_of : ℤ → ℕ
state_of (pos n) = n
state_of (negsuc n) = 4294967295 - n

-- The branch of `auth_process` with data still to send. With bytes in the output it sends nothing.
unfoldable pub auth_resume : Env → World → Option (ℕ × World)
auth_resume env w =
    let d = w.client in
    let sent = (do
      p ← buffer_read_ptr d.write_buffer
      out ← buffer_read_adv d.write_buffer env.sent
      let w2 = put_client (send env (contents d.write_buffer) w) (record d { write_buffer = out })
      some (
        (if buffer_can_read out then auth else state_of d.next_state),
        (if buffer_can_read out then w2 else set_finished w2 true),
      )) in
    if buffer_can_read d.write_buffer
    then some (auth, set_finished w true)
    else if is_negative env.sent
    then some (error_pop3, put_client w (record d { err_code = Pop3Def.unknown_error }))
    else sent

-- The next state, which is AUTH where it was left at -1.
abbrev pub next_of : ℤ → ℕ
next_of (pos n) = n
next_of (negsuc zero) = auth
next_of (negsuc (suc n)) = 4294967294 - n

-- What follows a whole answer.
unfoldable pub auth_finish : World → ℕ × World
auth_finish w =
    let next = next_of w.client.next_state in
    let d = record w.client { next_state = negsuc 0 } in
    let fresh = record d { auth_parser = init_auth_parser d.auth_parser } in
    (
      next,
      record (put_client w (if next == auth then fresh else d)) {
        interest = if buffer_can_read d.read_buffer then op_write else op_read;
      },
    )

-- What follows `write_msg`, whose result is `sent`.
unfoldable pub auth_sent : ℤ → World → Option (ℕ × World)
unfolding auth_finish is_negative
auth_sent sent w =
    let rest = (do
      out ← buffer_read_adv w.client.write_buffer sent
      let w' = put_client w (record w.client { write_buffer = out })
      let r : Option (ℕ × World) =
          some (if buffer_can_read out then (auth, set_finished w' false) else auth_finish w')
      r) in
    if is_negative sent then some (error_pop3, w) else rest

-- What follows a whole command.
unfoldable pub auth_answer : Env → World → Option (ℕ × World)
auth_answer env w = do
  let (status, w1) = process_cmd w
  (sent, w2) ← write_msg env (generate_msg w1 status) w1
  auth_sent sent w2

unfoldable pub auth_process : Parser LineParser → Env → World → Option (ℕ × World)
auth_process engine env w =
    let d = w.client in
    let parsed = (do
      (p, b) ← auth_parse engine d.auth_parser d.read_buffer
      let w1 = put_client w (record d { auth_parser = p; read_buffer = b })
      let answer = auth_answer env w1
      if not p.ended then some (auth, record w1 { interest = op_read }) else answer) in
    if not d.send.finished
    then auth_resume env w
    else if buffer_can_read d.write_buffer
    then some (auth, set_finished w false)
    else parsed
