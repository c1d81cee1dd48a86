-- ===== src/Pop3/Session.antt =====
-- The events of a connection, from its start to its end.
use pop.Common.{
  ◌≤◌, ◌≡◌, ◌≢◌, ◌∙◌, refl, sym, ap, true, false, not, ◌&&◌, none, some, [], ◌++◌, Str, codes,
  str_eq, str_eq_iff, str_eq_refl, is_print, is_alpha, pos, length, if◌then◌else◌, arith,
}
use pop.Transaction.{init_trans}
use pop.Buffer.{Buffer, buffer_can_read, contents}
use pop.Buffer.Inv as Inv
use pop.Parser.{Parser}
use pop.Parser.Line.{LineParser}
use pop.Users.{offline, online, user_get_state, user_set_state, user_exists, user_check_pass}
use pop.Users.State.{user_get_state-set}
use pop.Users.Lookup.{user_check_pass-exists}
use pop.Client.{auth, transaction, World, Env, put_client, monitor_close_connection}
use pop.Stm.{stm_handler_write, handle, handle_first, jump, leave, enter, stm_init}
use pop.Parser.Line.{s3, line_parse}
use pop.Parser.Line.Table.{engine}
use pop.Parser.Line.Command.{All, fresh, holding, c_str-pad, prints-no_nul}
use pop.Parser.Line.Parse.{line, line_parse-line}
use pop.Parser.Auth.{auth_spec, auth_arg_size, auth_spec-IsLineSpec, auth_parse}
use pop.Auth.{
  maildir_set_username, process_cmd, cmd_pass, generate_msg, auth_process, auth_answer, cmd_of,
  arg_of, next_of,
}
use pop.Auth.Sending.{message, auth_answer-sends}
use pop.Pop3.{pop3_handle_write, new_client, init_new_client_data, close_connection}

-- A new connection, whose buffers have memory for 32768 bytes each, passes the checks of the state
-- machine: it is before its first state, open, with nobody's name, and both buffers are valid.
pub init_new_client_data-starts :
    (a t : Parser LineParser) (w : World)
    → 32768 ≤ length w.client.read_buffer.bytes
    → 32768 ≤ length w.client.write_buffer.bytes
    → (w' : World) × (init_new_client_data a t w ≡ some w')
      × (w'.client.current ≡ none)
      × (w'.client.closed ≡ false)
      × (w'.client.user ≡ [])
      × Inv.IsValid w'.client.read_buffer
      × Inv.IsValid w'.client.write_buffer
unfolding init_new_client_data stm_init
init_new_client_data-starts a t w r o = (
  (let w1 = new_client w in put_client w1 (record w1.client { current = none })),
  refl,
  refl,
  refl,
  refl,
  record { read_le_write = omega arith; write_le_limit = omega arith; in_memory = r },
  record { read_le_write = omega arith; write_le_limit = omega arith; in_memory = o },
)

-- The end of an open connection is defined. It takes one from the count of connections and makes the
-- user of its name offline, if it has a name and the table has that user; a user of another name keeps
-- its state. A second end of the same connection uses memory that was given back.
pub close_connection-offline :
    (w : World) (other : Str)
    → w.client.closed ≡ false
    → (w' : World) × (close_connection w ≡ some w')
      × (user_get_state other w'.users ≡ (
          if not (str_eq w.client.user [])
            && (str_eq w.client.user other && user_exists other w.users)
          then offline
          else user_get_state other w.users))
      × (w'.counters ≡ monitor_close_connection w.counters)
      × (close_connection w' ≡ none)
unfolding close_connection
close_connection-offline w other o =
    let set = user_get_state-set w.client.user other [] offline w.users (λ e. cc) in
    let users =
      if not (str_eq w.client.user [])
      then user_set_state w.client.user offline w.users
      else w.users in
    (
      record (put_client w (record w.client { closed = true })) {
        users = users;
        counters = monitor_close_connection w.counters;
      },
      rw o refl,
      ground (arith, set),
      refl,
      refl,
    )

abbrev pub greeted : Str
greeted = codes "+OK logged in\r\n"

-- The world after PASS with the right password.
abbrev pub logged : World → World
logged w =
    put_client (record w { users = user_set_state w.client.user online w.users })
      (record w.client {
        maildir = maildir_set_username w.client.maildir w.client.user;
        next_state = pos transaction;
      })

not_empty : (s : Str) → s ≢ [] → str_eq s [] ≡ false
not_empty s n = ground (arith, str_eq_iff s [])

is_online :
    (w : World)
    → user_check_pass w.client.user (arg_of w) w.users ≡ true
    → user_get_state w.client.user (logged w).users ≡ online
is_online w r = ground (
  arith,
  str_eq_refl w.client.user,
  user_check_pass-exists w.client.user (arg_of w) w.users r,
  user_get_state-set w.client.user w.client.user [] online w.users (λ e. cc),
)

greets :
    (w : World)
    → cmd_of w ≡ codes "PASS"
    → w.client.auth_parser.quit ≡ false
    → user_check_pass w.client.user (arg_of w) w.users ≡ true
    → generate_msg (logged w) (pos 0) ≡ greeted
unfolding generate_msg str_eq
greets w c q r = rw q (rw (is_online w r) (rw c refl))

logs_in :
    (w : World)
    → cmd_of w ≡ codes "PASS"
    → w.client.user ≢ []
    → user_check_pass w.client.user (arg_of w) w.users ≡ true
    → process_cmd w ≡ (pos 0, logged w)
unfolding process_cmd cmd_pass str_eq
logs_in w c n r =
    let named : str_eq w.client.user [] ≡ false = not_empty w.client.user n in
    rw c (rw named (rw r refl))

drained : (b : Buffer) → b.read ≡ 0 → b.write ≡ 0 → buffer_can_read b ≡ false
unfolding buffer_can_read
drained b r o = rw (r, o) refl

answers :
    (engine : Parser LineParser) (env : Env) (w : World) {p : LineParser} {b : Buffer}
    → w.client.send.finished ≡ true
    → buffer_can_read w.client.write_buffer ≡ false
    → auth_parse engine w.client.auth_parser w.client.read_buffer ≡ some (p, b)
    → p.ended ≡ true
    → auth_process engine env w
      ≡ auth_answer env (put_client w (record w.client { auth_parser = p; read_buffer = b }))
unfolding auth_process
answers engine env w f o e n = rw f (rw o (rw e (rw n refl)))

letters : All (λ c. auth_spec.is_cmd_char c ≡ true) (codes "PASS")
unfolding is_alpha
letters = ground arith

-- The world when the transaction state is entered.
abbrev entered : World → World
entered w = init_trans (put_client w (record w.client { current = some transaction }))

enters :
    (a t : Parser LineParser) (env : Env) (w w2 : World)
    → w.client.current ≡ some auth
    → auth_process a env w ≡ some (transaction, w2)
    → w2.client.current ≡ some auth
    → pop3_handle_write a t env w ≡ some (entered w2)
unfolding pop3_handle_write stm_handler_write handle handle_first jump leave enter
enters a t env w w2 c e c2 = simp (c, e, c2)

-- An open connection in the authorization state that has named a user, with no output left and a
-- fresh parser, whose input starts with PASS and the right password: if the system takes the whole
-- answer, one call for writing sends exactly "+OK logged in" and its line end, the connection is in
-- the transaction state with the rest of the input unread, and the user is online.
pub pop3_handle_write-login :
    (t : Parser LineParser) (env : Env) (w : World) (pass rest : Str)
    → w.client.current ≡ some auth
    → w.client.send.finished ≡ true
    → w.client.auth_parser ≡ fresh auth_spec auth_arg_size
    → Inv.IsValid w.client.write_buffer
    → w.client.write_buffer.read ≡ 0
    → w.client.write_buffer.write ≡ 0
    → 64 ≤ w.client.write_buffer.limit
    → Inv.IsValid w.client.read_buffer
    → contents w.client.read_buffer ≡ line (codes "PASS") (some pass) rest
    → All (λ c. is_print c ≡ true) pass
    → length pass ≤ 40
    → w.client.user ≢ []
    → user_check_pass w.client.user pass w.users ≡ true
    → env.sent ≡ pos (length greeted)
    → (w' : World) × (pop3_handle_write (engine auth_spec) t env w ≡ some w')
      × (w'.wire ≡ w.wire ++ greeted)
      × (w'.client.current ≡ some transaction)
      × (contents w'.client.read_buffer ≡ rest)
      × (w'.client.user ≡ w.client.user)
      × (user_get_state w.client.user w'.users ≡ online)
unfolding init_trans auth_parse
pop3_handle_write-login t env w pass rest cur fin par ov o0 o1 big iv held ok short named right
      sent =
    let q = holding auth_spec auth_arg_size (codes "PASS") pass s3 true in
    let (b, parsed, bv, left, stop) =
      line_parse-line auth_spec auth_spec-IsLineSpec auth_arg_size (codes "PASS") (some pass) rest
        w.client.read_buffer (omega arith) letters (omega arith) ok short iv held in
    let w1 : World = put_client w (record w.client { auth_parser = q; read_buffer = b }) in
    let arg : arg_of w1 ≡ pass =
      c_str-pad auth_arg_size pass (prints-no_nul pass ok) (omega arith) in
    let right1 : user_check_pass w1.client.user (arg_of w1) w1.users ≡ true = rw arg right in
    let logs = logs_in w1 refl named right1 in
    let text : message w1 ≡ greeted = rw logs (greets w1 refl refl right1) in
    let (w2, ans, wire, r0, r1, next, us, name, input, state) =
      auth_answer-sends env w1 ov o0 o1 big (sent ∙ ap (λ s. pos (length s)) (sym text)) in
    let parse = ap (λ p. line_parse (engine auth_spec) p w.client.read_buffer) par ∙ parsed in
    let answered =
      answers (engine auth_spec) env w fin (drained w.client.write_buffer o0 o1) parse refl in
    let chosen = ap (λ r. some (next_of r.1.client.next_state, w2)) logs in
    (
      entered w2,
      enters (engine auth_spec) t env w w2 cur (answered ∙ (ans ∙ chosen)) (state ∙ cur),
      wire ∙ ap (λ s. w.wire ++ s) text,
      refl,
      ap contents input ∙ left,
      name ∙ ap (λ r. r.1.client.user) logs,
      ap (user_get_state w.client.user) (us ∙ ap (λ r. r.1.users) logs) ∙ is_online w1 right1,
    )
