-- ===== src/Monitor/Events.antt =====
-- src/server/monitor.c, src/server/monitorCommands.c: the handlers of a connection of the monitor
-- and of the programs that it starts. A use of the connection's memory after it is given back is
-- `none`.
use pop.Common.{
  ℕ, Bool, true, false, not, ◌&&◌, ◌||◌, Option, none, some, [], ◌∷◌, ◌++◌, Str, codes, c_str,
  str_eq, ℤ, pos, negsuc, ◌==◌, if◌then◌else◌, ◌>>=◌, length, print_digits,
}
use pop.MonitorDef
use pop.Buffer.{
  buffer_can_write, buffer_can_read, buffer_write_ptr, buffer_write_adv, buffer_read_ptr,
  buffer_read_adv, fill, contents,
}
use pop.Parser.{Parser}
use pop.Parser.Line.{LineParser}
use pop.Parser.Monitor.{init_monitor_parser, monitor_parse}
use pop.Client.{Interest, op_noop, op_read, op_write}
use pop.Writter.{taken}
use pop.Mailbox.{print_ld}
use pop.Monitor.{
  rm_maildir, populate_maildir, MonitorWorld, MonitorEnv, put_conn, put_err, say, handle_error,
  close_connection,
}
use pop.Monitor.Commands.{
  arg_of, monitor_login_cmd, monitor_quit_cmd, monitor_get_users_cmd, monitor_get_one_user_cmd,
  monitor_add_user_cmd, monitor_delete_user_cmd, monitor_delete_maildir, monitor_populate_maildir,
}

abbrev pub cmd_of : MonitorWorld → Str
cmd_of m = c_str m.conn.monitor_parser.cmd

abbrev set_interest : MonitorWorld → Interest → MonitorWorld
set_interest m i = record m { interest = i }

abbrev set_sending : MonitorWorld → Bool → MonitorWorld
set_sending m b = put_conn m (record m.conn { is_sending = b })

abbrev counter_msg : Str → Str
counter_msg n = codes "OwO " ++ (n ++ codes "\r\n\r\n")

abbrev pub commands_msg : Str
commands_msg =
    codes
      "OwO Commands:\r\nLOGIN\r\nQUIT\r\nCOMMANDS\r\nGET_CURR_CONN\r\nGET_TOTAL_CONN\r\nGET_SENT_BYTES\r\nGET_USERS\r\nGET_USER <username>\r\nADD_USER <username> <password>\r\nDELETE_USER <username>\r\nPOPULATE_USER <username>\r\n\r\n"

-- The end of `handle_cmd` and of `handle_finished_cmd`: an error code is answered in place of the
-- message.
unfoldable pub conclude : Str × MonitorWorld → Option (Bool × MonitorWorld)
conclude (msg, m) =
    let told = say true msg m >>= λ m'. some (true, m') in
    if not (m.conn.err_code == MonitorDef.no_error) then handle_error m else told

-- The end of the two commands that start a program: without an error the connection waits for it.
abbrev await : MonitorWorld → Option (Bool × MonitorWorld)
await m =
    if m.conn.err_code == MonitorDef.no_error
    then some (true, set_interest (set_sending m false) op_noop)
    else conclude ([], m)

abbrev no_list : MonitorWorld → Option (Bool × MonitorWorld)
no_list m = conclude ([], put_err m MonitorDef.not_user_list)

abbrev pub is_ok : MonitorWorld → Bool
is_ok m = m.conn.err_code == MonitorDef.no_error

-- The commands on the list of users.
unfoldable pub list_cmd : MonitorEnv → MonitorWorld → Option (Bool × MonitorWorld)
unfolding monitor_get_users_cmd monitor_get_one_user_cmd monitor_add_user_cmd monitor_delete_maildir
    monitor_populate_maildir conclude
list_cmd env m =
    let users = monitor_get_users_cmd m.users >>= λ msg. conclude (msg, m) in
    let add = monitor_add_user_cmd env m >>= conclude in
    if str_eq (cmd_of m) (codes "GET_USERS")
    then users
    else if str_eq (cmd_of m) (codes "GET_USER")
    then conclude (monitor_get_one_user_cmd (arg_of m) m)
    else if str_eq (cmd_of m) (codes "ADD_USER")
    then add
    else if str_eq (cmd_of m) (codes "DELETE_USER")
    then await (monitor_delete_maildir env m)
    else await (monitor_populate_maildir env m)

unfoldable pub is_list_cmd : Str → Bool
is_list_cmd cmd =
    str_eq cmd (codes "GET_USERS")
    || (str_eq cmd (codes "GET_USER")
        || (str_eq cmd (codes "ADD_USER")
            || (str_eq cmd (codes "DELETE_USER") || str_eq cmd (codes "POPULATE_USER"))))

unfoldable pub handle_cmd : MonitorEnv → MonitorWorld → Option (Bool × MonitorWorld)
unfolding monitor_login_cmd conclude list_cmd is_list_cmd
handle_cmd env m =
    let login = (do
      m' ← monitor_login_cmd m
      conclude ((if is_ok m' then codes "OwO Successfully logged\r\n\r\n" else []), m')) in
    let list = if m.has_list then list_cmd env m else no_list m in
    if str_eq (cmd_of m) (codes "LOGIN")
    then login
    else if str_eq (cmd_of m) (codes "QUIT")
    then some (false, monitor_quit_cmd m)
    else if str_eq (cmd_of m) (codes "COMMANDS")
    then conclude (commands_msg, m)
    else if not m.conn.logged
    then conclude ([], put_err m MonitorDef.not_logged)
    else if str_eq (cmd_of m) (codes "GET_CURR_CONN")
    then conclude (counter_msg (print_ld m.collected.curr_connections), m)
    else if str_eq (cmd_of m) (codes "GET_TOTAL_CONN")
    then conclude (counter_msg (print_ld m.collected.total_connections), m)
    else if str_eq (cmd_of m) (codes "GET_SENT_BYTES")
    then conclude (counter_msg (print_digits 20 m.collected.sent_bytes), m)
    else if is_list_cmd (cmd_of m)
    then list
    else conclude ([], put_err m MonitorDef.invalid_cmd)

unfoldable pub handle_finished_cmd : MonitorWorld → Option (Bool × MonitorWorld)
handle_finished_cmd m =
    let c = m.conn.cmd_data in
    if not (c.err_code == MonitorDef.no_error)
    then handle_error (put_err m c.err_code)
    else elim c.cmd_code [
      | rm_maildir ↦
          if m.has_list
          then conclude (monitor_delete_user_cmd m)
          else conclude ([], put_err m MonitorDef.not_user_list)
      | populate_maildir ↦ conclude (codes "OwO User populated\r\n\r\n", m)
    ]

-- Whether data remains, and the world.
unfoldable pub continue_sending : MonitorEnv → MonitorWorld → Option (Bool × MonitorWorld)
unfolding close_connection
continue_sending env m =
    let out = m.conn.write_buffer in
    let m1 = if buffer_can_read out then m else set_interest m op_read in
    elim env.sent [
      | negsuc n ↦ (buffer_read_ptr out >>= λ p. some (false, close_connection m1))
      | pos n ↦ (do
        p ← buffer_read_ptr out
        b ← buffer_read_adv out env.sent
        let m2 = record m1 { wire = m1.wire ++ taken env.sent (contents out) }
        some (buffer_can_read b, put_conn m2 (record m2.conn { write_buffer = b })))
    ]

-- The connection's memory is used again behind the call.
abbrev in_use : MonitorWorld → Option MonitorWorld
in_use m = if m.conn.closed then none else some m

-- The branch of `handleMonitorWrite` with data to send.
unfoldable pub resume_sending : MonitorEnv → MonitorWorld → Option MonitorWorld
unfolding continue_sending
resume_sending env m = do
  (remaining, m1) ← continue_sending env m
  m2 ← in_use m1
  let m3 = if remaining then m2 else set_sending m2 false
  let idle = not (buffer_can_read m3.conn.read_buffer) && not m3.conn.cmd_data.finished_cmd
  some (if idle then set_interest m3 op_read else m3)

-- The branch for a program that has ended.
unfoldable pub answer_finished : MonitorWorld → Option MonitorWorld
answer_finished m = do
  (goes_on, m1) ← handle_finished_cmd m
  m2 ← in_use (if goes_on then m1 else close_connection m1)
  some (
      put_conn m2 (record m2.conn {
        is_sending = true;
        cmd_data = record m2.conn.cmd_data { finished_cmd = false };
      }))

-- What follows a command line that is parsed.
unfoldable pub answer_cmd : MonitorEnv → MonitorWorld → Option MonitorWorld
answer_cmd env m =
    let refused = (do
      (goes_on, m1) ← handle_error m
      some (if goes_on then m1 else close_connection m1)) in
    let served = (do
      (goes_on, m1) ← handle_cmd env (set_sending m true)
      let fresh =
          put_conn m1
            (record m1.conn { monitor_parser = init_monitor_parser m1.conn.monitor_parser })
      some (if goes_on then fresh else close_connection m1)) in
    if m.conn.monitor_parser.err_value == MonitorDef.no_error then served else refused

-- What follows where nothing is being sent and no program has ended.
unfoldable pub answer_line : Parser LineParser → MonitorEnv → MonitorWorld → Option MonitorWorld
answer_line engine env m = do
  (p, b) ← monitor_parse engine m.conn.monitor_parser m.conn.read_buffer
  let m1 = put_conn m (record m.conn { monitor_parser = p; read_buffer = b })
  let waiting = if buffer_can_read b then m1 else set_interest m1 op_read
  let answer = answer_cmd env m1
  if p.ended then answer else some waiting

unfoldable pub handle_monitor_write :
    Parser LineParser → MonitorEnv → MonitorWorld → Option MonitorWorld
unfolding answer_line
handle_monitor_write engine env m =
    if m.conn.is_sending
    then resume_sending env m
    else if m.conn.cmd_data.finished_cmd
    then answer_finished m
    else answer_line engine env m

-- With a full buffer the bytes asked for are none, which `recv` answers with none.
unfoldable pub handle_monitor_read : MonitorEnv → MonitorWorld → Option MonitorWorld
unfolding close_connection
handle_monitor_read env m =
    let full = set_interest (set_sending m true) op_write in
    let m1 = if buffer_can_write m.conn.read_buffer then m else full in
    let got = (do
      p ← buffer_write_ptr m.conn.read_buffer
      elim env.received [
        | none ↦ some (close_connection m1)
        | some [] ↦ some (close_connection m1)
        | some (c ∷ cs) ↦ (do
          b ← fill m.conn.read_buffer (c ∷ cs)
          b' ← buffer_write_adv b (pos (length (c ∷ cs)))
          some (set_interest (put_conn m1 (record m1.conn { read_buffer = b' })) op_write))
      ]) in
    if m.conn.is_sending then some (set_interest m op_write) else got

-- `handle_command`, for a program that writes `bytes_read` bytes; "DONE" and its line end are 5.
unfoldable pub handle_command : ℤ → MonitorWorld → MonitorWorld
handle_command bytes_read m =
    let c = m.conn.cmd_data in
    let failure : ℕ = elim c.cmd_code [
      | rm_maildir ↦ MonitorDef.cant_rm_maildir
      | populate_maildir ↦ MonitorDef.populate_error
    ] in
    let is_done : Bool = elim bytes_read [ pos n ↦ n == 5 | negsuc n ↦ false ] in
    set_interest
      (put_conn m (record m.conn {
        cmd_data = record c {
          err_code = if is_done then MonitorDef.no_error else failure;
          finished_cmd = true;
        };
      }))
      op_write
