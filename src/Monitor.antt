-- ===== src/Monitor.antt =====
-- src/server/monitor.c, include/server/monitor.h: the data of a connection of the monitor, the parts
-- of the server that its handlers change, its messages and its end. The bytes of a message are
-- copied with their terminator. `none` of a result is undefined behaviour or a failed `assert`.
pub mod Commands
pub mod Events
pub mod Saying
pub mod Listing
pub mod Access
pub mod Deleting
pub mod Stuck
pub mod Adding
use pop.Common.{
  ℕ, ◌+◌, ◌-◌, Bool, true, false, not, Option, none, some, List, [], ◌∷◌, ◌++◌, Str, codes, ℤ, pos,
  negsuc, ltb, ◌==◌, if◌then◌else◌, ◌>>=◌, length, replicate,
}
use pop.MonitorDef
use pop.Buffer.{Buffer, buffer_init, buffer_can_write, buffer_write_ptr, buffer_write_adv, fill}
use pop.Parser.Line.{LineParser}
use pop.Parser.Monitor.{init_monitor_parser}
use pop.Users.{Users}
use pop.Client.{Interest, Counters}
use pop.Writter.{put_msg}

-- `enum monitor_cmd_code`
pub data CmdCode : Type 0 where
  rm_maildir populate_maildir : CmdCode

-- `monitor_cmd_data_t`, without the descriptors and the selector.
pub record CmdData : Type 0 where
  pub finished_cmd : Bool
  pub cmd_code : CmdCode
  pub err_code : ℕ

-- `monitor_data`, without the socket. Once `closed` is set the memory is given back.
pub record MonitorData : Type 0 where
  pub closed : Bool
  pub is_sending : Bool
  pub logged : Bool
  pub err_code : ℕ
  pub write_buffer : Buffer
  pub read_buffer : Buffer
  pub monitor_parser : LineParser
  pub cmd_data : CmdData

-- `logged` is the global of monitor.c; `has_list` tells whether `user_list` is not NULL; `interest`
-- is that of the connection; `wire` is what its socket has taken, oldest first; `executed` are the
-- commands given to `popen`, latest first.
pub record MonitorWorld : Type 0 where
  pub conn : MonitorData
  pub logged : Bool
  pub collected : Counters
  pub has_list : Bool
  pub users : Users
  pub interest : Interest
  pub wire : Str
  pub executed : List Str

-- What the system answers in one call: the result of `send`, the bytes of `recv` (`none` is a result
-- below 0), whether a command is started and registered, and whether a maildir is built.
pub record MonitorEnv : Type 0 where
  pub sent : ℤ
  pub received : Option Str
  pub started : Bool
  pub built : Bool

abbrev pub put_conn : MonitorWorld → MonitorData → MonitorWorld
put_conn m d = record m { conn = d }

abbrev pub put_err : MonitorWorld → ℕ → MonitorWorld
put_err m code = put_conn m (record m.conn { err_code = code })

unfoldable pub init_new_monitor_data : MonitorData → MonitorData
unfolding buffer_init
init_new_monitor_data d = record {
  closed = false;
  is_sending = false;
  logged = false;
  err_code = MonitorDef.no_error;
  write_buffer =
      buffer_init MonitorDef.monitor_buffer_size (replicate MonitorDef.monitor_buffer_size 0);
  read_buffer =
      buffer_init MonitorDef.monitor_buffer_size (replicate MonitorDef.monitor_buffer_size 0);
  monitor_parser = init_monitor_parser d.monitor_parser;
  cmd_data = record { finished_cmd = false; cmd_code = rm_maildir; err_code = MonitorDef.no_error };
}

-- `put_msg` copies the message with its terminator. The message is never NULL here; `logs` tells whether `log_error` is given.
unfoldable pub write_in_buffer : Bool → Str → Buffer → Option (Bool × Buffer)
write_in_buffer logs msg b =
    let put = (do
      (at, can_write) ← buffer_write_ptr b
      let copied = put_msg b msg >>= λ b'. some (true, b')
      if ltb can_write (length msg) then some (false, b) else copied) in
    if buffer_can_write b then put else if logs then some (false, b) else put

-- The message for an error code, and whether the connection goes on. The second test for
-- MONITOR_CANT_RM_MAILDIR is never reached.
unfoldable pub error_message : ℕ → Str × Bool
error_message code =
    if code == MonitorDef.unknown_error
    then (codes "UwU Unexpected Error\r\n\r\n", false)
    else if code == MonitorDef.wrong_login
    then (codes "UwU Wrong username or password\r\n\r\n", true)
    else if code == MonitorDef.invalid_arg
    then (codes "UwU Invalid Argument\r\n\r\n", true)
    else if code == MonitorDef.invalid_user
    then (codes "UwU Sorry that user doesn't exists\r\n\r\n", true)
    else if code == MonitorDef.already_logged
    then (codes "UWU User Already Logged\r\n\r\n", true)
    else if code == MonitorDef.invalid_cmd
    then (codes "UwU Invalid command\r\n\r\n", true)
    else if code == MonitorDef.full_users
    then (codes "UwU Max number of users reached\r\n\r\n", true)
    else if code == MonitorDef.user_exists
    then (codes "UwU User already exists!\r\n\r\n", true)
    else if code == MonitorDef.not_logged
    then (codes "UwU Login required\r\n\r\n", true)
    else if code == MonitorDef.user_online
    then (codes "UwU Can't modify online user\r\n\r\n", true)
    else if code == MonitorDef.cant_create_maildir
    then (codes "UwU Can't create user maildir\r\n\r\n", true)
    else if code == MonitorDef.cant_rm_maildir
    then (codes "UwU Can't remove user maildir\r\n\r\n", true)
    else if code == MonitorDef.cant_rm_maildir
    then (codes "UwU Error Removing files\r\n\r\n", true)
    else if code == MonitorDef.populate_error
    then (codes "UwU Couldn't populate maildir\r\n\r\n", true)
    else (codes "UwU Unexpected Error\r\n\r\n", false)

-- The answer put in the output; a message that does not fit is dropped.
unfoldable pub say : Bool → Str → MonitorWorld → Option MonitorWorld
unfolding write_in_buffer
say logs msg m = do
  (ok, b) ← write_in_buffer logs msg m.conn.write_buffer
  some (put_conn m (record m.conn { write_buffer = b }))

unfoldable pub handle_error : MonitorWorld → Option (Bool × MonitorWorld)
unfolding say error_message
handle_error m =
    let code = m.conn.err_code in
    let m' = put_err m MonitorDef.no_error in
    let (msg, goes_on) = error_message code in
    let told = say false msg m' >>= λ m''. some (goes_on, m'') in
    if code == MonitorDef.no_error then some (true, m') else told

-- The closing that `selector_unregister_fd` calls finds the connection closed already.
unfoldable pub close_connection : MonitorWorld → MonitorWorld
close_connection m =
    if m.conn.closed
    then m
    else record (put_conn m (record m.conn { closed = true })) { logged = false }
