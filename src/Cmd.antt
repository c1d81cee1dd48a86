-- ===== src/Cmd.antt =====
-- src/client/cmd.c, include/client/spec.h: the commands that the client sends to the monitor. `malloc`
-- is taken to succeed. `none` of a result is a read or a write outside an array.
pub mod Response
pub mod Connect
pub mod Main
pub mod Requests
pub mod Served
pub mod Cut
use pop.Common.{
  ℕ, zero, suc, ◌+◌, ◌-◌, ◌*◌, Bool, true, false, Option, none, some, List, [], ◌∷◌, ◌++◌, Str,
  codes, str_eq, ℤ, pos, negsuc, ltb, ◌==◌, if◌then◌else◌, ◌>>=◌, get_elem?, length, take,
}
use pop.Cmd.Response.{recv_loop, blank}

-- `monitor_cmd`
pub data MonitorCmd : Type 0 where
  quit login get_users get_user get_curr_conn get_total_conn get_sent_bytes add_user populate_user
        delete_user commands n_cmds cmd_invalid :
      MonitorCmd

-- The number of an enumerator.
abbrev pub value : MonitorCmd → ℕ
value quit = 0
value login = 1
value get_users = 2
value get_user = 3
value get_curr_conn = 4
value get_total_conn = 5
value get_sent_bytes = 6
value add_user = 7
value populate_user = 8
value delete_user = 9
value commands = 10
value n_cmds = 11
value cmd_invalid = 12

abbrev pub monitor_cmds : List Str
monitor_cmds =
    codes "QUIT"
    ∷ codes "LOGIN"
    ∷ codes "GET_USERS"
    ∷ codes "GET_USER"
    ∷ codes "GET_CURR_CONN"
    ∷ codes "GET_TOTAL_CONN"
    ∷ codes "GET_SENT_BYTES"
    ∷ codes "ADD_USER"
    ∷ codes "POPULATE_USER"
    ∷ codes "DELETE_USER"
    ∷ codes "COMMANDS"
    ∷ []

-- The enumerators below `N_CMDS`, in the order of their numbers.
abbrev pub cmds : List MonitorCmd
cmds =
    quit ∷ login ∷ get_users ∷ get_user ∷ get_curr_conn ∷ get_total_conn ∷ get_sent_bytes ∷ add_user
    ∷ populate_user ∷ delete_user ∷ commands ∷ []

abbrev pub monitor_cmds_args : List ℕ
monitor_cmds_args = 0 ∷ 2 ∷ 0 ∷ 1 ∷ 0 ∷ 0 ∷ 0 ∷ 2 ∷ 1 ∷ 1 ∷ 0 ∷ []

-- The loop over the names.
unfoldable pub find_cmd : Str → List Str → List MonitorCmd → MonitorCmd
find_cmd cmd [] cs = cmd_invalid
find_cmd cmd (n ∷ ns) [] = cmd_invalid
find_cmd cmd (n ∷ ns) (c ∷ cs) = let rest = find_cmd cmd ns cs in if str_eq cmd n then c else rest

unfoldable pub get_cmd_index : Str → MonitorCmd
unfolding find_cmd
get_cmd_index cmd = find_cmd cmd monitor_cmds cmds

unfoldable pub valid_cmd_argc : MonitorCmd → ℕ → Option Bool
valid_cmd_argc cmd argc =
    if ltb (value n_cmds) (value cmd)
    then some false
    else (get_elem? monitor_cmds_args (value cmd) >>= λ n. some (argc == n))

abbrev pub monitor_max_arg_len : ℕ
monitor_max_arg_len = 40

-- The string that `snprintf` leaves in an array for which it is given the size `n`.
unfoldable pub snprintf : ℕ → Str → Str
snprintf n s = take (n - 1) s

-- What stands in `buf` for a command, without and with arguments.
unfoldable pub request : Str → Option Str → Str
unfolding snprintf
request name none = snprintf (length name + 2 + 1) (name ++ codes "\r\n")
request name (some args) =
    snprintf (length name + 2 + 1 + (length args + 1))
      (name ++ (codes " " ++ (args ++ codes "\r\n")))

-- The client at work: what it has given to `send`, call by call, what it has printed, what `recv` will
-- answer (`none` is a result below 0), and whether it waits for an answer that does not come, in
-- which case nothing more happens.
pub record Client : Type 0 where
  pub sent : List Str
  pub printed : Str
  pub answers : List (Option Str)
  pub waits : Bool

-- `send` is given `send_len - 1` bytes, the length of the string; its result is used for a message
-- only.
unfoldable pub send_cmd : MonitorCmd → Option Str → Client → Option Client
unfolding request
send_cmd cmd args c = do
  name ← get_elem? monitor_cmds (value cmd)
  some (if c.waits then c else record c { sent = c.sent ++ (request name args ∷ []) })

unfoldable pub cmd_quit : Client → Option Client
cmd_quit = send_cmd quit none

unfoldable pub cmd_login : Str → Str → Client → Option Client
unfolding snprintf
cmd_login user pass =
    send_cmd login (some (snprintf (1 + monitor_max_arg_len * 2) (user ++ (codes " " ++ pass))))

unfoldable pub cmd_get_users : Client → Option Client
cmd_get_users = send_cmd get_users none

unfoldable pub cmd_get_user : Str → Client → Option Client
unfolding snprintf
cmd_get_user user = send_cmd get_user (some (snprintf monitor_max_arg_len user))

unfoldable pub cmd_get_curr_conn : Client → Option Client
cmd_get_curr_conn = send_cmd get_curr_conn none

unfoldable pub cmd_get_total_conn : Client → Option Client
cmd_get_total_conn = send_cmd get_total_conn none

unfoldable pub cmd_get_sent_bytes : Client → Option Client
cmd_get_sent_bytes = send_cmd get_sent_bytes none

unfoldable pub cmd_add_user : Str → Str → Client → Option Client
unfolding snprintf
cmd_add_user user pass =
    send_cmd add_user (some (snprintf monitor_max_arg_len (user ++ (codes " " ++ pass))))

unfoldable pub cmd_populate_user : Str → Client → Option Client
unfolding snprintf
cmd_populate_user user = send_cmd populate_user (some (snprintf monitor_max_arg_len user))

unfoldable pub cmd_delete_user : Str → Client → Option Client
unfolding snprintf
cmd_delete_user user = send_cmd delete_user (some (snprintf monitor_max_arg_len user))

unfoldable pub cmd_commands : Client → Option Client
cmd_commands = send_cmd commands none

-- Its result is not looked at.
unfoldable pub recv_cmd : Client → Option Client
recv_cmd c =
    let got = (do
      r ← recv_loop c.answers [] blank
      some (elim r [
        | none ↦ record c { answers = []; waits = true }
        | some (ans, out, rest) ↦ record c { printed = c.printed ++ out; answers = rest }
      ])) in
    if c.waits then some c else got

-- The `switch` of `cmd_exec`; the inner `none` is its default.
unfoldable pub call : MonitorCmd → List Str → Client → Option (Option Client)
unfolding cmd_quit cmd_login cmd_get_users cmd_get_user cmd_get_curr_conn cmd_get_total_conn
    cmd_get_sent_bytes cmd_add_user cmd_populate_user cmd_delete_user cmd_commands
call quit args c = cmd_quit c >>= λ c'. some (some c')
call login args c = do
  user ← get_elem? args 0
  pass ← get_elem? args 1
  c' ← cmd_login user pass c
  some (some c')
call get_users args c = cmd_get_users c >>= λ c'. some (some c')
call get_user args c = get_elem? args 0 >>= λ user. (cmd_get_user user c >>= λ c'. some (some c'))
call get_curr_conn args c = cmd_get_curr_conn c >>= λ c'. some (some c')
call get_total_conn args c = cmd_get_total_conn c >>= λ c'. some (some c')
call get_sent_bytes args c = cmd_get_sent_bytes c >>= λ c'. some (some c')
call add_user args c = do
  user ← get_elem? args 0
  pass ← get_elem? args 1
  c' ← cmd_add_user user pass c
  some (some c')
call populate_user args c =
    get_elem? args 0 >>= λ user. (cmd_populate_user user c >>= λ c'. some (some c'))
call delete_user args c =
    get_elem? args 0 >>= λ user. (cmd_delete_user user c >>= λ c'. some (some c'))
call commands args c = cmd_commands c >>= λ c'. some (some c')
call n_cmds args c = some none
call cmd_invalid args c = some none

-- The result and the client.
unfoldable pub cmd_exec : MonitorCmd → List Str → Client → Option (ℤ × Client)
unfolding call recv_cmd
cmd_exec cmd args c = do
  r ← call cmd args c
  elim r [ none ↦ some (pos 1, c) | some c' ↦ (recv_cmd c' >>= λ c''. some (pos 0, c'')) ]
