-- ===== src/Monitor/Commands.antt =====
-- src/server/monitorCommands.c, include/server/monitorCommands.h: the commands of the monitor, and
-- the programs that two of them start.
use pop.Common.{
  ℕ, ◌+◌, ◌-◌, Bool, true, false, not, ◌&&◌, Option, none, some, List, [], ◌∷◌, ◌++◌, Str, codes,
  c_str, str_eq, ltb, leb, if◌then◌else◌, ◌>>=◌, length, is_space, skip_space,
}
use pop.MonitorDef
use pop.Users.{
  UserState, online, logging, User, Users, Code, done, minus_one, minus_two, is_free, user_exists,
  user_add, user_delete,
}
use pop.Auth.{maildir_set_username}
use pop.Maildir.{UserMaildir}
use pop.Monitor.{
  CmdCode, rm_maildir, populate_maildir, CmdData, MonitorWorld, MonitorEnv, put_conn, put_err,
}

abbrev pub arg_of : MonitorWorld → Str
arg_of m = c_str m.conn.monitor_parser.arg

-- The size of the arrays for the two words.
abbrev pub word_size : ℕ
word_size = 40

-- `%s` of `sscanf` behind `skip_space`: a word, and what stands behind it.
unfoldable pub scan_word : Str → Str × Str
scan_word [] = ([], [])
scan_word (c ∷ cs) =
    let rest = scan_word cs in if is_space c then ([], c ∷ cs) else (c ∷ rest.0, rest.1)

-- `sscanf(args, "%s %s", ...)` for two arrays of 40 bytes: the two words, or `none` inside where
-- fewer are found. A word is written with its terminator.
unfoldable pub scan_two : Str → Option (Option (Str × Str))
unfolding skip_space scan_word
scan_two args =
    let (first, rest) = scan_word (skip_space args) in
    let (second, others) = scan_word (skip_space rest) in
    if leb word_size (length first)
    then none
    else if leb word_size (length second)
    then none
    else if str_eq first []
    then some none
    else if str_eq second []
    then some none
    else some (some (first, second))

unfoldable pub extract_credentials : Str → Option (Option (Str × Str))
unfolding scan_two
extract_credentials args =
    let scanned = scan_two args in if ltb (length args) 4 then some none else scanned

unfoldable pub check_credentials : Str → Str → Bool
check_credentials user pass = str_eq user (codes "admin") && str_eq pass (codes "admin")

-- The effect of good credentials.
abbrev pub log_in : MonitorWorld → MonitorWorld
log_in m =
    if m.logged
    then put_err m MonitorDef.already_logged
    else record (put_conn m (record m.conn { logged = true; err_code = MonitorDef.no_error })) {
      logged = true;
    }

unfoldable pub monitor_login_cmd : MonitorWorld → Option MonitorWorld
unfolding extract_credentials check_credentials
monitor_login_cmd m = do
  got ← extract_credentials (arg_of m)
  some (elim got [
    | none ↦ put_err m MonitorDef.invalid_arg
    | some (user, pass) ↦
        if check_credentials user pass then log_in m else put_err m MonitorDef.wrong_login
  ])

unfoldable pub monitor_quit_cmd : MonitorWorld → MonitorWorld
monitor_quit_cmd m = put_conn m (record m.conn { logged = false })

unfoldable pub state_str : UserState → Str
state_str online = codes "ONLINE"
state_str logging = codes "LOGGING_IN"
state_str _ = codes "OFFLINE"

abbrev pub max_msg_len : ℕ
max_msg_len = 32768

-- `strcat` on the array `msg`
unfoldable pub strcat : Str → Str → Option Str
strcat msg more = if ltb (length msg + length more) max_msg_len then some (msg ++ more) else none

abbrev pub user_line : User → Str
user_line u = u.uname ++ (b' ' ∷ (state_str u.state ++ codes "\r\n"))

-- The loop over the users. A line is made in an array of 64 bytes; `wrote` stays 5, the length of
-- the first line, so a line is left out only if it alone is longer than the whole message may be.
unfoldable pub list_users : List User → Str → Option Str
unfolding strcat
list_users [] msg = some msg
list_users (u ∷ us) msg =
    let add = strcat msg (user_line u) >>= λ msg'. list_users us msg' in
    let skip = list_users us msg in
    if is_free u
    then skip
    else if leb 64 (length (user_line u))
    then none
    else if ltb (max_msg_len - 2 - 5) (length (user_line u))
    then some msg
    else add

unfoldable pub monitor_get_users_cmd : Users → Option Str
unfolding list_users strcat
monitor_get_users_cmd t = do msg ← list_users t.slots (codes "OwO\r\n"); strcat msg (codes "\r\n")

-- The loop over the users for one name.
unfoldable pub find_line : Str → List User → Option Str
find_line user [] = none
find_line user (u ∷ us) =
    let rest = find_line user us in
    if is_free u
    then rest
    else if str_eq user u.uname
    then some (codes "OwO " ++ (user ++ (b' ' ∷ (state_str u.state ++ codes "\r\n\r\n"))))
    else rest

-- The message, and the connection.
unfoldable pub monitor_get_one_user_cmd : Str → MonitorWorld → Str × MonitorWorld
unfolding find_line
monitor_get_one_user_cmd user m = elim (find_line user m.users.slots) [
  | none ↦ ([], put_err m MonitorDef.invalid_user)
  | some msg ↦ (msg, m)
]

-- What follows `user_add`, whose result and table are given. Where the maildir cannot be built the
-- user is deleted again.
abbrev pub added : MonitorEnv → Str → Code × Users → MonitorWorld → Str × MonitorWorld
added env user (minus_one, t) m = ([], put_err (record m { users = t }) MonitorDef.full_users)
added env user (minus_two, t) m = ([], put_err (record m { users = t }) MonitorDef.user_exists)
added env user (done, t) m =
    if env.built
    then (codes "OwO User " ++ (user ++ codes " added\r\n\r\n"), record m { users = t })
    else ([], put_err (record m { users = (user_delete user t).1 }) MonitorDef.cant_create_maildir)

unfoldable pub monitor_add_user_cmd : MonitorEnv → MonitorWorld → Option (Str × MonitorWorld)
unfolding extract_credentials
monitor_add_user_cmd env m = do
  got ← extract_credentials (arg_of m)
  some (elim got [
    | none ↦ ([], put_err m MonitorDef.invalid_arg)
    | some (user, pass) ↦ added env user (user_add user pass m.users) m
  ])

abbrev pub deleted : Str → Code × Users → MonitorWorld → Str × MonitorWorld
deleted user (minus_one, t) m = ([], put_err (record m { users = t }) MonitorDef.invalid_user)
deleted user (minus_two, t) m = ([], put_err (record m { users = t }) MonitorDef.user_online)
deleted user (done, t) m =
    (codes "OwO User " ++ (user ++ codes " deleted\r\n\r\n"), record m { users = t })

unfoldable pub monitor_delete_user_cmd : MonitorWorld → Str × MonitorWorld
monitor_delete_user_cmd m = deleted (arg_of m) (user_delete (arg_of m) m.users) m

unfoldable pub init_cmd_data : CmdCode → CmdData
init_cmd_data code = record {
  finished_cmd = false;
  cmd_code = code;
  err_code = MonitorDef.no_error;
}

-- A command that does not start is only logged; its result is not used.
unfoldable pub execute_command : MonitorEnv → Str → MonitorWorld → MonitorWorld
execute_command env cmd m = if env.started then record m { executed = cmd ∷ m.executed } else m

-- `maildir_open`, which names the maildir and makes its directories, the last of them `tmp`.
unfoldable pub maildir_open : Str → UserMaildir
unfolding maildir_set_username
maildir_open user =
    maildir_set_username (record { user = []; new = none; dir = []; folder = [] }) user

-- The path without the folder.
unfoldable pub maildir_get_path : UserMaildir → Str
maildir_get_path md = md.dir

unfoldable pub monitor_delete_maildir : MonitorEnv → MonitorWorld → MonitorWorld
unfolding maildir_open init_cmd_data execute_command
monitor_delete_maildir env m =
    let md = maildir_open (arg_of m) in
    let cmd = codes "rm -rf " ++ (md.dir ++ (md.folder ++ codes "; echo DONE")) in
    if not (user_exists (arg_of m) m.users)
    then put_err m MonitorDef.user_exists
    else execute_command env cmd
        (put_conn m (record m.conn { cmd_data = init_cmd_data rm_maildir }))

abbrev populate_script : Str → Str
populate_script path =
    codes
      "id=$(date +%s); for i in $(seq 1 10); do dd if=/dev/urandom bs=1KB count=$((12 + (1111*i) % 49152)) 2> /dev/null | base64 > \""
    ++ (path
        ++ (codes "/new/${id}_mail\"${i}; printf '\\r\\n' >> \""
            ++ (path
                ++ (codes "/new/${id}_mail\"${i}; done; [ $(find "
                    ++ (path
                        ++ (codes
                              "/new/ -maxdepth 1 -type f -name \"${id}_mail*\" | wc -l) -eq 10 ] && echo \"DONE\" || rm "
                            ++ (path ++ codes "/new/\"${id}\"*")))))))

unfoldable pub monitor_populate_maildir : MonitorEnv → MonitorWorld → MonitorWorld
unfolding maildir_open maildir_get_path init_cmd_data execute_command
monitor_populate_maildir env m =
    let md = maildir_open (arg_of m) in
    if not (user_exists (arg_of m) m.users)
    then put_err m MonitorDef.invalid_user
    else execute_command env (populate_script (maildir_get_path md))
        (put_conn m (record m.conn { cmd_data = init_cmd_data populate_maildir }))
