-- ===== src/Cmd/Main.antt =====
-- src/client/client.c: the client of the monitor. What `getopt` finds and the addresses of
-- the monitor are arguments; the texts for the terminal and the closing of the socket are left out.
pub mod Words
pub mod Running
use pop.Common.{
  ℕ, zero, suc, ◌+◌, ◌-◌, Bool, true, false, not, Option, none, some, List, [], ◌∷◌, Str, codes, ℤ,
  pos, negsuc, ltb, if◌then◌else◌, ◌>>=◌, get_elem?, length, drop,
}
use pop.Cmd.Connect.{Peer, connection_open, none_open, is_open}
use pop.Options.{ArgsT, Found, parse_args}
use pop.Cmd.{
  MonitorCmd, cmd_invalid, login, value, monitor_cmds_args, get_cmd_index, Client, cmd_exec,
  cmd_quit,
}

abbrev pub is_invalid : MonitorCmd → Bool
is_invalid cmd_invalid = true
is_invalid c = false

-- `cmd_exec`, whose result is not looked at in the loop.
unfoldable pub exec : MonitorCmd → List Str → Client → Option Client
exec cmd args c = cmd_exec cmd args c >>= λ (r, c'). some c'

-- The loop on the words of the command line from `argcmd` on, over the function that executes a
-- command, with the rounds left.
unfoldable pub serve :
    {S : Type 0} → (MonitorCmd → List Str → S → Option S) → ℕ → List Str → ℕ → S → Option S
serve run zero argv argcmd s = none
serve run (suc k) argv argcmd s =
    let go = (do
      word ← get_elem? argv argcmd
      let cmd = get_cmd_index word
      let counted = (do
        n ← get_elem? monitor_cmds_args (value cmd)
        let next = run cmd (drop (argcmd + 1) argv) s >>= serve run k argv (argcmd + 1 + n)
        if ltb (length argv - argcmd) (n + 1) then some s else next)
      if is_invalid cmd then some s else counted) in
    if ltb argcmd (length argv) then go else some s

abbrev pub or_admin : Option Str → Str
or_admin none = codes "admin"
or_admin (some s) = s

-- A client that waits for an answer that does not come never returns: its exit status is `none`.
abbrev pub ending : Client → Option ℤ × Client
ending c = (if c.waits then none else some (pos 0), c)

-- What follows `parse_args`, whose result and options are given: the exit status of the program, and
-- the client.
unfoldable pub with_args : List Str → ℤ × ArgsT → Bool → Client → Option (Option ℤ × Client)
with_args argv (negsuc n, args) connected c = some (some (pos 1), c)
with_args argv (pos argcmd, args) connected c =
    let work = (do
      (r, c1) ← cmd_exec login (or_admin args.user ∷ or_admin args.pass ∷ []) c
      elim r [
        | negsuc n ↦ some (some (pos 1), c1)
        | pos n ↦ (do
          c2 ← serve exec (suc (length argv)) argv argcmd c1
          c3 ← cmd_quit c2
          some (ending c3))
      ]) in
    if args.version
    then some (some (pos 1), c)
    else if not connected
    then some (some (pos 1), c)
    else work

-- The connection is made between the tests of the options and the login.
unfoldable pub main :
    List Str → List Found → ℕ → Option (List Peer) → Client → Option (Option ℤ × Client)
unfolding with_args
main argv found optind peers =
    with_args argv (parse_args (length argv) found optind)
      (is_open (connection_open peers none_open).0)
