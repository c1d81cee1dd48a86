-- ===== src/Start/Main.antt =====
-- src/server/main.c: the whole `main`, from the options on.
use pop.Common.{ℕ, false, Option, none, some, ◌>>=◌, List, Str, pos, negsuc, if◌then◌else◌}
use pop.Options.{Found, parse_args, add_first_user}
use pop.Selector.{FdHandler}
use pop.Start.{Handler, StartEnv, Ended, run_server}
use pop.Users.{Users}

module _ {D W : Type 0} (ops : FdHandler Handler D W) where
  abbrev pub return_1 : W → Option (Ended W)
  return_1 w = some (record { status = some (pos 1); open_fds = λ j. false; rest = w })

  -- `rest` is the program with the external command of the mails and the table of users, which is `t`
  -- before. The texts of `help` and `version` go to the terminal.
  unfoldable pub main :
      StartEnv → (Option Str → Users → W) → Users → ℕ → List Found → ℕ → Option (Ended W)
  main env rest t argc found optind =
      let (argcmd, args) = parse_args argc found optind in
      let run = (do
        (code, t') ← add_first_user args t
        run_server ops env (rest args.ext_cmd t')) in
      elim argcmd [
        | negsuc k ↦ return_1 (rest none t)
        | pos n ↦ if args.version then return_1 (rest none t) else run
      ]
