-- ===== src/Cmd/Main/Running.antt =====
-- What the client does with its command line.
use pop.Common.{
  ℕ, suc, ◌≡◌, refl, ap, ◌∙◌, ◌⊎◌, true, false, Option-cases, inl, inr, none, some, List, [], ◌∷◌,
  ◌++◌, Str, pos, ◌>>=◌, length, drop, get_elem?, arith,
}
use pop.Cmd.Connect.{Peer, connection_open, none_open, is_open, reached, connection_open-connected}
use pop.Options.{ArgsT, Found, parse_args}
use pop.Cmd.{
  MonitorCmd, quit, login, get_users, get_user, get_curr_conn, get_total_conn, get_sent_bytes,
  add_user, populate_user, delete_user, commands, n_cmds, cmd_invalid, value, monitor_cmds_args,
  get_cmd_index, Client, call, recv_cmd, cmd_exec, cmd_quit,
}
use pop.Cmd.Main.{is_invalid, exec, or_admin, ending, with_args, main}
use pop.Cmd.Main.Words.{Call, IsCall, AreCalls, words, IsStop, run_all, serve-Reads}

-- A command reads its own arguments, and none of the words behind them.
call-own :
    (cmd : MonitorCmd) (args more : List Str) (c : Client)
    → is_invalid cmd ≡ false
    → get_elem? monitor_cmds_args (value cmd) ≡ some (length args)
    → call cmd (args ++ more) c ≡ call cmd args c
unfolding call
call-own quit args more c v h = refl
call-own login [] more c v h = absurd cc
call-own login (a ∷ []) more c v h = absurd cc
call-own login (a ∷ b ∷ args) more c v h = refl
call-own get_users args more c v h = refl
call-own get_user [] more c v h = absurd cc
call-own get_user (a ∷ args) more c v h = refl
call-own get_curr_conn args more c v h = refl
call-own get_total_conn args more c v h = refl
call-own get_sent_bytes args more c v h = refl
call-own add_user [] more c v h = absurd cc
call-own add_user (a ∷ []) more c v h = absurd cc
call-own add_user (a ∷ b ∷ args) more c v h = refl
call-own populate_user [] more c v h = absurd cc
call-own populate_user (a ∷ args) more c v h = refl
call-own delete_user [] more c v h = absurd cc
call-own delete_user (a ∷ args) more c v h = refl
call-own commands args more c v h = refl
call-own n_cmds args more c v h = refl
call-own cmd_invalid args more c v h = absurd cc

exec-own :
    (word : Str) (args more : List Str) (c : Client)
    → IsCall (word, args)
    → exec (get_cmd_index word) (args ++ more) c ≡ exec (get_cmd_index word) args c
unfolding exec cmd_exec
exec-own word args more c (v, h) = rw (call-own (get_cmd_index word) args more c v h) refl

-- The result of `cmd_exec` is never below 0.
cmd_exec-result :
    (cmd : MonitorCmd) (args : List Str) (c : Client)
    → (cmd_exec cmd args c ≡ none)
      ⊎ ((r : ℕ) × (c' : Client) × (cmd_exec cmd args c ≡ some (pos r, c')))
unfolding cmd_exec
cmd_exec-result cmd args c = elim (Option-cases (call cmd args c)) [
  | inl e ↦ inl (rw e refl)
  | inr (r, e) ↦ elim (Option-cases r) [
    | inl f ↦ inr (1, c, rw e (rw f refl))
    | inr (c1, f) ↦ elim (Option-cases (recv_cmd c1)) [
      | inl g ↦ inl (rw e (rw f (rw g refl)))
      | inr (c2, g) ↦ inr (0, c2, rw e (rw f (rw g refl)))
    ]
  ]
]

-- Where the options are accepted, no version is asked for and an address of the monitor answers, the
-- client logs in with the user and the password of the options or else `admin`, executes in order the
-- commands that the words from `argcmd` on spell, each with as many words behind it as it has
-- arguments, up to the end, a word that names no command, or a command with too few words behind it,
-- and sends QUIT. Then it returns 0, unless it waits for an answer that does not come, in which case it
-- does not return. A refused login changes nothing of this. The loop needs no more rounds than there
-- are words, and reads no word outside the command line.
pub main_lem :
    (argv : List Str) (found : List Found) (optind argcmd : ℕ) (args : ArgsT) (peers : List Peer)
    (fd : ℕ) (c : Client)
    → parse_args (length argv) found optind ≡ (pos argcmd, args)
    → args.version ≡ false
    → reached peers ≡ some fd
    → (calls : List Call) × (rest : List Str) × (drop argcmd argv ≡ words calls ++ rest)
      × AreCalls calls
      × IsStop rest
      × (main argv found optind (some peers) c ≡ (
          exec login (or_admin args.user ∷ or_admin args.pass ∷ []) c >>= λ c1.
          run_all exec calls c1 >>= λ c2. cmd_quit c2 >>= λ c3. some (ending c3)))
unfolding main with_args exec
main_lem argv found optind argcmd args peers fd c p v h =
    let names = or_admin args.user ∷ or_admin args.pass ∷ [] in
    let start : main argv found optind (some peers) c ≡ with_args argv (pos argcmd, args) true c =
      ap (λ a. with_args argv a (is_open (connection_open (some peers) none_open).0) c) p
      ∙ ap (λ b. with_args argv (pos argcmd, args) b c) (connection_open-connected peers fd h) in
    elim (cmd_exec-result login names c) [
      | inl e ↦
          let r = serve-Reads exec exec-own (suc (length argv)) argv argcmd c (omega arith) in
          (r.calls, r.rest, r.split, r.good, r.stop, start ∙ rw v (rw e refl))
      | inr (n, c1, e) ↦
          let r = serve-Reads exec exec-own (suc (length argv)) argv argcmd c1 (omega arith) in
          (
            r.calls,
            r.rest,
            r.split,
            r.good,
            r.stop,
            start
                ∙ rw v
                    (rw e (ap (λ o. o >>= λ c2. cmd_quit c2 >>= λ c3. some (ending c3)) r.result)),
          )
    ]
