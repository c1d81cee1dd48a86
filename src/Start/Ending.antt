-- ===== src/Start/Ending.antt =====
-- How the server ends, whatever the system answers.
use pop.Common.{
  ℕ, ◌≡◌, ◌≤◌, ◌⊎◌, inl, inr, sym, ap, some_inj, Bool, Bool-cases, true, false, if◌then◌else◌,
  Option, none, some, ◌>>=◌, List, Str, ℤ, pos, negsuc, arith,
}
use pop.Options.{Found, parse_args, add_first_user}
use pop.Selector.{FdHandler}
use pop.Start.{Handler, StartEnv, Ended, is_below, run_server}
use pop.Start.Closing.{run_server-closes}
use pop.Start.Main.{main, return_1}
use pop.Users.{Code, Users}
use pop.Start.Failing.{first, second, third, run_server-unopened, run_server-status}

module _ {D W : Type 0} (ops : FdHandler Handler D W) where
  settled_or_unopened :
      (env : StartEnv) (w : W) (r : Ended W)
      → run_server ops env w ≡ some r
      → ((n : ℕ) × (n ≤ 2) × (r.status ≡ some (pos n))) ⊎ (is_below (third env).0 ≡ true)
  settled_or_unopened env w r e = elim (Bool-cases (is_below (third env).0)) [
    | inl h ↦ inr h
    | inr h3 ↦ elim (Bool-cases (is_below (first env).0)) [
      | inl h ↦ let undefined = run_server-unopened ops env w (inl h) in absurd cc
      | inr h1 ↦ elim (Bool-cases (is_below (second env).0)) [
        | inl h ↦ let undefined = run_server-unopened ops env w (inr h) in absurd cc
        | inr h2 ↦ inl (run_server-status ops env w r h1 h2 h3 e)
      ]
    ]
  ]

  return_1-ends :
      (env : StartEnv) (w : W) (r : Ended W)
      → return_1 ops w ≡ some r
      → ((j : ℕ) → r.open_fds j ≡ false)
        × (((n : ℕ) × (n ≤ 2) × (r.status ≡ some (pos n))) ⊎ (is_below (third env).0 ≡ true))
  return_1-ends env w r e =
      let left = some_inj (sym e) in
      (λ j. ap (λ v. v.open_fds j) left, inl (1, omega arith, ap (λ v. v.status) left))

  run_server-ends :
      (env : StartEnv) (w : W) (r : Ended W)
      → run_server ops env w ≡ some r
      → ((j : ℕ) → r.open_fds j ≡ false)
        × (((n : ℕ) × (n ≤ 2) × (r.status ≡ some (pos n))) ⊎ (is_below (third env).0 ≡ true))
  run_server-ends env w r e = (run_server-closes ops env w r e, settled_or_unopened env w r e)

  -- When the program ends, whatever its options are and at whatever point of its start or of its loop,
  -- none of the three sockets on which it listens is open, and its exit status is 0, 1 or 2, unless the
  -- third of them could not be made.
  pub main-ends :
      (env : StartEnv) (rest : Option Str → Users → W) (t : Users) (argc : ℕ) (found : List Found)
      (optind : ℕ) (r : Ended W)
      → main ops env rest t argc found optind ≡ some r
      → ((j : ℕ) → r.open_fds j ≡ false)
        × (((n : ℕ) × (n ≤ 2) × (r.status ≡ some (pos n))) ⊎ (is_below (third env).0 ≡ true))
  unfolding main
  main-ends env rest t argc found optind r e =
      let args = (parse_args argc found optind).1 in
      from (parse_args argc found optind).0 args.version (rest none t) (add_first_user args t) e
    where
      from :
          (argcmd : ℤ) (v : Bool) (w : W) (added : Option (Code × Users))
          → (elim argcmd as (λ z. Option (Ended W)) [
            | negsuc k ↦ return_1 ops w
            | pos n ↦ if v then return_1 ops w else (do
              (code, t') ← added
              run_server ops env (rest (parse_args argc found optind).1.ext_cmd t'))
          ])
            ≡ some r
          → ((j : ℕ) → r.open_fds j ≡ false)
            × (((n : ℕ) × (n ≤ 2) × (r.status ≡ some (pos n))) ⊎ (is_below (third env).0 ≡ true))
      from (negsuc k) v w added e = return_1-ends env w r e
      from (pos n) true w added e = return_1-ends env w r e
      from (pos n) false w none e = absurd cc
      from (pos n) false w (some (code, t')) e =
          run_server-ends env (rest (parse_args argc found optind).1.ext_cmd t') r e
