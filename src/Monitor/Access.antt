-- ===== src/Monitor/Access.antt =====
-- Who may change the server through the monitor.
use pop.Common.{
  some_inj, ℕ, ◌≡◌, refl, sym, ◌∙◌, ap, subst, inl, inr, Bool, true, false, some, [], Str, codes,
  str_eq, str_eq_iff, ◌==◌, if◌then◌else◌, arith, Bool-cases, Option-cases, ◌>>=◌, >>=-eq-some,
}
use pop.MonitorDef
use pop.Monitor.{
  MonitorWorld, MonitorEnv, put_conn, put_err, write_in_buffer, say, handle_error, error_message,
}
use pop.Monitor.Commands.{
  arg_of, monitor_login_cmd, monitor_quit_cmd, extract_credentials, check_credentials, log_in,
}
use pop.Monitor.Events.{cmd_of, is_ok, commands_msg, conclude, handle_cmd}

-- The users, the programs started and who is logged are the same.
pub record Keeps (m : MonitorWorld) (m' : MonitorWorld) : Type 0 where
  pub users : m'.users ≡ m.users
  pub executed : m'.executed ≡ m.executed
  pub conn_logged : m'.conn.logged ≡ m.conn.logged
  pub logged : m'.logged ≡ m.logged

keeps : (m : MonitorWorld) (code : ℕ) → Keeps m (put_err m code)
keeps m code = record { users = refl; executed = refl; conn_logged = refl; logged = refl }

say-Keeps :
    (logs : Bool) (msg : Str) (m : MonitorWorld) {m' : MonitorWorld}
    → say logs msg m ≡ some m'
    → Keeps m m'
unfolding say
say-Keeps logs msg m {m'} h =
    let (r, e, f) = >>=-eq-some (write_in_buffer logs msg m.conn.write_buffer) _ h in
    let same = some_inj f in
    record {
      users = sym (ap (λ x. x.users) same);
      executed = sym (ap (λ x. x.executed) same);
      conn_logged = sym (ap (λ x. x.conn.logged) same);
      logged = sym (ap (λ x. x.logged) same);
    }

Keeps-trans : {a b c : MonitorWorld} → Keeps a b → Keeps b c → Keeps a c
Keeps-trans x y = record {
  users = y.users ∙ x.users;
  executed = y.executed ∙ x.executed;
  conn_logged = y.conn_logged ∙ x.conn_logged;
  logged = y.logged ∙ x.logged;
}

-- A message that is said, and the result beside it.
said-Keeps :
    (logs : Bool) (msg : Str) (b : Bool) (m : MonitorWorld) {r : Bool × MonitorWorld}
    → (say logs msg m >>= λ m'. some (b, m')) ≡ some r
    → Keeps m r.1
said-Keeps logs msg b m {r} h =
    let (m', e, f) = >>=-eq-some (say logs msg m) _ h in
    subst (λ x. Keeps m x.1) (some_inj f) (say-Keeps logs msg m e)

handle_error-Keeps :
    (m : MonitorWorld) {r : Bool × MonitorWorld} → handle_error m ≡ some r → Keeps m r.1
unfolding handle_error
handle_error-Keeps m {r} h = elim (Bool-cases (m.conn.err_code == MonitorDef.no_error)) [
  | inl e ↦
      let g : some (true, put_err m MonitorDef.no_error) ≡ some r = sym (rw e refl) ∙ h in
      subst (λ x. Keeps m x.1) (some_inj g) (keeps m MonitorDef.no_error)
  | inr e ↦
      let (msg, goes_on) = error_message m.conn.err_code in
      let g : (say false msg (put_err m MonitorDef.no_error) >>= λ m''. some (goes_on, m''))
          ≡ some r =
        sym (rw e refl) ∙ h in
      Keeps-trans (keeps m MonitorDef.no_error)
        (said-Keeps false msg goes_on (put_err m MonitorDef.no_error) g)
]

conclude-Keeps :
    (msg : Str) (m : MonitorWorld) {r : Bool × MonitorWorld}
    → conclude (msg, m) ≡ some r
    → Keeps m r.1
unfolding conclude
conclude-Keeps msg m {r} h = elim (Bool-cases (m.conn.err_code == MonitorDef.no_error)) [
  | inl e ↦
      let g : (say true msg m >>= λ m'. some (true, m')) ≡ some r = sym (rw e refl) ∙ h in
      said-Keeps true msg true m g
  | inr e ↦ let g : handle_error m ≡ some r = sym (rw e refl) ∙ h in handle_error-Keeps m g
]

-- What a connection that was not logged in may do: it changes no user and starts no program, and is
-- logged in only if `grant` holds.
record IsLimited (grant : Type 0) (m : MonitorWorld) (m' : MonitorWorld) : Type 0 where
  users : m'.users ≡ m.users
  executed : m'.executed ≡ m.executed
  enters : m'.conn.logged ≡ true → grant

-- The right to log in: the right words, and no other connection is logged in.
abbrev pub IsAdmin : MonitorWorld → Type 0
IsAdmin m =
    (m.logged ≡ false)
    × (extract_credentials (arg_of m) ≡ some (some (codes "admin", codes "admin")))

limited :
    {grant : Type 0} {m m' : MonitorWorld}
    → m.conn.logged ≡ false
    → Keeps m m'
    → IsLimited grant m m'
limited {m} {m'} o k = record {
  users = k.users;
  executed = k.executed;
  enters = λ e. let no : m'.conn.logged ≡ false = k.conn_logged ∙ o in absurd cc;
}

check_credentials_iff :
    (user pass : Str)
    → check_credentials user pass ≡ true
    → (user ≡ codes "admin") × (pass ≡ codes "admin")
unfolding check_credentials
check_credentials_iff user pass h =
    ground (arith, str_eq_iff user (codes "admin"), str_eq_iff pass (codes "admin"))

log_in-IsLimited :
    (m : MonitorWorld)
    → m.conn.logged ≡ false
    → extract_credentials (arg_of m) ≡ some (some (codes "admin", codes "admin"))
    → IsLimited (IsAdmin m) m (log_in m)
log_in-IsLimited m o e =
    let in_use : MonitorWorld = put_err m MonitorDef.already_logged in
    let entered : MonitorWorld =
      record (put_conn m (record m.conn { logged = true; err_code = MonitorDef.no_error })) {
        logged = true;
      } in
    let choice : Bool → MonitorWorld = λ b. if b then in_use else entered in
    elim (Bool-cases m.logged) [
      | inl g ↦
          subst (λ x. IsLimited (IsAdmin m) m x) (sym (ap choice g))
            (limited o (keeps m MonitorDef.already_logged))
      | inr g ↦
          subst (λ x. IsLimited (IsAdmin m) m x) (sym (ap choice g))
            (record { users = refl; executed = refl; enters = λ h. (g, e) })
    ]

login-IsLimited :
    (m : MonitorWorld) {m' : MonitorWorld}
    → m.conn.logged ≡ false
    → monitor_login_cmd m ≡ some m'
    → IsLimited (IsAdmin m) m m'
unfolding monitor_login_cmd
login-IsLimited m {m'} o h =
    let (got, e, f) = >>=-eq-some (extract_credentials (arg_of m)) _ h in
    elim (Option-cases got) [
      | inl n ↦
          let same : put_err m MonitorDef.invalid_arg ≡ m' = some_inj (sym (rw n refl) ∙ f) in
          subst (λ x. IsLimited (IsAdmin m) m x) same (limited o (keeps m MonitorDef.invalid_arg))
      | inr ((user, pass), s) ↦ elim (Bool-cases (check_credentials user pass)) [
        | inl c ↦
            let (eu, ep) = check_credentials_iff user pass c in
            let same : log_in m ≡ m' = some_inj (sym (rw s (rw c refl)) ∙ f) in
            let words : extract_credentials (arg_of m)
                ≡ some (some (codes "admin", codes "admin")) =
              e
              ∙ ap some (s ∙ ap some (ap (λ x. (x, pass)) eu ∙ ap (λ x. (codes "admin", x)) ep)) in
            subst (λ x. IsLimited (IsAdmin m) m x) same (log_in-IsLimited m o words)
        | inr c ↦
            let same : put_err m MonitorDef.wrong_login ≡ m' =
              some_inj (sym (rw s (rw c refl)) ∙ f) in
            subst (λ x. IsLimited (IsAdmin m) m x) same (limited o (keeps m MonitorDef.wrong_login))
      ]
    ]

IsLimited-Keeps :
    {grant : Type 0} {a b c : MonitorWorld} → IsLimited grant a b → Keeps b c → IsLimited grant a c
IsLimited-Keeps x y = record {
  users = y.users ∙ x.users;
  executed = y.executed ∙ x.executed;
  enters = λ h. x.enters (sym y.conn_logged ∙ h);
}

login_cmd-IsLimited :
    (m : MonitorWorld) (f : MonitorWorld → Str) {r : Bool × MonitorWorld}
    → m.conn.logged ≡ false
    → (monitor_login_cmd m >>= λ m'. conclude (f m', m')) ≡ some r
    → IsLimited (IsAdmin m) m r.1
login_cmd-IsLimited m f o h =
    let (m', e, g) = >>=-eq-some (monitor_login_cmd m) _ h in
    IsLimited-Keeps (login-IsLimited m o e) (conclude-Keeps (f m') m' g)

abbrev Outcome : MonitorWorld → MonitorWorld → Type 0
Outcome m m' =
    (m'.users ≡ m.users)
    × (m'.executed ≡ m.executed)
    × (m'.conn.logged ≡ true → (cmd_of m ≡ codes "LOGIN") × IsAdmin m)

outcome : {m m' : MonitorWorld} → m.conn.logged ≡ false → Keeps m m' → Outcome m m'
outcome {m} {m'} o k =
    (k.users, k.executed, λ e. let no : m'.conn.logged ≡ false = k.conn_logged ∙ o in absurd cc)

quits : (m : MonitorWorld) → Outcome m (monitor_quit_cmd m)
unfolding monitor_quit_cmd
quits m = (refl, refl, λ e. let no : false ≡ true = e in absurd cc)

-- A command of a connection that is not logged in changes no user and starts no program, whatever
-- the command is. Behind it the connection is logged in only if the command is LOGIN with the two
-- right words and no connection was logged in before.
pub handle_cmd-limited :
    (env : MonitorEnv) (m : MonitorWorld) {r : Bool × MonitorWorld}
    → m.conn.logged ≡ false
    → handle_cmd env m ≡ some r
    → (r.1.users ≡ m.users)
      × (r.1.executed ≡ m.executed)
      × (r.1.conn.logged ≡ true → (cmd_of m ≡ codes "LOGIN") × IsAdmin m)
unfolding handle_cmd
handle_cmd-limited env m {r} o h = elim (Bool-cases (str_eq (cmd_of m) (codes "LOGIN"))) [
  | inl a ↦
      let x =
        login_cmd-IsLimited m
          (λ m'. if is_ok m' then codes "OwO Successfully logged\r\n\r\n" else []) o
          (sym (rw a refl) ∙ h) in
      (x.users, x.executed, λ e. ((str_eq_iff (cmd_of m) (codes "LOGIN")).0 a, x.enters e))
  | inr a ↦ elim (Bool-cases (str_eq (cmd_of m) (codes "QUIT"))) [
    | inl b ↦
        let same : (false, monitor_quit_cmd m) ≡ r = some_inj (sym (rw a (rw b refl)) ∙ h) in
        subst (λ x. Outcome m x.1) same (quits m)
    | inr b ↦ elim (Bool-cases (str_eq (cmd_of m) (codes "COMMANDS"))) [
      | inl c ↦ outcome o (conclude-Keeps commands_msg m (sym (rw a (rw b (rw c refl))) ∙ h))
      | inr c ↦ outcome o (
          Keeps-trans (keeps m MonitorDef.not_logged) (
            conclude-Keeps [] (put_err m MonitorDef.not_logged)
              (sym (rw a (rw b (rw c (rw o refl)))) ∙ h)))
    ]
  ]
]
