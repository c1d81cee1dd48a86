-- ===== src/Pop3/Sharing.antt =====
-- The connections that share the table of users: which names they hold, over any interleaving of
-- their commands, their ends, and the work of the monitor.
use pop.Common.{
  not, none, some, some_inj, ap, sym, subst, ◌∙◌, if◌then◌else◌, ◌≡◌, ◌≢◌, refl, ◌⊎◌, inl, inr,
  Bool, true, false, ◌||◌, [], Str, codes, str_eq, str_eq_iff, str_eq_refl, ◌==◌, arith, Bool-cases,
}
use pop.Users.{
  UserState, offline, logging, online, not_found, Users, user_exists, user_get_state,
  user_set_state, user_check_pass, state_eq,
}
use pop.Users.State.{user_get_state-set}
use pop.Users.Lookup.{user_check_pass-exists}
use pop.Pop3Def
use pop.Auth.Lockout.{cmd_user-accepts}
use pop.Client.{World, put_client, monitor_close_connection}
use pop.Auth.{process_cmd, cmd_user, cmd_pass, cmd_of, arg_of}
use pop.Pop3.{close_connection}

-- A user that a connection has named, and perhaps logged in.
abbrev pub is_held : UserState → Bool
is_held s = state_eq s logging || state_eq s online

-- What a change of the table from `t` to `t'` and of a connection's name from `user` to `user'` does:
-- a name that stays is held still, a name that is taken is of a user that nobody held, and whoever
-- has neither name keeps its state.
pub record Moves (t : Users) (t' : Users) (user : Str) (user' : Str) : Type 0 where
  pub holds :
      (user ≢ [] → is_held (user_get_state user t) ≡ true)
      → user' ≢ []
      → is_held (user_get_state user' t') ≡ true
  pub takes : user' ≢ [] → (user' ≡ user) ⊎ (is_held (user_get_state user' t) ≡ false)
  pub leaves : (v : Str) → v ≢ [] → v ≢ user → v ≢ user' → user_get_state v t' ≡ user_get_state v t

stays : (t : Users) (user : Str) → Moves t t user user
stays t user = record { holds = λ h n. h n; takes = λ n. inl refl; leaves = λ v n m k. refl }

gives_up : (t : Users) (user : Str) → Moves t t user []
gives_up t user = record {
  holds = λ h n. absurd (n refl);
  takes = λ n. absurd (n refl);
  leaves = λ v n m k. refl;
}

-- The name is given up, and its user set offline.
sets_offline : (t : Users) (user : Str) → Moves t (user_set_state user offline t) user []
sets_offline t user = record {
  holds = λ h n. absurd (n refl);
  takes = λ n. absurd (n refl);
  leaves = λ v n m k.
      ground (arith, user_get_state-set user v [] offline t (λ e. cc), str_eq_iff user v);
}

sets_online :
    (t : Users) (user : Str)
    → user_exists user t ≡ true
    → Moves t (user_set_state user online t) user user
sets_online t user e = record {
  holds =
      λ h n. ground (arith, user_get_state-set user user [] online t (λ e. cc), str_eq_refl user);
  takes = λ n. inl refl;
  leaves =
      λ v n m k. ground (arith, user_get_state-set user v [] online t (λ e. cc), str_eq_iff user v);
}

state_of_eq : (s : UserState) → state_eq s offline ≡ true → s ≡ offline
state_of_eq offline h = refl
state_of_eq logging h = absurd cc
state_of_eq online h = absurd cc
state_of_eq not_found h = absurd cc

takes_user :
    (w : World)
    → user_exists (arg_of w) w.users ≡ true
    → user_get_state (arg_of w) w.users ≡ offline
    → Moves w.users (cmd_user w).1.users w.client.user (cmd_user w).1.client.user
takes_user w k f =
    let name : (cmd_user w).1.client.user ≡ arg_of w = (cmd_user-accepts w [] k f).1 in
    rw name (record {
      holds = λ h n.
          let e = (cmd_user-accepts w (arg_of w) k f).2 in
          ground (arith, e, str_eq_refl (arg_of w));
      takes = λ n. inr (rw f refl);
      leaves = λ v n m l.
          let e = (cmd_user-accepts w v k f).2 in
          ground (arith, e, str_eq_iff (arg_of w) v, str_eq_iff w.client.user v);
    })

cmd_user-Moves :
    (w : World) → Moves w.users (cmd_user w).1.users w.client.user (cmd_user w).1.client.user
unfolding cmd_user
cmd_user-Moves w = elim (Bool-cases (user_exists (arg_of w) w.users)) [
  | inr e ↦ rw (e, cmd_user) (stays w.users w.client.user)
  | inl e ↦ elim (Bool-cases (state_eq (user_get_state (arg_of w) w.users) offline)) [
    | inl f ↦ takes_user w e (state_of_eq (user_get_state (arg_of w) w.users) f)
    | inr f ↦ rw (e, cmd_user) (rw f (stays w.users w.client.user))
  ]
]

cmd_pass-Moves :
    (w : World) → Moves w.users (cmd_pass w).1.users w.client.user (cmd_pass w).1.client.user
unfolding cmd_pass
cmd_pass-Moves w = elim (Bool-cases (str_eq w.client.user [])) [
  | inl e ↦ rw (e, cmd_pass) (stays w.users w.client.user)
  | inr e ↦ elim (Bool-cases (user_check_pass w.client.user (arg_of w) w.users)) [
    | inl r ↦
        rw (e, cmd_pass)
          (rw r (
            sets_online w.users w.client.user
              (user_check_pass-exists w.client.user (arg_of w) w.users r)))
    | inr r ↦ rw (e, cmd_pass) (rw r (sets_offline w.users w.client.user))
  ]
]

abbrev pub MovesOf : World → World → Type 0
MovesOf w w' = Moves w.users w'.users w.client.user w'.client.user

pub process_cmd-Moves : (w : World) → MovesOf w (process_cmd w).1
unfolding process_cmd
process_cmd-Moves w = elim (Bool-cases (str_eq (codes "QUIT") (cmd_of w))) [
  | inl e ↦ rw (e, process_cmd) (stays w.users w.client.user)
  | inr e ↦ elim (Bool-cases (str_eq (codes "USER") (cmd_of w))) [
    | inl f ↦ rw (e, process_cmd) (rw f (cmd_user-Moves w))
    | inr f ↦ elim (Bool-cases (str_eq (codes "PASS") (cmd_of w))) [
      | inl g ↦ rw (e, process_cmd) (rw f (rw g (cmd_pass-Moves w)))
      | inr g ↦ elim (Bool-cases (str_eq (codes "CAPA") (cmd_of w))) [
        | inl h ↦ rw (e, process_cmd) (rw f (rw g (rw h (stays w.users w.client.user))))
        | inr h ↦ elim (Bool-cases (w.client.err_code == Pop3Def.invalid_char)) [
          | inl i ↦ rw (e, process_cmd) (rw f (rw g (rw h (rw i (stays w.users w.client.user)))))
          | inr i ↦ rw (e, process_cmd) (rw f (rw g (rw h (rw i (gives_up w.users w.client.user)))))
        ]
      ]
    ]
  ]
]

pub close_connection-Moves :
    (w w' : World) → close_connection w ≡ some w' → Moves w.users w'.users w.client.user []
unfolding close_connection
close_connection-Moves w w' h = elim (Bool-cases w.client.closed) [
  | inl o ↦ let no : close_connection w ≡ none = rw o refl in absurd cc
  | inr o ↦
      let kept : Users =
        if not (str_eq w.client.user [])
        then user_set_state w.client.user offline w.users
        else w.users in
      let after : World = record (put_client w (record w.client { closed = true })) {
        users = kept;
        counters = monitor_close_connection w.counters;
      } in
      let ended : close_connection w ≡ some after = rw o refl in
      let users : kept ≡ w'.users = ap (λ v. v.users) (some_inj (sym ended ∙ h)) in
      subst (λ t. Moves w.users t w.client.user []) users
        (elim (Bool-cases (str_eq w.client.user [])) [
          | inl e ↦ rw e (gives_up w.users w.client.user)
          | inr e ↦ rw e (sets_offline w.users w.client.user)
        ])
]
