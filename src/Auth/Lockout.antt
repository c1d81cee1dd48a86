-- ===== src/Auth/Lockout.antt =====
-- What the commands of the authorization state do to the users whose names they leave or take.
use pop.Common.{
  ℕ, ◌≡◌, ◌≢◌, refl, true, false, not, [], Str, codes, str_eq, str_eq_iff, ℤ, pos, negsuc,
  if◌then◌else◌, ◌&&◌, arith, Bool-cases, inl, inr,
}
use pop.Pop3Def
use pop.Users.{offline, logging, Users, user_exists, user_get_state, user_set_state}
use pop.Users.State.{user_get_state-set}
use pop.Users.Lookup.{user_exists-of-state}
use pop.Client.{World, auth, put_client}
use pop.Auth.{process_cmd, cmd_user, cmd_of, arg_of}

abbrev pub refused : World → ℕ → ℤ × World
refused w code =
    (negsuc 0, put_client w (record w.client { err_code = code; next_state = pos auth }))

-- USER with the name of a user that is offline succeeds: the connection has that name, and that user
-- is LOGGING. A different user that the connection had named is offline, and who has neither name has
-- the state that it had.
pub cmd_user-accepts :
    (w : World) (other : Str)
    → user_exists (arg_of w) w.users ≡ true
    → user_get_state (arg_of w) w.users ≡ offline
    → ((cmd_user w).0 ≡ pos 0)
      × ((cmd_user w).1.client.user ≡ arg_of w)
      × (user_get_state other (cmd_user w).1.users ≡ (
          if str_eq (arg_of w) other
          then logging
          else if not (str_eq w.client.user [])
              && (str_eq w.client.user other && user_exists other w.users)
          then offline
          else user_get_state other w.users))
unfolding cmd_user
cmd_user-accepts w other k f =
    let before = user_get_state-set w.client.user other [] offline w.users (λ e. cc) in
    let mine = user_get_state-set w.client.user (arg_of w) [] offline w.users (λ e. cc) in
    let after = λ (us : Users). user_get_state-set (arg_of w) other [] logging us (λ e. cc) in
    rw k (
      rw f (
        refl,
        refl,
        elim (Bool-cases (str_eq w.client.user [])) [
          | inl e ↦ rw e (ground (arith, str_eq_iff (arg_of w) other, after w.users))
          | inr e ↦ rw e (
              ground (
                arith,
                str_eq_iff (arg_of w) other,
                after (user_set_state w.client.user offline w.users),
                before,
                mine,
              ))
        ],
      ))

user_refused :
    (v : World)
    → user_get_state (arg_of v) v.users ≡ logging
    → cmd_of v ≡ codes "USER"
    → process_cmd v ≡ refused v Pop3Def.user_already_online
unfolding process_cmd cmd_user str_eq
user_refused v l c =
    let known = user_exists-of-state (arg_of v) v.users (λ e. cc) in rw c (rw known (rw l refl))

forgets :
    (w : World)
    → str_eq (codes "QUIT") (cmd_of w) ≡ false
    → str_eq (codes "USER") (cmd_of w) ≡ false
    → str_eq (codes "PASS") (cmd_of w) ≡ false
    → str_eq (codes "CAPA") (cmd_of w) ≡ false
    → w.client.err_code ≢ Pop3Def.invalid_char
    → ((process_cmd w).1.client.user ≡ []) × ((process_cmd w).1.users ≡ w.users)
unfolding process_cmd
forgets w q u p c e = ground arith

-- After a command that is unknown, a user that the connection had named and that is LOGGING stays
-- so while the connection forgets its name. So USER with that name is refused as online already, on
-- every connection `v` with that table.
pub process_cmd-lockout :
    (w v : World)
    → str_eq (codes "QUIT") (cmd_of w) ≡ false
    → str_eq (codes "USER") (cmd_of w) ≡ false
    → str_eq (codes "PASS") (cmd_of w) ≡ false
    → str_eq (codes "CAPA") (cmd_of w) ≡ false
    → w.client.err_code ≢ Pop3Def.invalid_char
    → user_get_state w.client.user w.users ≡ logging
    → v.users ≡ (process_cmd w).1.users
    → cmd_of v ≡ codes "USER"
    → arg_of v ≡ w.client.user
    → ((process_cmd w).1.client.user ≡ []) × (process_cmd v ≡ refused v Pop3Def.user_already_online)
process_cmd-lockout w v q u p c e l same cv av =
    let (gone, kept) = forgets w q u p c e in (gone, user_refused v (rw (same, kept, av) l) cv)
