-- ===== src/Auth/Commands.antt =====
-- What the commands of the authorization state do.
use pop.Common.{◌≡◌, ◌≢◌, true, [], codes, str_eq_iff, str_eq_refl, pos, arith}
use pop.Users.{online, user_get_state, user_check_pass}
use pop.Users.Lookup.{user_check_pass-exists}
use pop.Users.State.{user_get_state-set}
use pop.Client.{World, auth, transaction}
use pop.Auth.{process_cmd, cmd_user, cmd_pass, cmd_of, arg_of}

next-cmd_user : (w : World) → (cmd_user w).1.client.next_state ≡ pos auth
unfolding cmd_user
next-cmd_user w = ground arith

record Logged (w r : World) : Type 0 where
  named : w.client.user ≢ []
  right : user_check_pass w.client.user (arg_of w) w.users ≡ true
  same : r.client.user ≡ w.client.user
  now_online : user_get_state w.client.user r.users ≡ online
  mine : r.client.maildir.user ≡ w.client.user

cmd_pass-Logged :
    (w : World) → (cmd_pass w).1.client.next_state ≡ pos transaction → Logged w (cmd_pass w).1
unfolding cmd_pass
cmd_pass-Logged w h = ground (
  arith,
  str_eq_refl w.client.user,
  user_check_pass-exists w.client.user (arg_of w) w.users,
  user_get_state-set w.client.user w.client.user [] online w.users (λ e. cc),
)

-- A command leads to the transaction state only if it is PASS with the right password of a user
-- that was named before. Then that user stays named, is online, and has its maildir named after it.
pub process_cmd-transaction :
    (w : World)
    → (process_cmd w).1.client.next_state ≡ pos transaction
    → (cmd_of w ≡ codes "PASS")
      × (w.client.user ≢ [])
      × (user_check_pass w.client.user (arg_of w) w.users ≡ true)
      × ((process_cmd w).1.client.user ≡ w.client.user)
      × (user_get_state w.client.user (process_cmd w).1.users ≡ online)
      × ((process_cmd w).1.client.maildir.user ≡ w.client.user)
unfolding process_cmd
process_cmd-transaction w h =
    ground (arith, str_eq_iff (codes "PASS") (cmd_of w), next-cmd_user w, cmd_pass-Logged w)
