-- ===== src/Users/State.antt =====
-- `user_set_state` against the lookups.
use pop.Common.{
  ◌≡◌, ◌≢◌, refl, Bool, Option, none, some, List, [], ◌∷◌, Str, str_eq, str_eq_iff, if◌then◌else◌,
  arith, ◌&&◌,
}
use pop.Users.{
  UserState, offline, logging, online, not_found, User, Users, first, user_exists, user_get_state,
  user_check_pass, set_all, user_set_state,
}

abbrev set_found : Bool → UserState → Option User → Option User
set_found hit s none = none
set_found hit s (some u) = some (if hit then record u { state = s } else u)

first-set_all :
    (user v : Str) (s : UserState) (us : List User)
    → first v (set_all user s us) ≡ set_found (str_eq user v) s (first v us)
unfolding first set_all
first-set_all user v s [] = refl
first-set_all user v s (u ∷ us) = ground (
  arith,
  first-set_all user v s us,
  str_eq_iff user u.uname,
  str_eq_iff v u.uname,
  str_eq_iff user v,
)

-- After the state of a user is set to `s`, which is not USER_NOT_FOUND, a lookup of that user's
-- state gives `s` if the user exists; the state of every other name is what it was. Who exists, and
-- which passwords are right, does not change.
pub user_get_state-set :
    (user v pass : Str) (s : UserState) (t : Users)
    → s ≢ not_found
    → (user_get_state v (user_set_state user s t)
        ≡ (if str_eq user v && user_exists v t then s else user_get_state v t))
      × (user_exists v (user_set_state user s t) ≡ user_exists v t)
      × (user_check_pass v pass (user_set_state user s t) ≡ user_check_pass v pass t)
unfolding user_get_state user_set_state user_exists user_check_pass
user_get_state-set user v pass offline t h = ground (arith, first-set_all user v offline t.slots)
user_get_state-set user v pass logging t h = ground (arith, first-set_all user v logging t.slots)
user_get_state-set user v pass online t h = ground (arith, first-set_all user v online t.slots)
user_get_state-set user v pass not_found t h = absurd (h refl)
