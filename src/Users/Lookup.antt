-- ===== src/Users/Lookup.antt =====
-- The lookups, in terms of one another.
use pop.Common.{◌≡◌, ◌≢◌, true, some, List, [], ◌∷◌, Str, str_eq_iff, arith}
use pop.Users.{not_found, User, Users, first, user_exists, user_get_state, user_check_pass}

-- The slot that a lookup finds has that name.
pub uname-first : (user : Str) (us : List User) (u : User) → first user us ≡ some u → u.uname ≡ user
unfolding first
uname-first user [] u h = cc
uname-first user (v ∷ us) u h = ground (arith, str_eq_iff user v.uname, uname-first user us u)

-- Only a user that exists has a right password.
pub user_check_pass-exists :
    (user pass : Str) (t : Users) → user_check_pass user pass t ≡ true → user_exists user t ≡ true
unfolding user_check_pass user_exists
user_check_pass-exists user pass t h = ground arith

-- Who exists has a state, and who does not is USER_NOT_FOUND.
pub user_exists-of-state :
    (user : Str) (t : Users) → user_get_state user t ≢ not_found → user_exists user t ≡ true
unfolding user_get_state user_exists
user_exists-of-state user t h = ground arith
