-- ===== src/Users.antt =====
-- src/server/user.c, include/server/user.h: the table of users. A character array is the string
-- that it holds; an empty `uname` marks a free slot. The NULL test of `user_delete` has no
-- counterpart, since a name is a value here.
pub mod Lookup
pub mod State
pub mod Add
pub mod Delete
use pop.Common.{
  ℕ, suc, ◌+◌, ◌-◌, ◌^◌, ◌%◌, Bool, true, false, not, Option, none, some, List, [], ◌∷◌, Str, ℤ,
  pos, negsuc, str_eq, ltb, length, ◌||◌, ◌==◌, if◌then◌else◌,
}

pub data UserState : Type 0 where
  offline logging online not_found : UserState

abbrev pub state_eq : UserState → UserState → Bool
state_eq offline offline = true
state_eq logging logging = true
state_eq online online = true
state_eq not_found not_found = true
state_eq _ _ = false

-- `user_t`
pub record User : Type 0 where
  pub uname : Str
  pub pass : Str
  pub state : UserState

-- `users` and `total_users`
pub record Users : Type 0 where
  pub slots : List User
  pub total_users : ℕ

abbrev pub max_users : ℕ
max_users = 510

abbrev pub free_slot : User
free_slot = record { uname = []; pass = []; state = offline }

-- The first slot of that name: the loop that the lookups share.
unfoldable pub first : Str → List User → Option User
first user [] = none
first user (u ∷ us) = if str_eq user u.uname then some u else first user us

unfoldable pub user_is_connected : Str → Users → Bool
user_is_connected user t = elim (first user t.slots) [
  | none ↦ false
  | some u ↦ state_eq u.state online
]

unfoldable pub user_get_state : Str → Users → UserState
user_get_state user t = elim (first user t.slots) [ none ↦ not_found | some u ↦ u.state ]

-- Every slot of that name is set: the loop of `user_set_state` does not stop at the first.
unfoldable pub set_all : Str → UserState → List User → List User
set_all user s [] = []
set_all user s (u ∷ us) =
    (if str_eq user u.uname then record u { state = s } else u) ∷ set_all user s us

unfoldable pub user_set_state : Str → UserState → Users → Users
unfolding set_all
user_set_state user not_found t = t
user_set_state user offline t = record t { slots = set_all user offline t.slots }
user_set_state user logging t = record t { slots = set_all user logging t.slots }
user_set_state user online t = record t { slots = set_all user online t.slots }

unfoldable pub user_exists : Str → Users → Bool
user_exists user t = elim (first user t.slots) [ none ↦ false | some u ↦ true ]

unfoldable pub user_check_pass : Str → Str → Users → Bool
user_check_pass user pass t = elim (first user t.slots) [
  | none ↦ false
  | some u ↦ str_eq pass u.pass
]

-- The results of `user_add` and `user_delete`: 0, -1 and -2.
pub data Code : Type 0 where
  done minus_one minus_two : Code

-- `uname[0] == '\0'`
abbrev pub is_free : User → Bool
is_free u = elim u.uname [ [] ↦ true | c ∷ cs ↦ false ]

-- The loop of `user_add`.
unfoldable pub add_slot : Str → Str → List User → Code × List User
add_slot user pass [] = (minus_one, [])
add_slot user pass (u ∷ us) =
    let rest = add_slot user pass us in
    if is_free u
    then (done, record { uname = user; pass = pass; state = offline } ∷ us)
    else if str_eq user u.uname
    then (minus_two, u ∷ us)
    else (rest.0, u ∷ rest.1)

-- `total_users++` and `total_users--` run on a successful result alone.
abbrev pub count_added : Code → ℕ → ℕ
count_added done n = (n + 1) % 2 ^ 64
count_added minus_one n = n
count_added minus_two n = n

abbrev pub count_deleted : Code → ℕ → ℕ
count_deleted done n = (n + 2 ^ 64 - 1) % 2 ^ 64
count_deleted minus_one n = n
count_deleted minus_two n = n

-- A name and a password of at most 40 bytes, which the arrays of a slot have room for; the arguments
-- of the monitor are not longer.
unfoldable pub user_add : Str → Str → Users → Code × Users
user_add user pass t =
    let (code, slots) = add_slot user pass t.slots in
    if t.total_users == max_users
    then (minus_one, t)
    else (code, record { slots = slots; total_users = count_added code t.total_users })

-- A name and a password of any lengths, as the options have them: where a slot is taken, one of more
-- than 40 bytes is written past the end of its array.
unfoldable pub add_any_user : Str → Str → Users → Option (Code × Users)
unfolding user_add
add_any_user user pass t =
    let r = user_add user pass t in
    let written : Option (Code × Users) = elim r.0 [
      | done ↦ none
      | minus_one ↦ some r
      | minus_two ↦ some r
    ] in
    if ltb 40 (length user) || ltb 40 (length pass) then written else some r

-- The loop of `user_delete`.
unfoldable pub delete_slot : Str → List User → Code × List User
delete_slot user [] = (minus_one, [])
delete_slot user (u ∷ us) =
    let rest = delete_slot user us in
    if str_eq user u.uname
    then (if not (state_eq u.state offline) then (minus_two, u ∷ us) else (done, free_slot ∷ us))
    else (rest.0, u ∷ rest.1)

unfoldable pub user_delete : Str → Users → Code × Users
user_delete user t =
    let (code, slots) = delete_slot user t.slots in
    (code, record { slots = slots; total_users = count_deleted code t.total_users })
