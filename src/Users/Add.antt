-- ===== src/Users/Add.antt =====
-- What `user_add` does to the table.
use pop.Common.{
  ℕ, suc, ◌+◌, ◌≤◌, ◌<◌, ◌≡◌, ◌≢◌, inl, inr, refl, subst, sym, Bool-cases, Option-cases, ◌||◌, true,
  false, none, some, List, [], ◌∷◌, ◌++◌, Str, str_eq, str_eq_iff, str_eq_refl, ◌==◌, if◌then◌else◌,
  length, arith,
}
use pop.Users.{
  offline, User, Users, done, minus_one, minus_two, is_free, first, add_slot, user_add, user_exists,
  user_get_state, user_check_pass, max_users,
}

-- The number of slots of that name, and of slots in use.
abbrev pub named : Str → List User → ℕ
named user [] = 0
named user (u ∷ us) = if str_eq user u.uname then suc (named user us) else named user us

abbrev pub occupied : List User → ℕ
occupied [] = 0
occupied (u ∷ us) = if is_free u then occupied us else suc (occupied us)

abbrev new_user : Str → Str → User
new_user user pass = record { uname = user; pass = pass; state = offline }

-- The code and the slots, for each outcome of the loop.
first-add_done :
    (user pass : Str) (us : List User)
    → user ≢ []
    → (add_slot user pass us).0 ≡ done
    → first user (add_slot user pass us).1 ≡ some (new_user user pass)
unfolding add_slot first
first-add_done user pass [] h e = cc
first-add_done user pass (u ∷ us) h e =
    ground (arith, first-add_done user pass us, str_eq_refl user)

first-add_other :
    (user pass v : Str) (us : List User)
    → v ≢ []
    → user ≢ v
    → first v (add_slot user pass us).1 ≡ first v us
unfolding add_slot first
first-add_other user pass v [] h n = refl
first-add_other user pass v (u ∷ us) h n =
    ground (arith, first-add_other user pass v us, str_eq_iff v user, str_eq_iff v u.uname)

first-add :
    (user pass v : Str) (us : List User)
    → user ≢ []
    → v ≢ []
    → (add_slot user pass us).0 ≡ done
    → first v (add_slot user pass us).1
      ≡ (if str_eq user v then some (new_user user pass) else first v us)
first-add user pass v us h k e = elim (Bool-cases (str_eq user v)) [
  | inl same ↦ rw same (
      subst (λ x. first x (add_slot user pass us).1 ≡ some (new_user user pass))
        ((str_eq_iff user v).0 same) (first-add_done user pass us h e))
  | inr other ↦
      rw other (first-add_other user pass v us k (λ x. cc (other, (str_eq_iff user v).1 x)))
]

-- No free slot stands before one in use.
abbrev pub AllFree : List User → Type 0
AllFree [] = Unit
AllFree (u ∷ us) = (is_free u ≡ true) × AllFree us

abbrev pub IsPacked : List User → Type 0
IsPacked [] = Unit
IsPacked (u ∷ us) = if is_free u then AllFree us else IsPacked us

named-AllFree : (user : Str) (us : List User) → user ≢ [] → AllFree us → first user us ≡ none
unfolding first
named-AllFree user [] h f = refl
named-AllFree user (u ∷ us) h f =
    ground (arith, named-AllFree user us h f.1, str_eq_iff user u.uname)

add_slot-exists :
    (user pass : Str) (us : List User) {u : User}
    → user ≢ []
    → IsPacked us
    → first user us ≡ some u
    → add_slot user pass us ≡ (minus_two, us)
unfolding add_slot first
add_slot-exists user pass [] h p e = cc
add_slot-exists user pass (v ∷ us) {u} h p e = ground (
  arith,
  add_slot-exists user pass us {u = u} h,
  str_eq_iff user v.uname,
  named-AllFree user us h,
)

add_slot-failed :
    (user pass : Str) (us : List User)
    → (add_slot user pass us).0 ≢ done
    → (add_slot user pass us).1 ≡ us
unfolding add_slot
add_slot-failed user pass [] h = refl
add_slot-failed user pass (u ∷ us) h = ground (arith, add_slot-failed user pass us)

named-add :
    (user pass v : Str) (us : List User)
    → v ≢ []
    → (add_slot user pass us).0 ≡ done
    → named v (add_slot user pass us).1 ≡ (if str_eq v user then named v us + 1 else named v us)
unfolding add_slot
named-add user pass v [] h e = cc
named-add user pass v (u ∷ us) h e =
    ground (arith, named-add user pass v us h, str_eq_iff v u.uname)

occupied-add :
    (user pass : Str) (us : List User)
    → user ≢ []
    → (add_slot user pass us).0 ≡ done
    → (occupied (add_slot user pass us).1 ≡ occupied us + 1)
      × (length (add_slot user pass us).1 ≡ length us)
unfolding add_slot
occupied-add user pass [] h e = cc
occupied-add user pass (u ∷ us) h e = ground (arith, occupied-add user pass us h)

pub occupied-le-length : (us : List User) → occupied us ≤ length us
occupied-le-length [] = omega arith
occupied-le-length (u ∷ us) = ground (arith, occupied-le-length us)

-- The table has its 510 slots, and `total_users` counts those in use.
pub record IsValid (t : Users) : Type 0 where
  pub size : length t.slots ≡ max_users
  pub total : t.total_users ≡ occupied t.slots

-- Adding under a name that is not empty keeps the table valid, whatever the outcome.
pub user_add-IsValid :
    (user pass : Str) (t : Users) → user ≢ [] → IsValid t → IsValid (user_add user pass t).1
unfolding user_add
user_add-IsValid user pass t h v = ground (
  arith,
  occupied-add user pass t.slots h,
  occupied-le-length t.slots,
  add_slot-failed user pass t.slots,
)

add_slot-new :
    (user pass : Str) (us : List User)
    → first user us ≡ none
    → occupied us < length us
    → (add_slot user pass us).0 ≡ done
unfolding add_slot first
add_slot-new user pass [] e h = elim h [ ]
add_slot-new user pass (u ∷ us) e h = ground (arith, add_slot-new user pass us)

-- On a valid table with no free slot before one in use, and for a name that is not empty, the
-- result is -1 exactly if all 510 slots are in use, else -2 if the name exists, else 0; a result
-- other than 0 changes nothing.
pub user_add_code :
    (user pass : Str) (t : Users)
    → user ≢ []
    → IsValid t
    → IsPacked t.slots
    → ((user_add user pass t).0 ≡ (
        if t.total_users == max_users
        then minus_one
        else if user_exists user t
        then minus_two
        else done))
      × ((user_add user pass t).1 ≡ (
          if t.total_users == max_users || user_exists user t then t else (user_add user pass t).1))
unfolding user_add user_exists
user_add_code user pass t h v p = elim (Option-cases (first user t.slots)) [
  | inl e ↦ ground (arith, add_slot-new user pass t.slots e, occupied-le-length t.slots)
  | inr (u, e) ↦ ground (arith, add_slot-exists user pass t.slots h p e)
]

-- A successful addition makes the name known, offline, with that password alone; the state and the
-- passwords of every other name that is not empty stay as they were.
pub user_add-done :
    (user pass v attempt : Str) (t : Users)
    → user ≢ []
    → v ≢ []
    → (user_add user pass t).0 ≡ done
    → let t' = (user_add user pass t).1 in
      (user_get_state v t' ≡ (if str_eq user v then offline else user_get_state v t))
      × (user_check_pass v attempt t'
          ≡ (if str_eq user v then str_eq attempt pass else user_check_pass v attempt t))
      × (user_exists v t' ≡ (if str_eq user v then true else user_exists v t))
unfolding user_add user_get_state user_check_pass user_exists
user_add-done user pass v attempt t h k e = ground (arith, first-add user pass v t.slots h k)

add_slot-hole :
    (user pass : Str) (pre : List User) (f : User) (rest : List User)
    → occupied pre ≡ length pre
    → first user pre ≡ none
    → is_free f ≡ true
    → (add_slot user pass (pre ++ f ∷ rest)).0 ≡ done
unfolding add_slot first
add_slot-hole user pass [] f rest h k e = ground arith
add_slot-hole user pass (u ∷ pre) f rest h k e =
    ground (arith, add_slot-hole user pass pre f rest, occupied-le-length pre)

-- A free slot before the first slot of a name, as a deletion leaves it, lets the name be added once
-- more: the result is 0, and there is one more slot of the name than before.
pub user_add-hole :
    (user pass : Str) (pre : List User) (f : User) (rest : List User) (t : Users)
    → user ≢ []
    → t.slots ≡ pre ++ f ∷ rest
    → occupied pre ≡ length pre
    → first user pre ≡ none
    → is_free f ≡ true
    → t.total_users ≢ max_users
    → ((user_add user pass t).0 ≡ done)
      × (named user (user_add user pass t).1.slots ≡ named user t.slots + 1)
unfolding user_add
user_add-hole user pass pre f rest t h s o n e room = ground (
  arith,
  subst (λ us. (add_slot user pass us).0 ≡ done) (sym s) (add_slot-hole user pass pre f rest o n e),
  named-add user pass user t.slots h,
  str_eq_refl user,
)

-- An addition under a new name leaves the state of everyone who exists.
pub user_add-others :
    (user pass v : Str) (t : Users)
    → v ≢ []
    → user_exists user t ≡ false
    → user_exists v t ≡ true
    → user_get_state v (user_add user pass t).1 ≡ user_get_state v t
unfolding user_add user_get_state user_exists
user_add-others user pass v t k h e = ground (arith, first-add_other user pass v t.slots k)
