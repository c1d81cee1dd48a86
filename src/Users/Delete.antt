-- ===== src/Users/Delete.antt =====
-- What `user_delete` does to the table.
use pop.Common.{
  ◌+◌, ◌≡◌, ◌≢◌, refl, Option, none, some, List, [], ◌∷◌, Str, str_eq, str_eq_iff, str_eq_refl,
  ◌&&◌, if◌then◌else◌, length, arith,
}
use pop.Users.{
  offline, state_eq, User, Users, Code, done, minus_one, minus_two, first, delete_slot, user_delete,
  user_exists, user_get_state,
}
use pop.Users.Add.{named, occupied, IsValid, occupied-le-length}

-- The result for the first slot of the name.
abbrev pub verdict : Option User → Code
verdict none = minus_one
verdict (some u) = if state_eq u.state offline then done else minus_two

delete_slot_code : (user : Str) (us : List User) → (delete_slot user us).0 ≡ verdict (first user us)
unfolding delete_slot first
delete_slot_code user [] = refl
delete_slot_code user (u ∷ us) = ground (arith, delete_slot_code user us)

delete_slot-failed :
    (user : Str) (us : List User) → (delete_slot user us).0 ≢ done → (delete_slot user us).1 ≡ us
unfolding delete_slot
delete_slot-failed user [] h = refl
delete_slot-failed user (u ∷ us) h = ground (arith, delete_slot-failed user us)

named-delete :
    (user v : Str) (us : List User)
    → v ≢ []
    → (delete_slot user us).0 ≡ done
    → named v us ≡ (
        if str_eq v user
        then named v (delete_slot user us).1 + 1
        else named v (delete_slot user us).1)
unfolding delete_slot
named-delete user v [] h e = cc
named-delete user v (u ∷ us) h e = ground (
  arith,
  named-delete user v us h,
  str_eq_iff v u.uname,
  str_eq_iff user u.uname,
  str_eq_iff v user,
  str_eq_iff v [],
)

first-delete_other :
    (user v : Str) (us : List User)
    → v ≢ []
    → user ≢ v
    → first v (delete_slot user us).1 ≡ first v us
unfolding delete_slot first
first-delete_other user v [] h n = refl
first-delete_other user v (u ∷ us) h n = ground (
  arith,
  first-delete_other user v us h,
  str_eq_iff user u.uname,
  str_eq_iff v u.uname,
  str_eq_iff v [],
)

occupied-delete :
    (user : Str) (us : List User)
    → user ≢ []
    → (delete_slot user us).0 ≡ done
    → (occupied us ≡ occupied (delete_slot user us).1 + 1)
      × (length (delete_slot user us).1 ≡ length us)
unfolding delete_slot
occupied-delete user [] h e = cc
occupied-delete user (u ∷ us) h e =
    ground (arith, occupied-delete user us h, str_eq_iff user u.uname)

-- Deleting under a name that is not empty keeps the table valid, whatever the outcome.
pub user_delete-IsValid :
    (user : Str) (t : Users) → user ≢ [] → IsValid t → IsValid (user_delete user t).1
unfolding user_delete
user_delete-IsValid user t h v = ground (
  arith,
  occupied-delete user t.slots h,
  occupied-le-length t.slots,
  delete_slot-failed user t.slots,
)

-- The result of a deletion is -1 for an unknown name, -2 for a user that is not offline, and 0
-- else. Only a deletion of result 0 changes the slots: it takes away one slot of the name, and
-- leaves every other name that is not empty with the slots and the state that it had.
pub user_delete_lem :
    (user v : Str) (t : Users)
    → user ≢ []
    → v ≢ []
    → user ≢ v
    → let (code, t') = user_delete user t in
      (code ≡ (
        if user_exists user t
        then (if state_eq (user_get_state user t) offline then done else minus_two)
        else minus_one))
      × (named user t.slots ≡ (
          if user_exists user t && state_eq (user_get_state user t) offline
          then named user t'.slots + 1
          else named user t'.slots))
      × (named v t'.slots ≡ named v t.slots)
      × (user_get_state v t' ≡ user_get_state v t)
unfolding user_delete user_exists user_get_state
user_delete_lem user v t h k n = ground (
  arith,
  delete_slot_code user t.slots,
  delete_slot-failed user t.slots,
  named-delete user user t.slots h,
  named-delete user v t.slots k,
  first-delete_other user v t.slots k n,
  str_eq_refl user,
  str_eq_iff v user,
)

-- A deletion leaves the state of whoever is not offline, also of the user that it names.
pub user_delete-held :
    (user v : Str) (t : Users)
    → v ≢ []
    → user_get_state v t ≢ offline
    → user_get_state v (user_delete user t).1 ≡ user_get_state v t
unfolding user_delete user_get_state
user_delete-held user v t k h = ground (
  arith,
  delete_slot_code user t.slots,
  delete_slot-failed user t.slots,
  first-delete_other user v t.slots k,
  str_eq_iff user v,
)

-- The result for any name, also the empty one, and the users of other names.
pub user_delete_any :
    (user v : Str) (t : Users)
    → v ≢ []
    → user ≢ v
    → ((user_delete user t).0 ≡ (
        if user_exists user t
        then (if state_eq (user_get_state user t) offline then done else minus_two)
        else minus_one))
      × (user_get_state v (user_delete user t).1 ≡ user_get_state v t)
      × (user_exists v (user_delete user t).1 ≡ user_exists v t)
unfolding user_delete user_exists user_get_state
user_delete_any user v t k n =
    ground (arith, delete_slot_code user t.slots, first-delete_other user v t.slots k n)
