-- ===== src/Tests/Accounts.antt =====
-- The table of users on concrete tables.
use pop.Common.{◌≡◌, ◌≢◌, refl, none, List, [], ◌∷◌, ◌++◌, Str, codes, str_eq, replicate, arith}
use pop.Users.{offline, online, User, Users, free_slot, first, done, user_add, add_slot}
use pop.Users.Add.{IsPacked, IsValid}
use pop.Tests.{user}

abbrev ana : Str
ana = codes "ana"

abbrev bob : Str
bob = codes "bob"

abbrev two : List User
two = user "ana" "1" offline ∷ (user "bob" "2" online ∷ [])

-- The table of 510 slots with two users.
abbrev table : Users
table = record { slots = two ++ replicate 508 free_slot; total_users = 2 }

table-IsValid : IsValid table
table-IsValid = record { size = refl; total = refl }

table-IsPacked : IsPacked table.slots
table-IsPacked = ground arith

eva_added : (user_add (codes "eva") (codes "3") table).0 ≡ done
unfolding user_add add_slot str_eq
eva_added = refl

ana_not_bob : ana ≢ bob
ana_not_bob e = ground (arith, e)

bob_not_before : first bob [] ≡ none
unfolding first
bob_not_before = refl

-- The slot of a deleted user stands before the one of "bob".
abbrev holed : Users
holed = record { slots = free_slot ∷ (user "bob" "2" online ∷ []); total_users = 1 }
