-- ===== src/Tests/Sharings.antt =====
-- Connections that share the table of users, on a concrete interleaving.
use pop.Common.{refl, [], ◌∷◌, codes}
use pop.Users.{offline}
use pop.Client.{World}
use pop.Auth.{process_cmd}
use pop.Pop3.Holding.{System, rename, starts, steps, commands, IsExclusive, Reach-IsExclusive}
use pop.Tests.{user, world, connection, parsed}

-- A connection without a name that has read USER ana.
abbrev names_ana : World
names_ana =
    world (user "ana" "secret" offline ∷ [])
      (connection [] (parsed (codes "USER") (codes "ana")) [])

abbrev before : System
before = record { users = names_ana.users; names = λ i. [] }

abbrev after : System
after = rename before 3 (process_cmd names_ana).1.users (process_cmd names_ana).1.client.user

Reach-IsExclusive_example : IsExclusive after
Reach-IsExclusive_example =
    Reach-IsExclusive (steps (starts names_ana.users) (commands before 3 names_ana refl refl))
