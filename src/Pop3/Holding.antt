-- ===== src/Pop3/Holding.antt =====
-- The connections of the server over its one table of users, in any interleaving.
use pop.Common.{
  some, ℕ, ◌≡◌, ◌≢◌, refl, sym, ◌∙◌, subst, inl, inr, true, false, [], Str, ◌==◌, if◌then◌else◌,
  arith, Bool-cases,
}
use pop.Users.{
  UserState, offline, Users, user_exists, user_get_state, user_add, user_delete, not_found,
}
use pop.Users.Lookup.{user_exists-of-state}
use pop.Users.Add.{user_add-others}
use pop.Users.Delete.{user_delete-held}
use pop.Client.{World}
use pop.Auth.{process_cmd}
use pop.Pop3.{close_connection}
use pop.Pop3.Sharing.{Moves, is_held, process_cmd-Moves, close_connection-Moves}

-- The table, and the name of each connection; a connection that is closed or not yet open has the
-- empty name.
pub record System : Type 0 where
  pub users : Users
  pub names : ℕ → Str

abbrev pub rename : System → ℕ → Users → Str → System
rename sys i users name = record {
  users = users;
  names = λ j. if j == i then name else sys.names j;
}

-- One step: a connection runs a command, a connection ends, or the monitor adds a user of a new name
-- or deletes one.
pub data Step : System → System → Type 0 where
  commands :
      (sys : System) (i : ℕ) (w : World)
      → w.users ≡ sys.users
      → w.client.user ≡ sys.names i
      → Step sys (rename sys i (process_cmd w).1.users (process_cmd w).1.client.user)
  closes :
      (sys : System) (i : ℕ) (w w' : World)
      → w.users ≡ sys.users
      → w.client.user ≡ sys.names i
      → close_connection w ≡ some w'
      → Step sys (rename sys i w'.users [])
  adds :
      (sys : System) (user pass : Str)
      → user_exists user sys.users ≡ false
      → Step sys (record sys { users = (user_add user pass sys.users).1 })
  deletes :
      (sys : System) (user : Str) → Step sys (record sys { users = (user_delete user sys.users).1 })

-- From a server without connections.
pub data Reach : System → Type 0 where
  starts : (t : Users) → Reach (record { users = t; names = λ i. [] })
  steps : {sys sys' : System} → Reach sys → Step sys sys' → Reach sys'

-- A name that a connection has is of a user that is LOGGING or ONLINE, and no other connection has
-- it.
pub record IsExclusive (sys : System) : Type 0 where
  pub held : (i : ℕ) → sys.names i ≢ [] → is_held (user_get_state (sys.names i) sys.users) ≡ true
  pub single : (i j : ℕ) → sys.names i ≢ [] → sys.names i ≡ sys.names j → i ≡ j

apart : (j i : ℕ) → (j == i) ≡ false → j ≢ i
apart j i h = ground arith

module _ (sys : System) (i : ℕ) (users : Users) (name : Str) (x : IsExclusive sys)
    (m : Moves sys.users users (sys.names i) name) where
  -- The name that the connection `i` has afterwards is not one of another connection.
  new_name : (j : ℕ) → j ≢ i → name ≢ [] → sys.names j ≢ name
  new_name j d n e = elim (m.takes n) [
    | inl same ↦ d (x.single j i (λ z. n (sym e ∙ z)) (e ∙ same))
    | inr free ↦
        let busy : is_held (user_get_state name sys.users) ≡ true =
          subst (λ s. is_held (user_get_state s sys.users) ≡ true) e
            (x.held j (λ z. n (sym e ∙ z))) in
        absurd cc
  ]

  rename-held :
      (j : ℕ)
      → (rename sys i users name).names j ≢ []
      → is_held (user_get_state ((rename sys i users name).names j) users) ≡ true
  rename-held j = elim (Bool-cases (j == i)) [
    | inl e ↦ rw e (λ n. m.holds (x.held i) n)
    | inr e ↦
        let d : j ≢ i = apart j i e in
        rw e (λ n.
          rw
            (m.leaves (sys.names j) n (λ s. d (x.single j i n s))
              (λ s. new_name j d (λ z. n (s ∙ z)) s))
            (x.held j n))
  ]

  rename-single :
      (j k : ℕ)
      → (rename sys i users name).names j ≢ []
      → (rename sys i users name).names j ≡ (rename sys i users name).names k
      → j ≡ k
  rename-single j k = elim (Bool-cases (j == i)) [
    | inl e ↦ elim (Bool-cases (k == i)) [
      | inl f ↦ λ n s. ground arith
      | inr f ↦ rw e (rw f (λ n s. absurd (new_name k (apart k i f) n (sym s))))
    ]
    | inr e ↦ elim (Bool-cases (k == i)) [
      | inl f ↦ rw e (rw f (λ n s. absurd (new_name j (apart j i e) (λ z. n (s ∙ z)) s)))
      | inr f ↦ rw e (rw f (λ n s. x.single j k n s))
    ]
  ]

  rename-IsExclusive : IsExclusive (rename sys i users name)
  rename-IsExclusive = record { held = rename-held; single = rename-single }

-- A change of the table that leaves the state of whoever exists and is not offline.
table-IsExclusive :
    (sys : System) (users : Users)
    → IsExclusive sys
    → ((v : Str)
        → v ≢ []
        → is_held (user_get_state v sys.users) ≡ true
        → user_get_state v users ≡ user_get_state v sys.users)
    → IsExclusive (record sys { users = users })
table-IsExclusive sys users x h = record {
  held = λ i n. rw (h (sys.names i) n (x.held i n)) (x.held i n);
  single = x.single;
}

held-not_offline : (s : UserState) → is_held s ≡ true → (s ≢ offline) × (s ≢ not_found)
held-not_offline s h = ground arith

along : {t t' u : Users} {a b c : Str} → t ≡ t' → a ≡ b → Moves t u a c → Moves t' u b c
along {t'} {u} {a} {c} e f m = subst (λ x. Moves t' u x c) f (subst (λ x. Moves x u a c) e m)

Step-IsExclusive : {sys sys' : System} → IsExclusive sys → Step sys sys' → IsExclusive sys'
Step-IsExclusive x (commands sys i w u n) =
    rename-IsExclusive sys i (process_cmd w).1.users (process_cmd w).1.client.user x
      (along u n (process_cmd-Moves w))
Step-IsExclusive x (closes sys i w w' u n o) =
    rename-IsExclusive sys i w'.users [] x (along u n (close_connection-Moves w w' o))
Step-IsExclusive x (adds sys user pass new) =
    table-IsExclusive sys (user_add user pass sys.users).1 x (λ v n h.
      user_add-others user pass v sys.users n new
        (user_exists-of-state v sys.users (held-not_offline (user_get_state v sys.users) h).1))
Step-IsExclusive x (deletes sys user) =
    table-IsExclusive sys (user_delete user sys.users).1 x (λ v n h.
      user_delete-held user v sys.users n (held-not_offline (user_get_state v sys.users) h).0)

-- However the commands and the ends of the connections and the work of the monitor are interleaved,
-- no two connections hold the name of the same user, and every name that a connection holds is of a
-- user that is LOGGING or ONLINE, as long as the monitor adds new names alone.
pub Reach-IsExclusive : {sys : System} → Reach sys → IsExclusive sys
Reach-IsExclusive (starts t) = record {
  held = λ i n. absurd (n refl);
  single = λ i j n. absurd (n refl);
}
Reach-IsExclusive (steps r t) = Step-IsExclusive (Reach-IsExclusive r) t
