-- ===== src/Monitor/Adding.antt =====
-- ADD_USER: how its argument is read, and what it adds.
use pop.Common.{
  ◌≤◌, ◌<◌, ◌≡◌, ◌≢◌, refl, sym, ◌∙◌, ap, true, false, some, [], ◌∷◌, ◌++◌, Str, append-nil,
  is_space, skip_space, codes, str_eq, str_eq_iff, str_eq_refl, length, lt→leb_false, ltb, arith,
}
use pop.Users.{offline, done, Code, Users, user_add, user_exists, user_get_state, user_check_pass}
use pop.Users.Add.{user_add-done}
use pop.Monitor.{MonitorWorld, MonitorEnv}
use pop.Monitor.Commands.{
  arg_of, scan_word, scan_two, extract_credentials, added, monitor_add_user_cmd, word_size,
}

-- A string without white space.
abbrev pub HasNoSpace : Str → Type 0
HasNoSpace [] = Unit
HasNoSpace (c ∷ cs) = (is_space c ≡ false) × HasNoSpace cs

-- A word that fits its array with the terminator.
pub record IsWord (s : Str) : Type 0 where
  pub solid : HasNoSpace s
  pub given : s ≢ []
  pub short : length s < word_size

scan_word-space : (s rest : Str) → HasNoSpace s → scan_word (s ++ (b' ' ∷ rest)) ≡ (s, b' ' ∷ rest)
unfolding scan_word is_space
scan_word-space [] rest h = refl
scan_word-space (c ∷ cs) rest (h, hs) = rw (h, scan_word) (rw (scan_word-space cs rest hs) refl)

scan_word-end : (s : Str) → HasNoSpace s → scan_word s ≡ (s, [])
unfolding scan_word
scan_word-end [] h = refl
scan_word-end (c ∷ cs) (h, hs) = rw (h, scan_word) (rw (scan_word-end cs hs) refl)

skip_space-word : (s rest : Str) → HasNoSpace s → s ≢ [] → skip_space (s ++ rest) ≡ s ++ rest
unfolding skip_space
skip_space-word [] rest h n = absurd (n refl)
skip_space-word (c ∷ cs) rest (h, hs) n = rw (h, skip_space) refl

skip_space-space : (s : Str) → skip_space (b' ' ∷ s) ≡ skip_space s
unfolding skip_space is_space
skip_space-space s = refl

not_empty : (s : Str) → s ≢ [] → str_eq s [] ≡ false
not_empty s n = ground (arith, str_eq_iff s [])

-- Two words with a space between them are read back as these words.
scan_two_lem :
    (user pass : Str)
    → IsWord user
    → IsWord pass
    → scan_two (user ++ (b' ' ∷ pass)) ≡ some (some (user, pass))
unfolding scan_two
scan_two_lem user pass u p =
    let second : skip_space (b' ' ∷ pass) ≡ pass =
      skip_space-space pass
      ∙ ap skip_space (sym (append-nil pass))
      ∙ skip_space-word pass [] p.solid p.given
      ∙ append-nil pass in
    rw (skip_space-word user (b' ' ∷ pass) u.solid u.given, scan_two)
      (rw (scan_word-space user pass u.solid) (
        rw (second, scan_word-end pass p.solid)
          (rw
            (
              lt→leb_false (length user) word_size u.short,
              lt→leb_false (length pass) word_size p.short,
            )
            (rw (not_empty user u.given, not_empty pass p.given) refl))))

extract_credentials_lem :
    (user pass : Str)
    → IsWord user
    → IsWord pass
    → 4 ≤ length (user ++ (b' ' ∷ pass))
    → extract_credentials (user ++ (b' ' ∷ pass)) ≡ some (some (user, pass))
unfolding extract_credentials
extract_credentials_lem user pass u p h =
    let long : ltb (length (user ++ (b' ' ∷ pass))) 4 ≡ false = ground arith in
    rw (long, extract_credentials) (scan_two_lem user pass u p)

added-done :
    (env : MonitorEnv) (user : Str) (r : Code × Users) (m : MonitorWorld)
    → r.0 ≡ done
    → env.built ≡ true
    → added env user r m
      ≡ (codes "OwO User " ++ (user ++ codes " added\r\n\r\n"), record m { users = r.1 })
added-done env user (c, t) m h b = rw (h, b) refl

-- ADD_USER with two words of at most 39 bytes each, separated by a space and of at least 4 bytes in
-- all, where the table takes the user and the maildir is built: the answer names the user, who is
-- now known, offline, and has the second word as the one right password. Every other name that is
-- not empty is known or unknown, and in the state, as before.
pub monitor_add_user_cmd_lem :
    (env : MonitorEnv) (m : MonitorWorld) (user pass attempt other : Str)
    → arg_of m ≡ user ++ (b' ' ∷ pass)
    → IsWord user
    → IsWord pass
    → 4 ≤ length (user ++ (b' ' ∷ pass))
    → (user_add user pass m.users).0 ≡ done
    → env.built ≡ true
    → other ≢ []
    → other ≢ user
    → (t : Users) × (monitor_add_user_cmd env m
        ≡ some (codes "OwO User " ++ (user ++ codes " added\r\n\r\n"), record m { users = t }))
      × (user_exists user t ≡ true)
      × (user_get_state user t ≡ offline)
      × (user_check_pass user attempt t ≡ str_eq attempt pass)
      × (user_exists other t ≡ user_exists other m.users)
      × (user_get_state other t ≡ user_get_state other m.users)
unfolding monitor_add_user_cmd
monitor_add_user_cmd_lem env m user pass attempt other a u p h d b n o =
    let (state, check, known) = user_add-done user pass user attempt m.users u.given u.given d in
    let (state', check', known') = user_add-done user pass other attempt m.users u.given n d in
    let mine = str_eq_refl user in
    let theirs : str_eq user other ≡ false = ground (arith, str_eq_iff user other) in
    let words = ap extract_credentials a ∙ extract_credentials_lem user pass u p h in
    (
      (user_add user pass m.users).1,
      rw (words, monitor_add_user_cmd)
          (ap some (added-done env user (user_add user pass m.users) m d b)),
      known ∙ rw mine refl,
      state ∙ rw mine refl,
      check ∙ rw mine refl,
      known' ∙ rw theirs refl,
      state' ∙ rw theirs refl,
    )
