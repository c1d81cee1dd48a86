-- ===== src/Monitor/Listing.antt =====
-- GET_USERS: what it lists, and that the message holds it.
use pop.Common.{
  ◌+◌, ◌*◌, ◌<◌, ◌≤◌, ◌≡◌, refl, sym, ◌∙◌, ap, false, some, List, [], ◌∷◌, ◌++◌, append_assoc,
  append-nil, Str, codes, length, length-append, arith, ltb, lt→ltb, leb, lt→leb_false, Bool-cases,
  inl, inr, if◌then◌else◌,
}
use pop.Users.{User, UserState, online, logging, offline, not_found, Users, is_free}
use pop.Monitor.Commands.{
  list_users, strcat, user_line, state_str, monitor_get_users_cmd, max_msg_len,
}

-- The line of every user, in the order of the table, without the free slots.
unfoldable pub lines : List User → Str
lines [] = []
lines (u ∷ us) = let rest = lines us in if is_free u then rest else user_line u ++ rest

-- The names fit their arrays: 41 bytes with the terminator.
abbrev pub AreShort : List User → Type 0
AreShort [] = Unit
AreShort (u ∷ us) = (length u.uname ≤ 40) × AreShort us

length-state_str : (s : UserState) → length (state_str s) ≤ 10
unfolding state_str
length-state_str online = omega arith
length-state_str logging = omega arith
length-state_str offline = omega arith
length-state_str not_found = omega arith

length-user_line : (u : User) → length u.uname ≤ 40 → length (user_line u) ≤ 53
length-user_line u h = omega (
  arith,
  length-append u.uname (b' ' ∷ (state_str u.state ++ codes "\r\n")),
  length-append (state_str u.state) (codes "\r\n"),
  length-state_str u.state,
)

length-lines : (us : List User) → AreShort us → length (lines us) ≤ 53 * length us
unfolding lines
length-lines [] h = omega arith
length-lines (u ∷ us) (h, hs) = elim (Bool-cases (is_free u)) [
  | inl e ↦ rw e (omega (arith, length-lines us hs))
  | inr e ↦ rw e (
      omega
        (arith, length-lines us hs, length-append (user_line u) (lines us), length-user_line u h))
]

strcat_lem :
    (msg more : Str) → length msg + length more < max_msg_len → strcat msg more ≡ some (msg ++ more)
unfolding strcat
strcat_lem msg more h = rw (lt→ltb (length msg + length more) max_msg_len h) refl

list_users_lem :
    (us : List User) (msg : Str)
    → AreShort us
    → length msg + 53 * length us < max_msg_len
    → list_users us msg ≡ some (msg ++ lines us)
unfolding list_users lines
list_users_lem [] msg h b = ap some (sym (append-nil msg))
list_users_lem (u ∷ us) msg (h, hs) b =
    let short = length-user_line u h in
    let fits : leb 64 (length (user_line u)) ≡ false =
      lt→leb_false (length (user_line u)) 64 (omega arith) in
    let few : ltb 32761 (length (user_line u)) ≡ false = ground arith in
    let room : length msg + length (user_line u) < max_msg_len = omega arith in
    let longer = length-append msg (user_line u) in
    elim (Bool-cases (is_free u)) [
      | inl e ↦ rw (e, list_users) (list_users_lem us msg hs (omega arith))
      | inr e ↦
          rw (e, list_users)
            (rw fits (
              rw few (
                rw (strcat_lem msg (user_line u) room) (
                  list_users_lem us (msg ++ user_line u) hs (omega arith)
                  ∙ ap some (append_assoc msg (user_line u) (lines us))))))
    ]

-- For a table of at most 510 users whose names are at most 40 bytes long, GET_USERS lists every user
-- in use, one line each in the order of the table, and the message holds them all: nothing is
-- written past its array of 32768 bytes, and no user is left out.
pub monitor_get_users_cmd_lem :
    (t : Users)
    → AreShort t.slots
    → length t.slots ≤ 510
    → monitor_get_users_cmd t ≡ some (codes "OwO\r\n" ++ (lines t.slots ++ codes "\r\n"))
unfolding monitor_get_users_cmd
monitor_get_users_cmd_lem t h n =
    let all = list_users_lem t.slots (codes "OwO\r\n") h (omega arith) in
    let long = length-lines t.slots h in
    let room : length (codes "OwO\r\n" ++ lines t.slots) + length (codes "\r\n") < max_msg_len =
      omega (arith, length-append (codes "OwO\r\n") (lines t.slots)) in
    rw (all, strcat_lem (codes "OwO\r\n" ++ lines t.slots) (codes "\r\n") room)
      (ap some (append_assoc (codes "OwO\r\n") (lines t.slots) (codes "\r\n")))
