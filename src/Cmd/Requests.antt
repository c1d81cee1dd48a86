-- ===== src/Cmd/Requests.antt =====
-- A request of the client on its way through the server: what is sent, how the monitor reads it, and
-- what it does.
use pop.Common.{
  ℕ, zero, suc, ◌+◌, ◌-◌, ◌<◌, ◌≤◌, ◌≡◌, refl, sym, ap, ◌∙◌, false, some, [], ◌∷◌, ◌++◌,
  append_assoc, Str, codes, length, length-append, length-take, take, take-length, arith,
}
use pop.Parser.Line.Parse.{line}
use pop.Cmd.{add_user, request, snprintf, Client, send_cmd, cmd_add_user}

take-all : (n : ℕ) (s : Str) → n ≡ length s → take n s ≡ s
take-all n s h = rw h (take-length s)

-- A request fits its array, so it is sent whole.
pub request-line :
    (name args rest : Str) → request name (some args) ++ rest ≡ line name (some args) rest
unfolding request snprintf
request-line name args rest =
    let text = name ++ (b' ' ∷ (args ++ codes "\r\n")) in
    let len : length name + 2 + 1 + (length args + 1) - 1 ≡ length text = omega (
      arith,
      length-append name (b' ' ∷ (args ++ codes "\r\n")),
      length-append args (codes "\r\n"),
    ) in
    ap (λ t. t ++ rest) (take-all (length name + 2 + 1 + (length args + 1) - 1) text len)
    ∙ append_assoc name (b' ' ∷ (args ++ codes "\r\n")) rest
    ∙ ap (λ t. name ++ (b' ' ∷ t)) (append_assoc args (codes "\r\n") rest)

take-short : (n : ℕ) (s : Str) → length s ≤ n → take n s ≡ s
take-short zero [] h = refl
take-short zero (c ∷ cs) h = absurd (omega arith)
take-short (suc n) [] h = refl
take-short (suc n) (c ∷ cs) h = ap (λ t. c ∷ t) (take-short n cs (omega arith))

-- The bytes of ADD_USER for a name and a password.
abbrev pub add_request : Str → Str → Str
add_request user pass = request (codes "ADD_USER") (some (user ++ (b' ' ∷ pass)))

-- A name and a password of at most 39 characters with the space between are sent as they are.
pub cmd_add_user-sends :
    (user pass : Str) (c : Client)
    → length (user ++ (b' ' ∷ pass)) ≤ 39
    → c.waits ≡ false
    → cmd_add_user user pass c ≡ some (record c { sent = c.sent ++ (add_request user pass ∷ []) })
unfolding cmd_add_user send_cmd snprintf
cmd_add_user-sends user pass c h w = rw (take-short 39 (user ++ (b' ' ∷ pass)) h) (rw w refl)

take-past : (n : ℕ) (xs ys : Str) → take (length xs + n) (xs ++ ys) ≡ xs ++ take n ys
take-past n [] ys = ap (λ k. take k ys) (omega arith)
take-past n (x ∷ xs) ys =
    let e : suc (length xs) + n ≡ suc (length xs + n) = omega arith in
    rw e (ap (λ t. x ∷ t) (take-past n xs ys))

pub cut_lem :
    (user pass : Str)
    → length user < 39
    → take 39 (user ++ (b' ' ∷ pass)) ≡ user ++ (b' ' ∷ take (38 - length user) pass)
cut_lem user pass h =
    let e : 39 ≡ length user + suc (38 - length user) = omega arith in
    ap (λ k. take k (user ++ (b' ' ∷ pass))) e
    ∙ take-past (suc (38 - length user)) user (b' ' ∷ pass)

-- Of a password that is too long the client sends the first characters, as many as make 39 with the
-- name and the space, and nothing tells so: the effect is that of the shorter password.
pub cmd_add_user-cuts :
    (user pass : Str) (c : Client)
    → length user < 39
    → cmd_add_user user pass c ≡ cmd_add_user user (take (38 - length user) pass) c
unfolding cmd_add_user snprintf
cmd_add_user-cuts user pass c h =
    let n = 38 - length user in
    let twice = take-short n (take n pass) (omega (arith, length-take n pass)) in
    let same =
      cut_lem user pass h
      ∙ sym (cut_lem user (take n pass) h ∙ ap (λ t. user ++ (b' ' ∷ t)) twice) in
    ap (λ t. send_cmd add_user (some t) c) same
