-- ===== src/Cmd/Cut.antt =====
-- What becomes of a password that is too long for the client's array.
use pop.Common.{
  ℕ, zero, suc, ◌+◌, ◌-◌, ◌<◌, ◌≡◌, ◌≢◌, sym, ap, ◌∙◌, subst, true, false, some, [], ◌∷◌, ◌++◌, Str,
  str_eq, str_eq_iff, Bool-cases, inl, inr, is_print, length, length-append, length-take, take,
  arith,
}
use pop.Buffer.{contents}
use pop.Parser.Line.Table.{engine}
use pop.Parser.Line.Command.{All}
use pop.Parser.Monitor.{monitor_spec}
use pop.Users.{done, user_add, user_exists, user_check_pass}
use pop.Monitor.{MonitorWorld, MonitorEnv}
use pop.Monitor.Events.{handle_monitor_write}
use pop.Monitor.Saying.{out_of}
use pop.Monitor.Adding.{HasNoSpace, IsWord}
use pop.Cmd.Requests.{cmd_add_user-cuts, cut_lem}
use pop.Cmd.{Client, cmd_add_user}
use pop.Cmd.Served.{IsReady, added_msg, add_user-served}

take-HasNoSpace : (n : ℕ) (s : Str) → HasNoSpace s → HasNoSpace (take n s)
take-HasNoSpace zero s h = tt
take-HasNoSpace (suc n) [] h = tt
take-HasNoSpace (suc n) (c ∷ cs) (h, hs) = (h, take-HasNoSpace n cs hs)

take-prints :
    (n : ℕ) (s : Str) → All (λ x. is_print x ≡ true) s → All (λ x. is_print x ≡ true) (take n s)
take-prints zero s h = tt
take-prints (suc n) [] h = tt
take-prints (suc n) (c ∷ cs) (h, hs) = (h, take-prints n cs hs)

-- Once ADD_USER has been served for a name and a longer password of printable characters, the name of
-- at most 37 and the two with a space of more than 39, the server has added the user, and refuses
-- the password that the client was given.
pub add_user-refuses :
    (env : MonitorEnv) (m : MonitorWorld) (c c' : Client) (user pass bytes rest : Str)
    → IsWord user
    → HasNoSpace pass
    → length user < 38
    → 39 < length (user ++ (b' ' ∷ pass))
    → All (λ x. is_print x ≡ true) (user ++ (b' ' ∷ pass))
    → c.waits ≡ false
    → cmd_add_user user pass c ≡ some c'
    → c'.sent ≡ c.sent ++ (bytes ∷ [])
    → IsReady m
    → contents m.conn.read_buffer ≡ bytes ++ rest
    → (out_of m).write + length (added_msg user) < (out_of m).limit
    → (user_add user (take (38 - length user) pass) m.users).0 ≡ done
    → env.built ≡ true
    → (m' : MonitorWorld) × (handle_monitor_write (engine monitor_spec) env m ≡ some m')
      × (contents (out_of m') ≡ contents (out_of m) ++ added_msg user)
      × (user_exists user m'.users ≡ true)
      × (user_check_pass user pass m'.users ≡ false)
add_user-refuses env m c c' user pass bytes rest u solid short long ok w sends one r held room d
      built =
    let n = 38 - length user in
    let cut = take n pass in
    let len_all = length-append user (b' ' ∷ pass) in
    let len : length cut ≡ n = omega (arith, length-take n pass, len_all) in
    let given : cut ≢ [] = λ e. omega (arith, len, ap length e) in
    let p : IsWord cut = record {
      solid = take-HasNoSpace n pass solid;
      given = given;
      short = omega (arith, len);
    } in
    let arg = user ++ (b' ' ∷ cut) in
    let len_arg : length arg ≡ 39 = omega (arith, length-append user (b' ' ∷ cut), len) in
    let prints =
      subst (λ s. All (λ x. is_print x ≡ true) s) (cut_lem user pass (omega arith))
        (take-prints 39 (user ++ (b' ' ∷ pass)) ok) in
    let sends' = sym (cmd_add_user-cuts user pass c (omega arith)) ∙ sends in
    let (m', served, text, left, known, check) =
      add_user-served env m c c' user cut pass bytes rest u p prints (omega (arith, len_arg))
        (omega (arith, len_arg)) w sends' one r held room d built in
    let differs : str_eq pass cut ≡ false = elim (Bool-cases (str_eq pass cut)) [
      | inl e ↦
          let same = (str_eq_iff pass cut).0 e in
          let size : length pass ≡ length cut = ap length same in
          absurd (omega (arith, len, len_all))
      | inr e ↦ e
    ] in
    (m', served, text, known, check ∙ differs)
