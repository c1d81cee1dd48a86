-- ===== src/Cmd/Served.antt =====
-- ADD_USER from the client to the table of users of the server.
use pop.Common.{
  ◌+◌, ◌<◌, ◌≤◌, ◌≡◌, ◌≢◌, refl, sym, ap, ◌∙◌, subst, true, false, none, some, List, [], ◌∷◌, ◌++◌,
  Str, codes, str_eq, is_print, is_space, length, ◌==◌, if◌then◌else◌, arith,
}
use pop.MonitorDef
use pop.Buffer.{Buffer, contents, buffer_can_read}
use pop.Client.{op_read}
use pop.Buffer.Inv.{IsValid}
use pop.Parser.Line.{LineParser, s3}
use pop.Parser.Line.Table.{engine}
use pop.Parser.Line.Command.{All, fresh, holding, c_str-pad, prints-no_nul}
use pop.Parser.Line.Parse.{line_parse-line}
use pop.Parser.Monitor.{
  monitor_spec, monitor_arg_size, monitor_spec-IsLineSpec, monitor_parse, is_word_char,
  init_monitor_parser,
}
use pop.Users.{done, user_add, user_exists, user_check_pass}
use pop.Monitor.{MonitorWorld, MonitorEnv, put_conn}
use pop.Monitor.Commands.{arg_of, monitor_add_user_cmd}
use pop.Monitor.Events.{
  cmd_of, handle_cmd, conclude, answer_cmd, answer_line, answer_finished, resume_sending,
  handle_monitor_write,
}
use pop.Monitor.Saying.{out_of, say_lem}
use pop.Monitor.Deleting.{conclude_lem}
use pop.Monitor.Adding.{HasNoSpace, IsWord, monitor_add_user_cmd_lem}
use pop.Cmd.Requests.{add_request, request-line, cmd_add_user-sends}
use pop.Cmd.{Client, cmd_add_user}

-- A connection of the monitor that is logged in, has read nothing of a line, and answers nothing.
pub record IsReady (m : MonitorWorld) : Type 0 where
  pub quiet : m.conn.is_sending ≡ false
  pub idle : m.conn.cmd_data.finished_cmd ≡ false
  pub logged : m.conn.logged ≡ true
  pub fine : m.conn.err_code ≡ MonitorDef.no_error
  pub list : m.has_list ≡ true
  pub parser : m.conn.monitor_parser ≡ fresh monitor_spec monitor_arg_size
  pub input : IsValid m.conn.read_buffer
  pub output : IsValid (out_of m)

abbrev pub added_msg : Str → Str
added_msg user = codes "OwO User " ++ (user ++ codes " added\r\n\r\n")

handle_cmd-adds :
    (env : MonitorEnv) (m m1 m2 : MonitorWorld) (msg : Str)
    → cmd_of m ≡ codes "ADD_USER"
    → m.conn.logged ≡ true
    → m.has_list ≡ true
    → monitor_add_user_cmd env m ≡ some (msg, m1)
    → conclude (msg, m1) ≡ some (true, m2)
    → handle_cmd env m ≡ some (true, m2)
unfolding handle_cmd str_eq
handle_cmd-adds env m m1 m2 msg c l h a k = rw (c, handle_cmd) (rw l (rw h (rw a k)))

abbrev set_sending : MonitorWorld → MonitorWorld
set_sending m = put_conn m (record m.conn { is_sending = true })

abbrev reset : MonitorWorld → MonitorWorld
reset m = put_conn m (record m.conn { monitor_parser = init_monitor_parser m.conn.monitor_parser })

answer_cmd-goes_on :
    (env : MonitorEnv) (m m2 : MonitorWorld)
    → handle_cmd env (set_sending m) ≡ some (true, m2)
    → m.conn.monitor_parser.err_value ≡ MonitorDef.no_error
    → answer_cmd env m ≡ some (reset m2)
unfolding answer_cmd
answer_cmd-goes_on env m m2 h e =
    let fine : (m.conn.monitor_parser.err_value == MonitorDef.no_error) ≡ true = rw e refl in
    rw (fine, answer_cmd) (rw h refl)

abbrev with_parsed : MonitorWorld → LineParser → Buffer → MonitorWorld
with_parsed m p b = put_conn m (record m.conn { monitor_parser = p; read_buffer = b })

answer_line-answers :
    (env : MonitorEnv) (m m2 : MonitorWorld) (p : LineParser) (b : Buffer)
    → monitor_parse (engine monitor_spec) m.conn.monitor_parser m.conn.read_buffer ≡ some (p, b)
    → p.ended ≡ true
    → answer_cmd env (with_parsed m p b) ≡ some m2
    → answer_line (engine monitor_spec) env m ≡ some m2
unfolding answer_line
answer_line-answers env m m2 p b h e a =
    let m1 = with_parsed m p b in
    let waiting = if buffer_can_read b then m1 else record m1 { interest = op_read } in
    rw h (ap (λ x. if x then answer_cmd env m1 else some waiting) e ∙ a)

handle_monitor_write-idle :
    (env : MonitorEnv) (m : MonitorWorld)
    → IsReady m
    → handle_monitor_write (engine monitor_spec) env m ≡ answer_line (engine monitor_spec) env m
unfolding handle_monitor_write
handle_monitor_write-idle env m r =
    let line = answer_line (engine monitor_spec) env m in
    ap
      (λ x.
        if x
        then resume_sending env m
        else if m.conn.cmd_data.finished_cmd
        then answer_finished m
        else line)
      r.quiet
    ∙ ap (λ x. if x then answer_finished m else line) r.idle

last_inj : (xs : List Str) (a b : Str) → xs ++ (a ∷ []) ≡ xs ++ (b ∷ []) → a ≡ b
last_inj [] a b h = cc
last_inj (x ∷ xs) a b h = last_inj xs a b (cc)

solid_ne : (user : Str) → IsWord user → b' ' ∷ [] ≢ user
unfolding is_space
solid_ne user u e =
    let solid : HasNoSpace (b' ' ∷ []) = subst HasNoSpace (sym e) u.solid in
    let space : is_space (b' ') ≡ false = solid.0 in absurd cc

add_user-letters : All (λ c. monitor_spec.is_cmd_char c ≡ true) (codes "ADD_USER")
unfolding is_word_char
add_user-letters = (refl, (refl, (refl, (refl, (refl, (refl, (refl, (refl, tt))))))))

-- From the client to the table of users: the bytes that the client sends for ADD_USER with two
-- printable words, of at least 4 and at most 39 characters together with the space between, arrive at
-- a connection of the monitor that is logged in and has nothing else to do, with room in its output.
-- One event answers that the user is added, and leaves what followed the bytes in the input. The
-- user is in the table, and its one right password is the word that the client was given.
pub add_user-served :
    (env : MonitorEnv) (m : MonitorWorld) (c c' : Client) (user pass attempt bytes rest : Str)
    → IsWord user
    → IsWord pass
    → All (λ x. is_print x ≡ true) (user ++ (b' ' ∷ pass))
    → 4 ≤ length (user ++ (b' ' ∷ pass))
    → length (user ++ (b' ' ∷ pass)) ≤ 39
    → c.waits ≡ false
    → cmd_add_user user pass c ≡ some c'
    → c'.sent ≡ c.sent ++ (bytes ∷ [])
    → IsReady m
    → contents m.conn.read_buffer ≡ bytes ++ rest
    → (out_of m).write + length (added_msg user) < (out_of m).limit
    → (user_add user pass m.users).0 ≡ done
    → env.built ≡ true
    → (m' : MonitorWorld) × (handle_monitor_write (engine monitor_spec) env m ≡ some m')
      × (contents (out_of m') ≡ contents (out_of m) ++ added_msg user)
      × (contents m'.conn.read_buffer ≡ rest)
      × (user_exists user m'.users ≡ true)
      × (user_check_pass user attempt m'.users ≡ str_eq attempt pass)
unfolding monitor_parse
add_user-served env m c c' user pass attempt bytes rest u p ok low high w sends one r held room d
      built =
    let arg = user ++ (b' ' ∷ pass) in
    let q = holding monitor_spec monitor_arg_size (codes "ADD_USER") arg s3 true in
    let same : bytes ≡ add_request user pass = last_inj c.sent bytes (add_request user pass) (
      sym one
      ∙ ap (λ o. elim o as (λ x. List Str) [ none ↦ [] | some x ↦ x.sent ])
          (sym sends ∙ cmd_add_user-sends user pass c high w)) in
    let (b, parsed, bv, left, stop) =
      line_parse-line monitor_spec monitor_spec-IsLineSpec monitor_arg_size (codes "ADD_USER")
        (some arg) rest m.conn.read_buffer (omega arith) add_user-letters (omega arith) ok
        (omega arith) r.input
        (held ∙ ap (λ t. t ++ rest) same ∙ request-line (codes "ADD_USER") arg rest) in
    let m1 = with_parsed m q b in
    let ms = set_sending m1 in
    let got : arg_of ms ≡ arg =
      c_str-pad monitor_arg_size arg (prints-no_nul arg ok) (omega arith) in
    let (t, adds, known, state, check, k1, k2) =
      monitor_add_user_cmd_lem env ms user pass attempt (b' ' ∷ []) got u p low d built (λ e. cc)
        (solid_ne user u) in
    let m2 = record ms { users = t } in
    let (o, said, ov, text) = say_lem true (added_msg user) m2 r.output room in
    let m3 = put_conn m2 (record m2.conn { write_buffer = o }) in
    let concluded = conclude_lem (added_msg user) m2 m3 r.fine said in
    let handled =
      handle_cmd-adds env ms m2 m3 (added_msg user) refl r.logged r.list adds concluded in
    let answered = answer_cmd-goes_on env m1 m3 handled refl in
    let parse =
      ap (λ x. monitor_parse (engine monitor_spec) x m.conn.read_buffer) r.parser ∙ parsed in
    (
      reset m3,
      handle_monitor_write-idle env m r
          ∙ answer_line-answers env m (reset m3) q b parse refl answered,
      text,
      left,
      known,
      check,
    )
