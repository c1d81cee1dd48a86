-- ===== src/Auth/Sending.antt =====
-- How the authorization state sends its answers.
use pop.Common.{
  ℕ, ◌+◌, ◌≤◌, ◌≡◌, ◌∙◌, take-length, refl, sym, ap, Option, true, false, some, Str, [], ◌++◌, ℤ,
  pos, negsuc, length, ◌>>=◌, arith,
}
use pop.Buffer.{buffer_can_read, buffer_reset, contents}
use pop.Buffer.Inv.{IsValid, length-contents, buffer_read_adv_all, contents-empty}
use pop.Parser.{Parser}
use pop.Parser.Line.{LineParser}
use pop.Client.{World, Env, auth, put_client}
use pop.Writter.{is_negative}
use pop.Writter.Answer.{write_msg_lem, out_of}
use pop.Auth.{
  auth_process, auth_resume, auth_answer, auth_sent, auth_finish, set_finished, process_cmd,
  cmd_user, cmd_pass, generate_msg, next_of,
}

resume :
    (engine : Parser LineParser) (env : Env) (w : World)
    → w.client.send.finished ≡ false
    → buffer_can_read w.client.write_buffer ≡ true
    → auth_process engine env w ≡ some (auth, set_finished w true)
unfolding auth_process auth_resume
resume engine env w f o = rw f (rw o refl)

postpone :
    (engine : Parser LineParser) (env : Env) (w : World)
    → w.client.send.finished ≡ true
    → buffer_can_read w.client.write_buffer ≡ true
    → auth_process engine env w ≡ some (auth, set_finished w false)
unfolding auth_process auth_resume
postpone engine env w f o = rw f (rw o refl)

-- Once an answer is left unfinished with output to send, two calls of `auth_process` return the
-- world as it was, whatever the system would take: nothing is sent and no command is read.
pub auth_process-stuck :
    (engine : Parser LineParser) (env env' : Env) (w : World)
    → w.client.send.finished ≡ false
    → buffer_can_read w.client.write_buffer ≡ true
    → (auth_process engine env w >>= λ (r : ℕ × World). auth_process engine env' r.1)
      ≡ some (auth, w)
auth_process-stuck engine env env' w f o = rw (resume engine env w f o) (
    rw (postpone engine env' (set_finished w true) refl o)
      (ap (λ b. let r : Option (ℕ × World) = some (auth, set_finished w b) in r) (sym f)))

abbrev pub message : World → Str
message w = generate_msg (process_cmd w).1 (process_cmd w).0

generate_msg-short : (w : World) (s : ℤ) → length (generate_msg w s) ≤ 60
unfolding generate_msg
generate_msg-short w s = ground arith

process_cmd-keeps :
    (w : World)
    → ((process_cmd w).1.client.write_buffer ≡ w.client.write_buffer)
      × ((process_cmd w).1.wire ≡ w.wire)
      × ((process_cmd w).1.client.read_buffer ≡ w.client.read_buffer)
      × ((process_cmd w).1.client.current ≡ w.client.current)
unfolding process_cmd cmd_user cmd_pass
process_cmd-keeps w = ground arith

abbrev sent_out : World → World
sent_out w = put_client w (record w.client { write_buffer = buffer_reset (out_of w) })

auth_sent-all :
    (w : World) (n : ℕ)
    → IsValid (out_of w)
    → n ≡ length (contents (out_of w))
    → auth_sent (pos n) w ≡ some (auth_finish (sent_out w))
unfolding auth_sent is_negative buffer_reset buffer_can_read
auth_sent-all w n v e =
    let h : w.client.write_buffer.read + n ≡ w.client.write_buffer.write =
      omega (arith, e, length-contents v, v.read_le_write) in
    rw (buffer_read_adv_all n v h) refl

-- With an empty output buffer of at least 64 bytes, a whole command is answered by one message: if
-- the system takes all of it, the wire has got exactly that message, the output buffer is empty
-- again, the state is the one that the command chose, and the users and the user's name are those
-- that it left. The input and the state of the machine are as before.
pub auth_answer-sends :
    (env : Env) (w : World)
    → IsValid w.client.write_buffer
    → w.client.write_buffer.read ≡ 0
    → w.client.write_buffer.write ≡ 0
    → 64 ≤ w.client.write_buffer.limit
    → env.sent ≡ pos (length (message w))
    → (w' : World) × (auth_answer env w ≡ some (next_of (process_cmd w).1.client.next_state, w'))
      × (w'.wire ≡ w.wire ++ message w)
      × (w'.client.write_buffer.read ≡ 0)
      × (w'.client.write_buffer.write ≡ 0)
      × (w'.client.next_state ≡ negsuc 0)
      × (w'.users ≡ (process_cmd w).1.users)
      × (w'.client.user ≡ (process_cmd w).1.client.user)
      × (w'.client.read_buffer ≡ w.client.read_buffer)
      × (w'.client.current ≡ w.client.current)
unfolding auth_answer auth_finish buffer_reset
auth_answer-sends env w v r o big e =
    let (same, wire, input, state) = process_cmd-keeps w in
    let short = generate_msg-short (process_cmd w).1 (process_cmd w).0 in
    let (w2, wrote, v2, c, sent, cl, us, fs) =
      write_msg_lem env (message w) (process_cmd w).1 (length (message w)) (rw same v)
        (rw same (omega arith)) e in
    let none_held : contents (out_of (process_cmd w).1) ≡ [] =
      contents-empty (out_of (process_cmd w).1) (rw same r) (rw same o) in
    let held : contents (out_of w2) ≡ message w = c ∙ ap (λ s. s ++ message w) none_held in
    let all = auth_sent-all w2 (length (message w)) v2 (sym (ap length held)) in
    (
      (auth_finish (sent_out w2)).1,
      rw wrote (all ∙ ap (λ d. some (next_of d.next_state, (auth_finish (sent_out w2)).1)) cl),
      sent ∙ rw (wire, none_held) (ap (λ s. w.wire ++ s) (take-length (message w))),
      ground arith,
      ground arith,
      ground arith,
      ground (arith, us),
      ground (arith, ap (λ d. d.user) cl),
      ground (arith, ap (λ d. d.read_buffer) cl, input),
      ground (arith, ap (λ d. d.current) cl, state),
    )
