-- ===== src/Transaction/Answering.antt =====
-- How the transaction state sends the answer to a command.
use pop.Common.{
  ℕ, ◌+◌, ◌<◌, ◌≡◌, ◌∙◌, refl, sym, ap, false, some, Str, [], ◌++◌, str_eq, pos, length,
  take-length, arith,
}
use pop.Buffer.{buffer_reset, contents}
use pop.Buffer.Inv.{IsValid, length-contents, buffer_read_adv_all, contents-empty}
use pop.Client.{World, Env, put_client}
use pop.Writter.{is_negative}
use pop.Writter.Answer.{write_msg_lem, out_of}
use pop.Auth.{state_of}
use pop.Transaction.{handle_request, trans_answer, trans_sent, trans_finish}

sent_out : World → World
sent_out w = put_client w (record w.client { write_buffer = buffer_reset (out_of w) })

trans_sent-all :
    (w : World) (n : ℕ)
    → IsValid (out_of w)
    → n ≡ length (contents (out_of w))
    → trans_sent (pos n) w ≡ some (trans_finish (sent_out w))
unfolding trans_sent is_negative sent_out
trans_sent-all w n v e =
    let h : w.client.write_buffer.read + n ≡ w.client.write_buffer.write =
      omega (arith, e, length-contents v, v.read_le_write) in
    rw (buffer_read_adv_all n v h) refl

trans_finish-keeps :
    (w : World)
    → ((trans_finish w).1.wire ≡ w.wire)
      × ((trans_finish w).1.client.write_buffer ≡ w.client.write_buffer)
      × ((trans_finish w).1.client.maildir ≡ w.client.maildir)
      × ((trans_finish w).1.client.read_buffer ≡ w.client.read_buffer)
      × ((trans_finish w).1.users ≡ w.users)
unfolding trans_finish
trans_finish-keeps w = ground arith

-- A command that leaves a text and an empty output buffer with room for it, in a system that takes
-- the whole answer: the wire gets exactly that text, the output is empty again, and the state is the
-- one that the command chose. The users, the maildir and the input are as the command left them.
pub trans_answer-sends :
    (env : Env) (w w1 : World) (msg : Str)
    → handle_request env w ≡ some (msg, w1)
    → str_eq msg [] ≡ false
    → IsValid (out_of w1)
    → (out_of w1).read ≡ 0
    → (out_of w1).write ≡ 0
    → length msg < (out_of w1).limit
    → env.sent ≡ pos (length msg)
    → (w' : World) × (trans_answer env w ≡ some (state_of w1.client.next_state, w'))
      × (w'.wire ≡ w1.wire ++ msg)
      × ((out_of w').read ≡ 0)
      × ((out_of w').write ≡ 0)
      × (w'.client.maildir ≡ w1.client.maildir)
      × (w'.client.read_buffer ≡ w1.client.read_buffer)
      × (w'.users ≡ w1.users)
unfolding trans_answer sent_out buffer_reset
trans_answer-sends env w w1 msg run text v r o room e =
    let (w2, wrote, v2, c, sent, cl, us, fs) =
      write_msg_lem env msg w1 (length msg) v (omega (arith, o, room)) e in
    let held : contents (out_of w2) ≡ msg =
      c ∙ ap (λ s. s ++ msg) (contents-empty (out_of w1) r o) in
    let all = trans_sent-all w2 (length msg) v2 (sym (ap length held)) in
    let (wire, out, mails, input, users) = trans_finish-keeps (sent_out w2) in
    (
      (trans_finish (sent_out w2)).1,
      rw run (
          rw text (
            rw wrote
              (all ∙ ap (λ d. some (state_of d.next_state, (trans_finish (sent_out w2)).1)) cl))),
      wire
          ∙ (sent ∙ rw (contents-empty (out_of w1) r o) (ap (λ s. w1.wire ++ s) (take-length msg))),
      ap (λ b. b.read) out,
      ap (λ b. b.write) out,
      mails ∙ ap (λ d. d.maildir) cl,
      input ∙ ap (λ d. d.read_buffer) cl,
      users ∙ us,
    )
