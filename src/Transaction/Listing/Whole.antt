-- ===== src/Transaction/Listing/Whole.antt =====
-- That LIST lists every mail that is kept.
use pop.Common.{
  ℕ, zero, suc, ◌+◌, ◌-◌, ◌≤◌, ◌<◌, ◌≡◌, ◌∙◌, refl, sym, ap, inl, inr, Option, none, some, [], ◌++◌,
  append-nil, append_assoc, drop, ◌>>=◌, arith, window_empty,
}
use pop.Buffer.{buffer_reset, contents}
use pop.Buffer.Inv as Inv
use pop.Maildir.{Mails}
use pop.Maildir.Marks as Marks
use pop.Client.{Refill, cmd_list_all_new, World, Env}
use pop.Transaction.{put_output, list_all_new}
use pop.Transaction.Listing.{listing, pending, list_all_new-pending}

-- The output is sent whole.
abbrev pub sent : World → World
sent w = record (put_output w (buffer_reset w.client.write_buffer)) {
  wire = w.wire ++ contents w.client.write_buffer;
}

abbrev while_set : Option Refill → Option World → World → Option World
while_set none more w = some w
while_set (some f) more w = more

-- The function is called while it is set, at most this often, and the output is sent whole behind each
-- call.
unfoldable pub list_all : ℕ → Env → World → Option World
list_all zero env w = some w
list_all (suc k) env w =
    while_set w.client.send.f (list_all_new env w >>= λ w'. list_all k env (sent w')) w

over : (k : ℕ) (env : Env) (w : World) → w.client.send.f ≡ none → list_all k env w ≡ some w
unfolding list_all
over zero env w f = refl
over (suc k) env w f =
    ap (λ r. while_set r (list_all_new env w >>= λ w'. list_all k env (sent w')) w) f

step :
    (k : ℕ) (env : Env) (w w1 : World)
    → w.client.send.f ≡ some cmd_list_all_new
    → list_all_new env w ≡ some w1
    → list_all (suc k) env w ≡ list_all k env (sent w1)
unfolding list_all
step k env w w1 f e =
    ap (λ r. while_set r (list_all_new env w >>= λ w'. list_all k env (sent w')) w) f
    ∙ ap (λ m. m >>= λ w'. list_all k env (sent w')) e

pending-over :
    (ms : Mails) (w : World)
    → w.client.send.f ≡ none
    → pending ms.mails w ≡ contents w.client.write_buffer
pending-over ms w f = rw f (append-nil (contents w.client.write_buffer))

pending-on :
    (ms : Mails) (w : World)
    → w.client.send.f ≡ some cmd_list_all_new
    → pending ms.mails w
      ≡ contents w.client.write_buffer
        ++ listing (drop w.client.n_listed ms.mails) w.client.n_listed
pending-on ms w f = rw f refl

-- Whatever is listed in the directory, LIST sends the lines of the mails that are not deleted and not
-- listed yet, each once and in order, and then stops: on a listing whose counters are exact, with an
-- empty output of at least 32 bytes that is sent whole between the calls, one call more than there are
-- mails left is enough.
pub list_all_lem :
    (k : ℕ) (env : Env) (w : World) (ms : Mails)
    → w.client.maildir.new ≡ some ms
    → Marks.IsValid ms
    → w.client.n_listed ≤ ms.len
    → ms.len - w.client.n_listed < k
    → w.client.send.f ≡ some cmd_list_all_new
    → Inv.IsValid w.client.write_buffer
    → contents w.client.write_buffer ≡ []
    → w.client.write_buffer.write + 32 ≤ w.client.write_buffer.limit
    → (w' : World) × (list_all k env w ≡ some w')
      × (w'.wire ≡ w.wire ++ listing (drop w.client.n_listed ms.mails) w.client.n_listed)
      × (w'.client.send.f ≡ none)
unfolding buffer_reset contents
list_all_lem zero env w ms e v n fuel f ov empty room = elim fuel [ ]
list_all_lem (suc k) env w ms e v n fuel f ov empty room =
    let (w1, called, v1, same, (e1, l1, wire, goes)) =
      list_all_new-pending env w ms e v n f ov room in
    let todo = listing (drop w.client.n_listed ms.mails) w.client.n_listed in
    let all : pending ms.mails w ≡ todo = pending-on ms w f ∙ ap (λ x. x ++ todo) empty in
    elim goes [
      | inl g ↦
          let out : contents w1.client.write_buffer ≡ todo =
            sym (pending-over ms w1 g) ∙ (same ∙ all) in
          (
            sent w1,
            step k env w w1 f called ∙ over k env (sent w1) g,
            ap (λ x. x ++ contents w1.client.write_buffer) wire ∙ ap (λ x. w.wire ++ x) out,
            g,
          )
      | inr (g, more, bound) ↦
          let rest = listing (drop w1.client.n_listed ms.mails) w1.client.n_listed in
          let split : contents w1.client.write_buffer ++ rest ≡ todo =
            sym (pending-on ms w1 g) ∙ (same ∙ all) in
          let (w', done, sent_all, ended) =
            list_all_lem k env (sent w1) ms e1 v bound (omega (arith, more, fuel)) g
              (record {
                read_le_write = omega arith;
                write_le_limit = omega arith;
                in_memory = v1.in_memory;
              })
              (window_empty w1.client.write_buffer.bytes 0) (omega (arith, l1, room)) in
          (
            w',
            step k env w w1 f called ∙ done,
            sent_all
                ∙ (append_assoc w1.wire (contents w1.client.write_buffer) rest
                    ∙ (ap (λ x. x ++ (contents w1.client.write_buffer ++ rest)) wire
                        ∙ ap (λ x. w.wire ++ x) split)),
            ended,
          )
    ]
