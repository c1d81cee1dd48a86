-- ===== src/Buffer/Queue.antt =====
-- A buffer is a queue: over any sequence of calls nothing is lost, repeated or reordered.
use pop.Common.{
  ℕ, ◌<◌, ◌≡◌, ◌∙◌, ap, refl, sym, inl, inr, Option, some, List, [], ◌∷◌, ◌++◌, append-nil,
  append_assoc, arith, ltb→lt, Bool-cases, ◌>>=◌, if◌then◌else◌, window, window-cons, suc,
}
use pop.Buffer.{
  Buffer, buffer_can_write, buffer_can_read, buffer_compact, buffer_read, buffer_write, contents,
}
use pop.Buffer.Inv.{
  IsValid, buffer_compact-IsValid, contents-compact, buffer_read_lem, buffer_write_lem,
}

pub data Op : Type 0 where
  put : ℕ → Op
  get : Op
  compact : Op

-- The buffer after the calls, the bytes that were accepted, and the bytes that were read. A `put`
-- into a full buffer and a `get` from an empty one count for nothing, as in buffer.c.
pub record Run : Type 0 where
  pub final : Buffer
  pub accepted : List ℕ
  pub taken : List ℕ

-- One call, with what it accepted and what it took.
unfoldable pub call : Buffer → Op → Option Run
call b (put c) = do
  let fits = buffer_can_write b
  b' ← buffer_write b c
  some (record { final = b'; accepted = if fits then c ∷ [] else []; taken = [] })
call b get = do
  let there = buffer_can_read b
  (c, b') ← buffer_read b
  some (record { final = b'; accepted = []; taken = if there then c ∷ [] else [] })
call b compact = some (record { final = buffer_compact b; accepted = []; taken = [] })

unfoldable pub run : Buffer → List Op → Option Run
run b [] = some (record { final = b; accepted = []; taken = [] })
run b (op ∷ ops) = do
  one ← call b op
  rest ← run one.final ops
  some (record {
    final = rest.final;
    accepted = one.accepted ++ rest.accepted;
    taken = one.taken ++ rest.taken;
  })

abbrev pub Conserves : Buffer → Run → Type 0
Conserves b r = IsValid r.final × (contents b ++ r.accepted ≡ r.taken ++ contents r.final)

call_put : {b : Buffer} (c : ℕ) → IsValid b → (r : Run) × (call b (put c) ≡ some r) × Conserves b r
unfolding call
call_put {b} c v = elim (Bool-cases (buffer_can_write b)) [
  | inl fits ↦
      let (b', eq, v', e) = buffer_write_lem c v (unfold buffer_can_write in ltb→lt _ _ fits) in
      (record { final = b'; accepted = c ∷ []; taken = [] }, rw (eq, fits), (v', sym e))
  | inr full ↦ (
    record { final = b; accepted = []; taken = [] },
    (unfold buffer_write in rw full),
    (v, append-nil (contents b)),
  )
]

call_get : {b : Buffer} → IsValid b → (r : Run) × (call b get ≡ some r) × Conserves b r
unfolding call
call_get {b} v = elim (Bool-cases (buffer_can_read b)) [
  | inl there ↦
      let h : b.read < b.write = (unfold buffer_can_read in ltb→lt _ _ there) in
      let (x, at, split) = window-cons b.bytes b.read b.write h (omega arith) in
      let e : contents b ≡ x ∷ window b.bytes (suc b.read) b.write = unfold contents in split in
      let (b', eq, v', c) = buffer_read_lem v h x _ e in
      (
        record { final = b'; accepted = []; taken = x ∷ [] },
        rw (eq, there),
        (v', rw (append-nil (contents b), c) e),
      )
  | inr empty ↦ (
    record { final = b; accepted = []; taken = [] },
    (unfold buffer_read in rw empty),
    (v, append-nil (contents b)),
  )
]

call-Conserves :
    (op : Op) {b : Buffer} → IsValid b → (r : Run) × (call b op ≡ some r) × Conserves b r
call-Conserves (put c) v = call_put c v
call-Conserves get v = call_get v
call-Conserves compact {b} v = (
  record { final = buffer_compact b; accepted = []; taken = [] },
  (unfold call in refl),
  (buffer_compact-IsValid v, append-nil (contents b) ∙ sym (contents-compact v)),
)

-- From a valid buffer no sequence of writes, reads and compactions fails an `assert`, the buffer
-- stays valid, and what it held followed by the bytes accepted is what was read followed by what it
-- holds: nothing is lost, repeated or reordered.
pub run-Conserves :
    (ops : List Op) {b : Buffer} → IsValid b → (r : Run) × (run b ops ≡ some r) × Conserves b r
unfolding run
run-Conserves [] {b} v =
    (record { final = b; accepted = []; taken = [] }, refl, (v, append-nil (contents b)))
run-Conserves (op ∷ ops) {b} v =
    let (one, eq, (v1, e1)) = call-Conserves op v in
    let (rest, eq', (v2, e2)) = run-Conserves ops v1 in
    (
      record {
        final = rest.final;
        accepted = one.accepted ++ rest.accepted;
        taken = one.taken ++ rest.taken;
      },
      rw (eq, eq'),
      (
        v2,
        sym (append_assoc (contents b) one.accepted rest.accepted)
            ∙ ap (λ t. t ++ rest.accepted) e1
            ∙ append_assoc one.taken (contents one.final) rest.accepted
            ∙ ap (λ t. one.taken ++ t) e2
            ∙ sym (append_assoc one.taken rest.taken (contents rest.final)),
      ),
    )
