-- ===== src/Reader/Reading.antt =====
-- What the reader of a mail puts into the output of its connection.
use pop.Common.{
  ℕ, ◌+◌, ◌-◌, ◌<◌, ◌≤◌, ◌≡◌, refl, ◌∙◌, none, some, [], ◌∷◌, ◌++◌, Str, codes, str_eq, length,
  le→leb, arith, Option, pos, ap, sym, suc, append-nil, ◌>>=◌, >>=-eq-some, zero, take,
  if◌then◌else◌, Bool-cases, inl, inr,
}
use pop.Buffer.{Buffer, buffer_write_ptr, buffer_write_adv, fill, contents}
use pop.Buffer.Inv.{IsValid, fill_lem}
use pop.Client.{World, Refill, put_client, op_noop, op_write}
use pop.Writter.Answer.{out_of, can_write, put_msg_lem}
use pop.Reader.{handle_file_reader, end_of_file, change_interests, cat, put_out, line_end}
use pop.Writter.{put_msg}

pointer : (b : Buffer) → b.write ≤ b.limit → buffer_write_ptr b ≡ some (b.write, b.limit - b.write)
unfolding buffer_write_ptr
pointer b h = rw (le→leb b.write b.limit h) refl

-- The connection at the end of the file, before a line end.
abbrev at_end : World → World
at_end w = record (put_client w (record w.client { send = record w.client.send { f = none } })) {
  interest = op_write;
  reader_interest = op_noop;
}

-- What is appended for the bytes read, and the refill behind them.
abbrev pub appended : Str → Str → Str
appended program [] = if str_eq program cat then [] else codes "\r\n"
appended program (c ∷ cs) = c ∷ cs

abbrev pub refill_after : Str → World → Option Refill
refill_after [] w = none
refill_after (c ∷ cs) w = w.client.send.f

take_two : (k : ℕ) → take (suc (suc k)) (codes "\r\n") ≡ codes "\r\n"
take_two zero = refl
take_two (suc k) = refl

full_line : (room : ℕ) → 2 < room → line_end room ≡ codes "\r\n" ++ (0 ∷ [])
full_line room h =
    let e : room - 1 ≡ suc (suc (room - 3)) = omega arith in
    ap (λ k. take k (codes "\r\n") ++ (0 ∷ [])) e ∙ ap (λ t. t ++ (0 ∷ [])) (take_two (room - 3))

puts_line :
    (b : Buffer) (room : ℕ)
    → IsValid b
    → b.write + 2 < b.limit
    → 2 < room
    → (c b' : Buffer) × (fill b (line_end room) ≡ some c)
      × (buffer_write_adv c (pos 2) ≡ some b')
      × IsValid b'
      × (contents b' ≡ contents b ++ codes "\r\n")
unfolding put_msg
puts_line b room v h r =
    let (b', put, v', c) = put_msg_lem b (codes "\r\n") v h in
    let at : buffer_write_ptr b ≡ some (b.write, b.limit - b.write) = pointer b (omega arith) in
    let both : (fill b (codes "\r\n" ++ (0 ∷ [])) >>= λ x. buffer_write_adv x (pos 2)) ≡ some b' =
      sym (rw (at, put_msg) refl) ∙ put in
    let (x, e, f) = >>=-eq-some (fill b (codes "\r\n" ++ (0 ∷ []))) _ both in
    (x, b', rw (full_line room r) e, f, v', c)

-- Bytes that are read are appended to the output of the connection, which is then asked for writing
-- while the reader waits. At the end of the file nothing is appended for "cat"; another program gets
-- a line end, if the output has room for three bytes. In both cases there is no refill any more.
pub handle_file_reader_lem :
    (program data_read : Str) (w : World)
    → IsValid (out_of w)
    → (out_of w).write + 2 < (out_of w).limit
    → (out_of w).write + length data_read ≤ (out_of w).limit
    → (w' : World) × (handle_file_reader program (some data_read) w ≡ some w')
      × IsValid (out_of w')
      × (contents (out_of w') ≡ contents (out_of w) ++ appended program data_read)
      × (w'.interest ≡ op_write)
      × (w'.reader_interest ≡ op_noop)
      × (w'.client.send.f ≡ refill_after data_read w)
unfolding handle_file_reader end_of_file change_interests
handle_file_reader_lem program [] w v r h =
    let room = (out_of w).limit - (out_of w).write in
    let at = pointer (out_of w) (omega arith) in
    let open_still = can_write (out_of w) (omega arith) in
    elim (Bool-cases (str_eq program cat)) [
      | inl e ↦ (
        at_end w,
        rw (open_still, handle_file_reader) (rw at (rw (e, end_of_file) refl)),
        v,
        rw e (sym (append-nil (contents (out_of w)))),
        refl,
        refl,
        refl,
      )
      | inr e ↦
          let (x, b, put, adv, v', c) = puts_line (out_of w) room v r (omega arith) in
          (
            put_out (at_end w) b,
            rw (open_still, handle_file_reader) (rw at (rw (e, end_of_file) (rw (put, adv) refl))),
            v',
            rw e c,
            refl,
            refl,
            refl,
          )
    ]
handle_file_reader_lem program (x ∷ xs) w v r h =
    let at = pointer (out_of w) (omega arith) in
    let open_still = can_write (out_of w) (omega arith) in
    let (c, b, put, adv, v', e) = fill_lem (x ∷ xs) v h in
    (
      put_out (change_interests w) b,
      rw (open_still, handle_file_reader) (rw at (rw put (rw adv refl))),
      v',
      e,
      refl,
      refl,
      refl,
    )
