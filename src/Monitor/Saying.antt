-- ===== src/Monitor/Saying.antt =====
-- The answers of the monitor in its output buffer.
use pop.Common.{
  ◌+◌, ◌-◌, ◌<◌, ◌≤◌, ◌≡◌, refl, Bool, true, false, some, ◌++◌, Str, length, arith, ltb, le→leb,
}
use pop.Buffer.{Buffer, buffer_write_ptr, contents}
use pop.Buffer.Inv.{IsValid}
use pop.Writter.Answer.{put_msg_lem, can_write}
use pop.Monitor.{MonitorWorld, put_conn, write_in_buffer, say}

pointer : (b : Buffer) → b.write ≤ b.limit → buffer_write_ptr b ≡ some (b.write, b.limit - b.write)
unfolding buffer_write_ptr
pointer b h = rw (le→leb b.write b.limit h) refl

-- A message that fits with its terminator is appended to the buffer.
write_in_buffer_lem :
    (logs : Bool) (b : Buffer) (msg : Str)
    → IsValid b
    → b.write + length msg < b.limit
    → (b' : Buffer) × (write_in_buffer logs msg b ≡ some (true, b'))
      × IsValid b'
      × (contents b' ≡ contents b ++ msg)
unfolding write_in_buffer
write_in_buffer_lem logs b msg v h =
    let (b', put, v', c) = put_msg_lem b msg v h in
    let at : buffer_write_ptr b ≡ some (b.write, b.limit - b.write) = pointer b (omega arith) in
    let fits : ltb (b.limit - b.write) (length msg) ≡ false = ground arith in
    (b', rw (can_write b (omega arith), write_in_buffer) (rw at (rw fits (rw put refl))), v', c)

abbrev pub out_of : MonitorWorld → Buffer
out_of m = m.conn.write_buffer

pub say_lem :
    (logs : Bool) (msg : Str) (m : MonitorWorld)
    → IsValid (out_of m)
    → (out_of m).write + length msg < (out_of m).limit
    → (b : Buffer) × (say logs msg m ≡ some (put_conn m (record m.conn { write_buffer = b })))
      × IsValid b
      × (contents b ≡ contents (out_of m) ++ msg)
unfolding say
say_lem logs msg m v h =
    let (b, e, v', c) = write_in_buffer_lem logs (out_of m) msg v h in (b, rw e refl, v', c)
