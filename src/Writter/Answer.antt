-- ===== src/Writter/Answer.antt =====
-- What `write_msg` puts on the wire.
use pop.Common.{
  ℕ, ◌+◌, ◌-◌, ◌<◌, ◌≡◌, refl, true, some, List, [], ◌∷◌, ◌++◌, Str, pos, length, length-append,
  length-poke, poke, take, lt→ltb, le→leb, window-poke_one_more, arith,
}
use pop.Buffer.{
  Buffer, buffer_can_write, buffer_write_ptr, buffer_write_adv, buffer_read_ptr, fill, contents,
}
use pop.Buffer.Inv.{IsValid}
use pop.Client.{World, Env, put_client}
use pop.Writter.{put_msg, write_msg, send, is_negative}

-- A string that fits with its terminator is appended to the buffer.
pub put_msg_lem :
    (b : Buffer) (msg : Str)
    → IsValid b
    → b.write + length msg < b.limit
    → (b' : Buffer) × (put_msg b msg ≡ some b') × IsValid b' × (contents b' ≡ contents b ++ msg)
unfolding put_msg buffer_write_ptr fill buffer_write_adv contents
put_msg_lem b msg v h =
    let z : List ℕ = 0 ∷ [] in
    let long : length (msg ++ z) ≡ length msg + 1 = length-append msg z in
    (
      record b { bytes = poke b.bytes b.write (msg ++ z); write = b.write + length msg },
      ground (arith, long),
      omega (arith, length-poke (msg ++ z) b.bytes b.write),
      window-poke_one_more msg b.bytes b.read b.write 0 v.read_le_write (omega arith),
    )

pub can_write : (b : Buffer) → b.write < b.limit → buffer_can_write b ≡ true
unfolding buffer_can_write
can_write b h = lt→ltb b.write b.limit h

read_ptr : (b : Buffer) → IsValid b → buffer_read_ptr b ≡ some (b.read, b.write - b.read)
unfolding buffer_read_ptr
read_ptr b v = rw (le→leb b.read b.write v.read_le_write) refl

abbrev pub out_of : World → Buffer
out_of w = w.client.write_buffer

-- Where the string fits with its terminator behind what the output buffer holds, and `send` is
-- answered by a count, `write_msg` returns that count. The wire has got so many bytes of what the
-- buffer held followed by the string, and all of these are still in the buffer, which is valid.
-- The users, the files and the interest are as before.
pub write_msg_lem :
    (env : Env) (msg : Str) (w : World) (n : ℕ)
    → IsValid (out_of w)
    → (out_of w).write + length msg < (out_of w).limit
    → env.sent ≡ pos n
    → (w' : World) × (write_msg env msg w ≡ some (pos n, w'))
      × IsValid (out_of w')
      × (contents (out_of w') ≡ contents (out_of w) ++ msg)
      × (w'.wire ≡ w.wire ++ take n (contents (out_of w) ++ msg))
      × (w'.client ≡ record w.client { write_buffer = out_of w' })
      × (w'.users ≡ w.users)
      × (w'.fs ≡ w.fs)
unfolding write_msg send is_negative
write_msg_lem env msg w n v h e =
    let (b', put, v', c) = put_msg_lem (out_of w) msg v h in
    let room : buffer_can_write (out_of w) ≡ true = can_write (out_of w) (omega arith) in
    let at : buffer_read_ptr b' ≡ some (b'.read, b'.write - b'.read) = read_ptr b' v' in
    let w' : World =
      send env (contents b') (put_client w (record w.client { write_buffer = b' })) in
    (w', rw (room, put, at, e) refl, v', c, rw (c, e) refl, refl, refl, refl)
