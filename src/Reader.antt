-- ===== src/Reader.antt =====
-- src/server/fileReader.c: the process that reads a mail for a connection. It writes into the output
-- of the connection, which is looked at again when the reader is not.
pub mod Reading
use pop.Common.{
  ℕ, ◌+◌, ◌-◌, Bool, true, false, not, Option, none, some, List, [], ◌∷◌, ◌++◌, Str, codes, str_eq,
  pos, length, take, if◌then◌else◌, ◌>>=◌,
}
use pop.Buffer.{Buffer, buffer_can_write, buffer_write_ptr, buffer_write_adv, fill}
use pop.Client.{World, put_client, op_noop, op_read, op_write}

-- `external_program`, whose first value is "cat"; `none` is NULL.
unfoldable pub set_external_program : Option Str → Str → Str
set_external_program none current = current
set_external_program (some program) current = program

abbrev pub cat : Str
cat = codes "cat"

unfoldable pub change_interests : World → World
change_interests w = record w { interest = op_write; reader_interest = op_noop }

abbrev pub put_out : World → Buffer → World
put_out w b = put_client w (record w.client { write_buffer = b })

-- `snprintf` of the line end into `room` bytes: at most `room` bytes with the terminator.
abbrev pub line_end : ℕ → Str
line_end room = take (room - 1) (codes "\r\n") ++ (0 ∷ [])

-- The end of the file: the reader is unregistered, and the connection has no refill any more. A
-- program other than "cat" gets a line end, whose two bytes are announced whatever the room is.
unfoldable pub end_of_file : Str → ℕ → World → Option World
end_of_file program room w =
    let w' = put_client w (record w.client { send = record w.client.send { f = none } }) in
    let ended = (do
      b ← fill w.client.write_buffer (line_end room)
      b' ← buffer_write_adv b (pos 2)
      some (put_out w' b')) in
    if str_eq program cat then some w' else ended

-- `got` is what `read` gives, at most as many bytes as are asked for; `none` is a result below 0,
-- and no bytes are the end of the file.
unfoldable pub handle_file_reader : Str → Option Str → World → Option World
unfolding change_interests
handle_file_reader program got w =
    let out = w.client.write_buffer in
    let w' = change_interests w in
    let brought = (do
      (at, room) ← buffer_write_ptr out
      elim got [
        | none ↦ some w'
        | some [] ↦ end_of_file program room w'
        | some (c ∷ cs) ↦ (do
          b ← fill out (c ∷ cs)
          b' ← buffer_write_adv b (pos (length (c ∷ cs)))
          some (put_out w' b'))
      ]) in
    if buffer_can_write out then brought else some w'
