-- ===== src/Writter.antt =====
-- src/server/writter.c: the greeting, and the answer to a command.
pub mod Answer
use pop.Common.{
  ℕ, ◌+◌, Bool, true, false, not, Option, none, some, List, [], ◌∷◌, ◌++◌, Str, codes, ℤ, pos,
  negsuc, length, take, ◌==◌, if◌then◌else◌, ◌>>=◌,
}
use pop.Pop3Def.{unknown_error}
use pop.Buffer.{
  Buffer, buffer_can_write, buffer_can_read, buffer_compact, buffer_write_ptr, buffer_write_adv,
  buffer_read_ptr, fill, contents,
}
use pop.Client.{
  ClientData, World, Env, Interest, op_read, put_client, monitor_add_sent_bytes, auth, error_pop3,
}

-- The string and its terminator: MSG_LEN is 19, one more than the characters.
abbrev pub greeting_msg : Str
greeting_msg = codes "+OK server ready\r\n" ++ (0 ∷ [])

-- The bytes of `msg` that `send` took.
abbrev pub taken : ℤ → Str → Str
taken (pos n) msg = take n msg
taken (negsuc n) msg = []

unfoldable pub is_negative : ℤ → Bool
is_negative (pos n) = false
is_negative (negsuc n) = true

-- `send` of the bytes `msg`, counted by the monitor.
unfoldable pub send : Env → Str → World → World
unfolding monitor_add_sent_bytes
send env msg w = record w {
  wire = w.wire ++ taken env.sent msg;
  counters = monitor_add_sent_bytes env.sent w.counters;
}

unfoldable pub sent_all : ℤ → ℕ → Bool
sent_all (pos n) m = n == m
sent_all (negsuc n) m = false

unfoldable pub write_greeting : Env → World → ℕ × World
unfolding send sent_all
write_greeting env w =
    let w' = send env greeting_msg w in
    if sent_all env.sent (length greeting_msg)
    then (auth, record w' { interest = op_read })
    else (error_pop3, w')

-- The string and its terminator are copied; `buffer_write_adv` takes the string alone.
unfoldable pub put_msg : Buffer → Str → Option Buffer
put_msg b msg = do
  p ← buffer_write_ptr b
  b' ← fill b (msg ++ (0 ∷ []))
  buffer_write_adv b' (pos (length msg))

-- `none` is an undefined behaviour; else the result, and the world.
unfoldable pub write_msg : Env → Str → World → Option (ℤ × World)
unfolding send is_negative
write_msg env msg w =
    let d = w.client in
    let full = not (buffer_can_write d.write_buffer) in
    let out = if full then buffer_compact d.write_buffer else d.write_buffer in
    let w1 = put_client w (record d { write_buffer = out }) in
    let answer = (do
      out' ← put_msg out msg
      p ← buffer_read_ptr out'
      let w2 = send env (contents out') (put_client w1 (record w1.client { write_buffer = out' }))
      some (
        env.sent,
        (if is_negative env.sent
            then put_client w2 (record w2.client { err_code = unknown_error })
            else w2),
      )) in
    if full
    then (if buffer_can_write out
        then some (negsuc 0, put_client w1 (record w1.client { err_code = unknown_error }))
        else answer)
    else answer
