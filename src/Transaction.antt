-- ===== src/Transaction.antt =====
-- src/server/transaction.c: the handlers of the transaction state. Their world is the one of a
-- connection; `none` is an undefined behaviour, among them a `calloc` of mails that is written past.
pub mod Answering
pub mod Listing
use pop.Common.{
  ℕ, zero, suc, ◌+◌, ◌-◌, Bool, true, false, not, ◌||◌, Option, none, some, List, [], ◌∷◌, ◌++◌,
  Str, String, codes, c_str, to_upper, str_eq, ℤ, pos, ltb, ◌==◌, if◌then◌else◌, ◌>>=◌, get_elem?,
  length, take, replicate, print_d,
}
use pop.Pop3Def
use pop.Buffer.{
  Buffer, buffer_can_read, buffer_write_ptr, buffer_write_adv, buffer_read_ptr, buffer_read_adv,
  fill, contents,
}
use pop.Parser.{Parser}
use pop.Parser.Line.{LineParser}
use pop.Parser.Trans.{init_trans_parser, trans_parse}
use pop.Maildir.{Mail, Mails, maildir_list_new}
use pop.Client.{
  World, Env, Send, op_noop, op_read, op_write, put_client, transaction, update, error_pop3, Refill,
  cmd_list_all_new, load_more_bytes,
}
use pop.Writter.{send, sent_all, is_negative, write_msg}
use pop.Auth.{read_into, state_of}
use pop.Mailbox.{cmd_stat, cmd_list, cmd_retr, cmd_dele, cmd_rset}

unfoldable pub init_trans : World → World
unfolding init_trans_parser
init_trans w =
    put_client w (record w.client { trans_parser = init_trans_parser w.client.trans_parser })

unfoldable pub trans_read : Env → World → Option (ℕ × World)
trans_read = read_into transaction

-- `convertToUpper` on the characters of the array before its first NUL.
unfoldable pub convert_to_upper : List ℕ → List ℕ
convert_to_upper [] = []
convert_to_upper (c ∷ cs) =
    let rest = convert_to_upper cs in if c == 0 then c ∷ cs else to_upper c ∷ rest

abbrev goes_to : World → ℕ → World
goes_to w state = put_client w (record w.client { next_state = pos state })

-- The world that a command sees: its word is in capitals, and TRANSACTION is to follow.
unfoldable pub uppered : World → World
unfolding convert_to_upper
uppered w =
    let p = w.client.trans_parser in
    goes_to
      (put_client w (record w.client { trans_parser = record p { cmd = convert_to_upper p.cmd } }))
      transaction

abbrev pub is_cmd : String → World → Bool
is_cmd name w = str_eq (c_str w.client.trans_parser.cmd) (codes name)

unfoldable pub handle_request : Env → World → Option (Str × World)
handle_request env w0 =
    let w = uppered w0 in
    if is_cmd "STAT" w
    then cmd_stat env w
    else if is_cmd "LIST" w
    then cmd_list env w
    else if is_cmd "RETR" w
    then cmd_retr env w
    else if is_cmd "DELE" w
    then cmd_dele env w
    else if is_cmd "RSET" w
    then cmd_rset env w
    else if is_cmd "NOOP" w
    then some (codes "+OK\r\n", w)
    else if is_cmd "QUIT" w
    then some ([], goes_to w update)
    else if is_cmd "CAPA" w
    then some (codes "+OK Capability list follows\r\nUSER\r\nPIPELINING\r\n.\r\n", w)
    else some (codes "-ERR invalid command\r\n", w)

-- The bytes that one call of `send` is given.
abbrev chunk : Buffer → Str
chunk b = take Pop3Def.max_bytes_send (contents b)

abbrev pub put_output : World → Buffer → World
put_output w b = put_client w (record w.client { write_buffer = b })

abbrev put_send : World → Send → World
put_send w s = put_client w (record w.client { send = s })

-- What `send_data` and `send_terminator` share: one call of `send`, its error, and the bytes that
-- leave the buffer.
unfoldable pub send_chunk : Env → World → (World → Option (ℕ × World)) → Option (ℕ × World)
unfolding send is_negative
send_chunk env w next =
    let w' = send env (chunk w.client.write_buffer) w in
    let taken = (do
      p ← buffer_read_ptr w.client.write_buffer
      out ← buffer_read_adv w.client.write_buffer env.sent
      next (put_output w' out)) in
    if is_negative env.sent
    then some (error_pop3, put_client w' (record w'.client { err_code = Pop3Def.unknown_error }))
    else taken

unfoldable pub write_terminator : World → Option (ℕ × World)
write_terminator w = do
  (at, bytes_to_send) ← buffer_write_ptr w.client.write_buffer
  let written : Option (ℕ × World) = (do
    b ← fill w.client.write_buffer (codes ".\r\n")
    out ← buffer_write_adv b (pos Pop3Def.terminator_len)
    some (transaction, put_output w out))
  if ltb bytes_to_send Pop3Def.terminator_len then some (error_pop3, w) else written

abbrev ends_reading : World → World
ends_reading w =
    if not (buffer_can_read w.client.read_buffer) then record w { interest = op_read } else w

unfoldable pub send_terminator : Env → World → Option (ℕ × World)
send_terminator env w = send_chunk env w (λ w1.
    let w2 =
      ends_reading
        (put_send w1 (record { finished = true; multiline = false; file = false; f = none })) in
    some (state_of w1.client.next_state, w2))

-- The mails from `i` on that are deleted are passed over; the rounds left are given.
unfoldable pub skip_deleted : List Mail → ℕ → ℕ → Option ℕ
skip_deleted mails zero i = some i
skip_deleted mails (suc k) i =
    let rest = skip_deleted mails k (i + 1) in
    get_elem? mails i >>= λ m. if m.del then rest else some i

abbrev pub put_listed : World → ℕ → World
put_listed w n = put_client w (record w.client { n_listed = n })

-- The end of `cmd_list_all_new`.
abbrev pub list_end : Mails → World → World
list_end ms w =
    if w.client.n_listed == ms.len
    then put_listed (put_send w (record w.client.send { f = none })) 0
    else w

abbrev pub scan_listing : Mail → ℕ → Str
scan_listing m i = print_d (i + 1) ++ (codes " " ++ (print_d m.size ++ codes "\r\n"))

-- The line of the mail `i`, which `strncpy` pads with NUL; without room for it nothing is done.
unfoldable pub list_line : Mails → ℕ → World → Option World
list_line ms i w = do
  m ← get_elem? ms.mails i
  (at, nbwrite) ← buffer_write_ptr w.client.write_buffer
  let line = scan_listing m i
  let written : Option World = (do
    b ← fill w.client.write_buffer (line ++ replicate (nbwrite - length line) 0)
    out ← buffer_write_adv b (pos (length line))
    some (list_end ms (record (put_output (put_listed w (i + 1)) out) { interest = op_write })))
  if ltb nbwrite (length line) then some w else written

unfoldable pub list_all_new : Env → World → Option World
list_all_new env w = do
  (list, md) ← maildir_list_new env.dir w.client.maildir
  let w1 = put_client w (record w.client { maildir = md })
  let more : Mails → Option World = λ ms. (do
    i ← skip_deleted ms.mails (ms.len - w1.client.n_listed) w1.client.n_listed
    let w2 = put_listed w1 i
    if i == ms.len then some (list_end ms w2) else list_line ms i w2)
  elim list [ none ↦ some w1 | some ms ↦ more ms ]

-- `data->send.f(key)`
unfoldable pub refill : Refill → Env → World → Option World
refill cmd_list_all_new env w = list_all_new env w
refill load_more_bytes env w = some (record w { interest = op_noop; reader_interest = op_read })

-- What `send_data` does when all was sent.
unfoldable pub after_sending : Env → World → Option (ℕ × World)
after_sending env w =
    let done_sending = put_send w (record w.client.send { finished = true }) in
    elim w.client.send.f [
      | some f ↦ (refill f env w >>= λ (w' : World). some (transaction, w'))
      | none ↦
          if w.client.send.multiline
          then write_terminator done_sending
          else some (state_of w.client.next_state, ends_reading done_sending)
    ]

unfoldable pub send_data : Env → World → Option (ℕ × World)
unfolding sent_all
send_data env w = send_chunk env w (λ w'.
    let after = after_sending env w' in
    if sent_all env.sent (length (contents w.client.write_buffer))
    then after
    else some (transaction, w'))

-- The end of `trans_process`, after what a command has to say was sent.
unfoldable pub trans_finish : World → ℕ × World
unfolding init_trans_parser
trans_finish w =
    let d = w.client in
    let w1 =
      if buffer_can_read d.write_buffer
      then put_send w (record d.send { finished = false })
      else if not d.send.finished || buffer_can_read d.read_buffer
      then record w { interest = op_write }
      else record w { interest = op_read } in
    let fresh =
      put_client w1 (record w1.client { trans_parser = init_trans_parser d.trans_parser }) in
    let stays = state_of d.next_state == transaction in
    (state_of d.next_state, if stays then fresh else w1)

-- What follows `write_msg`, whose result is `sent`.
unfoldable pub trans_sent : ℤ → World → Option (ℕ × World)
unfolding trans_finish is_negative
trans_sent sent w =
    let rest = (do
      out ← buffer_read_adv w.client.write_buffer sent
      some (trans_finish (put_output w out))) in
    if is_negative sent then some (error_pop3, w) else rest

-- A command that leaves no text is answered by nothing.
unfoldable pub trans_answer : Env → World → Option (ℕ × World)
unfolding trans_finish
trans_answer env w = do
  (msg, w1) ← handle_request env w
  let told = (write_msg env msg w1 >>= λ (r : ℤ × World). trans_sent r.0 r.1)
  if str_eq msg [] then some (trans_finish w1) else told

unfoldable pub trans_process : Parser LineParser → Env → World → Option (ℕ × World)
trans_process engine env w =
    let d = w.client in
    let parsed = (do
      (p, b) ← trans_parse engine d.trans_parser d.read_buffer
      let w1 = put_client w (record d { trans_parser = p; read_buffer = b })
      let answer = trans_answer env w1
      if not p.ended then some (transaction, record w1 { interest = op_read }) else answer) in
    let waits : Option (ℕ × World) = some (transaction, record w { interest = op_read }) in
    if not d.send.finished
    then send_data env w
    else if d.send.multiline
    then send_terminator env w
    else if not (buffer_can_read d.read_buffer)
    then waits
    else parsed
