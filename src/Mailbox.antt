-- ===== src/Mailbox.antt =====
-- src/server/transaction.c, src/server/fileReader.c: what the commands of the transaction state do.
-- Each gives the text left in `msg` and the world; `none` is an undefined behaviour.
pub mod Marking
pub mod Naming
use pop.Common.{
  ℕ, zero, suc, ◌+◌, ◌-◌, ◌^◌, ◌%◌, Bool, true, false, not, ◌&&◌, Option, none, some, List, [], ◌∷◌,
  ◌++◌, Str, codes, c_str, map, to_upper, str_eq, ℤ, pos, negsuc, ltb, leb, ◌==◌, if◌then◌else◌,
  ◌>>=◌, get_elem?, set, drop, length, print_digits, print_u, print_d, sub32,
}
use pop.Parser.Line.{LineParser}
use pop.Maildir.{
  Mail, Mails, UserMaildir, maildir_is_del, maildir_set_read, maildir_set_del, maildir_list_new,
}
use pop.Client.{
  ClientData, World, Env, Send, op_noop, op_read, put_client, transaction, update, Refill,
  cmd_list_all_new, load_more_bytes,
}
use pop.Args.{get_next_arg, atoi}

-- A sum on a `size_t`
abbrev pub add64 : ℕ → ℕ → ℕ
add64 a b = (a + b) % 2 ^ 64

-- The sums of the loop of `get_new_mails`, over the array, whose length is `len`.
unfoldable pub total_size : List Mail → ℕ → ℕ
total_size [] n = n
total_size (m ∷ ms) n = total_size ms (add64 n m.size)

unfoldable pub del_size : List Mail → ℕ → ℕ
del_size [] n = n
del_size (m ∷ ms) n = del_size ms (if m.del then add64 n m.size else n)

abbrev put_maildir : World → UserMaildir → World
put_maildir w md = put_client w (record w.client { maildir = md })

abbrev put_mails : World → Mails → World
put_mails w ms = put_maildir w (record w.client.maildir { new = some ms })

-- `get_new_mails`, and the answer of a command where it fails.
unfoldable pub get_new_mails :
    Env → World → (Mails → World → Option (Str × World)) → Option (Str × World)
get_new_mails env w cmd = do
  (list, md) ← maildir_list_new env.dir w.client.maildir
  let w' = put_maildir w md
  let failed : Option (Str × World) = some (codes "-ERR server error\r\n", w')
  elim list [ none ↦ failed | some ms ↦ cmd ms w' ]

-- The mail that an argument names.
pub data Target : Type 0 where
  not_understood no_such : Target
  target : ℕ → Mail → Target

unfoldable pub find_mail : Mails → ℤ → Option Target
find_mail ms (pos zero) = some not_understood
find_mail ms (pos (suc n)) =
    if ltb ms.len (suc n) then some no_such else (get_elem? ms.mails n >>= λ m. some (target n m))
find_mail ms (negsuc n) = some no_such

-- The argument as a number; the parser has then read it.
unfoldable pub next_number : World → Option (ℤ × World)
next_number w = do
  (arg, p) ← get_next_arg w.client.trans_parser
  some (atoi arg, put_client w (record w.client { trans_parser = p }))

abbrev not_understood_msg : Mails → Str
not_understood_msg ms =
    codes "-ERR could not understand argument, "
    ++ (print_d ms.len ++ codes " messages in maildrop\r\n")

abbrev no_such_msg : Mails → Str
no_such_msg ms =
    codes "-ERR no such message, only " ++ (print_d ms.len ++ codes " messages in maildrop\r\n")

-- The common part of LIST, RETR and DELE: what `found` does to the mail with its index.
unfoldable pub on_mail :
    Mails → World → (ℕ → Mail → World → Option (Str × World)) → Option (Str × World)
on_mail ms w found = do
  (n, w') ← next_number w
  t ← find_mail ms n
  elim t [
    | not_understood ↦ some (not_understood_msg ms, w')
    | no_such ↦ some (no_such_msg ms, w')
    | target i m ↦ found i m w'
  ]

-- "%lu"
abbrev print_lu : ℕ → Str
print_lu n = print_digits 20 n

abbrev sub64 : ℕ → ℕ → ℕ
sub64 a b = (a + 2 ^ 64 - b) % 2 ^ 64

unfoldable pub cmd_stat : Env → World → Option (Str × World)
cmd_stat env w = get_new_mails env w (λ ms w'. some (
  codes "+OK "
      ++ (print_u (sub32 ms.len ms.ndel)
          ++ (codes " "
              ++ (print_lu (sub64 (total_size ms.mails 0) (del_size ms.mails 0)) ++ codes "\r\n"))),
  w',
))

-- "%ld" of 64 bits
abbrev pub print_ld : ℕ → Str
print_ld n = if ltb n (2 ^ 63) then print_lu n else b'-' ∷ print_lu (2 ^ 64 - n)

abbrev put_send : World → Send → World
put_send w s = put_client w (record w.client { send = s })

abbrev list_one : ℕ → Mail → World → Option (Str × World)
list_one i m w = some (
  (if m.del
      then codes "-ERR message " ++ (print_d (i + 1) ++ codes " deleted\r\n")
      else codes "+OK " ++ (print_d (i + 1) ++ (codes " " ++ (print_d m.size ++ codes "\r\n")))),
  w,
)

unfoldable pub cmd_list : Env → World → Option (Str × World)
cmd_list env w = get_new_mails env w (λ ms w'.
    if w'.client.trans_parser.total_arg == 0
    then some (
      codes "+OK "
          ++ (print_u (sub32 ms.len ms.ndel)
              ++ (codes " new messages ("
                  ++ (print_ld (sub64 (total_size ms.mails 0) (del_size ms.mails 0))
                      ++ codes " octects)\r\n"))),
      put_send w'
          (record w'.client.send { finished = false; multiline = true; f = some cmd_list_all_new }),
    )
    else on_mail ms w' list_one)

-- `init_file_reader`: the descriptor of the pipe is registered for reading.
unfoldable pub init_file_reader : Env → World → World
init_file_reader env w = elim env.opened [
  | none ↦ w
  | some fd ↦ record (put_client w (record w.client { reader_fd = fd })) {
    interest = op_noop;
    reader_interest = op_read;
  }
]

abbrev retr_one : Env → Mails → ℕ → Mail → World → Option (Str × World)
retr_one env ms i m w =
    let w1 = put_mails w (record ms { mails = set ms.mails i (maildir_set_read m true) }) in
    let d = record w1.client {
      file_path = m.path;
      send = record w1.client.send {
        finished = false;
        file = true;
        multiline = true;
        f = some load_more_bytes;
      };
    } in
    some (
      codes "+OK " ++ (print_d m.size ++ codes " octects\r\n"),
      init_file_reader env (put_client w1 d),
    )

unfoldable pub cmd_retr : Env → World → Option (Str × World)
cmd_retr env w = get_new_mails env w (λ ms w'. on_mail ms w' (retr_one env ms))

abbrev dele_one : Mails → ℕ → Mail → World → Option (Str × World)
dele_one ms i m w =
    let deleted : Option (Str × World) = (do
      ms' ← maildir_set_del ms i true
      some (codes "+OK message " ++ (print_d (i + 1) ++ codes " deleted\r\n"), put_mails w ms')) in
    if maildir_is_del m
    then some (codes "-ERR message " ++ (print_d (i + 1) ++ codes " already deleted\r\n"), w)
    else deleted

unfoldable pub cmd_dele : Env → World → Option (Str × World)
cmd_dele env w = get_new_mails env w (λ ms w'.
    if w'.client.trans_parser.total_arg == 0
    then some (
      codes "-ERR must give message to delete, "
          ++ (print_d ms.len ++ codes " messages in maildrop\r\n"),
      w',
    )
    else on_mail ms w' (dele_one ms))

-- The loop of RSET, with the rounds left.
unfoldable pub reset_marks : ℕ → ℕ → Mails → Option Mails
reset_marks zero i ms = some ms
reset_marks (suc k) i ms = maildir_set_del ms i false >>= reset_marks k (i + 1)

unfoldable pub cmd_rset : Env → World → Option (Str × World)
cmd_rset env w = get_new_mails env w (λ ms w'. do
  ms' ← reset_marks ms.len 0 ms
  some (
    codes "+OK maildrop has "
        ++ (print_u ms.len
            ++ (codes " messages ("
                ++ (print_lu (total_size ms.mails 0) ++ codes " octects)\r\n"))),
    put_mails w' ms',
  ))
