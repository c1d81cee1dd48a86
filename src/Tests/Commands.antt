-- ===== src/Tests/Commands.antt =====
-- The commands of the transaction state on concrete connections.
use pop.Common.{
  drop, window_empty, ◌+◌, ◌^◌, ◌%◌, ◌≡◌, refl, true, false, none, some, [], ◌∷◌, ◌++◌, String,
  codes, pos, ltb, ◌==◌, if◌then◌else◌, length, get_elem?, print_digits, print_u, print_d, arith,
}
use pop.Maildir.{Mails}
use pop.Maildir.Marks as Marks
use pop.Maildir.Marks.{marked}
use pop.Client.{World, put_client, cmd_list_all_new}
use pop.Buffer.{contents}
use pop.Transaction.Listing.{listing}
use pop.Transaction.Listing.Whole.{list_all, list_all_lem}
use pop.Args.{get_next_arg, atoi, skip_args, copy_arg, to_number, to_int}
use pop.Args.Numbers.{get_next_arg-word}
use pop.Mailbox.{cmd_rset, cmd_stat, cmd_dele, next_number, total_size}
use pop.Mailbox.Naming.{next_number-print_u}
use pop.Mailbox.Marking.{
  all_unmarked, with_mails, count_kept, size_kept, cmd_rset-unmarks, cmd_stat-kept, cmd_dele-marks,
}
use pop.Tests.{empty-IsValid, parsed, mail, three_mails, connection, world, takes}
use pop.Tests.Maildirs.{three_mails-IsValid}

-- A connection that has read the command `cmd` with `arg`.
abbrev says : String → String → World
says cmd arg = world [] (connection (codes "ana") (parsed (codes cmd) (codes arg)) [])

cmd_rset-unmarks_example :
    (cmd_rset (takes 0) (says "RSET" "")
      ≡ some (
        codes "+OK maildrop has "
            ++ (print_u three_mails.len
                ++ (codes " messages ("
                    ++ (print_digits 20 (total_size three_mails.mails 0)
                        ++ codes " octects)\r\n"))),
        with_mails (says "RSET" "") (all_unmarked three_mails),
      ))
    × Marks.IsValid (all_unmarked three_mails)
cmd_rset-unmarks_example =
    cmd_rset-unmarks (takes 0) (says "RSET" "") three_mails refl three_mails-IsValid

cmd_stat-kept_example :
    cmd_stat (takes 0) (says "STAT" "")
    ≡ some (
      codes "+OK "
          ++ (print_u (count_kept three_mails.mails)
              ++ (codes " "
                  ++ (print_digits 20 (size_kept three_mails.mails % 2 ^ 64) ++ codes "\r\n"))),
      with_mails (says "STAT" "") three_mails,
    )
cmd_stat-kept_example =
    cmd_stat-kept (takes 0) (says "STAT" "") three_mails refl three_mails-IsValid

-- The same connection when it has taken the argument.
abbrev took : World
took = put_client (says "DELE" "2") (record (says "DELE" "2").client {
  trans_parser = record (parsed (codes "DELE") (codes "2")) { arg_read = 1 };
})

takes_two : next_number (says "DELE" "2") ≡ some (pos 2, took)
unfolding next_number get_next_arg atoi skip_args copy_arg to_number to_int
takes_two = refl

cmd_dele-marks_example :
    (r : Mails) × (cmd_dele (takes 0) (says "DELE" "2")
      ≡ some (codes "+OK message " ++ (print_d (1 + 1) ++ codes " deleted\r\n"), with_mails took r))
    × Marks.IsValid r
    × (get_elem? r.mails 0 ≡ (
        if 1 == 0
        then some (marked (mail "b" 20 true false) true)
        else get_elem? three_mails.mails 0))
cmd_dele-marks_example =
    cmd_dele-marks (takes 0) (says "DELE" "2") took three_mails 1 0 (mail "b" 20 true false) refl
      three_mails-IsValid refl takes_two refl refl

two_printed : (says "DELE" "2").client.trans_parser.arg ≡ print_u 2 ++ (0 ∷ [])
unfolding print_u print_digits
two_printed = refl

next_number-print_u_example : next_number (says "DELE" "2") ≡ some (pos 2, took)
next_number-print_u_example =
    next_number-print_u (says "DELE" "2") 2 [] (omega arith) refl two_printed

get_next_arg-word_example : get_next_arg (parsed (codes "LIST") (codes "12 3")) ≡ (
    if ltb (length (codes "12")) 40
    then some (
      codes "12",
      record (parsed (codes "LIST") (codes "12 3")) {
        arg_read = (parsed (codes "LIST") (codes "12 3")).arg_read + 1;
      },
    )
    else none)
get_next_arg-word_example =
    get_next_arg-word (parsed (codes "LIST") (codes "12 3")) (codes "12") b' ' (b'3' ∷ (0 ∷ []))
      refl refl refl refl

-- LIST has sent its first line and still lists from the second mail on.
abbrev listing_on : World
listing_on = put_client (says "LIST" "") (record (says "LIST" "").client {
  n_listed = 1;
  send = record { finished = false; file = false; multiline = true; f = some cmd_list_all_new };
})

nothing_held : contents listing_on.client.write_buffer ≡ []
unfolding contents
nothing_held = window_empty listing_on.client.write_buffer.bytes 0

list_all_lem_example :
    (w' : World) × (list_all 4 (takes 0) listing_on ≡ some w')
    × (w'.wire ≡ listing (drop 1 three_mails.mails) 1)
    × (w'.client.send.f ≡ none)
list_all_lem_example =
    list_all_lem 4 (takes 0) listing_on three_mails refl three_mails-IsValid (omega arith)
      (omega arith) refl empty-IsValid nothing_held (omega arith)
