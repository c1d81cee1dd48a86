-- ===== src/Tests/Connections.antt =====
-- The events of concrete connections.
use pop.Common.{
  none, some, String, pos, to_upper, ℕ, ◌≤◌, ◌≡◌, refl, true, false, not, ◌&&◌, some, List, [], ◌∷◌,
  ◌++◌, codes, str_eq, is_print, if◌then◌else◌, length, replicate, length-replicate, window, arith,
}
use pop.Buffer.{Buffer, contents}
use pop.Parser.Line.Table.{engine}
use pop.Parser.Line.Command.{All, fresh}
use pop.Parser.Auth.{auth_spec, auth_arg_size}
use pop.Parser.Trans.{trans_spec}
use pop.Users.{offline, logging, online, User, user_exists, user_get_state, user_check_pass, first}
use pop.Client.{World, transaction, put_client, monitor_close_connection}
use pop.Pop3.{close_connection, pop3_handle_write}
use pop.Pop3.Session.{greeted, close_connection-offline, pop3_handle_write-login}
use pop.Writter.Answer.{out_of}
use pop.Auth.{state_of}
use pop.Transaction.{uppered, convert_to_upper, handle_request, trans_answer}
use pop.Transaction.Answering.{trans_answer-sends}
use pop.Tests.{parsed, holds-IsValid, empty-IsValid, user, connection, world, takes}

abbrev users : List User
users = user "ana" "1" logging ∷ (user "bob" "2" offline ∷ [])

-- "ana" has been named, and her password is in the input.
abbrev ana : World
ana =
    world users
      (connection (codes "ana") (fresh auth_spec auth_arg_size) (codes "PASS 1\r\nSTAT\r\n"))

abbrev blank : Buffer
blank = record { bytes = replicate 32768 0; limit = 0; read = 0; write = 0 }

-- A connection before its start.
abbrev unborn : World
unborn = put_client ana (record ana.client { read_buffer = blank; write_buffer = blank })

room : 32768 ≤ length blank.bytes
room = omega (arith, length-replicate {A = ℕ} 32768 0)

close_connection-offline_example :
    (w' : World) × (close_connection ana ≡ some w')
    × (user_get_state (codes "ana") w'.users ≡ (
        if not (str_eq ana.client.user [])
          && (str_eq ana.client.user (codes "ana") && user_exists (codes "ana") ana.users)
        then offline
        else user_get_state (codes "ana") ana.users))
    × (w'.counters ≡ monitor_close_connection ana.counters)
    × (close_connection w' ≡ none)
close_connection-offline_example = close_connection-offline ana (codes "ana") refl

input : contents ana.client.read_buffer ≡ codes "PASS 1\r\nSTAT\r\n"
unfolding contents window
input = refl

one-IsPrint : All (λ c. is_print c ≡ true) (codes "1")
unfolding is_print
one-IsPrint = ground arith

one-IsPassword : user_check_pass ana.client.user (codes "1") ana.users ≡ true
unfolding user_check_pass first str_eq
one-IsPassword = refl

pop3_handle_write-login_example :
    (w' : World) × (pop3_handle_write
        (engine auth_spec)
        (engine trans_spec)
        (takes (length greeted))
        ana
      ≡ some w')
    × (w'.wire ≡ ana.wire ++ greeted)
    × (w'.client.current ≡ some transaction)
    × (contents w'.client.read_buffer ≡ codes "STAT\r\n")
    × (w'.client.user ≡ ana.client.user)
    × (user_get_state ana.client.user w'.users ≡ online)
pop3_handle_write-login_example =
    pop3_handle_write-login (engine trans_spec) (takes (length greeted)) ana (codes "1")
      (codes "STAT\r\n") refl refl refl empty-IsValid refl refl (omega arith)
      (holds-IsValid (codes "PASS 1\r\nSTAT\r\n")) input one-IsPrint (omega arith) (λ e. cc)
      one-IsPassword refl

-- The connection that has read "noop" in the transaction state, before the command and behind it.
abbrev noop : String → World
noop cmd =
    let w = world users (connection (codes "ana") (parsed [] []) []) in
    put_client w
      (record w.client { next_state = pos transaction; trans_parser = parsed (codes cmd) [] })

answers_ok : handle_request (takes 5) (noop "noop") ≡ some (codes "+OK\r\n", noop "NOOP")
unfolding handle_request uppered convert_to_upper to_upper str_eq
answers_ok = refl

not_silent : str_eq (codes "+OK\r\n") [] ≡ false
unfolding str_eq
not_silent = refl

trans_answer-sends_example :
    (w' : World) × (trans_answer (takes 5) (noop "noop")
      ≡ some (state_of (noop "NOOP").client.next_state, w'))
    × (w'.wire ≡ (noop "NOOP").wire ++ codes "+OK\r\n")
    × ((out_of w').read ≡ 0)
    × ((out_of w').write ≡ 0)
    × (w'.client.maildir ≡ (noop "NOOP").client.maildir)
    × (w'.client.read_buffer ≡ (noop "NOOP").client.read_buffer)
    × (w'.users ≡ (noop "NOOP").users)
trans_answer-sends_example =
    trans_answer-sends (takes 5) (noop "noop") (noop "NOOP") (codes "+OK\r\n") answers_ok not_silent
      empty-IsValid refl refl (omega arith) refl
