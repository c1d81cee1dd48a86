-- ===== src/Tests/Sessions.antt =====
-- The states of a connection on concrete connections.
use pop.Common.{
  ℕ, String, ◌≡◌, ◌≢◌, refl, true, false, some, List, [], ◌∷◌, ◌++◌, codes, str_eq, pos, negsuc,
  ◌>>=◌, length, arith,
}
use pop.Pop3Def
use pop.Buffer.{buffer_can_read}
use pop.Parser.Line.Table.{engine}
use pop.Parser.Auth.{auth_spec}
use pop.Users.{offline, logging, online, User, first, user_exists, user_get_state, user_check_pass}
use pop.Client.{World, Env, auth, transaction, put_client, done}
use pop.Auth.{
  process_cmd, cmd_pass, cmd_of, arg_of, auth_process, auth_answer, set_finished, next_of,
}
use pop.Auth.Commands.{process_cmd-transaction}
use pop.Auth.Lockout.{refused, process_cmd-lockout}
use pop.Auth.Sending.{auth_process-stuck, auth_answer-sends, message}
use pop.Update.{update_process, closing_msg}
use pop.Update.Closing.{count_read, effects, update_process-sends}
use pop.Tests.{empty-IsValid, parsed, user, three_mails, connection, world, takes}
use pop.Tests.Maildirs.{three_mails-IsValid}

abbrev users : List User
users = user "ana" "1" logging ∷ (user "bob" "2" offline ∷ [])

-- "ana" has been named, and `cmd` with `arg` read.
abbrev ana_says : String → String → World
ana_says cmd arg = world users (connection (codes "ana") (parsed (codes cmd) (codes arg)) [])

pass_leads : (process_cmd (ana_says "PASS" "1")).1.client.next_state ≡ pos transaction
unfolding process_cmd cmd_pass str_eq user_check_pass first
pass_leads = refl

process_cmd-transaction_example :
    (cmd_of (ana_says "PASS" "1") ≡ codes "PASS")
    × ((ana_says "PASS" "1").client.user ≢ [])
    × (user_check_pass (codes "ana") (arg_of (ana_says "PASS" "1")) (ana_says "PASS" "1").users
        ≡ true)
    × ((process_cmd (ana_says "PASS" "1")).1.client.user ≡ (ana_says "PASS" "1").client.user)
    × (user_get_state (codes "ana") (process_cmd (ana_says "PASS" "1")).1.users ≡ online)
    × ((process_cmd (ana_says "PASS" "1")).1.client.maildir.user ≡ codes "ana")
process_cmd-transaction_example = process_cmd-transaction (ana_says "PASS" "1") pass_leads

bob_exists : user_exists (arg_of (ana_says "USER" "bob")) (ana_says "USER" "bob").users ≡ true
unfolding user_exists first str_eq
bob_exists = refl

bob_offline :
    user_get_state (arg_of (ana_says "USER" "bob")) (ana_says "USER" "bob").users ≡ offline
unfolding user_get_state first str_eq
bob_offline = refl

-- A connection that has named nobody, with the users that an unknown command of "ana" left.
abbrev newcomer : World
newcomer = record (world users (connection [] (parsed (codes "USER") (codes "ana")) [])) {
  users = (process_cmd (ana_says "NOOP" "")).1.users;
}

ana_logging : user_get_state (ana_says "NOOP" "").client.user (ana_says "NOOP" "").users ≡ logging
unfolding user_get_state first str_eq
ana_logging = refl

not_quit : str_eq (codes "QUIT") (cmd_of (ana_says "NOOP" "")) ≡ false
unfolding str_eq
not_quit = refl

not_user : str_eq (codes "USER") (cmd_of (ana_says "NOOP" "")) ≡ false
unfolding str_eq
not_user = refl

not_pass : str_eq (codes "PASS") (cmd_of (ana_says "NOOP" "")) ≡ false
unfolding str_eq
not_pass = refl

not_capa : str_eq (codes "CAPA") (cmd_of (ana_says "NOOP" "")) ≡ false
unfolding str_eq
not_capa = refl

process_cmd-lockout_example :
    ((process_cmd (ana_says "NOOP" "")).1.client.user ≡ [])
    × (process_cmd newcomer ≡ refused newcomer Pop3Def.user_already_online)
process_cmd-lockout_example =
    process_cmd-lockout (ana_says "NOOP" "") newcomer not_quit not_user not_pass not_capa (λ e. cc)
      ana_logging refl refl refl

-- An answer of which a part was not sent.
abbrev half_sent : World
half_sent =
    set_finished
      (put_client (ana_says "NOOP" "") (record (ana_says "NOOP" "").client {
        write_buffer = record { bytes = codes "+OK\r\n"; limit = 5; read = 2; write = 5 };
      }))
      false

output_left : buffer_can_read half_sent.client.write_buffer ≡ true
unfolding buffer_can_read
output_left = refl

auth_process-stuck_example :
    (auth_process (engine auth_spec) (takes 3) half_sent >>= λ (r : ℕ × World).
    auth_process (engine auth_spec) (takes 3) r.1)
    ≡ some (auth, half_sent)
auth_process-stuck_example =
    auth_process-stuck (engine auth_spec) (takes 3) (takes 3) half_sent refl output_left

-- A system that takes the whole answer to the right password.
abbrev answering : Env
answering = takes (length (message (ana_says "PASS" "1")))

auth_answer-sends_example :
    (w' : World) × (auth_answer answering (ana_says "PASS" "1")
      ≡ some (next_of (process_cmd (ana_says "PASS" "1")).1.client.next_state, w'))
    × (w'.wire ≡ (ana_says "PASS" "1").wire ++ message (ana_says "PASS" "1"))
    × (w'.client.write_buffer.read ≡ 0)
    × (w'.client.write_buffer.write ≡ 0)
    × (w'.client.next_state ≡ negsuc 0)
    × (w'.users ≡ (process_cmd (ana_says "PASS" "1")).1.users)
    × (w'.client.user ≡ (process_cmd (ana_says "PASS" "1")).1.client.user)
    × (w'.client.read_buffer ≡ (ana_says "PASS" "1").client.read_buffer)
    × (w'.client.current ≡ (ana_says "PASS" "1").client.current)
auth_answer-sends_example =
    auth_answer-sends answering (ana_says "PASS" "1") empty-IsValid refl refl (omega arith) refl

-- A system that takes the whole closing text.
abbrev closing : Env
closing = takes (length (closing_msg three_mails (count_read three_mails.mails)))

update_process-sends_example :
    (w' : World) × (update_process closing (ana_says "QUIT" "") ≡ some (done, w'))
    × (w'.fs ≡ (ana_says "QUIT" "").fs ++ effects three_mails.mails)
    × (w'.wire
        ≡ (ana_says "QUIT" "").wire ++ closing_msg three_mails (count_read three_mails.mails))
    × (w'.users ≡ (ana_says "QUIT" "").users)
update_process-sends_example =
    update_process-sends closing (ana_says "QUIT" "") three_mails refl three_mails-IsValid
      empty-IsValid refl refl (omega arith) refl
