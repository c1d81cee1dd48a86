-- ===== src/Tests/Clients.antt =====
-- The client of the monitor on concrete command lines and answers.
use pop.Common.{
  ◌≡◌, refl, true, false, Option, none, some, List, [], ◌∷◌, ◌++◌, Str, codes, pos, is_space,
  is_print, str_eq, drop, map, window, ◌>>=◌, arith,
}
use pop.Buffer.{contents}
use pop.Parser.Line.Table.{engine}
use pop.Parser.Line.Command.{All, fresh}
use pop.Parser.Monitor.{monitor_spec, monitor_arg_size}
use pop.Users.{offline, user_add, user_exists, user_check_pass, add_slot, free_slot}
use pop.Monitor.{rm_maildir, MonitorWorld, MonitorEnv}
use pop.Monitor.Events.{handle_monitor_write}
use pop.Monitor.Saying.{out_of}
use pop.Monitor.Adding.{HasNoSpace, IsWord}
use pop.Options.{defaults, parse_args, handle_options}
use pop.Client.{op_write}
use pop.Cmd.{login, Client, request, snprintf, cmd_quit, cmd_add_user, send_cmd}
use pop.Cmd.Response.{recv_loop, blank}
use pop.Cmd.Response.Answers.{
  until, ends, join, closed, recv_loop_lem, recv_loop-answered, recv_loop-closed,
}
use pop.Cmd.Connect.{Peer, reached}
use pop.Cmd.Main.{ending, main, exec}
use pop.Cmd.Main.Words.{Call, words, AreCalls, IsStop, run_all}
use pop.Cmd.Main.Running.{main_lem}
use pop.Cmd.Requests.{add_request}
use pop.Cmd.Served.{IsReady, added_msg, add_user-served}
use pop.Cmd.Cut.{add_user-refuses}
use pop.Tests.{user, empty, empty-IsValid, holds, holds-IsValid}

-- An answer in two pieces, of which the second has the start of the next one's bytes behind it.
abbrev pieces : List (Option Str)
pieces = some (codes "OwO") ∷ (some (codes " 1\r\n\r\n") ∷ (none ∷ []))

recv_loop_lem_example : recv_loop pieces [] blank ≡ some (until pieces [])
recv_loop_lem_example = recv_loop_lem pieces (omega arith, (omega arith, tt))

until-pieces : until pieces [] ≡ some (pos 0, codes "OwO 1\r\n\r\n", none ∷ [])
unfolding until ends str_eq
until-pieces = refl

abbrev two : List Str
two = codes "OwO" ∷ (codes " 1\r\n\r\n" ∷ [])

recv_loop-answered_example :
    (early : List Str) × (late : List Str) × (two ≡ early ++ late)
    × (recv_loop (map some two ++ closed 1) [] blank
        ≡ some (some (pos 0, join early, map some late ++ closed 1)))
    × (ends (join early) ≡ true)
unfolding ends str_eq
recv_loop-answered_example =
    recv_loop-answered two (closed 1) (omega arith, (omega arith, tt)) (omega arith, tt) refl

half : List Str
half = codes "OwO" ∷ []

half_waits : recv_loop (map some half) [] blank ≡ some none
unfolding until ends str_eq half
half_waits = recv_loop_lem (map some half) (omega arith, tt)

recv_loop-closed_example : recv_loop (map some half ++ closed 3) [] blank ≡ some none
unfolding half
recv_loop-closed_example = recv_loop-closed half 3 (omega arith, tt) half_waits

abbrev starts : Client
starts = record { sent = []; printed = []; answers = []; waits = false }

abbrev line : List Str
line =
    codes "client"
    ∷ (codes "ADD_USER"
        ∷ (codes "eva" ∷ (codes "x" ∷ (codes "COMMANDS" ∷ (codes "GET_USER" ∷ [])))))

parsed_line : parse_args 6 [] 1 ≡ (pos 1, defaults)
unfolding parse_args handle_options
parsed_line = refl

-- The first address refuses the connection.
abbrev peers : List Peer
peers =
    record { socket = pos 3; connects = false } ∷ (record { socket = pos 4; connects = true } ∷ [])

main_lem_example :
    (calls : List Call) × (rest : List Str) × (drop 1 line ≡ words calls ++ rest)
    × AreCalls calls
    × IsStop rest
    × (main line [] 1 (some peers) starts ≡ (
        exec login (codes "admin" ∷ codes "admin" ∷ []) starts >>= λ c1.
        run_all exec calls c1 >>= λ c2. cmd_quit c2 >>= λ c3. some (ending c3)))
unfolding reached
main_lem_example = main_lem line [] 1 1 defaults peers 4 starts parsed_line refl refl

-- A connection of the monitor into whose input these bytes have come.
abbrev receives : Str → MonitorWorld
receives input = record {
  conn = record {
    closed = false;
    is_sending = false;
    logged = true;
    err_code = 0;
    write_buffer = empty;
    read_buffer = holds input;
    monitor_parser = fresh monitor_spec monitor_arg_size;
    cmd_data = record { finished_cmd = false; cmd_code = rm_maildir; err_code = 0 };
  };
  logged = true;
  collected = record { sent_bytes = 0; curr_connections = 1; total_connections = 1 };
  has_list = true;
  users = record { slots = user "ana" "secret" offline ∷ (free_slot ∷ []); total_users = 1 };
  interest = op_write;
  wire = [];
  executed = [];
}

receives-IsReady : (input : Str) → IsReady (receives input)
receives-IsReady input = record {
  quiet = refl;
  idle = refl;
  logged = refl;
  fine = refl;
  list = refl;
  parser = refl;
  input = holds-IsValid input;
  output = empty-IsValid;
}

abbrev works : MonitorEnv
works = record { sent = pos 0; received = some []; started = true; built = true }

eva-IsWord : IsWord (codes "eva")
unfolding is_space
eva-IsWord = record { solid = (refl, (refl, (refl, tt))); given = λ e. cc; short = omega arith }

-- The bytes of ADD_USER for `eva` with a password, and what the table makes of it.
abbrev asks : Str → MonitorWorld
asks pass = receives (codes "ADD_USER eva " ++ (pass ++ codes "\r\n"))

short_request : add_request (codes "eva") (codes "x1") ≡ codes "ADD_USER eva x1\r\n"
unfolding request snprintf
short_request = refl

add_user-served_example :
    (m' : MonitorWorld) × (handle_monitor_write (engine monitor_spec) works (asks (codes "x1"))
      ≡ some m')
    × (contents (out_of m') ≡ contents empty ++ added_msg (codes "eva"))
    × (contents m'.conn.read_buffer ≡ [])
    × (user_exists (codes "eva") m'.users ≡ true)
    × (user_check_pass (codes "eva") (codes "x2") m'.users ≡ str_eq (codes "x2") (codes "x1"))
unfolding cmd_add_user send_cmd request snprintf user_add add_slot str_eq is_print is_space contents
    window
add_user-served_example =
    add_user-served works (asks (codes "x1")) starts
      (record starts { sent = codes "ADD_USER eva x1\r\n" ∷ [] }) (codes "eva") (codes "x1")
      (codes "x2") (codes "ADD_USER eva x1\r\n") [] eva-IsWord
      (record { solid = (refl, (refl, tt)); given = λ e. cc; short = omega arith })
      (refl, (refl, (refl, (refl, (refl, (refl, tt)))))) (omega arith) (omega arith) refl refl refl
      (receives-IsReady (codes "ADD_USER eva x1\r\n")) refl (omega arith) refl refl

abbrev long_pass : Str
long_pass = codes "abcdefghijklmnopqrstuvwxyzABCDEFGHIJ"

abbrev sent_pass : Str
sent_pass = codes "abcdefghijklmnopqrstuvwxyzABCDEFGHI"

long_pass-HasNoSpace : HasNoSpace long_pass
unfolding is_space
long_pass-HasNoSpace = ground arith

long_pass-All : All (λ x. is_print x ≡ true) (codes "eva" ++ (b' ' ∷ long_pass))
unfolding is_print
long_pass-All = ground arith

add_user-refuses_example :
    (m' : MonitorWorld) × (handle_monitor_write (engine monitor_spec) works (asks sent_pass)
      ≡ some m')
    × (contents (out_of m') ≡ contents empty ++ added_msg (codes "eva"))
    × (user_exists (codes "eva") m'.users ≡ true)
    × (user_check_pass (codes "eva") long_pass m'.users ≡ false)
unfolding cmd_add_user send_cmd request snprintf user_add add_slot str_eq contents window
add_user-refuses_example =
    add_user-refuses works (asks sent_pass) starts
      (record starts { sent = (codes "ADD_USER eva " ++ (sent_pass ++ codes "\r\n")) ∷ [] })
      (codes "eva") long_pass (codes "ADD_USER eva " ++ (sent_pass ++ codes "\r\n")) [] eva-IsWord
      long_pass-HasNoSpace (omega arith) (omega arith) long_pass-All refl refl refl
      (receives-IsReady (codes "ADD_USER eva " ++ (sent_pass ++ codes "\r\n"))) refl (omega arith)
      refl refl
