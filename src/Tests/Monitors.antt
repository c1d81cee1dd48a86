-- ===== src/Tests/Monitors.antt =====
-- The monitor on concrete connections.
use pop.Common.{
  ◌≡◌, refl, Bool, true, false, some, List, [], ◌∷◌, ◌++◌, String, codes, is_space, str_eq, pos,
  arith, ◌>>=◌,
}
use pop.Buffer.{contents, buffer_can_write, buffer_write_ptr, buffer_write_adv, fill}
use pop.Writter.{put_msg}
use pop.Parser.Line.{LineParser}
use pop.Parser.Monitor.{monitor_spec}
use pop.Parser.Line.Table.{engine}
use pop.Users.{
  offline, done, User, free_slot, user_exists, user_get_state, user_add, user_delete, first,
  add_slot,
}
use pop.Client.{op_write}
use pop.Monitor.{handle_error, say, write_in_buffer, rm_maildir, MonitorWorld, MonitorEnv}
use pop.Monitor.Commands.{monitor_get_users_cmd}
use pop.Monitor.Listing.{lines, monitor_get_users_cmd_lem}
use pop.Monitor.Events.{
  cmd_of, conclude, handle_cmd, answer_cmd, answer_finished, handle_command, handle_monitor_write,
}
use pop.Monitor.Access.{IsAdmin, handle_cmd-limited}
use pop.Monitor.Deleting.{removal, deleted_nobody, delete_user-keeps_user}
use pop.Monitor.Saying.{out_of}
use pop.Monitor.Stuck.{handle_monitor_write-stuck}
use pop.Monitor.Adding.{IsWord}
use pop.Tests.{user, parsed, empty, empty-IsValid}

abbrev ana : List User
ana = user "ana" "secret" offline ∷ (free_slot ∷ [])

-- A connection, logged in or not, that has read the command line in `p`.
abbrev asks : Bool → LineParser → MonitorWorld
asks logged p = record {
  conn = record {
    closed = false;
    is_sending = false;
    logged = logged;
    err_code = 0;
    write_buffer = empty;
    read_buffer = empty;
    monitor_parser = p;
    cmd_data = record { finished_cmd = false; cmd_code = rm_maildir; err_code = 0 };
  };
  logged = logged;
  collected = record { sent_bytes = 0; curr_connections = 1; total_connections = 1 };
  has_list = true;
  users = record { slots = ana; total_users = 1 };
  interest = op_write;
  wire = [];
  executed = [];
}

abbrev says : Bool → String → String → MonitorWorld
says logged cmd arg = asks logged (parsed (codes cmd) (codes arg))

abbrev works : MonitorEnv
works = record { sent = pos 0; received = some []; started = true; built = true }

monitor_get_users_cmd_lem_example :
    monitor_get_users_cmd (record { slots = ana; total_users = 1 })
    ≡ some (codes "OwO\r\n" ++ (lines ana ++ codes "\r\n"))
monitor_get_users_cmd_lem_example =
    monitor_get_users_cmd_lem (record { slots = ana; total_users = 1 })
      (omega arith, (omega arith, tt)) (omega arith)

abbrev wrong_parser : LineParser
wrong_parser = record (parsed (codes "LOGIN") []) { err_value = 1 }

handle_monitor_write-stuck_example :
    handle_monitor_write (engine monitor_spec) works (asks false wrong_parser)
    ≡ some (asks false wrong_parser)
handle_monitor_write-stuck_example =
    handle_monitor_write-stuck (engine monitor_spec) works (asks false wrong_parser) refl refl refl
      (λ e. cc) refl

delete_user-keeps_user_example :
    (m' : MonitorWorld) × ((answer_cmd works (says true "DELETE_USER" "ana") >>= λ m1.
    answer_finished (handle_command (pos 5) m1))
      ≡ some m')
    × (m'.executed ≡ removal (codes "ana") ∷ [])
    × (contents (out_of m') ≡ contents empty ++ deleted_nobody)
    × (m'.users ≡ (user_delete [] (record { slots = ana; total_users = 1 })).1)
    × (user_exists (codes "ana") m'.users ≡ true)
    × (user_get_state (codes "ana") m'.users
        ≡ user_get_state (codes "ana") (record { slots = ana; total_users = 1 }))
unfolding user_exists user_get_state first str_eq
delete_user-keeps_user_example =
    delete_user-keeps_user works (says true "DELETE_USER" "ana") refl refl refl refl refl refl refl
      (λ e. cc) refl refl empty-IsValid (omega arith)

-- DELETE_USER of a connection that is not logged in.
abbrev intruder : MonitorWorld
intruder = says false "DELETE_USER" "ana"

refused : (r : Bool × MonitorWorld) × (handle_cmd works intruder ≡ some r)
unfolding handle_cmd conclude handle_error say write_in_buffer put_msg buffer_can_write
    buffer_write_ptr buffer_write_adv fill str_eq
refused = (_, refl)

handle_cmd-limited_example :
    (refused.0.1.users ≡ intruder.users)
    × (refused.0.1.executed ≡ [])
    × (refused.0.1.conn.logged ≡ true → (cmd_of intruder ≡ codes "LOGIN") × IsAdmin intruder)
handle_cmd-limited_example = handle_cmd-limited works intruder refl refused.1

eva-IsWord : IsWord (codes "eva")
unfolding is_space
eva-IsWord = record { solid = (refl, (refl, (refl, tt))); given = λ e. cc; short = omega arith }

added_eva :
    (user_add (codes "eva") (codes "eva") (record { slots = ana; total_users = 1 })).0 ≡ done
unfolding user_add add_slot str_eq
added_eva = refl
