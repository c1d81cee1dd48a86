-- ===== src/Monitor/Deleting.antt =====
-- DELETE_USER, from the command to the end of the program that it starts.
use pop.Common.{
  ◌+◌, ◌<◌, ◌≡◌, ◌≢◌, refl, sym, ◌∙◌, ap, true, false, some, [], ◌∷◌, ◌++◌, Str, codes, str_eq, pos,
  length, ◌==◌, ◌>>=◌,
}
use pop.MonitorDef
use pop.Buffer.{Buffer, contents}
use pop.Buffer.Inv.{IsValid}
use pop.Parser.Monitor.{init_monitor_parser}
use pop.Parser.Line.{init_line_parser}
use pop.Users.{offline, done, Code, Users, user_exists, user_get_state, user_delete}
use pop.Users.Lookup.{user_exists-of-state}
use pop.Users.Delete.{user_delete_any}
use pop.Client.{op_noop}
use pop.Monitor.{rm_maildir, MonitorWorld, MonitorEnv, put_conn, say}
use pop.Monitor.Commands.{arg_of, deleted, monitor_delete_user_cmd}
use pop.Monitor.Events.{
  cmd_of, handle_cmd, conclude, answer_cmd, answer_finished, handle_command, handle_finished_cmd,
}
use pop.Monitor.Saying.{say_lem, out_of}

-- The program that is started: it removes one folder of the maildir.
abbrev pub removal : Str → Str
removal user =
    codes "rm -rf "
    ++ ((codes "bin/maildirs/" ++ (user ++ codes "/Maildir/"))
        ++ (codes "tmp" ++ codes "; echo DONE"))

-- The world once it is started, with the connection waiting.
abbrev pub waiting : MonitorWorld → MonitorWorld
waiting m = record m {
  conn = record m.conn {
    is_sending = false;
    cmd_data = record { finished_cmd = false; cmd_code = rm_maildir; err_code = 0 };
  };
  interest = op_noop;
  executed = removal (arg_of m) ∷ m.executed;
}

handle_cmd-starts :
    (env : MonitorEnv) (m : MonitorWorld)
    → cmd_of m ≡ codes "DELETE_USER"
    → m.conn.logged ≡ true
    → m.conn.err_code ≡ MonitorDef.no_error
    → m.has_list ≡ true
    → user_exists (arg_of m) m.users ≡ true
    → env.started ≡ true
    → handle_cmd env m ≡ some (true, waiting m)
unfolding handle_cmd str_eq
handle_cmd-starts env m c l e h k s = rw (c, handle_cmd) (rw l (rw h (rw k (rw s (rw e refl)))))

abbrev cleared : MonitorWorld → MonitorWorld
cleared m =
    put_conn (waiting m)
      (record (waiting m).conn { monitor_parser = init_monitor_parser m.conn.monitor_parser })

answer_cmd-starts :
    (env : MonitorEnv) (m : MonitorWorld)
    → handle_cmd env (put_conn m (record m.conn { is_sending = true })) ≡ some (true, waiting m)
    → m.conn.monitor_parser.err_value ≡ MonitorDef.no_error
    → answer_cmd env m ≡ some (cleared m)
unfolding answer_cmd
answer_cmd-starts env m h e =
    let fine : (m.conn.monitor_parser.err_value == MonitorDef.no_error) ≡ true = rw e refl in
    rw (fine, answer_cmd) (rw h refl)

-- The world once the program has ended well.
abbrev ended : MonitorWorld → MonitorWorld
ended m = handle_command (pos 5) (cleared m)

forgotten : (m : MonitorWorld) → arg_of (ended m) ≡ []
unfolding handle_command init_monitor_parser init_line_parser
forgotten m = refl

abbrev pub deleted_nobody : Str
deleted_nobody = codes "OwO User " ++ ([] ++ codes " deleted\r\n\r\n")

deleted-done :
    (user : Str) (p : Code × Users) (m : MonitorWorld)
    → p.0 ≡ done
    → deleted user p m
      ≡ (codes "OwO User " ++ (user ++ codes " deleted\r\n\r\n"), record m { users = p.1 })
deleted-done user (c, t) m h = rw h refl

-- The world behind the answer.
abbrev answered : MonitorWorld → Buffer → MonitorWorld
answered m b = record (ended m) {
  conn = record (ended m).conn {
    write_buffer = b;
    is_sending = true;
    cmd_data = record { finished_cmd = false; cmd_code = rm_maildir; err_code = 0 };
  };
  users = (user_delete [] m.users).1;
}

with_users : MonitorWorld → MonitorWorld
with_users m = record (ended m) { users = (user_delete [] m.users).1 }

said_nobody : MonitorWorld → Buffer → MonitorWorld
said_nobody m b = record (with_users m) { conn = record (with_users m).conn { write_buffer = b } }

pub conclude_lem :
    (msg : Str) (m m' : MonitorWorld)
    → m.conn.err_code ≡ MonitorDef.no_error
    → say true msg m ≡ some m'
    → conclude (msg, m) ≡ some (true, m')
unfolding conclude
conclude_lem msg m m' e s =
    let fine : (m.conn.err_code == MonitorDef.no_error) ≡ true = rw e refl in
    rw (fine, conclude) (rw s refl)

deletes_nobody :
    (m : MonitorWorld)
    → (user_delete [] m.users).0 ≡ done
    → monitor_delete_user_cmd (ended m) ≡ (deleted_nobody, with_users m)
unfolding monitor_delete_user_cmd with_users handle_command init_monitor_parser init_line_parser
deletes_nobody m d = deleted-done [] (user_delete [] m.users) (ended m) d

finished_lem :
    (x x' : MonitorWorld)
    → x.conn.cmd_data.err_code ≡ MonitorDef.no_error
    → x.conn.cmd_data.cmd_code ≡ rm_maildir
    → x.has_list ≡ true
    → conclude (monitor_delete_user_cmd x) ≡ some (true, x')
    → handle_finished_cmd x ≡ some (true, x')
unfolding handle_finished_cmd
finished_lem x x' e c l h =
    let fine : (x.conn.cmd_data.err_code == MonitorDef.no_error) ≡ true = rw e refl in
    simp (handle_finished_cmd, fine, c, l, h)

finished-deletes :
    (m : MonitorWorld) (b : Buffer)
    → m.conn.err_code ≡ MonitorDef.no_error
    → m.has_list ≡ true
    → (user_delete [] m.users).0 ≡ done
    → say true deleted_nobody (with_users m) ≡ some (said_nobody m b)
    → handle_finished_cmd (ended m) ≡ some (true, said_nobody m b)
unfolding handle_command with_users
finished-deletes m b e l d said =
    let told = conclude_lem deleted_nobody (with_users m) (said_nobody m b) e said in
    finished_lem (ended m) (said_nobody m b) refl refl l (ap conclude (deletes_nobody m d) ∙ told)

answer_finished-deletes :
    (m : MonitorWorld) (b : Buffer)
    → m.conn.closed ≡ false
    → handle_finished_cmd (ended m) ≡ some (true, said_nobody m b)
    → answer_finished (ended m) ≡ some (answered m b)
unfolding answer_finished said_nobody with_users handle_command
answer_finished-deletes m b o h =
    let open_still : (said_nobody m b).conn.closed ≡ false = o in
    rw (h, answer_finished) (rw open_still refl)

-- DELETE_USER of a user of the table, asked by a connection that is logged in, with a free slot in
-- the table and room in the output: the program removes the folder `tmp` of the user's maildir
-- alone; the parser is set up anew before it ends, so when it has ended well the connection deletes
-- the user of the empty name, and answers that it has. The named user is still in the table, in the
-- state that it had.
pub delete_user-keeps_user :
    (env : MonitorEnv) (m : MonitorWorld)
    → cmd_of m ≡ codes "DELETE_USER"
    → m.conn.logged ≡ true
    → m.conn.closed ≡ false
    → m.conn.err_code ≡ MonitorDef.no_error
    → m.conn.monitor_parser.err_value ≡ MonitorDef.no_error
    → m.has_list ≡ true
    → user_exists (arg_of m) m.users ≡ true
    → arg_of m ≢ []
    → user_get_state [] m.users ≡ offline
    → env.started ≡ true
    → IsValid (out_of m)
    → (out_of m).write + length deleted_nobody < (out_of m).limit
    → (m' : MonitorWorld) × ((answer_cmd env m >>= λ m1.
          answer_finished (handle_command (pos 5) m1))
        ≡ some m')
      × (m'.executed ≡ removal (arg_of m) ∷ m.executed)
      × (contents (out_of m') ≡ contents (out_of m) ++ deleted_nobody)
      × (m'.users ≡ (user_delete [] m.users).1)
      × (user_exists (arg_of m) m'.users ≡ true)
      × (user_get_state (arg_of m) m'.users ≡ user_get_state (arg_of m) m.users)
unfolding handle_command with_users said_nobody
delete_user-keeps_user env m c l o e p h k n f s v room =
    let free : user_exists [] m.users ≡ true = user_exists-of-state [] m.users (λ x. cc) in
    let (code, same, kept) = user_delete_any [] (arg_of m) m.users n (λ x. n (sym x)) in
    let took : (user_delete [] m.users).0 ≡ done = code ∙ rw free (rw f refl) in
    let (b, said, v', got) = say_lem true deleted_nobody (with_users m) v room in
    let started =
      answer_cmd-starts env m
        (handle_cmd-starts env (put_conn m (record m.conn { is_sending = true })) c l e h k s) p in
    (
      answered m b,
      rw started (answer_finished-deletes m b o (finished-deletes m b e h took said)),
      refl,
      got,
      refl,
      kept ∙ k,
      same,
    )
