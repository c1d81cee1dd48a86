-- ===== src/Pop3.antt =====
-- src/server/pop3.c: the states of a connection, its start, its events and its end.
pub mod Session
pub mod Accept
pub mod Sharing
pub mod Holding
use pop.Common.{
  ℕ, zero, suc, ◌+◌, Bool, true, false, not, ◌||◌, Option, none, some, List, [], ◌∷◌, Str, str_eq,
  ℤ, pos, negsuc, ◌==◌, if◌then◌else◌, ◌>>=◌, replicate,
}
use pop.Pop3Def
use pop.Buffer.{Buffer, buffer_init}
use pop.Parser.{Parser}
use pop.Parser.Line.{LineParser}
use pop.Users.{offline, user_set_state}
use pop.Maildir.{UserMaildir}
use pop.Client.{
  ClientData, World, Env, Send, greeting_write, auth, transaction, update, done, error_pop3,
  put_client, monitor_close_connection,
}
use pop.Stm.{
  StateDefinition, StateMachine, stm_init, stm_handler_read, stm_handler_write, stm_handler_close,
}
use pop.Writter.{write_greeting}
use pop.Auth.{init_auth, auth_read, auth_process}
use pop.Transaction.{init_trans, trans_read, trans_process}
use pop.Update.{init_update, update_process}

abbrev idle : ℕ → StateDefinition Env World
idle n = record {
  state = n;
  on_arrival = none;
  on_departure = none;
  on_read_ready = none;
  on_write_ready = none;
  on_block_ready = none;
}

-- `client_states`, with the tables of the two parsers.
abbrev pub client_states : Parser LineParser → Parser LineParser → List (StateDefinition Env World)
client_states a t =
    record (idle greeting_write) { on_write_ready = some (λ env w. some (write_greeting env w)) }
    ∷ (record (idle auth) {
      on_arrival = some (λ s. init_auth);
      on_read_ready = some auth_read;
      on_write_ready = some (auth_process a);
    }
        ∷ (record (idle transaction) {
          on_arrival = some (λ s. init_trans);
          on_read_ready = some trans_read;
          on_write_ready = some (trans_process t);
        }
            ∷ (record (idle update) {
              on_arrival = some (λ s. init_update);
              on_write_ready = some update_process;
            }
                ∷ (idle done ∷ (idle error_pop3 ∷ [])))))

-- The machine that `init_new_client_data` sets up.
abbrev pub client_stm : Parser LineParser → Parser LineParser → StateMachine Env World
client_stm a t = record {
  initial = greeting_write;
  max_state = error_pop3;
  states = client_states a t;
  get_current = λ w. w.client.current;
  set_current = λ n w. put_client w (record w.client { current = n });
}

abbrev pub buffer_size : ℕ
buffer_size = 32768

-- The assignments of `init_new_client_data`; `calloc` leaves the memory of the connection blank.
unfoldable pub new_client : World → World
unfolding buffer_init
new_client w =
    let d = w.client in
    put_client w (record d {
      err_code = Pop3Def.no_error;
      closed = false;
      send = record d.send { finished = true; file = false; multiline = false };
      next_state = negsuc 0;
      read_buffer = buffer_init buffer_size d.read_buffer.bytes;
      write_buffer = buffer_init buffer_size d.write_buffer.bytes;
      user = [];
      file_path = [];
      reader_fd = 0;
      maildir = record { user = []; new = none; dir = []; folder = [] };
      n_listed = 0;
    })

unfoldable pub init_new_client_data : Parser LineParser → Parser LineParser → World → Option World
unfolding new_client
init_new_client_data a t w = stm_init (client_stm a t) (new_client w)

-- The call gives the memory of the connection back, and a second one reads it. The connection registers
-- no closing function, so `selector_unregister_fd` calls none.
unfoldable pub close_connection : World → Option World
unfolding monitor_close_connection
close_connection w =
    let d = w.client in
    let users = if not (str_eq d.user []) then user_set_state d.user offline w.users else w.users in
    if d.closed
    then none
    else some (record (put_client w (record d { closed = true })) {
      users = users;
      counters = monitor_close_connection w.counters;
    })

-- `status == ERROR_POP3 || status == DONE`
abbrev ends : ℕ → Bool
ends status = status == error_pop3 || status == done

abbrev close_if_ended : ℕ × World → Option World
close_if_ended r = if ends r.0 then close_connection r.1 else some r.1

unfoldable pub pop3_handle_write :
    Parser LineParser → Parser LineParser → Env → World → Option World
pop3_handle_write a t env w = do r ← stm_handler_write (client_stm a t) env w; close_if_ended r

unfoldable pub pop3_handle_read : Parser LineParser → Parser LineParser → Env → World → Option World
pop3_handle_read a t env w = do r ← stm_handler_read (client_stm a t) env w; close_if_ended r

-- The handler for the closing, which no connection registers.
unfoldable pub pop3_handle_close : Parser LineParser → Parser LineParser → World → Option World
unfolding close_connection
pop3_handle_close a t w = stm_handler_close (client_stm a t) w >>= close_connection
