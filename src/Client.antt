-- ===== src/Client.antt =====
-- include/server/pop3.h: the data of a connection, with the parts of the server that its handlers
-- change: the table of users, the counters of the monitor, the interest of the connection in the
-- selector, the files, and the bytes that its socket has taken.
-- The parsers of the C union are separate fields: each is set up anew when its state is entered.
use pop.Common.{ℕ, ◌+◌, ◌-◌, ◌^◌, ◌%◌, Bool, Option, List, Str, ℤ, pos, negsuc}
use pop.Buffer.{Buffer}
use pop.Parser.Line.{LineParser}
use pop.Parser.Update.{UpdateParser}
use pop.Users.{Users}
use pop.Maildir.{UserMaildir, Dir, FsOp}

-- `enum pop3_states`
abbrev pub greeting_write : ℕ
greeting_write = 0

abbrev pub auth : ℕ
auth = 1

abbrev pub transaction : ℕ
transaction = 2

abbrev pub update : ℕ
update = 3

abbrev pub done : ℕ
done = 4

abbrev pub error_pop3 : ℕ
error_pop3 = 5

-- OP_NOOP, OP_READ and OP_WRITE: the interests that the handlers set.
pub data Interest : Type 0 where
  op_noop op_read op_write : Interest

-- The functions that `send.f` points to; `none` is NULL.
pub data Refill : Type 0 where
  cmd_list_all_new load_more_bytes : Refill

pub record Send : Type 0 where
  pub finished : Bool
  pub file : Bool
  pub multiline : Bool
  pub f : Option Refill

-- `client_data`, without the address and the socket. `current` is the state of the `stm` (`none` is
-- NULL), `file_path` and `reader_fd` are of `fr_data`, `next_state` is an `int` that may be -1.
pub record ClientData : Type 0 where
  pub current : Option ℕ
  pub auth_parser : LineParser
  pub trans_parser : LineParser
  pub update_parser : UpdateParser
  pub closed : Bool
  pub send : Send
  pub err_code : ℕ
  pub user : Str
  pub next_state : ℤ
  pub write_buffer : Buffer
  pub read_buffer : Buffer
  pub file_path : Str
  pub reader_fd : ℕ
  pub n_listed : ℕ
  pub maildir : UserMaildir

-- `collected_data` of monitor.c
pub record Counters : Type 0 where
  pub sent_bytes : ℕ
  pub curr_connections : ℕ
  pub total_connections : ℕ

-- `interest` is that of the connection, `reader_interest` that of the process that reads a mail.
-- `wire` is what the socket has taken, oldest first; `fs` is what was done to the files.
pub record World : Type 0 where
  pub client : ClientData
  pub users : Users
  pub counters : Counters
  pub interest : Interest
  pub reader_interest : Interest
  pub wire : Str
  pub fs : List FsOp

-- What the system answers in one call of a handler: the result of `send` and the bytes of `recv`
-- (`none` is a result below 0), the descriptor behind `popen` (`none` is NULL), and the directory.
pub record Env : Type 0 where
  pub sent : ℤ
  pub received : Option Str
  pub opened : Option ℕ
  pub dir : Dir

abbrev pub put_client : World → ClientData → World
put_client w d = record w { client = d }

-- An `ssize_t` as an `unsigned long`.
abbrev pub to_unsigned_long : ℤ → ℕ
to_unsigned_long (pos n) = n % 2 ^ 64
to_unsigned_long (negsuc n) = (2 ^ 64 - 1 - n) % 2 ^ 64

-- `monitor_add_sent_bytes`, `monitor_add_connection`, `monitor_close_connection` (monitor.c)
unfoldable pub monitor_add_sent_bytes : ℤ → Counters → Counters
monitor_add_sent_bytes n c = record c { sent_bytes = (c.sent_bytes + to_unsigned_long n) % 2 ^ 64 }

unfoldable pub monitor_add_connection : Counters → Counters
monitor_add_connection c = record c {
  curr_connections = (c.curr_connections + 1) % 2 ^ 64;
  total_connections = (c.total_connections + 1) % 2 ^ 64;
}

unfoldable pub monitor_close_connection : Counters → Counters
monitor_close_connection c = record c {
  curr_connections = (c.curr_connections + 2 ^ 64 - 1) % 2 ^ 64;
}
