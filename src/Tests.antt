-- ===== src/Tests.antt =====
-- Concrete inputs: the tables, mails and connections that the tests share.
mod Bytes
mod Accounts
mod Maildirs
mod Sessions
mod Commands
mod Connections
mod Selectors
mod Sharings
mod Monitors
mod Startup
mod Makings
mod Clients
mod Starting
use pop.Common.{
  ℕ, ◌-◌, ◌≡◌, refl, Bool, true, false, Option, none, some, List, [], ◌∷◌, ◌++◌, Str, codes, ℤ, pos,
  negsuc, length, replicate, String, arith,
}
use pop.Buffer.{Buffer}
use pop.Buffer.Inv as Inv
use pop.Parser.Line.{LineParser}
use pop.Users.{UserState, offline, User, Users, free_slot}
use pop.Maildir.{Mail, Mails, UserMaildir, Dir}
use pop.Client.{ClientData, World, Env, Counters, op_noop, op_read}

-- A full buffer of these bytes.
abbrev pub holds : List ℕ → Buffer
holds cs = record { bytes = cs; limit = length cs; read = 0; write = length cs }

pub holds-IsValid : (cs : List ℕ) → Inv.IsValid (holds cs)
holds-IsValid cs = record {
  read_le_write = omega arith;
  write_le_limit = omega arith;
  in_memory = omega arith;
}

-- An empty buffer of 128 bytes.
abbrev pub empty : Buffer
empty = record { bytes = replicate 128 0; limit = 128; read = 0; write = 0 }

pub empty-IsValid : Inv.IsValid empty
empty-IsValid = record {
  read_le_write = omega arith;
  write_le_limit = omega arith;
  in_memory = omega arith;
}

-- A parser that has read a command and its argument.
abbrev pub parsed : Str → Str → LineParser
parsed cmd arg = record {
  ended = true;
  quit = false;
  state_id = 3;
  total_cmd = length cmd;
  total_arg = length arg;
  cmd = cmd ++ (0 ∷ []);
  arg = arg ++ (0 ∷ []);
  arg_read = 0;
  err_value = 0;
}

abbrev pub user : String → String → UserState → User
user name pass s = record { uname = codes name; pass = codes pass; state = s }

abbrev pub mail : String → ℕ → Bool → Bool → Mail
mail name size read del = record {
  fname = codes name;
  flen = length (codes name);
  size = size;
  path = codes "m/new/" ++ codes name;
  plen = length (codes "m/new/" ++ codes name);
  read = read;
  del = del;
}

-- One mail that is kept, one that was read, one that is deleted.
abbrev pub three_mails : Mails
three_mails = record {
  mails = mail "a" 10 false false ∷ (mail "b" 20 true false ∷ (mail "c" 30 false true ∷ []));
  len = 3;
  ndel = 1;
}

abbrev pub maildir : UserMaildir
maildir = record {
  user = codes "ana";
  new = some three_mails;
  dir = codes "m/";
  folder = codes "new";
}

-- A connection of the user `name` that has read the command `p`, with the input `input`.
abbrev pub connection : Str → LineParser → List ℕ → ClientData
connection name p input = record {
  current = some 1;
  auth_parser = p;
  trans_parser = p;
  update_parser = record { ended = false; quit = false; state_id = 0; err_value = 0 };
  closed = false;
  send = record { finished = true; file = false; multiline = false; f = none };
  err_code = 0;
  user = name;
  next_state = negsuc 0;
  write_buffer = empty;
  read_buffer = holds input;
  file_path = [];
  reader_fd = 0;
  n_listed = 0;
  maildir = maildir;
}

abbrev pub world : List User → ClientData → World
world us d = record {
  client = d;
  users = record { slots = us; total_users = length us };
  counters = record { sent_bytes = 0; curr_connections = 1; total_connections = 1 };
  interest = op_read;
  reader_interest = op_noop;
  wire = [];
  fs = [];
}

abbrev pub no_dir : Dir
no_dir = record {
  opened = true;
  allocated = true;
  first_pass = codes "." ∷ (codes "x" ∷ []);
  second_pass = codes "." ∷ (codes "x" ∷ []);
  stat = λ path. some 7;
}

-- A system that takes `n` bytes of what is sent.
abbrev pub takes : ℕ → Env
takes n = record { sent = pos n; received = some []; opened = some 9; dir = no_dir }
