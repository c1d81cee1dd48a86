-- ===== src/Parser/Line.antt =====
-- The command-line parser that src/server/authParser.c, transParser.c and monitorParser.c each hold
-- a copy of. The copies differ in the class of characters that a command is made of, in the sizes
-- and in the error codes: `LineSpec` has these, and Auth, Trans and Monitor are its instances.
pub mod Table
pub mod Step
pub mod Loop
pub mod Command
pub mod Errors
pub mod Parse
use pop.Common.{
  ℕ, zero, suc, ◌+◌, ◌-◌, ◌^◌, ◌%◌, Bool, true, false, not, ◌&&◌, ◌||◌, Option, none, some, List,
  [], ◌∷◌, ◌++◌, ℤ, pos, negsuc, ltb, leb, ◌==◌, if◌then◌else◌, ◌>>=◌, get_elem?, store, replicate,
  drop, is_print,
}
use pop.Buffer.{Buffer, buffer_can_read, buffer_read}
use pop.Parser.{
  Callback, ParserState, ParserTransition, Parser, activators_len, add_activator,
  add_activator_except, process_char,
}

pub record LineSpec : Type 0 where
  pub is_cmd_char : ℕ → Bool
  pub max_cmd_len : ℕ
  pub max_arg_len : ℕ
  pub invalid_arg : ℕ
  pub invalid_char : ℕ

-- `auth_parser_t`, `trans_parser_t` and `monitor_parser_t`. Only the second has `arg_read`.
pub record LineParser : Type 0 where
  pub ended : Bool
  pub quit : Bool
  pub state_id : ℕ
  pub total_cmd : ℕ
  pub total_arg : ℕ
  pub cmd : List ℕ
  pub arg : List ℕ
  pub arg_read : ℕ
  pub err_value : ℕ

-- NO_ERROR and MONITOR_NO_ERROR
abbrev pub no_error : ℕ
no_error = 0

abbrev pub s0 : ℕ
s0 = 0

abbrev pub s1 : ℕ
s1 = 1

abbrev pub s2 : ℕ
s2 = 2

abbrev pub s3 : ℕ
s3 = 3

abbrev pub serr : ℕ
serr = 4

module _ (spec : LineSpec) where
  unfoldable pub save_cmd : Callback LineParser
  save_cmd p c =
      if not (spec.is_cmd_char c)
      then some p
      else if leb spec.max_cmd_len p.total_cmd
      then some p
      else do
        a ← store p.cmd p.total_cmd c
        some (record p { cmd = a; total_cmd = p.total_cmd + 1 })

  unfoldable pub save_arg : Callback LineParser
  save_arg p c =
      if not (is_print c)
      then some p
      else if leb spec.max_arg_len p.total_arg
      then some (record p { err_value = spec.invalid_arg })
      else do
        a ← store p.arg p.total_arg c
        some (record p { arg = a; total_arg = p.total_arg + 1 })

  unfoldable pub final_arrival : Callback LineParser
  final_arrival p c = some (record p { ended = true })

  unfoldable pub error_arrival : Callback LineParser
  error_arrival p c = some (record p { err_value = spec.invalid_char; ended = true })

  abbrev pub state_serr : ParserState LineParser
  state_serr = record {
    id = serr;
    on_arrival = some error_arrival;
    on_departure = none;
    is_final = true;
  }

  abbrev pub line_states : List (ParserState LineParser)
  line_states =
      record { id = s0; on_arrival = none; on_departure = some save_cmd; is_final = false }
      ∷ record { id = s1; on_arrival = none; on_departure = some save_arg; is_final = false }
      ∷ record { id = s2; on_arrival = none; on_departure = none; is_final = false }
      ∷ record { id = s3; on_arrival = some final_arrival; on_departure = none; is_final = true }
      ∷ state_serr
      ∷ []

  -- `memset(parser->cmd, 0, MAX_CMD_LEN)` and the same for `arg`: the byte behind them stays.
  unfoldable pub init_line_parser : LineParser → LineParser
  init_line_parser p = record {
    ended = false;
    quit = false;
    state_id = s0;
    total_cmd = 0;
    total_arg = 0;
    cmd = replicate spec.max_cmd_len 0 ++ drop spec.max_cmd_len p.cmd;
    arg = replicate spec.max_arg_len 0 ++ drop spec.max_arg_len p.arg;
    arg_read = 0;
    err_value = no_error;
  }

abbrev blank : ℕ → ℕ → ParserTransition
blank from to = record {
  from_state = from;
  to_state = to;
  activators = replicate activators_len false;
}

-- The tables that the configuration fills in, after the `memset` of the activators.
unfoldable pub conf_transitions : Option (List (List ParserTransition))
unfolding add_activator add_activator_except
conf_transitions = do
  stay0 ← add_activator_except (blank s0 s0) (b' ' ∷ b'\r' ∷ b'\n' ∷ [])
  space ← add_activator (blank s0 s1) b' '
  no_args ← add_activator (blank s0 s2) b'\r'
  stay1 ← add_activator_except (blank s1 s1) (b'\r' ∷ b'\n' ∷ [])
  end_args ← add_activator (blank s1 s2) b'\r'
  final ← add_activator (blank s2 s3) b'\n'
  some ((stay0 ∷ space ∷ no_args ∷ []) ∷ (stay1 ∷ end_args ∷ []) ∷ (final ∷ []) ∷ [] ∷ [] ∷ [])

-- The parser that `conf_*_parser` sets up.
unfoldable pub conf_line_parser : LineSpec → Option (Parser LineParser)
unfolding conf_transitions
conf_line_parser spec = do
  transitions ← conf_transitions
  some (record {
    initial_state = record {
      id = s0;
      on_arrival = none;
      on_departure = some (save_cmd spec);
      is_final = false;
    };
    error_state = state_serr spec;
    states = line_states spec;
    transitions = transitions;
    transitions_per_state = 3 ∷ 2 ∷ 1 ∷ 0 ∷ 0 ∷ [];
  })

-- The conversion of the `int` result to `size_t`, and of that to the `unsigned` parameter.
abbrev pub to_size : ℤ → ℕ
to_size (pos n) = n
to_size (negsuc n) = 2 ^ 64 - 1 - n

abbrev pub to_unsigned : ℕ → ℕ
to_unsigned n = n % 2 ^ 32

-- The condition of the `while` of `auth_parse`.
unfoldable pub goes_on : LineParser → Buffer → Bool
goes_on p b = p.err_value == no_error && buffer_can_read b && not p.ended

-- One round: a character is read and processed, and its state stored.
unfoldable pub parse_round : Parser LineParser → LineParser → Buffer → Option (LineParser × Buffer)
parse_round engine p b = do
  (c, b') ← buffer_read b
  (next, p') ← process_char engine p (to_unsigned p.state_id) c
  some (record p' { state_id = to_size next }, b')

-- Each round reads a byte: the fuel is the number of unread bytes.
unfoldable pub parse_loop :
    ℕ → Parser LineParser → LineParser → Buffer → Option (LineParser × Buffer)
unfolding goes_on
parse_loop zero engine p b = some (p, b)
parse_loop (suc fuel) engine p b =
    let next = parse_round engine p b >>= λ r. parse_loop fuel engine r.0 r.1 in
    if goes_on p b then next else some (p, b)

-- `auth_parse`; its result, the last state, is not used.
unfoldable pub line_parse : Parser LineParser → LineParser → Buffer → Option (LineParser × Buffer)
unfolding parse_loop
line_parse engine p b = parse_loop (b.write - b.read) engine p b
