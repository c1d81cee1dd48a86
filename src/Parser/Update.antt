-- ===== src/Parser/Update.antt =====
-- src/server/updateParser.c, include/server/parsers/updateParser.h: a parser with no transitions,
-- which the update state initialises and never runs.
use pop.Common.{ℕ, Bool, true, false, none, some, [], ◌∷◌}
use pop.Pop3Def.{no_error, unknown_error}
use pop.Parser.{Callback, ParserState, Parser}

pub record UpdateParser : Type 0 where
  pub ended : Bool
  pub quit : Bool
  pub state_id : ℕ
  pub err_value : ℕ

final_arrival : Callback UpdateParser
final_arrival p c = some (record p { ended = true })

error_arrival : Callback UpdateParser
error_arrival p c = some (record p { err_value = unknown_error; ended = true })

abbrev state_s0 : ParserState UpdateParser
state_s0 = record { id = 0; on_arrival = some final_arrival; on_departure = none; is_final = true }

abbrev state_serr : ParserState UpdateParser
state_serr = record {
  id = 1;
  on_arrival = some error_arrival;
  on_departure = none;
  is_final = true;
}

unfoldable pub conf_update_parser : Parser UpdateParser
unfolding final_arrival error_arrival
conf_update_parser = record {
  initial_state = state_s0;
  error_state = state_serr;
  states = state_s0 ∷ state_serr ∷ [];
  transitions = [] ∷ [] ∷ [];
  transitions_per_state = 0 ∷ 0 ∷ [];
}

unfoldable pub init_update_parser : UpdateParser → UpdateParser
init_update_parser p = record { ended = false; quit = false; state_id = 0; err_value = no_error }
