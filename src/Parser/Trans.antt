-- ===== src/Parser/Trans.antt =====
-- src/server/transParser.c, include/server/parsers/transParser.h: the instance of the command-line
-- parser that reads the commands of the transaction state.
use pop.Common.{ℕ, ◌+◌, ◌*◌, Option, arith, is_alpha}
use pop.Pop3Def.{max_cmd_len, max_arg_len, max_args, invalid_arg, invalid_char}
use pop.Buffer.{Buffer}
use pop.Parser.{Parser}
use pop.Parser.Line.{LineSpec, LineParser, conf_line_parser, init_line_parser, line_parse}
use pop.Parser.Line.Step.{IsLineSpec}

abbrev pub trans_spec : LineSpec
trans_spec = record {
  is_cmd_char = is_alpha;
  max_cmd_len = max_cmd_len;
  max_arg_len = max_arg_len;
  invalid_arg = invalid_arg;
  invalid_char = invalid_char;
}

-- `char arg[(MAX_ARG_LEN * MAX_ARGS) + 1]`
abbrev pub trans_arg_size : ℕ
trans_arg_size = max_arg_len * max_args + 1

unfoldable pub conf_trans_parser : Option (Parser LineParser)
conf_trans_parser = conf_line_parser trans_spec

unfoldable pub init_trans_parser : LineParser → LineParser
init_trans_parser = init_line_parser trans_spec

unfoldable pub trans_parse : Parser LineParser → LineParser → Buffer → Option (LineParser × Buffer)
trans_parse = line_parse

pub trans_spec-IsLineSpec : IsLineSpec trans_spec
unfolding is_alpha
trans_spec-IsLineSpec = record { cmd_chars = λ c h. ground arith }
