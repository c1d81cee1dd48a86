-- ===== src/Parser/Auth.antt =====
-- src/server/authParser.c, include/server/parsers/authParser.h: the instance of the command-line
-- parser that reads the USER, PASS, CAPA and QUIT commands.
use pop.Common.{ℕ, ◌+◌, Option, arith, is_alpha}
use pop.Pop3Def.{max_cmd_len, max_arg_len, invalid_arg, invalid_char}
use pop.Buffer.{Buffer}
use pop.Parser.{Parser}
use pop.Parser.Line.{LineSpec, LineParser, conf_line_parser, init_line_parser, line_parse}
use pop.Parser.Line.Step.{IsLineSpec}

abbrev pub auth_spec : LineSpec
auth_spec = record {
  is_cmd_char = is_alpha;
  max_cmd_len = max_cmd_len;
  max_arg_len = max_arg_len;
  invalid_arg = invalid_arg;
  invalid_char = invalid_char;
}

-- `char arg[MAX_ARG_LEN + 1]`
abbrev pub auth_arg_size : ℕ
auth_arg_size = max_arg_len + 1

unfoldable pub conf_auth_parser : Option (Parser LineParser)
conf_auth_parser = conf_line_parser auth_spec

unfoldable pub init_auth_parser : LineParser → LineParser
init_auth_parser = init_line_parser auth_spec

unfoldable pub auth_parse : Parser LineParser → LineParser → Buffer → Option (LineParser × Buffer)
auth_parse = line_parse

pub auth_spec-IsLineSpec : IsLineSpec auth_spec
unfolding is_alpha
auth_spec-IsLineSpec = record { cmd_chars = λ c h. ground arith }
