-- ===== src/Parser/Monitor.antt =====
-- src/server/monitorParser.c, include/server/parsers/monitorParser.h: the instance of the command-line
-- parser that reads the commands of the monitor.
use pop.Common.{ℕ, ◌+◌, Option, Bool, arith, is_print, ◌&&◌, not, ◌==◌}
use pop.MonitorDef.{max_cmd_len, max_arg_len, invalid_arg, invalid_char}
use pop.Buffer.{Buffer}
use pop.Parser.{Parser}
use pop.Parser.Line.{LineSpec, LineParser, conf_line_parser, init_line_parser, line_parse}
use pop.Parser.Line.Step.{IsLineSpec}

-- `!(!isprint(c) || c == ' ')`
unfoldable pub is_word_char : ℕ → Bool
unfolding is_print
is_word_char c = is_print c && not (c == b' ')

abbrev pub monitor_spec : LineSpec
monitor_spec = record {
  is_cmd_char = is_word_char;
  max_cmd_len = max_cmd_len;
  max_arg_len = max_arg_len;
  invalid_arg = invalid_arg;
  invalid_char = invalid_char;
}

-- `char arg[MONITOR_MAX_ARG_LEN + 1]`
abbrev pub monitor_arg_size : ℕ
monitor_arg_size = max_arg_len + 1

unfoldable pub conf_monitor_parser : Option (Parser LineParser)
conf_monitor_parser = conf_line_parser monitor_spec

unfoldable pub init_monitor_parser : LineParser → LineParser
init_monitor_parser = init_line_parser monitor_spec

unfoldable pub monitor_parse :
    Parser LineParser → LineParser → Buffer → Option (LineParser × Buffer)
monitor_parse = line_parse

pub monitor_spec-IsLineSpec : IsLineSpec monitor_spec
unfolding is_word_char
monitor_spec-IsLineSpec = record { cmd_chars = λ c h. ground arith }
