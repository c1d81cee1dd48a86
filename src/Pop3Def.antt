-- ===== src/Pop3Def.antt =====
-- include/pop3def.h: the limits and the error codes of the POP3 part.
use pop.Common.{ℕ}

abbrev pub max_cmd_len : ℕ
max_cmd_len = 5

abbrev pub max_arg_len : ℕ
max_arg_len = 40

abbrev pub max_args : ℕ
max_args = 5

abbrev pub max_rsp_len : ℕ
max_rsp_len = 32768

abbrev pub max_bytes_send : ℕ
max_bytes_send = 256

abbrev pub terminator_len : ℕ
terminator_len = 3

abbrev pub no_error : ℕ
no_error = 0

abbrev pub long_param : ℕ
long_param = 1

abbrev pub long_cmd : ℕ
long_cmd = 2

abbrev pub invalid_cmd : ℕ
invalid_cmd = 3

abbrev pub invalid_arg : ℕ
invalid_arg = 4

abbrev pub invalid_user : ℕ
invalid_user = 5

abbrev pub invalid_char : ℕ
invalid_char = 6

abbrev pub wrong_password : ℕ
wrong_password = 7

abbrev pub wrong_time_pass_cmd : ℕ
wrong_time_pass_cmd = 8

abbrev pub user_already_online : ℕ
user_already_online = 9

abbrev pub unknown_error : ℕ
unknown_error = 10
