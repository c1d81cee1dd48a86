-- ===== src/MonitorDef.antt =====
-- include/monitordef.h: the limits and the error codes of the monitor.
use pop.Common.{ℕ}

abbrev pub monitor_buffer_size : ℕ
monitor_buffer_size = 32768

abbrev pub max_arg_len : ℕ
max_arg_len = 40

abbrev pub max_cmd_len : ℕ
max_cmd_len = 40

abbrev pub no_error : ℕ
no_error = 0

abbrev pub invalid_char : ℕ
invalid_char = 1

abbrev pub invalid_cmd : ℕ
invalid_cmd = 2

abbrev pub invalid_arg : ℕ
invalid_arg = 3

abbrev pub not_logged : ℕ
not_logged = 4

abbrev pub wrong_login : ℕ
wrong_login = 5

abbrev pub invalid_user : ℕ
invalid_user = 6

abbrev pub already_logged : ℕ
already_logged = 7

abbrev pub not_user_list : ℕ
not_user_list = 8

abbrev pub full_users : ℕ
full_users = 9

abbrev pub user_exists : ℕ
user_exists = 10

abbrev pub user_online : ℕ
user_online = 11

abbrev pub cant_create_maildir : ℕ
cant_create_maildir = 12

abbrev pub cant_rm_maildir : ℕ
cant_rm_maildir = 13

abbrev pub cmd_error : ℕ
cmd_error = 14

abbrev pub populate_error : ℕ
populate_error = 15

abbrev pub unknown_error : ℕ
unknown_error = 16
