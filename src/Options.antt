-- ===== src/Options.antt =====
-- src/utils/args.c, include/utils/args.h, src/server/main.c: the options of the server, and the
-- first user. What `getopt` answers is the
-- list of the options with their arguments, as far as it finds any, and then its `optind`.
pub mod Reading
use pop.Common.{
  ℕ, zero, suc, ◌+◌, ◌-◌, ◌^◌, ◌%◌, Bool, true, false, not, Option, none, some, List, [], ◌∷◌, ◌++◌,
  Str, codes, ℤ, pos, negsuc, ltb, ◌==◌, if◌then◌else◌, skip_space,
}
use pop.Args.{to_number}
use pop.Users.{Code, Users, add_any_user}

-- The parts `monitor` and `server` of `args_t`.
pub record Endpoint : Type 0 where
  pub port : ℕ
  pub port_s : Str
  pub ip : Str

-- `args_t`; `none` is NULL.
pub record ArgsT : Type 0 where
  pub version : Bool
  pub debug : Bool
  pub monitor : Endpoint
  pub server : Endpoint
  pub user : Option Str
  pub pass : Option Str
  pub ext_cmd : Option Str

-- What `getopt` finds with the options "c:hp:l:P:L:u:vV"; `other` is '?'.
pub data Found : Type 0 where
  c p l big_p big_l u : Str → Found
  h v big_v other : Found

abbrev pub defaults : ArgsT
defaults = record {
  version = false;
  debug = false;
  monitor = record { port = 60401; port_s = codes "60401"; ip = codes "127.0.0.1" };
  server = record { port = 60711; port_s = codes "60711"; ip = codes "127.0.0.1" };
  user = none;
  pass = none;
  ext_cmd = none;
}

-- `atol`; a value that no `long` has is the greatest one. A negative value is `none`.
abbrev digits_of : Str → Option ℕ
digits_of [] = some 0
digits_of (d ∷ s) =
    if d == b'-'
    then (if to_number 0 s == 0 then some 0 else none)
    else if d == b'+'
    then some (to_number 0 s)
    else some (to_number 0 (d ∷ s))

abbrev capped : ℕ → ℕ
capped n = if ltb n (2 ^ 63) then n else 2 ^ 63 - 1

unfoldable pub parse_port : Str → ℕ
parse_port s = elim (digits_of (skip_space s)) [ none ↦ 0 | some n ↦ capped n % 2 ^ 32 ]

-- `strchr(val, ':')`: what stands before the first colon, and behind it.
unfoldable pub at_colon : Str → Option (Str × Str)
at_colon [] = none
at_colon (d ∷ s) =
    let rest = at_colon s in
    if d == b':'
    then some ([], s)
    else elim rest [ none ↦ none | some (name, pass) ↦ some (d ∷ name, pass) ]

abbrev is_empty : Str → Bool
is_empty [] = true
is_empty (d ∷ s) = false

-- `user`; whether it is 0, and the arguments, which are set before the tests of the two parts.
unfoldable pub set_user : Str → ArgsT → Bool × ArgsT
unfolding at_colon
set_user val a = elim (at_colon val) [
  | none ↦ (false, a)
  | some (name, pass) ↦
      let a' = record a { user = some name; pass = some pass } in
      if is_empty name then (false, a') else if is_empty pass then (false, a') else (true, a')
]

-- What one option does: go on, or return a result.
pub data Handled : Type 0 where
  goes_on : ArgsT → Handled
  returns : ℤ → ArgsT → Handled

abbrev checked : Bool → ArgsT → Handled
checked ok a = if ok then goes_on a else returns (negsuc 0) a

unfoldable pub handle_option : Found → ArgsT → Handled
unfolding parse_port set_user
handle_option (c s) a = goes_on (record a { ext_cmd = some s })
handle_option h a = returns (negsuc 0) a
handle_option (p s) a =
    let port = parse_port s in
    checked (not (port == 0)) (record a { server = record a.server { port = port; port_s = s } })
handle_option (l s) a = goes_on (record a { server = record a.server { ip = s } })
handle_option (big_p s) a =
    let port = parse_port s in
    checked (not (port == 0)) (record a { monitor = record a.monitor { port = port; port_s = s } })
handle_option (big_l s) a = goes_on (record a { monitor = record a.monitor { ip = s } })
handle_option (u s) a = let (ok, a') = set_user s a in checked ok a'
handle_option v a = goes_on (record a { debug = true })
handle_option big_v a = returns (pos 0) (record a { version = true })
handle_option other a = returns (negsuc 0) a

-- The loop, with the rounds left: it calls `getopt` at most `argc` times.
unfoldable pub handle_options : ℕ → List Found → ℕ → ArgsT → ℤ × ArgsT
unfolding handle_option
handle_options zero fs optind a = (pos optind, a)
handle_options (suc k) [] optind a = (pos optind, a)
handle_options (suc k) (f ∷ fs) optind a = elim (handle_option f a) [
  | goes_on a' ↦ handle_options k fs optind a'
  | returns r a' ↦ (r, a')
]

unfoldable pub parse_args : ℕ → List Found → ℕ → ℤ × ArgsT
unfolding handle_options
parse_args argc found optind = handle_options argc found optind defaults

-- The user that `main` adds to the table: that of the options, or else a first one.
unfoldable pub add_first_user : ArgsT → Users → Option (Code × Users)
unfolding add_any_user
add_first_user a t = elim a.user [
  | none ↦ add_any_user (codes "USER1") (codes "12345") t
  | some name ↦ elim a.pass [
    | none ↦ add_any_user (codes "USER1") (codes "12345") t
    | some pass ↦ add_any_user name pass t
  ]
]
