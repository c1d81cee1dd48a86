-- ===== src/Tests/Starting.antt =====
-- The start of the server on concrete inputs.
use pop.Common.{
  ℕ, ◌≡◌, ◌≤◌, ◌⊎◌, refl, inr, true, false, Option, none, some, some_inj, List, [], ◌∷◌, pos,
  negsuc, subst, Str, codes,
}
use pop.Selector.{
  SelectorKey, Selector, FdHandler, FdSet, fd_put, selector_new, next_capacity, count_bits,
  selector_register, scan_max,
}
use pop.Selector.Events.{interrupted, selector_select, selector_destroy}
use pop.Selector.Setup.{Fcntl, selector_fd_set_nio, selector_init}
use pop.ServerUtils.{Address, Answers, create_tcp_socket_server}
use pop.ServerUtils.Listening.{Fresh, opened, listening, create_tcp_socket_server_lem}
use pop.Start.{Handler, StartEnv, Ended, is_below, run_server}
use pop.Start.Main.{main}
use pop.Options.{u, parse_args, add_first_user}
use pop.Users.{Users, free_slot, add_any_user, user_add, add_slot}
use pop.Start.Ending.{main-ends}
use pop.Start.Failing.{third, run_server-unopened}

-- Two addresses, of which the first has no socket, and one address.
abbrev two : List Address
two = record { socket = negsuc 0; bound = true } ∷ (record { socket = pos 5; bound = true } ∷ [])

abbrev nothing_open : FdSet
nothing_open j = false

two-Fresh : Fresh two nothing_open
two-Fresh = (λ n e. refl, (λ n e. refl, tt))

create_tcp_socket_server_lem_example :
    (o : FdSet) × (create_tcp_socket_server
        (record { addresses = some two; listens = true })
        nothing_open
      ≡ (pos 5, o))
    × ((j : ℕ) → o j ≡ opened (some 5) nothing_open j)
unfolding listening
create_tcp_socket_server_lem_example =
    create_tcp_socket_server_lem (record { addresses = some two; listens = true }) nothing_open
      (λ found e. subst (λ l. Fresh l nothing_open) (some_inj e) two-Fresh)

abbrev one : ℕ → Answers
one n = record { addresses = some (record { socket = pos n; bound = true } ∷ []); listens = true }

abbrev idles :
    Handler → Option (SelectorKey ℕ → Selector Handler ℕ × ℕ → Option (Selector Handler ℕ × ℕ))
idles h = some (λ key sw. some sw)

abbrev idle : FdHandler Handler ℕ ℕ
idle = record {
  handle_read = idles;
  handle_write = idles;
  handle_block = idles;
  handle_close = λ h. none;
}

abbrev accepting : Fcntl
accepting = record { flags = some 0; sets = λ flags. true }

-- Everything succeeds, and a signal comes in the first round of waiting.
abbrev interrupted_early : StartEnv
interrupted_early = record {
  master = one 3;
  master6 = one 4;
  monitor = one 5;
  nio = accepting;
  nio6 = accepting;
  nio_monitor = accepting;
  blocked = true;
  handled = true;
  alloc = true;
  alloc_items = true;
  alloc_more = true;
  rounds = interrupted ∷ [];
}

-- No address for IPv6.
abbrev without_ipv6 : StartEnv
without_ipv6 = record interrupted_early { master6 = record { addresses = none; listens = true } }

abbrev ended : Ended ℕ
ended = record {
  status = some (pos 0);
  open_fds = fd_put false 5 (
      fd_put false 4 (fd_put false 3 (fd_put true 5 (fd_put true 4 (fd_put true 3 nothing_open)))));
  rest = 1;
}

-- The program behind the sockets is a number here, that of the users.
abbrev count : Option Str → Users → ℕ
count ext t = t.total_users

abbrev no_users : Users
no_users = record { slots = free_slot ∷ []; total_users = 0 }

abbrev run : Option (Ended ℕ)
run = main idle interrupted_early count no_users 2 (u (codes "ana:secret") ∷ []) 2

starts : run_server idle interrupted_early 1 ≡ some ended
unfolding run_server selector_fd_set_nio selector_init create_tcp_socket_server selector_new
    next_capacity count_bits selector_register selector_select selector_destroy scan_max
starts = refl

ends : run ≡ some ended
unfolding main parse_args add_first_user add_any_user user_add add_slot
ends = starts

main-ends_example :
    ((j : ℕ) → ended.open_fds j ≡ false)
    × (((n : ℕ) × (n ≤ 2) × (ended.status ≡ some (pos n)))
        ⊎ (is_below (third interrupted_early).0 ≡ true))
main-ends_example =
    main-ends idle interrupted_early count no_users 2 (u (codes "ana:secret") ∷ []) 2 ended ends

run_server-unopened_example : run_server idle without_ipv6 7 ≡ none
unfolding create_tcp_socket_server
run_server-unopened_example = run_server-unopened idle without_ipv6 7 (inr refl)
