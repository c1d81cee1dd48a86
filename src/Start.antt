-- ===== src/Start.antt =====
-- src/server/main.c: the start of the server, its loop and its end. What the system answers is an
-- argument. A variable that is not initialised is `none`; reading one, and undefined behaviour in the
-- selector, is `none` of the whole. The signals are the end of the list of rounds.
pub mod Closing
pub mod Flows
pub mod Failing
pub mod Main
pub mod Ending
use pop.Common.{
  ℕ, Bool, true, false, not, Option, none, some, List, [], ◌∷◌, ℤ, pos, negsuc, if◌then◌else◌,
  ◌>>=◌, ◌==◌,
}
use pop.Options.{ArgsT}
use pop.Selector.{
  SelectorStatus, success, io, FdSet, fd_put, FdHandler, Selector, selector_new, selector_register,
  items_max_size,
}
use pop.Selector.Events.{Polled, selector_select, selector_destroy}
use pop.Selector.Setup.{Fcntl, selector_init, selector_fd_set_nio}
use pop.ServerUtils.{Answers, create_tcp_socket_server}

-- `masterHandler` and `masterMonitorHandler`, beside the handlers that connections register.
pub data Handler : Type 0 where
  master_handler master_monitor_handler pop3_handler monitor_handler file_handler cmd_handler :
      Handler

-- What the system answers: the three calls of `createTCPSocketServer`, those of `fcntl` on the three
-- sockets, the two of `selector_init`, the allocations, and `pselect` in each round until a signal comes.
pub record StartEnv : Type 0 where
  pub master : Answers
  pub master6 : Answers
  pub monitor : Answers
  pub nio : Fcntl
  pub nio6 : Fcntl
  pub nio_monitor : Fcntl
  pub blocked : Bool
  pub handled : Bool
  pub alloc : Bool
  pub alloc_items : Bool
  pub alloc_more : Bool
  pub rounds : List Polled

-- The variables that the label `finally` reads, the selector, the sockets that are open, and the rest of
-- the program.
pub record Locals (D W : Type 0) : Type 0 where
  pub master_socket : Option ℤ
  pub master_socket6 : Option ℤ
  pub monitor_socket : Option ℤ
  pub err_msg : Bool
  pub ss : SelectorStatus
  pub selector : Option (Selector Handler D)
  pub ret : Option ℤ
  pub open_fds : FdSet
  pub rest : W

-- How a part of `main` ends: in the next one, or in `goto finally`.
pub data Flow (D W : Type 0) : Type 0 where
  goes_on : Locals D W → Flow D W
  finally : Locals D W → Flow D W

-- The exit status (`none` is an indeterminate one), and what is left.
pub record Ended (W : Type 0) : Type 0 where
  pub status : Option ℤ
  pub open_fds : FdSet
  pub rest : W

abbrev pub is_success : SelectorStatus → Bool
is_success success = true
is_success _ = false

-- `selector_fd_set_nio` does not answer -1.
abbrev pub is_nio : Fcntl → Bool
is_nio f = elim (selector_fd_set_nio f).0 [
  | pos n ↦ true
  | negsuc n ↦ if n == 0 then false else true
]

abbrev pub is_below : ℤ → Bool
is_below (pos n) = false
is_below (negsuc n) = true

module _ {D W : Type 0} where
  infixl 5 ◌then_on◌
  abbrev pub ◌then_on◌ : Option (Flow D W) → (Locals D W → Option (Flow D W)) → Option (Flow D W)
  none then_on f = none
  some (goes_on l) then_on f = f l
  some (finally l) then_on f = some (finally l)

  -- `err_msg = ...; goto finally`
  abbrev pub fails : Locals D W → Option (Flow D W)
  fails l = some (finally (record l { err_msg = true }))

  abbrev pub check : Bool → Locals D W → Option (Flow D W)
  check ok l = if ok then some (goes_on l) else fails l

  abbrev pub begin : W → Locals D W
  begin w = record {
    master_socket = none;
    master_socket6 = none;
    monitor_socket = none;
    err_msg = false;
    ss = success;
    selector = none;
    ret = none;
    open_fds = λ j. false;
    rest = w;
  }

  -- The three sockets. A failure sets no message.
  unfoldable pub open_sockets : StartEnv → Locals D W → Flow D W
  open_sockets env l =
      let (m, o1) = create_tcp_socket_server env.master l.open_fds in
      let l1 = record l { master_socket = some m; open_fds = o1 } in
      let (m6, o2) = create_tcp_socket_server env.master6 o1 in
      let l2 = record l1 { master_socket6 = some m6; open_fds = o2 } in
      let (mm, o3) = create_tcp_socket_server env.monitor o2 in
      let l3 = record l2 { monitor_socket = some mm; open_fds = o3 } in
      if is_below m
      then finally l1
      else if is_below m6
      then finally l2
      else if is_below mm
      then finally l3
      else goes_on l3

  -- `selector_fd_set_nio`, `selector_init` and `selector_new`
  unfoldable pub set_up : StartEnv → Locals D W → Option (Flow D W)
  set_up env l =
      let make = (do
        made ← selector_new env.alloc env.alloc_items items_max_size
        elim made [ none ↦ fails l | some s ↦ some (goes_on (record l { selector = some s })) ]) in
      check (is_nio env.nio) l
      then_on check (is_nio env.nio6)
      then_on check (is_nio env.nio_monitor)
      then_on check (is_success (selector_init env.blocked env.handled))
      then_on λ l'. make

  -- OP_READ is 1.
  unfoldable pub register : StartEnv → Handler → ℤ → Locals D W → Option (Flow D W)
  register env h fd l = do
    s ← l.selector
    (st, s') ← selector_register env.alloc_more fd (some h) 1 none s
    let l' = record l { ss = st; selector = some s' }
    if is_success st then some (goes_on l') else fails l'

  unfoldable pub register_all : StartEnv → Locals D W → Option (Flow D W)
  unfolding register
  register_all env l = do
    m ← l.master_socket
    m6 ← l.master_socket6
    mm ← l.monitor_socket
    register env master_handler m l
        then_on register env master_handler m6
        then_on register env master_monitor_handler mm

  module _ (ops : FdHandler Handler D W) where
    -- `while (serverRunning)`, and `ret = 0` behind it.
    unfoldable pub serve : List Polled → Locals D W → Option (Flow D W)
    serve [] l = some (goes_on (record l { ret = some (pos 0) }))
    serve (p ∷ ps) l = do
      s ← l.selector
      (st, (s', w)) ← selector_select ops p (s, l.rest)
      let l' = record l { err_msg = false; ss = st; selector = some s'; rest = w }
      let more = serve ps l'
      if is_success st then more else fails l'

    abbrev pub close_socket : Option ℤ → FdSet → Option FdSet
    close_socket none o = none
    close_socket (some (negsuc n)) o = some o
    close_socket (some (pos n)) o = some (fd_put false n o)

    abbrev pub destroy : Locals D W → Option W
    destroy l = elim l.selector [ none ↦ some l.rest | some s ↦ selector_destroy ops (s, l.rest) ]

    abbrev pub exit_status : Locals D W → Option ℤ
    exit_status l =
        if not (is_success l.ss) then some (pos 2) else if l.err_msg then some (pos 1) else l.ret

    -- What stands behind the label `finally`.
    unfoldable pub finish : Locals D W → Option (Ended W)
    finish l = do
      w ← destroy l
      o1 ← close_socket l.master_socket l.open_fds
      o2 ← close_socket l.master_socket6 o1
      o3 ← close_socket l.monitor_socket o2
      some (record { status = exit_status l; open_fds = o3; rest = w })

    abbrev pub finish_flow : Option (Flow D W) → Option (Ended W)
    finish_flow none = none
    finish_flow (some (goes_on l)) = finish l
    finish_flow (some (finally l)) = finish l

    -- `main` behind the options and the first user, which Start/Main adds.
    unfoldable pub run_server : StartEnv → W → Option (Ended W)
    unfolding open_sockets set_up register_all serve finish
    run_server env w = finish_flow (
        some (open_sockets env (begin w))
        then_on set_up env
        then_on register_all env
        then_on serve env.rounds)
