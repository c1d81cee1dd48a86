-- ===== src/Start/Failing.antt =====
-- How the server ends where a socket cannot be made, and its exit status otherwise.
use pop.Common.{
  some_inj, ℕ, ◌≡◌, ◌≤◌, ◌⊎◌, Bool-cases, inl, inr, refl, sym, ap, ◌∙◌, Bool, true, false, not,
  Option, none, some, List, [], ◌∷◌, ℤ, pos, if◌then◌else◌, ◌>>=◌, >>=-eq-some, arith,
}
use pop.Selector.{FdSet, FdHandler, Selector, selector_new, selector_register, items_max_size}
use pop.Selector.Events.{selector_select, Polled}
use pop.Selector.Setup.{selector_init}
use pop.ServerUtils.{create_tcp_socket_server}
use pop.Start.{
  Handler, StartEnv, Locals, Flow, goes_on, finally, Ended, is_below, is_nio, is_success, begin,
  check, fails, open_sockets, set_up, register, register_all, serve, exit_status, close_socket,
  destroy, finish, finish_flow, run_server, ◌then_on◌, master_handler, master_monitor_handler,
}
use pop.Start.Flows.{After, then_on-After, if-After, >>=-After}

-- What `createTCPSocketServer` gives for each of the three sockets.
abbrev pub first : StartEnv → ℤ × FdSet
first env = create_tcp_socket_server env.master (λ j. false)

abbrev pub second : StartEnv → ℤ × FdSet
second env = create_tcp_socket_server env.master6 (first env).1

abbrev pub third : StartEnv → ℤ × FdSet
third env = create_tcp_socket_server env.monitor (second env).1

>>=-none :
    {A B : Type 0} (m : Option A) (f : A → Option B) → ((a : A) → f a ≡ none) → (m >>= f) ≡ none
>>=-none none f n = refl
>>=-none (some a) f n = n a

module _ {D W : Type 0} (ops : FdHandler Handler D W) where
  run_server-no_first :
      (env : StartEnv) (w : W) → is_below (first env).0 ≡ true → run_server ops env w ≡ none
  unfolding run_server open_sockets finish
  run_server-no_first env w h =
      rw h (>>=-none (close_socket ops (some (first env).0) _) _ (λ a. refl))

  -- Where the first or the second socket cannot be made, the end of `main` reads a variable that has
  -- no value: `masterSocket6` or `monitorSocket`.
  pub run_server-unopened :
      (env : StartEnv) (w : W)
      → (is_below (first env).0 ≡ true) ⊎ (is_below (second env).0 ≡ true)
      → run_server ops env w ≡ none
  unfolding run_server open_sockets finish
  run_server-unopened env w (inl h) = run_server-no_first env w h
  run_server-unopened env w (inr h) = elim (Bool-cases (is_below (first env).0)) [
    | inl t ↦ run_server-no_first env w t
    | inr t ↦ rw t (
        rw h (
          >>=-none (close_socket ops (some (first env).0) _) _
            (λ a. >>=-none (close_socket ops (some (second env).0) _) _ (λ b. refl))))
  ]

  -- The exit status is one that `main` sets.
  abbrev Settled : Locals D W → Type 0
  Settled l = (n : ℕ) × (n ≤ 2) × (exit_status ops l ≡ some (pos n))

  abbrev Anything : Locals D W → Type 0
  Anything l = Unit

  fails-Settled : (l : Locals D W) → Settled (record l { err_msg = true })
  fails-Settled l = from (is_success l.ss)
    where
      from :
          (b : Bool)
          → (n : ℕ) × (n ≤ 2)
            × ((if not b then some (pos 2) else if true then some (pos 1) else l.ret)
                ≡ some (pos n))
      from true = (1, omega arith, refl)
      from false = (2, omega arith, refl)

  check-Settled : (ok : Bool) (l : Locals D W) → After Anything Settled (check ok l)
  check-Settled true l = tt
  check-Settled false l = fails-Settled l

  made-Settled :
      (made : Option (Selector Handler D)) (l : Locals D W)
      → After Anything Settled (elim made as (λ m. Option (Flow D W)) [
        | none ↦ fails l
        | some s ↦ some (goes_on (record l { selector = some s }))
      ])
  made-Settled none l = fails-Settled l
  made-Settled (some s) l = tt

  set_up-Settled : (env : StartEnv) (l : Locals D W) → After Anything Settled (set_up env l)
  unfolding set_up
  set_up-Settled env l =
      let next = then_on-After Anything Settled Anything in
      next _ _
        (next _ _
          (next _ _
            (next _ _ (check-Settled (is_nio env.nio) l)
              (λ l' u. check-Settled (is_nio env.nio6) l'))
            (λ l' u. check-Settled (is_nio env.nio_monitor) l'))
          (λ l' u. check-Settled (is_success (selector_init env.blocked env.handled)) l'))
        (λ l' u.
          >>=-After Anything Settled (selector_new env.alloc env.alloc_items items_max_size) _
            (λ m. made-Settled m l))

  register-Settled :
      (env : StartEnv) (h : Handler) (fd : ℤ) (l : Locals D W)
      → After Anything Settled (register env h fd l)
  unfolding register
  register-Settled env h fd l = >>=-After Anything Settled l.selector _ (λ s.
      >>=-After Anything Settled (selector_register env.alloc_more fd (some h) 1 none s) _ (λ r.
        if-After Anything Settled (is_success r.0) _ _ tt
          (fails-Settled (record l { ss = r.0; selector = some r.1 }))))

  register_all-Settled :
      (env : StartEnv) (l : Locals D W) → After Anything Settled (register_all env l)
  unfolding register_all
  register_all-Settled env l =
      let next = then_on-After Anything Settled Anything in
      >>=-After Anything Settled l.master_socket _ (λ m.
        >>=-After Anything Settled l.master_socket6 _ (λ m6.
          >>=-After Anything Settled l.monitor_socket _ (λ mm.
            next _ _
              (next _ _ (register-Settled env master_handler m l)
                (λ l' u. register-Settled env master_handler m6 l'))
              (λ l' u. register-Settled env master_monitor_handler mm l'))))

  ended-Settled : (l : Locals D W) → Settled (record l { ret = some (pos 0) })
  ended-Settled l = from (is_success l.ss) l.err_msg
    where
      from :
          (b c : Bool)
          → (n : ℕ) × (n ≤ 2)
            × ((if not b then some (pos 2) else if c then some (pos 1) else some (pos 0))
                ≡ some (pos n))
      from true true = (1, omega arith, refl)
      from true false = (0, omega arith, refl)
      from false c = (2, omega arith, refl)

  serve-Settled : (ps : List Polled) (l : Locals D W) → After Settled Settled (serve ops ps l)
  unfolding serve
  serve-Settled [] l = ended-Settled l
  serve-Settled (p ∷ ps) l = >>=-After Settled Settled l.selector _ (λ s.
      >>=-After Settled Settled (selector_select ops p (s, l.rest)) _ (λ r.
        let l' = record l { err_msg = false; ss = r.0; selector = some r.1.0; rest = r.1.1 } in
        if-After Settled Settled (is_success r.0) _ _ (serve-Settled ps l') (fails-Settled l')))

  opened-Settled :
      (env : StartEnv) (w : W)
      → is_below (first env).0 ≡ false
      → is_below (second env).0 ≡ false
      → is_below (third env).0 ≡ false
      → After Anything Settled (some (open_sockets env (begin w)))
  unfolding open_sockets
  opened-Settled env w h1 h2 h3 = rw h1 (rw h2 (rw h3 tt))

  finish-Settled :
      (l : Locals D W) (r : Ended W)
      → Settled l
      → finish ops l ≡ some r
      → (n : ℕ) × (n ≤ 2) × (r.status ≡ some (pos n))
  unfolding finish
  finish-Settled l r (n, le, e) h =
      let (w, e0, x0) = >>=-eq-some (destroy ops l) _ h in
      let (o1, e1, x1) = >>=-eq-some (close_socket ops l.master_socket l.open_fds) _ x0 in
      let (o2, e2, x2) = >>=-eq-some (close_socket ops l.master_socket6 o1) _ x1 in
      let (o3, e3, x3) = >>=-eq-some (close_socket ops l.monitor_socket o2) _ x2 in
      (n, le, sym (ap (λ v. v.status) (some_inj x3)) ∙ e)

  finish_flow-Settled :
      (m : Option (Flow D W)) (r : Ended W)
      → After Settled Settled m
      → finish_flow ops m ≡ some r
      → (n : ℕ) × (n ≤ 2) × (r.status ≡ some (pos n))
  finish_flow-Settled none r o e = absurd cc
  finish_flow-Settled (some (goes_on l)) r o e = finish-Settled l r o e
  finish_flow-Settled (some (finally l)) r o e = finish-Settled l r o e

  -- Where the three sockets are made, the exit status of a server that ends is 0, 1 or 2.
  pub run_server-status :
      (env : StartEnv) (w : W) (r : Ended W)
      → is_below (first env).0 ≡ false
      → is_below (second env).0 ≡ false
      → is_below (third env).0 ≡ false
      → run_server ops env w ≡ some r
      → (n : ℕ) × (n ≤ 2) × (r.status ≡ some (pos n))
  unfolding run_server
  run_server-status env w r h1 h2 h3 e =
      let opened : Option (Flow D W) = some (open_sockets env (begin w)) in
      let made = opened then_on set_up env in
      let registered = made then_on register_all env in
      let next = then_on-After Anything Settled in
      finish_flow-Settled (registered then_on serve ops env.rounds) r
        (next Settled registered (serve ops env.rounds)
          (next Anything made (register_all env)
            (next Anything opened (set_up env) (opened-Settled env w h1 h2 h3)
              (λ l u. set_up-Settled env l))
            (λ l u. register_all-Settled env l))
          (λ l u. serve-Settled env.rounds l))
        e
