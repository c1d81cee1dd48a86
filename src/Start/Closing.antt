-- ===== src/Start/Closing.antt =====
-- That the server leaves none of its sockets open.
use pop.Common.{
  pos-injective, some_inj, ℕ, ◌≡◌, ◌≢◌, ◌⊎◌, inl, inr, refl, sym, ap, ◌∙◌, Bool, true, false,
  Bool-cases, Option, none, some, List, [], ◌∷◌, ℤ, pos, negsuc, eq-or-not, >>=-eq-some,
}
use pop.Selector.{
  FdSet, fd_put, FdHandler, Selector, selector_new, selector_register, items_max_size,
}
use pop.Selector.Events.{Polled, selector_select}
use pop.Selector.Setup.{selector_init}
use pop.ServerUtils.{create_tcp_socket_server}
use pop.ServerUtils.Listening.{create_tcp_socket_server-opens}
use pop.Start.{
  Handler, StartEnv, Locals, Flow, goes_on, finally, Ended, is_below, is_nio, begin, open_sockets,
  set_up, register, register_all, serve, close_socket, destroy, finish, finish_flow, run_server,
  ◌then_on◌, fails, check, is_success, master_handler, master_monitor_handler,
}
use pop.Start.Flows.{After, then_on-After, either-After, if-After, >>=-After}

module _ {D W : Type 0} where
  -- Every descriptor that is open is one of the three sockets.
  abbrev pub Owns : Locals D W → Type 0
  Owns l =
      (j : ℕ)
      → l.open_fds j ≡ true
      → (l.master_socket ≡ some (pos j))
        ⊎ ((l.master_socket6 ≡ some (pos j)) ⊎ (l.monitor_socket ≡ some (pos j)))

  abbrev OwnsAfter : Option (Flow D W) → Type 0
  OwnsAfter = After Owns Owns

  check-Owns : (ok : Bool) (l : Locals D W) → Owns l → OwnsAfter (check ok l)
  check-Owns true l o = o
  check-Owns false l o = o

  made-Owns :
      (made : Option (Selector Handler D)) (l : Locals D W)
      → Owns l
      → OwnsAfter (elim made as (λ m. Option (Flow D W)) [
        | none ↦ fails l
        | some s ↦ some (goes_on (record l { selector = some s }))
      ])
  made-Owns none l o = o
  made-Owns (some s) l o = o

  set_up-Owns : (env : StartEnv) (l : Locals D W) → Owns l → OwnsAfter (set_up env l)
  unfolding set_up
  set_up-Owns env l o =
      then_on-After Owns Owns Owns _ _
        (then_on-After Owns Owns Owns _ _
          (then_on-After Owns Owns Owns _ _
            (then_on-After Owns Owns Owns _ _ (check-Owns (is_nio env.nio) l o)
              (check-Owns (is_nio env.nio6)))
            (check-Owns (is_nio env.nio_monitor)))
          (check-Owns (is_success (selector_init env.blocked env.handled))))
        (λ l' o'.
          >>=-After Owns Owns (selector_new env.alloc env.alloc_items items_max_size) _
            (λ m. made-Owns m l o))

  register-Owns :
      (env : StartEnv) (h : Handler) (fd : ℤ) (l : Locals D W)
      → Owns l
      → OwnsAfter (register env h fd l)
  unfolding register
  register-Owns env h fd l o = >>=-After Owns Owns l.selector _ (λ s.
      >>=-After Owns Owns (selector_register env.alloc_more fd (some h) 1 none s) _
        (λ r. if-After Owns Owns (is_success r.0) _ _ o o))

  register_all-Owns : (env : StartEnv) (l : Locals D W) → Owns l → OwnsAfter (register_all env l)
  unfolding register_all
  register_all-Owns env l o = >>=-After Owns Owns l.master_socket _ (λ m.
      >>=-After Owns Owns l.master_socket6 _ (λ m6. >>=-After Owns Owns l.monitor_socket _ (λ mm.
        then_on-After Owns Owns Owns _ _
          (then_on-After Owns Owns Owns _ _ (register-Owns env master_handler m l o)
            (register-Owns env master_handler m6))
          (register-Owns env master_monitor_handler mm))))

  serve-Owns :
      (ops : FdHandler Handler D W) (ps : List Polled) (l : Locals D W)
      → Owns l
      → OwnsAfter (serve ops ps l)
  unfolding serve
  serve-Owns ops [] l o = o
  serve-Owns ops (p ∷ ps) l o = >>=-After Owns Owns l.selector _ (λ s.
      >>=-After Owns Owns (selector_select ops p (s, l.rest)) _ (λ r.
        if-After Owns Owns (is_success r.0) _ _
          (serve-Owns ops ps
            (record l { err_msg = false; ss = r.0; selector = some r.1.0; rest = r.1.1 }) o)
          o))

  -- What is open behind the closing of a socket was open before, and is another one.
  close_socket-closes :
      (ops : FdHandler Handler D W) (c : Option ℤ) (o o' : FdSet) (j : ℕ)
      → close_socket ops c o ≡ some o'
      → o' j ≡ true
      → (o j ≡ true) × (c ≢ some (pos j))
  close_socket-closes ops none o o' j e h = absurd cc
  close_socket-closes ops (some (negsuc n)) o o' j e h = (ap (λ s. s j) (some_inj e) ∙ h, λ x. cc)
  close_socket-closes ops (some (pos n)) o o' j e h =
      let open_still : fd_put false n o j ≡ true = ap (λ s. s j) (some_inj e) ∙ h in
      elim (eq-or-not j n) [
        | inl (same, t) ↦ let no : fd_put false n o j ≡ false = rw t refl in absurd cc
        | inr (other, t) ↦
            let same : fd_put false n o j ≡ o j = rw t refl in
            (sym same ∙ open_still, λ x. other (pos-injective n j (some_inj x)))
      ]

module _ (D : Type 0) {W : Type 0} where
  open_sockets-Owns :
      (env : StartEnv) (w : W) → OwnsAfter (some (open_sockets env (begin {D = D} w)))
  unfolding open_sockets
  open_sockets-Owns env w =
      let first = create_tcp_socket_server env.master (λ j. false) in
      let second = create_tcp_socket_server env.master6 first.1 in
      let third = create_tcp_socket_server env.monitor second.1 in
      let in_first : (j : ℕ) → first.1 j ≡ true → first.0 ≡ pos j = λ j h.
        elim (create_tcp_socket_server-opens env.master (λ j. false) j h) [
          | inl x ↦ absurd cc
          | inr y ↦ y
        ] in
      let in_second : (j : ℕ) → second.1 j ≡ true → (first.0 ≡ pos j) ⊎ (second.0 ≡ pos j) = λ j h.
        elim (create_tcp_socket_server-opens env.master6 first.1 j h) [
          | inl x ↦ inl (in_first j x)
          | inr y ↦ inr y
        ] in
      let in_third : (j : ℕ)
          → third.1 j ≡ true
          → (◌≡◌ {A = Option ℤ} (some first.0) (some (pos j)))
            ⊎ ((◌≡◌ {A = Option ℤ} (some second.0) (some (pos j)))
                ⊎ (◌≡◌ {A = Option ℤ} (some third.0) (some (pos j)))) =
        λ j h. elim (create_tcp_socket_server-opens env.monitor second.1 j h) [
          | inl x ↦ elim (in_second j x) [ inl y ↦ inl (ap some y) | inr y ↦ inr (inl (ap some y)) ]
          | inr y ↦ inr (inr (ap some y))
        ] in
      either-After Owns Owns (is_below first.0) _ _ (λ j h. inl (ap some (in_first j h)))
        (either-After Owns Owns (is_below second.0) _ _
          (λ j h. elim (in_second j h) [ inl x ↦ inl (ap some x) | inr y ↦ inr (inl (ap some y)) ])
          (either-After Owns Owns (is_below third.0) _ _ in_third in_third))

module _ {D W : Type 0} (ops : FdHandler Handler D W) where
  -- A descriptor that the three calls of `close` leave open is none of the three sockets.
  finish-closes :
      (l : Locals D W) (r : Ended W)
      → Owns l
      → finish ops l ≡ some r
      → (j : ℕ) → r.open_fds j ≡ true
      → ⊥
  unfolding finish
  finish-closes l r o e j h =
      let (w, e0, x0) = >>=-eq-some (destroy ops l) _ e in
      let (o1, e1, x1) = >>=-eq-some (close_socket ops l.master_socket l.open_fds) _ x0 in
      let (o2, e2, x2) = >>=-eq-some (close_socket ops l.master_socket6 o1) _ x1 in
      let (o3, e3, x3) = >>=-eq-some (close_socket ops l.monitor_socket o2) _ x2 in
      let (h2, n3) =
        close_socket-closes ops l.monitor_socket o2 o3 j e3
          (ap (λ v. v.open_fds j) (some_inj x3) ∙ h) in
      let (h1, n2) = close_socket-closes ops l.master_socket6 o1 o2 j e2 h2 in
      let (h0, n1) = close_socket-closes ops l.master_socket l.open_fds o1 j e1 h1 in
      elim (o j h0) [ inl x ↦ n1 x | inr y ↦ elim y [ inl x ↦ n2 x | inr x ↦ n3 x ] ]

  finish_flow-closes :
      (m : Option (Flow D W)) (r : Ended W)
      → OwnsAfter m
      → finish_flow ops m ≡ some r
      → (j : ℕ) → r.open_fds j ≡ true
      → ⊥
  finish_flow-closes none r o e j h = absurd cc
  finish_flow-closes (some (goes_on l)) r o e j h = finish-closes l r o e j h
  finish_flow-closes (some (finally l)) r o e j h = finish-closes l r o e j h

  -- When the server ends, at whatever point of its start or of its loop, none of the sockets that it
  -- made is open.
  pub run_server-closes :
      (env : StartEnv) (w : W) (r : Ended W)
      → run_server ops env w ≡ some r
      → (j : ℕ) → r.open_fds j ≡ false
  unfolding run_server
  run_server-closes env w r e j = elim (Bool-cases (r.open_fds j)) [
    | inl x ↦
        let opened : Option (Flow D W) = some (open_sockets env (begin w)) in
        let made = opened then_on set_up env in
        let registered = made then_on register_all env in
        absurd (
          finish_flow-closes (registered then_on serve ops env.rounds) r
            (then_on-After Owns Owns Owns registered (serve ops env.rounds)
              (then_on-After Owns Owns Owns made (register_all env)
                (then_on-After Owns Owns Owns opened (set_up env) (open_sockets-Owns D env w)
                  (set_up-Owns env))
                (register_all-Owns env))
              (serve-Owns ops env.rounds))
            e j x)
    | inr x ↦ x
  ]
