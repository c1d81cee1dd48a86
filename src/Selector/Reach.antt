-- ===== src/Selector/Reach.antt =====
-- The selector as the server uses it: made for 1024 descriptors (main.c), then called in any order.
use pop.Common.{
  some_inj, ℕ, ◌<◌, ◌≡◌, ◌≢◌, refl, sym, ◌∙◌, subst, ◌⊎◌, inl, inr, Bool, true, false, Option, none,
  some, ◌∷◌, ℤ, pos, negsuc, arith, get_elem?, get_elem?-below, ltb, ltb→lt, lt→ltb, Bool-cases,
}
use pop.Selector.{
  SelectorStatus, success, enomem, maxfd, iargs, fdinuse, Selector, FdSet, FdHandler, Item,
  item_used, to_index, items_max_size, selector_new, selector_register, selector_set_interest,
  selector_notify_block,
}
use pop.Selector.Valid.{slot_used, aside-IsValid}
use pop.Selector.Register.{expected, selector_register_lem, selector_set_interest_lem}
use pop.Selector.Unregister.{selector_unregister_fd_lem}
use pop.Selector.Closing.{server, IsClosed, server-keeps, selector_unregister_fd-open}
use pop.Selector.Events.{selector_unregister_fd}
use pop.Selector.New.{IsSound, new-IsSound}

module _ {H D W : Type 0} (ops : FdHandler H D (FdSet × W)) (is_monitor : H → Bool)
    (ended : W → W) where
  -- A connection of the monitor has set `closed` before it unregisters its descriptor.
  abbrev pub AtRest : ℤ → Selector H D × (FdSet × W) → Type 0
  AtRest fd x =
      (n : ℕ) (it : Item H D)
      → fd ≡ pos n
      → get_elem? x.0.fds n ≡ some it
      → IsClosed ops is_monitor ended n it x.1.0

  -- One call, with any arguments and any answer of the memory allocation, where the calls to
  -- unregister are those of the connections and not those of `selector_destroy`; or work outside the
  -- selector, which may set `closed`.
  pub data Step : Selector H D × (FdSet × W) → Selector H D × (FdSet × W) → Type 0 where
    registers :
        (alloc : Bool) (fd : ℤ) (h : Option H) (i : ℕ) (d : Option D) (st : SelectorStatus)
        {s s' : Selector H D} {w : FdSet × W}
        → selector_register alloc fd h i d s ≡ some (st, s')
        → Step (s, w) (s', w)
    unregisters :
        (fd : ℤ) (st : SelectorStatus) {x x' : Selector H D × (FdSet × W)}
        → AtRest fd x
        → selector_unregister_fd (server ops is_monitor ended) fd x ≡ some (st, x')
        → Step x x'
    sets_interest :
        (fd : ℤ) (i : ℕ) (st : SelectorStatus) {s s' : Selector H D} {w : FdSet × W}
        → selector_set_interest fd i s ≡ some (st, s')
        → Step (s, w) (s', w)
    notifies :
        (alloc : Bool) (fd : ℤ) {s : Selector H D} {w : FdSet × W}
        → Step (s, w) ((selector_notify_block alloc fd s).1, w)
    works : {s : Selector H D} {w w' : FdSet × W} → Step (s, w) (s, w')

  -- From a selector that `selector_new(1024)` returns.
  pub data Reach : Selector H D × (FdSet × W) → Type 0 where
    starts :
        {s : Selector H D} {w : FdSet × W}
        → selector_new true true items_max_size ≡ some (some s)
        → Reach (s, w)
    steps : {x x' : Selector H D × (FdSet × W)} → Reach x → Step x x' → Reach x'

to_index_cases : (fd : ℤ) → (to_index fd ≡ none) ⊎ ((n : ℕ) × (fd ≡ pos n) × (n < items_max_size))
to_index_cases (negsuc n) = inl refl
to_index_cases (pos n) = elim (Bool-cases (ltb n items_max_size)) [
  | inl e ↦ inr (n, refl, ltb→lt n items_max_size e)
  | inr e ↦ inl (rw e refl)
]

never : (b : Bool) → (expected fdinuse success b ≢ enomem) × (expected fdinuse success b ≢ maxfd)
never true = (λ e. cc, λ e. cc)
never false = (λ e. cc, λ e. cc)

module _ {ℓ} {H D : Type ℓ} where
  -- Whatever the arguments are, the three calls on a sound selector are defined, and leave it sound.
  selector_register-IsSound :
      (alloc : Bool) (fd : ℤ) (h : Option H) (i : ℕ) (d : Option D) (s : Selector H D)
      → IsSound s
      → (r : SelectorStatus × Selector H D) × (selector_register alloc fd h i d s ≡ some r)
        × ((r.0 ≢ enomem) × (r.0 ≢ maxfd))
        × IsSound r.1
  unfolding selector_register
  selector_register-IsSound alloc fd none i d s v = ((iargs, s), refl, (λ e. cc, λ e. cc), v)
  selector_register-IsSound alloc fd (some h) i d s (v, size) = elim (to_index_cases fd) [
    | inl e ↦ ((iargs, s), rw (e, selector_register) refl, (λ e. cc, λ e. cc), (v, size))
    | inr (n, f, b) ↦
        let (r, e, x, p) = selector_register_lem alloc n h i d s v (omega arith) b in
        (r, rw f e, rw x (never (slot_used (get_elem? s.fds n))), (p.valid, p.size ∙ size))
  ]

  selector_set_interest-IsSound :
      (fd : ℤ) (i : ℕ) (s : Selector H D)
      → IsSound s
      → (r : SelectorStatus × Selector H D) × (selector_set_interest fd i s ≡ some r) × IsSound r.1
  unfolding selector_set_interest
  selector_set_interest-IsSound fd i s (v, size) = elim (to_index_cases fd) [
    | inl e ↦ ((iargs, s), rw (e, selector_set_interest) refl, (v, size))
    | inr (n, f, b) ↦
        let (it, at) = get_elem?-below s.fds n (omega arith) in
        let (r, e, x, p) = selector_set_interest_lem n i it s v at b in
        (r, rw f e, (p.valid, p.size ∙ size))
  ]

module _ {H D W : Type 0} (ops : FdHandler H D (FdSet × W)) (is_monitor : H → Bool)
    (ended : W → W) where
  selector_unregister_fd-IsSound :
      (fd : ℤ) (s : Selector H D) (closed : FdSet) (w : W)
      → AtRest ops is_monitor ended fd (s, (closed, w))
      → IsSound s
      → (r : SelectorStatus × (Selector H D × (FdSet × W))) × (selector_unregister_fd
            (server ops is_monitor ended)
            fd
            (s, (closed, w))
          ≡ some r)
        × IsSound r.1.0
  unfolding selector_unregister_fd
  selector_unregister_fd-IsSound fd s closed w rest (v, size) = elim (to_index_cases fd) [
    | inl e ↦ ((iargs, (s, (closed, w))), rw (e, selector_unregister_fd) refl, (v, size))
    | inr (n, f, b) ↦
        let (it, at) = get_elem?-below s.fds n (omega arith) in
        elim (Bool-cases (item_used it)) [
          | inr u ↦ (
            (iargs, (s, (closed, w))),
            rw f (rw (lt→ltb n items_max_size b, selector_unregister_fd) (rw at (rw u refl))),
            (v, size),
          )
          | inl u ↦
              let (own, under, g) = v.own n it at u in
              let keeps =
                server-keeps ops is_monitor ended n it s closed w g own (rest n it f at) in
              let (s', w', e, v', slots, l) =
                selector_unregister_fd_lem (server ops is_monitor ended) s (closed, w) n it keeps v
                  b at u in
              ((success, (s', w')), rw f e, (v', l ∙ size))
        ]
  ]

  notify-IsSound :
      (alloc : Bool) (fd : ℤ) (s : Selector H D)
      → IsSound s
      → IsSound (selector_notify_block alloc fd s).1
  unfolding selector_notify_block
  notify-IsSound true fd s (v, size) =
      (aside-IsValid s s.slave_r s.slave_w (fd ∷ s.resolution_jobs) v, size)
  notify-IsSound false fd s h = h

  Step-IsSound :
      {x y : Selector H D × (FdSet × W)} → IsSound x.0 → Step ops is_monitor ended x y → IsSound y.0
  Step-IsSound h (registers alloc fd g i d st {s} {s'} e) =
      let (r, f, never, sound) = selector_register-IsSound alloc fd g i d s h in
      subst (λ t. IsSound t.1) (some_inj (sym f ∙ e)) sound
  Step-IsSound h (unregisters fd st {x} {x'} rest e) =
      let (r, f, sound) = selector_unregister_fd-IsSound fd x.0 x.1.0 x.1.1 rest h in
      subst (λ t. IsSound t.1.0) (some_inj (sym f ∙ e)) sound
  Step-IsSound h (sets_interest fd i st {s} {s'} e) =
      let (r, f, sound) = selector_set_interest-IsSound fd i s h in
      subst (λ t. IsSound t.1) (some_inj (sym f ∙ e)) sound
  Step-IsSound h (notifies alloc fd {s}) = notify-IsSound alloc fd s h
  Step-IsSound h works = h

  pub Reach-IsSound : {x : Selector H D × (FdSet × W)} → Reach ops is_monitor ended x → IsSound x.0
  Reach-IsSound (starts {s} e) = new-IsSound s e
  Reach-IsSound (steps r t) = Step-IsSound (Reach-IsSound r) t

  pub Reach-defined :
      {x : Selector H D × (FdSet × W)} (alloc : Bool) (fd : ℤ) (h : Option H) (i : ℕ) (d : Option D)
      → Reach ops is_monitor ended x
      → AtRest ops is_monitor ended fd x
      → ((r : SelectorStatus × Selector H D) × (selector_register alloc fd h i d x.0 ≡ some r)
          × (r.0 ≢ enomem)
          × (r.0 ≢ maxfd))
        × ((r : SelectorStatus × (Selector H D × (FdSet × W))) × (selector_unregister_fd
                (server ops is_monitor ended)
                fd
                x
              ≡ some r))
        × ((r : SelectorStatus × Selector H D) × (selector_set_interest fd i x.0 ≡ some r))
  Reach-defined {x} alloc fd h i d reach rest =
      let sound = Reach-IsSound reach in
      let (r, e, (m, f), v) = selector_register-IsSound alloc fd h i d x.0 sound in
      let (u, e', v') = selector_unregister_fd-IsSound fd x.0 x.1.0 x.1.1 rest sound in
      let (t, e'', v'') = selector_set_interest-IsSound fd i x.0 sound in
      ((r, e, m, f), (u, e'), (t, e''))

  -- In every state that the server reaches, where the descriptor of an open connection of the monitor is
  -- unregistered from outside, as `selector_destroy` does, the behaviour is undefined: the closing
  -- function has already freed the slot, and FD_CLR is called with -1.
  pub Reach-open :
      {x : Selector H D × (FdSet × W)} (n : ℕ) (it : Item H D) (h : H)
      → Reach ops is_monitor ended x
      → n < items_max_size
      → get_elem? x.0.fds n ≡ some it
      → item_used it ≡ true
      → it.handler ≡ some h
      → is_monitor h ≡ true
      → x.1.0 n ≡ false
      → selector_unregister_fd (server ops is_monitor ended) (pos n) x ≡ none
  Reach-open {x} n it h reach =
      selector_unregister_fd-open ops is_monitor ended n it h x.0 x.1.0 x.1.1
        (Reach-IsSound reach).0
