-- ===== src/Selector/Closing.antt =====
-- The closing functions that the server registers: `handleMonitorClose` of src/server/monitor.c, which
-- is `close_connection`, for the connections of the monitor, and none for every other handler.
use pop.Common.{
  ℕ, ◌<◌, ◌≡◌, refl, ◌∙◌, inl, inr, Bool, true, false, Option, none, some, pos, negsuc, ◌==◌,
  if◌then◌else◌, ◌>>=◌, get_elem?, lt→ltb, arith, Bool-cases, Option-cases,
}
use pop.Selector.{
  Item, Selector, FdSet, FdHandler, Action, SelectorKey, fd_put, item_used,
  items_update_fdset_for_fd, items_max_size,
}
use pop.Selector.Valid.{IsValid, has_handler}
use pop.Selector.Events.{call_if_any, release, selector_unregister_fd}
use pop.Selector.Unregister.{KeepsSelector, free_item, selector_unregister_fd_lem}

module _ {H D W : Type 0} (ops : FdHandler H D W) (it : Item H D) (h : H) where
  calls :
      (g : Action H D W) (sw : Selector H D × W)
      → it.handler ≡ some h
      → ops.handle_close h ≡ some g
      → call_if_any ops ops.handle_close it sw
        ≡ g (record { fd = it.fd; data_ptr = it.data_ptr }) sw
  calls g sw e c = rw (e, c) refl

  calls_none :
      (sw : Selector H D × W)
      → it.handler ≡ some h
      → ops.handle_close h ≡ none
      → call_if_any ops ops.handle_close it sw ≡ some sw
  calls_none sw e c = rw (e, c) refl

-- Of the rest of the program, the first part tells for each descriptor whether `closed` is set in the
-- data of its connection. `is_monitor` tells which handlers have the closing function, and `ended` is
-- what the end of a connection does to the rest.
module _ {H D W : Type 0} (ops : FdHandler H D (FdSet × W)) (is_monitor : H → Bool)
    (ended : W → W) where
  -- The handlers as `close_connection` finds them once it has set `closed`: the call of the closing
  -- function that `selector_unregister_fd` makes returns at once.
  abbrev pub already_closed : FdHandler H D (FdSet × W)
  already_closed = record ops {
    handle_close = λ h. if is_monitor h then some (λ key sw. some sw) else none;
  }

  -- `close_connection`, which unregisters the descriptor for which it is called.
  unfoldable pub handle_monitor_close :
      SelectorKey D → Selector H D × (FdSet × W) → Option (Selector H D × (FdSet × W))
  unfolding selector_unregister_fd
  handle_monitor_close key (s, (closed, w)) = elim key.fd [
    | negsuc k ↦ none
    | pos n ↦
        let unregistered =
          selector_unregister_fd already_closed (pos n) (s, (fd_put true n closed, ended w)) in
        if closed n then some (s, (closed, w)) else (unregistered >>= λ r. some r.1)
  ]

  unfoldable pub server : FdHandler H D (FdSet × W)
  unfolding handle_monitor_close
  server = record ops {
    handle_close = λ h. if is_monitor h then some handle_monitor_close else none;
  }

  -- A connection of the monitor on this item has set `closed` before.
  abbrev pub IsClosed : ℕ → Item H D → FdSet → Type 0
  IsClosed n it closed = (h : H) → it.handler ≡ some h → is_monitor h ≡ true → closed n ≡ true

  pub server-keeps :
      (n : ℕ) (it : Item H D) (s : Selector H D) (closed : FdSet) (w : W)
      → has_handler it ≡ true
      → it.fd ≡ pos n
      → IsClosed n it closed
      → KeepsSelector server it s (closed, w)
  unfolding server handle_monitor_close
  server-keeps n it s closed w g f c = elim (Option-cases it.handler) [
    | inl e ↦ let none_there : has_handler it ≡ false = rw e refl in absurd cc
    | inr (h, e) ↦ elim (Bool-cases (is_monitor h)) [
      | inl m ↦
          let has : server.handle_close h ≡ some handle_monitor_close = rw m refl in
          (
            (closed, w),
            calls server it h handle_monitor_close (s, (closed, w)) e has
                ∙ rw f (rw (c h e m) refl),
          )
      | inr m ↦
          let has : server.handle_close h ≡ none = rw m refl in
          ((closed, w), calls_none server it h (s, (closed, w)) e has)
    ]
  ]

  inner-keeps :
      (it : Item H D) (s : Selector H D) (r : FdSet × W)
      → has_handler it ≡ true
      → KeepsSelector already_closed it s r
  inner-keeps it s r g = elim (Option-cases it.handler) [
    | inl e ↦ let none_there : has_handler it ≡ false = rw e refl in absurd cc
    | inr (h, e) ↦ elim (Bool-cases (is_monitor h)) [
      | inl m ↦
          let has : already_closed.handle_close h ≡ some (λ key sw. some sw) = rw m refl in
          (r, calls already_closed it h (λ key sw. some sw) (s, r) e has)
      | inr m ↦
          let has : already_closed.handle_close h ≡ none = rw m refl in
          (r, calls_none already_closed it h (s, r) e has)
    ]
  ]

  -- The end of `selector_unregister_fd` on a slot that is free: FD_CLR is called with -1.
  release-free :
      (n : ℕ) (s : Selector H D) (r : FdSet × W)
      → get_elem? s.fds n ≡ some free_item
      → release server n (s, r) ≡ none
  unfolding release items_update_fdset_for_fd
  release-free n s r e = rw e refl

  pub selector_unregister_fd-open :
      (n : ℕ) (it : Item H D) (h : H) (s : Selector H D) (closed : FdSet) (w : W)
      → IsValid s
      → n < items_max_size
      → get_elem? s.fds n ≡ some it
      → item_used it ≡ true
      → it.handler ≡ some h
      → is_monitor h ≡ true
      → closed n ≡ false
      → selector_unregister_fd server (pos n) (s, (closed, w)) ≡ none
  unfolding selector_unregister_fd server handle_monitor_close
  selector_unregister_fd-open n it h s closed w v c e u a m o =
      let (f, under, g) = v.own n it e u in
      let marked : FdSet × W = (fd_put true n closed, ended w) in
      let (s', w', once, v', slots, size) =
        selector_unregister_fd_lem already_closed s marked n it (inner-keeps it s marked g) v c e
          u in
      let at : get_elem? s'.fds n ≡ some free_item =
        slots n ∙ (let self : (n == n) ≡ true = ground arith in rw self refl) in
      let has : server.handle_close h ≡ some handle_monitor_close = rw m refl in
      let called : call_if_any server server.handle_close it (s, (closed, w)) ≡ some (s', w') =
        calls server it h handle_monitor_close (s, (closed, w)) a has
        ∙ rw f (rw o (rw once refl)) in
      rw (lt→ltb n items_max_size c, selector_unregister_fd)
        (rw e (rw u (rw called (release-free n s' w' at))))
