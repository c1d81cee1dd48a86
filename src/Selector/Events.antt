-- ===== src/Selector/Events.antt =====
-- src/server/selector.c: the operations that call the functions of the handlers, which are the
-- fields of `ops`. A pointer to an item is its index, so it stays good when the array is moved.
use pop.Common.{
  ℕ, zero, suc, Bool, ◌&&◌, Option, none, some, List, [], ◌∷◌, ℤ, pos, negsuc, if◌then◌else◌, ◌>>=◌,
  length, get_elem?,
}
use pop.Selector.{
  SelectorStatus, success, iargs, io, FdSet, op_noop, reads, writes, Item, SelectorKey, Selector,
  Action, FdHandler, item_used, blank, item_init, put_item, items_update_fdset_for_fd, items_max_fd,
  to_index,
}

-- What `pselect` answers: the sets that are ready, or -1 with an `errno`.
pub data Polled : Type 0 where
  ready : FdSet → FdSet → Polled
  interrupted bad_descriptor other_error : Polled

-- FD_ISSET; a negative descriptor is outside the set.
abbrev pub is_set : ℤ → FdSet → Option Bool
is_set (pos n) s = some (s n)
is_set (negsuc n) s = none

module _ {ℓ} {H D : Type ℓ} where
  abbrev pub with_slaves : FdSet → FdSet → Selector H D → Selector H D
  with_slaves r w s = record s { slave_r = r; slave_w = w }

module _ {ℓ} {H D W : Type ℓ} (ops : FdHandler H D W) where
  abbrev key_of : Item H D → SelectorKey D
  key_of it = record { fd = it.fd; data_ptr = it.data_ptr }

  -- The call of a function of the item's handler on a key; a NULL function is `none`, in every use but
  -- one.
  abbrev pub call :
      (H → Option (Action H D W))
      → SelectorKey D
      → Item H D
      → Selector H D × W
      → Option (Selector H D × W)
  call f key it sw = it.handler >>= λ h. f h >>= λ g. g key sw

  abbrev pub call_if_any :
      (H → Option (Action H D W)) → Item H D → Selector H D × W → Option (Selector H D × W)
  call_if_any f it sw =
      it.handler >>= λ h. elim (f h) [ none ↦ some sw | some g ↦ g (key_of it) sw ]

  -- The end of `selector_unregister_fd`, behind the call of the handler.
  unfoldable pub release : ℕ → Selector H D × W → Option (SelectorStatus × (Selector H D × W))
  unfolding items_update_fdset_for_fd items_max_fd
  release n sw = do
    old ← get_elem? sw.0.fds n
    let it = record old { interest = op_noop }
    s ← items_update_fdset_for_fd it (put_item n it sw.0)
    let s' = put_item n (item_init blank) s
    max ← items_max_fd s'
    some (success, (record s' { max_fd = max }, sw.1))

  unfoldable pub selector_unregister_fd :
      ℤ → Selector H D × W → Option (SelectorStatus × (Selector H D × W))
  unfolding release
  selector_unregister_fd fd sw = elim (to_index fd) [
    | none ↦ some (iargs, sw)
    | some n ↦ (do
      it ← get_elem? sw.0.fds n
      let freed = call_if_any ops.handle_close it sw >>= release n
      if item_used it then freed else some (iargs, sw))
  ]

  -- One side of the loop of `handle_iteration`: `set` tells whether the descriptor is ready.
  abbrev pub dispatch :
      (H → Option (Action H D W))
      → (ℕ → Bool)
      → Bool
      → SelectorKey D
      → Item H D
      → Selector H D × W
      → Option (Selector H D × W)
  dispatch f bit set key it sw =
      let called = call f key it sw in if set && bit it.interest then called else some sw

  -- Both sides. The item is read again behind the first; the key is that of before.
  unfoldable pub dispatch_both : ℕ → Item H D → Bool → Selector H D × W → Option (Selector H D × W)
  dispatch_both i it set sw = do
    sw1 ← dispatch ops.handle_read reads set (key_of it) it sw
    it1 ← get_elem? sw1.0.fds i
    dispatch ops.handle_write writes (sw1.0.slave_w i) (key_of it) it1 sw1

  unfoldable pub handle_item : ℕ → Selector H D × W → Option (Selector H D × W)
  unfolding dispatch_both
  handle_item i sw = do
    it ← get_elem? sw.0.fds i
    let both = is_set it.fd sw.0.slave_r >>= λ set. dispatch_both i it set sw
    if item_used it then both else some sw

  -- The items `i`, `i + 1`, and so on, with the rounds left.
  unfoldable pub handle_items : ℕ → ℕ → Selector H D × W → Option (Selector H D × W)
  unfolding handle_item
  handle_items zero i sw = some sw
  handle_items (suc k) i sw = handle_item i sw >>= handle_items k (suc i)

  unfoldable pub handle_iteration : Selector H D × W → Option (Selector H D × W)
  handle_iteration sw = handle_items (suc sw.0.max_fd) 0 sw

  unfoldable pub handle_jobs : List ℤ → Selector H D × W → Option (Selector H D × W)
  handle_jobs [] sw = some sw
  handle_jobs (pos n ∷ js) sw = do
    it ← get_elem? sw.0.fds n
    let done = call ops.handle_block (key_of it) it sw
    sw1 ← if item_used it then done else some sw
    handle_jobs js sw1
  handle_jobs (negsuc n ∷ js) sw = none

  unfoldable pub handle_block_notifications : Selector H D × W → Option (Selector H D × W)
  unfolding handle_jobs
  handle_block_notifications sw = do
    (s, w) ← handle_jobs sw.0.resolution_jobs sw
    some (record s { resolution_jobs = [] }, w)

  -- The sets of a failed `pselect` are not read: they are left as copied.
  unfoldable pub selector_select :
      Polled → Selector H D × W → Option (SelectorStatus × (Selector H D × W))
  unfolding handle_iteration handle_block_notifications
  selector_select (ready r w) sw = do
    sw1 ← handle_iteration (with_slaves r w sw.0, sw.1)
    sw2 ← handle_block_notifications sw1
    some (success, sw2)
  selector_select interrupted sw = do
    sw1 ← handle_block_notifications (with_slaves sw.0.master_r sw.0.master_w sw.0, sw.1)
    some (success, sw1)
  selector_select bad_descriptor sw =
      some (io, (with_slaves sw.0.master_r sw.0.master_w sw.0, sw.1))
  selector_select other_error sw = some (io, (with_slaves sw.0.master_r sw.0.master_w sw.0, sw.1))

  -- The loop of `selector_destroy` on the items from index `i` on; the memory given back is not
  -- followed.
  unfoldable pub destroy_items : ℕ → ℕ → Selector H D × W → Option (Selector H D × W)
  unfolding selector_unregister_fd
  destroy_items zero i sw = some sw
  destroy_items (suc k) i sw = do
    it ← get_elem? sw.0.fds i
    let freed = selector_unregister_fd (pos i) sw >>= λ r. some r.1
    sw1 ← if item_used it then freed else some sw
    destroy_items k (suc i) sw1

  unfoldable pub selector_destroy : Selector H D × W → Option W
  unfolding destroy_items
  selector_destroy sw = destroy_items (length sw.0.fds) 0 sw >>= λ r. some r.1
