-- ===== src/Selector.antt =====
-- src/server/selector.c, include/server/selector.h: the table of descriptors that the server waits
-- for, its operations, and one round of waiting. The array `fds` is a list and `fd_size` its length;
-- an access outside it, an FD_CLR of a negative descriptor, a failed `assert` and a call of NULL are
-- `none`. The selector argument is never NULL. The mutex and the signals are left out: the
-- notifications of other threads are the calls of `selector_notify_block`.
pub mod Capacity
pub mod Valid
pub mod Register
pub mod Unregister
pub mod New
pub mod Reach
pub mod Events
pub mod Closing
pub mod Setup
use pop.Common.{
  ℕ, zero, suc, ◌+◌, ◌-◌, ◌/◌, ◌%◌, ◌^◌, Bool, true, false, not, ◌&&◌, ◌||◌, Option, none, some,
  List, [], ◌∷◌, ◌++◌, Str, codes, ℤ, pos, negsuc, ltb, leb, ◌==◌, if◌then◌else◌, ◌>>=◌, length,
  get_elem?, set, take, replicate,
}

pub data SelectorStatus : Type 0 where
  success enomem maxfd iargs fdinuse io : SelectorStatus

unfoldable pub selector_error : SelectorStatus → Str
selector_error success = codes "Success"
selector_error enomem = codes "Not enough memory"
selector_error maxfd = codes "Can't handle any more file descriptors"
selector_error iargs = codes "Illegal argument"
selector_error io = codes "I/O error"
selector_error fdinuse = codes "something failed"

-- `fd_set`
abbrev pub FdSet : Type 0
FdSet = ℕ → Bool

abbrev pub fd_put : Bool → ℕ → FdSet → FdSet
fd_put b fd s = λ j. if j == fd then b else s j

-- `interest & OP_READ` and `interest & OP_WRITE`, for OP_READ = 1 and OP_WRITE = 4.
abbrev pub op_noop : ℕ
op_noop = 0

unfoldable pub reads : ℕ → Bool
reads interest = interest % 2 == 1

unfoldable pub writes : ℕ → Bool
writes interest = interest / 4 % 2 == 1

-- `struct item`; `H` is the type of the pointers to handlers, `D` of those to the user's data.
pub record Item {ℓ} (H : Type ℓ) (D : Type ℓ) : Type ℓ where
  pub fd : ℤ
  pub interest : ℕ
  pub handler : Option H
  pub data_ptr : Option D

-- `struct selector_key`, without the selector, which every handler is given.
pub record SelectorKey {ℓ} (D : Type ℓ) : Type ℓ where
  pub fd : ℤ
  pub data_ptr : Option D

-- `struct fdselector`; a job is the descriptor that it is for.
pub record Selector {ℓ} (H : Type ℓ) (D : Type ℓ) : Type ℓ where
  pub fds : List (Item H D)
  pub max_fd : ℕ
  pub master_r : FdSet
  pub master_w : FdSet
  pub slave_r : FdSet
  pub slave_w : FdSet
  pub resolution_jobs : List ℤ

-- What a handler's function does to the selector and to the rest of the program, `W`.
abbrev pub Action {ℓ} : Type ℓ → Type ℓ → Type ℓ → Type ℓ
Action H D W = SelectorKey D → Selector H D × W → Option (Selector H D × W)

-- `fd_handler`: the functions behind each pointer; `none` is NULL.
pub record FdHandler {ℓ} (H : Type ℓ) (D : Type ℓ) (W : Type ℓ) : Type ℓ where
  pub handle_read : H → Option (Action H D W)
  pub handle_write : H → Option (Action H D W)
  pub handle_block : H → Option (Action H D W)
  pub handle_close : H → Option (Action H D W)

abbrev pub items_max_size : ℕ
items_max_size = 1024

-- The loop that counts the bits of `tmp`, with 64 rounds for a `size_t` and one to end.
unfoldable pub count_bits : ℕ → ℕ → ℕ → Option ℕ
count_bits zero tmp bits = none
count_bits (suc fuel) tmp bits =
    let rest = count_bits fuel (tmp / 2) (bits + 1) in if tmp == 0 then some bits else rest

abbrev pub capped : ℕ → ℕ
capped tmp = (if ltb items_max_size tmp then items_max_size else tmp) + 1

unfoldable pub next_capacity : ℕ → Option ℕ
next_capacity n = do
  bits ← count_bits 65 n 0
  let tmp = 2 ^ bits
  if ltb bits 64 && leb n tmp then some (capped tmp) else none

-- SIZE_MAX / element_size, for items of 32 bytes.
abbrev pub most_items : ℕ
most_items = 576460752303423487

abbrev pub empty_set : FdSet
empty_set = λ j. false

abbrev is_success : SelectorStatus → Bool
is_success success = true
is_success _ = false

-- A descriptor that is not INVALID_FD, as an index.
abbrev pub to_index : ℤ → Option ℕ
to_index (pos n) = if ltb n items_max_size then some n else none
to_index (negsuc n) = none

module _ {ℓ} {H D : Type ℓ} where
  abbrev pub item_used : Item H D → Bool
  item_used it = elim it.fd [ pos n ↦ true | negsuc zero ↦ false | negsuc (suc n) ↦ true ]

  abbrev pub item_init : Item H D → Item H D
  item_init it = record it { fd = negsuc 0 }

  -- Memory of zero bytes.
  abbrev pub blank : Item H D
  blank = record { fd = pos 0; interest = 0; handler = none; data_ptr = none }

  -- The loop from the index `last` to the end of the array.
  unfoldable pub items_init : List (Item H D) → ℕ → List (Item H D)
  items_init [] last = []
  items_init (it ∷ fds) zero = item_init it ∷ items_init fds zero
  items_init (it ∷ fds) (suc last) = it ∷ items_init fds last

  -- The greater of `max` and the item's descriptor, which an `int` comparison compares.
  abbrev pub larger : Item H D → ℕ → ℕ
  larger it max = elim it.fd [ pos n ↦ (if ltb max n then n else max) | negsuc n ↦ max ]

  -- The loop over the first `count` items.
  unfoldable pub scan_max : ℕ → List (Item H D) → ℕ → Option ℕ
  scan_max zero fds max = some max
  scan_max (suc count) [] max = none
  scan_max (suc count) (it ∷ fds) max = scan_max count fds (larger it max)

  unfoldable pub items_max_fd : Selector H D → Option ℕ
  items_max_fd s = scan_max (suc s.max_fd) s.fds 0

  abbrev pub put_interest : ℕ → ℕ → Selector H D → Selector H D
  put_interest n interest s = record s {
    master_r = fd_put (reads interest) n s.master_r;
    master_w = fd_put (writes interest) n s.master_w;
  }

  unfoldable pub items_update_fdset_for_fd : Item H D → Selector H D → Option (Selector H D)
  items_update_fdset_for_fd it s = elim it.fd [
    | pos n ↦ some (put_interest n it.interest s)
    | negsuc n ↦ none
  ]

  -- The array of `new_size` items; the items added are not in use. `realloc` leaves their other
  -- fields undefined, which are blank here.
  abbrev pub grown : ℕ → List (Item H D) → List (Item H D)
  grown new_size fds =
      items_init (take new_size fds ++ replicate (new_size - length fds) blank) (length fds)

  -- `alloc` tells whether `calloc` or `realloc` succeeds. A first array is one grown from nothing.
  unfoldable pub ensure_capacity : Bool → ℕ → Selector H D → Option (SelectorStatus × Selector H D)
  unfolding items_init
  ensure_capacity alloc n s =
      let enlarge = (do
        new_size ← next_capacity n
        let full = not alloc || ltb most_items new_size
        let s' = record s { fds = grown new_size s.fds }
        if full then some (enomem, s) else some (success, s')) in
      if ltb n (length s.fds)
      then some (success, s)
      else if ltb items_max_size n
      then some (maxfd, s)
      else enlarge

  abbrev no_items : Selector H D
  no_items = record {
    fds = [];
    max_fd = 0;
    master_r = empty_set;
    master_w = empty_set;
    slave_r = empty_set;
    slave_w = empty_set;
    resolution_jobs = [];
  }

  -- `alloc` is of the selector itself, `alloc_items` of its array; the result `none` inside is NULL.
  unfoldable pub selector_new : Bool → Bool → ℕ → Option (Option (Selector H D))
  unfolding ensure_capacity
  selector_new alloc alloc_items initial_elements =
      let made = (do
        (status, s) ← ensure_capacity alloc_items initial_elements no_items
        some (if is_success status then some s else none)) in
      if alloc then made else some none

  abbrev pub put_item : ℕ → Item H D → Selector H D → Selector H D
  put_item n it s = record s { fds = set s.fds n it }

  -- The registration in the slot `n`.
  unfoldable pub occupy :
      ℕ → H → ℕ → Option D → Selector H D → Option (SelectorStatus × Selector H D)
  unfolding items_update_fdset_for_fd
  occupy n handler interest data_ptr s = do
    old ← get_elem? s.fds n
    let it : Item H D = record {
      fd = pos n;
      interest = interest;
      handler = some handler;
      data_ptr = data_ptr;
    }
    let s' = put_item n it s
    let max = if ltb s.max_fd n then n else s.max_fd
    let added = items_update_fdset_for_fd it (record s' { max_fd = max }) >>= λ r. some (success, r)
    if item_used old then some (fdinuse, s) else added

  -- Space is made for a descriptor above `fd_size`, and not for one that equals it.
  unfoldable pub selector_register :
      Bool → ℤ → Option H → ℕ → Option D → Selector H D → Option (SelectorStatus × Selector H D)
  unfolding ensure_capacity occupy
  selector_register alloc fd handler interest data_ptr s = elim handler [
    | none ↦ some (iargs, s)
    | some h ↦ elim (to_index fd) [
      | none ↦ some (iargs, s)
      | some n ↦ (do
        (status, s') ← if ltb (length s.fds) n then ensure_capacity alloc n s else some (success, s)
        let done = occupy n h interest data_ptr s'
        if is_success status then done else some (status, s'))
    ]
  ]

  unfoldable pub selector_set_interest :
      ℤ → ℕ → Selector H D → Option (SelectorStatus × Selector H D)
  unfolding items_update_fdset_for_fd
  selector_set_interest fd i s = elim (to_index fd) [
    | none ↦ some (iargs, s)
    | some n ↦ (do
      old ← get_elem? s.fds n
      let it = record old { interest = i }
      let put = items_update_fdset_for_fd it (put_item n it s) >>= λ r. some (success, r)
      if item_used old then put else some (iargs, s))
  ]

  unfoldable pub selector_set_interest_key :
      SelectorKey D → ℕ → Selector H D → Option (SelectorStatus × Selector H D)
  unfolding selector_set_interest
  selector_set_interest_key key i s = elim (to_index key.fd) [
    | none ↦ some (iargs, s)
    | some n ↦ selector_set_interest key.fd i s
  ]

  -- `alloc` tells whether the job can be allocated.
  unfoldable pub selector_notify_block : Bool → ℤ → Selector H D → SelectorStatus × Selector H D
  selector_notify_block alloc fd s =
      if alloc
      then (success, record s { resolution_jobs = fd ∷ s.resolution_jobs })
      else (enomem, s)
