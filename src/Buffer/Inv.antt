-- ===== src/Buffer/Inv.antt =====
-- The invariant of buffer.h, R <= W <= limit, and its preservation.
use pop.Common.{
  ℕ, ◌+◌, ◌-◌, ◌≤◌, ◌<◌, ◌≡◌, ◌∙◌, ap, some, List, [], ◌∷◌, ◌++◌, pos, arith, length, length-set,
  length-poke, length-window, set, poke, window, drop, window-drop, window-poke, window-set,
  window-cons, window_empty, lt→ltb,
}
use pop.Buffer.{
  Buffer, buffer_init, buffer_reset, buffer_write_adv, compact_if_empty, buffer_read_adv,
  buffer_compact, buffer_read, buffer_write, fill, contents,
}

pub record IsValid (b : Buffer) : Type 0 where
  pub read_le_write : b.read ≤ b.write
  pub write_le_limit : b.write ≤ b.limit
  pub in_memory : b.limit ≤ length b.bytes

pub length-contents : {b : Buffer} → IsValid b → length (contents b) ≡ b.write - b.read
unfolding contents
length-contents {b} v = length-window b.bytes b.read b.write v.read_le_write (omega arith)

-- A fresh buffer is valid and empty.
pub buffer_init_lem :
    (n : ℕ) (area : List ℕ)
    → n ≤ length area
    → IsValid (buffer_init n area) × (contents (buffer_init n area) ≡ [])
unfolding buffer_init contents
buffer_init_lem n area h = (omega arith, window_empty area 0)

pub buffer_compact-IsValid : {b : Buffer} → IsValid b → IsValid (buffer_compact b)
unfolding buffer_compact
buffer_compact-IsValid {b} v = ground (arith, length-poke (window b.bytes b.read b.write) b.bytes 0)

moved :
    (bytes : List ℕ) (r w : ℕ)
    → r ≤ w
    → w ≤ length bytes
    → window (poke bytes 0 (window bytes r w)) 0 (w - r) ≡ window bytes r w
moved bytes r w h k =
    let e = length-window bytes r w h k in
    let p = window-poke (window bytes r w) bytes 0 0 (omega arith) (omega (arith, e)) in
    let e' : 0 + length (window bytes r w) ≡ w - r = omega (arith, e) in
    rw e' at p ∙ (rw (window_empty bytes 0))

-- Compaction moves the unread bytes and loses none.
pub contents-compact : {b : Buffer} → IsValid b → contents (buffer_compact b) ≡ contents b
unfolding buffer_compact contents
contents-compact {b} v = ground (
  arith,
  moved b.bytes b.read b.write v.read_le_write,
  window_empty b.bytes b.read,
  window_empty b.bytes 0,
)

compact_if_empty_lem :
    {b : Buffer}
    → IsValid b
    → IsValid (compact_if_empty b) × (contents (compact_if_empty b) ≡ contents b)
unfolding compact_if_empty
compact_if_empty_lem {b} v = ground (arith, buffer_compact-IsValid v, contents-compact v)

-- Neither `assert` of buffer.c fails, and the invariant is kept, if no more is taken than is there.
pub buffer_read_adv_lem :
    {b : Buffer} (n : ℕ)
    → IsValid b
    → n ≤ length (contents b)
    → (b' : Buffer) × (buffer_read_adv b (pos n) ≡ some b')
      × IsValid b'
      × (contents b' ≡ drop n (contents b))
unfolding buffer_read_adv
buffer_read_adv_lem {b} n v h =
    let advanced : Buffer = record b { read = b.read + n } in
    let fits : b.read + n ≤ b.write = omega (arith, length-contents v) in
    let still : IsValid advanced = record {
      read_le_write = fits;
      write_le_limit = v.write_le_limit;
      in_memory = v.in_memory;
    } in
    let (ok, same) = compact_if_empty_lem still in
    (
      compact_if_empty advanced,
      ground arith,
      ok,
      same ∙ (unfold contents in window-drop n b.bytes b.read b.write fits (omega arith)),
    )

-- Bytes that fit, put at the write pointer and then announced, are appended.
pub fill_lem :
    {b : Buffer} (vs : List ℕ)
    → IsValid b
    → b.write + length vs ≤ b.limit
    → (c b' : Buffer) × (fill b vs ≡ some c)
      × (buffer_write_adv c (pos (length vs)) ≡ some b')
      × IsValid b'
      × (contents b' ≡ contents b ++ vs)
unfolding fill buffer_write_adv contents
fill_lem {b} vs v h =
    let c : Buffer = record b { bytes = poke b.bytes b.write vs } in
    (
      c,
      record c { write = b.write + length vs },
      ground arith,
      ground arith,
      ground (arith, length-poke vs b.bytes b.write),
      window-poke vs b.bytes b.read b.write v.read_le_write (omega arith),
    )

pub buffer_write_lem :
    {b : Buffer} (c : ℕ)
    → IsValid b
    → b.write < b.limit
    → (b' : Buffer) × (buffer_write b c ≡ some b')
      × IsValid b'
      × (contents b' ≡ contents b ++ (c ∷ []))
unfolding buffer_write buffer_write_adv contents
buffer_write_lem {b} c v h = (
  record b { bytes = set b.bytes b.write c; write = b.write + 1 },
  ground arith,
  ground (arith, length-set b.bytes b.write c),
  ground (arith, window-set b.bytes b.read b.write c),
)

-- A read takes the oldest byte.
pub buffer_read_lem :
    {b : Buffer}
    → IsValid b
    → b.read < b.write
    → (x : ℕ) (rest : List ℕ) → contents b ≡ x ∷ rest
    → (b' : Buffer) × (buffer_read b ≡ some (x, b')) × IsValid b' × (contents b' ≡ rest)
unfolding buffer_read
buffer_read_lem {b} v h x rest e =
    let (b', eq, v', c) = buffer_read_adv_lem {b = b} 1 v (omega (arith, ap length e)) in
    let (y, at, split) = window-cons b.bytes b.read b.write h (omega arith) in
    let same : (y ≡ x) = (unfold contents in cc (split, e)) in
    (b', rw (lt→ltb _ _ h, at, same, eq), v', ground (arith, c, e))

-- Reading all that is there leaves the buffer as after a reset.
pub buffer_read_adv_all :
    {b : Buffer} (n : ℕ)
    → IsValid b
    → b.read + n ≡ b.write
    → buffer_read_adv b (pos n) ≡ some (buffer_reset b)
unfolding buffer_read_adv compact_if_empty buffer_compact buffer_reset
buffer_read_adv_all {b} n v h = ground arith

pub contents-empty : (b : Buffer) → b.read ≡ 0 → b.write ≡ 0 → contents b ≡ []
unfolding contents
contents-empty b r o = rw (r, o) (window_empty b.bytes 0)
