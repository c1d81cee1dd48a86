-- ===== src/Buffer.antt =====
-- src/server/buffer.c, include/server/buffer.h: a byte buffer with a read and a write pointer.
-- The pointers are offsets from `data`; a failed `assert` and an access outside `data` are `none`.
pub mod Inv
pub mod Queue
use pop.Common.{
  ℕ, ◌+◌, ◌-◌, ◌<◌, Bool, true, false, Option, none, some, List, [], ◌∷◌, ℤ, pos, negsuc, ltb, leb,
  ◌==◌, if◌then◌else◌, ◌>>=◌, length, get_elem?, store, window, poke,
}

-- `struct buffer`; `bytes` is the memory behind `data`.
pub record Buffer : Type 0 where
  pub bytes : List ℕ
  pub limit : ℕ
  pub read : ℕ
  pub write : ℕ

unfoldable pub buffer_reset : Buffer → Buffer
buffer_reset b = record b { read = 0; write = 0 }

unfoldable pub buffer_init : ℕ → List ℕ → Buffer
unfolding buffer_reset
buffer_init n area =
    let b = buffer_reset (record { bytes = area; limit = 0; read = 0; write = 0 }) in
    record b { limit = n }

unfoldable pub buffer_can_write : Buffer → Bool
buffer_can_write b = ltb b.write b.limit

-- The pointer, and the number of bytes that may be written there.
unfoldable pub buffer_write_ptr : Buffer → Option (ℕ × ℕ)
buffer_write_ptr b = if leb b.write b.limit then some (b.write, b.limit - b.write) else none

unfoldable pub buffer_can_read : Buffer → Bool
buffer_can_read b = ltb b.read b.write

unfoldable pub buffer_read_ptr : Buffer → Option (ℕ × ℕ)
buffer_read_ptr b = if leb b.read b.write then some (b.read, b.write - b.read) else none

unfoldable pub buffer_write_adv : Buffer → ℤ → Option Buffer
buffer_write_adv b (pos n) =
    let w = b.write + n in if leb w b.limit then some (record b { write = w }) else none
buffer_write_adv b (negsuc n) = some b

unfoldable pub buffer_compact : Buffer → Buffer
buffer_compact b =
    if b.read == 0
    then b
    else if b.read == b.write
    then record b { read = 0; write = 0 }
    else record b {
      bytes = poke b.bytes 0 (window b.bytes b.read b.write);
      read = 0;
      write = b.write - b.read;
    }

-- What follows the `assert` of `buffer_read_adv`.
unfoldable pub compact_if_empty : Buffer → Buffer
compact_if_empty b = if b.read == b.write then buffer_compact b else b

unfoldable pub buffer_read_adv : Buffer → ℤ → Option Buffer
buffer_read_adv b (pos n) =
    let b' = record b { read = b.read + n } in
    if leb b'.read b'.write then some (compact_if_empty b') else none
buffer_read_adv b (negsuc n) = some b

unfoldable pub buffer_read : Buffer → Option (ℕ × Buffer)
unfolding buffer_can_read
buffer_read b =
    if buffer_can_read b
    then (do ret ← get_elem? b.bytes b.read; b' ← buffer_read_adv b (pos 1); some (ret, b'))
    else some (0, b)

unfoldable pub buffer_write : Buffer → ℕ → Option Buffer
unfolding buffer_can_write
buffer_write b c =
    if buffer_can_write b
    then (do a ← store b.bytes b.write c; buffer_write_adv (record b { bytes = a }) (pos 1))
    else some b

-- What `recv`, `read` and `strcpy` do at the pointer of `buffer_write_ptr`: the bytes land in the
-- memory from there on; past the end of the memory they are undefined.
unfoldable pub fill : Buffer → List ℕ → Option Buffer
fill b vs =
    if leb (b.write + length vs) (length b.bytes)
    then some (record b { bytes = poke b.bytes b.write vs })
    else none

-- The bytes written and not yet read, oldest first.
unfoldable pub contents : Buffer → List ℕ
contents b = window b.bytes b.read b.write
