-- ===== src/Transaction/Listing.antt =====
-- How LIST without an argument refills the output.
pub mod Whole
use pop.Common.{
  ℕ, zero, suc, ◌+◌, ◌-◌, ◌≤◌, ◌<◌, ◌≡◌, ◌∙◌, refl, sym, ap, true, false, none, some, List, [], ◌∷◌,
  ◌++◌, append_assoc, Str, codes, pos, ltb, leb, ◌==◌, if◌then◌else◌, length, length-append,
  length-replicate, get_elem?, drop, replicate, print_d, length-print_d, arith, Bool-cases, inl,
  inr, ◌⊎◌, poke, length-poke, window, window-poke, window-take, take, take-append,
}
use pop.Buffer.{Buffer, buffer_write_ptr, buffer_write_adv, fill, contents}
use pop.Buffer.Inv as Inv
use pop.Maildir.{Mail, Mails, maildir_list_new}
use pop.Maildir.Marks as Marks
use pop.Maildir.Marks.{get_elem?-some}
use pop.Client.{cmd_list_all_new, op_write, World, Env}
use pop.Transaction.{
  list_end, put_listed, put_output, skip_deleted, list_line, list_all_new, scan_listing,
}

-- The lines of the mails that are not deleted, where the first mail has the index `i`.
abbrev pub listing : List Mail → ℕ → Str
listing [] i = []
listing (m ∷ ms) i = (if m.del then [] else scan_listing m i) ++ listing ms (i + 1)

drop-cons :
    (ms : List Mail) (i : ℕ) (m : Mail) → get_elem? ms i ≡ some m → drop i ms ≡ m ∷ drop (i + 1) ms
drop-cons [] i m e = cc
drop-cons (x ∷ ms) zero m e = ground (arith, e)
drop-cons (x ∷ ms) (suc i) m e =
    let next : suc (i + 1) ≡ suc i + 1 = omega arith in
    drop-cons ms i m e ∙ ap (λ k. m ∷ drop k (x ∷ ms)) next

drop-all : (ms : List Mail) (i : ℕ) → length ms ≤ i → drop i ms ≡ []
drop-all [] zero h = refl
drop-all [] (suc i) h = refl
drop-all (x ∷ ms) zero h = elim h [ ]
drop-all (x ∷ ms) (suc i) h = drop-all ms i (omega arith)

-- Where the scan for the next mail ends.
abbrev Found : List Mail → ℕ → ℕ → Type 0
Found ms i j =
    ((j ≡ length ms) × (listing (drop i ms) i ≡ []))
    ⊎ ((m : Mail) × (get_elem? ms j ≡ some m)
        × (j < length ms)
        × (i ≤ j)
        × (listing (drop i ms) i ≡ scan_listing m j ++ listing (drop (j + 1) ms) (j + 1)))

skip_deleted-Found :
    (ms : List Mail) (k i : ℕ)
    → i + k ≡ length ms
    → (j : ℕ) × (skip_deleted ms k i ≡ some j) × Found ms i j
unfolding skip_deleted
skip_deleted-Found ms zero i h =
    (i, refl, inl (omega (arith, h), ap (λ ns. listing ns i) (drop-all ms i (omega arith))))
skip_deleted-Found ms (suc k) i h =
    let (m, e) = get_elem?-some ms i (omega arith) in
    let split = drop-cons ms i m e in
    elim (Bool-cases m.del) [
      | inl d ↦
          let (j, next, found) = skip_deleted-Found ms k (i + 1) (omega arith) in
          let same : listing (drop i ms) i ≡ listing (drop (i + 1) ms) (i + 1) =
            rw split (rw d refl) in
          (
            j,
            rw e (rw d next),
            elim found [
              | inl (a, b) ↦ inl (a, same ∙ b)
              | inr (m', at, less, on, b) ↦ inr (m', at, less, omega (arith, on), same ∙ b)
            ],
          )
      | inr d ↦ (i, rw e (rw d refl), inr (m, e, omega arith, omega arith, rw split (rw d refl)))
    ]

-- What LIST still has to send: what the output holds, and the lines of the mails that are not listed
-- yet, while the function that lists them is set.
abbrev pub pending : List Mail → World → Str
pending ms w = contents w.client.write_buffer ++ elim w.client.send.f [
  | none ↦ []
  | some f ↦ listing (drop w.client.n_listed ms) w.client.n_listed
]

append_padded :
    (b : Buffer) (line : Str) (k : ℕ)
    → Inv.IsValid b
    → b.write + length line ≤ b.limit
    → k ≡ b.limit - b.write
    → (c b' : Buffer) × (fill b (line ++ replicate (k - length line) 0) ≡ some c)
      × (buffer_write_adv c (pos (length line)) ≡ some b')
      × Inv.IsValid b'
      × (contents b' ≡ contents b ++ line)
      × (b'.limit ≡ b.limit)
unfolding fill buffer_write_adv contents
append_padded b line k v h e =
    let vs = line ++ replicate (k - length line) 0 in
    let long : length vs ≡ k = omega (
      arith,
      length-append line (replicate (k - length line) 0),
      length-replicate {A = ℕ} (k - length line) 0,
    ) in
    let zs : List ℕ = replicate (k - length line) 0 in
    let bytes = poke b.bytes b.write vs in
    let n = length (contents b ++ line) in
    let size = length-poke vs b.bytes b.write in
    let to : b.read + n ≡ b.write + length line =
      omega (arith, length-append (contents b) line, Inv.length-contents v, v.read_le_write) in
    (
      record b { bytes = bytes },
      record b { bytes = poke b.bytes b.write vs; write = b.write + length line },
      ground (arith, long),
      ground arith,
      ground (arith, length-poke vs b.bytes b.write),
      ap (window bytes b.read) (sym to)
          ∙ (window-take n bytes b.read (b.write + length vs) (omega arith) (omega arith)
              ∙ (ap (take n) (window-poke vs b.bytes b.read b.write v.read_le_write (omega arith))
                  ∙ (ap (take n) (sym (append_assoc (contents b) line zs))
                      ∙ take-append (contents b ++ line) zs))),
      refl,
    )

scan_listing-short : (m : Mail) (i : ℕ) → length (scan_listing m i) ≤ 25
scan_listing-short m i =
    let end = print_d m.size ++ codes "\r\n" in
    ground (
      arith,
      length-append (print_d (i + 1)) (codes " " ++ end),
      length-append (print_d m.size) (codes "\r\n"),
      length-print_d (i + 1),
      length-print_d m.size,
    )

-- The call for more, once the scan has ended at `j`.
continues :
    (env : Env) (w : World) (ms : Mails) (j : ℕ)
    → w.client.maildir.new ≡ some ms
    → skip_deleted ms.mails (ms.len - w.client.n_listed) w.client.n_listed ≡ some j
    → list_all_new env w ≡ (
        if j == ms.len
        then some (list_end ms (put_listed w j))
        else list_line ms j (put_listed w j))
unfolding list_all_new maildir_list_new
continues env w ms j e skip = rw e (rw skip refl)

lists :
    (ms : Mails) (j : ℕ) (m : Mail) (w : World) (c b' : Buffer)
    → get_elem? ms.mails j ≡ some m
    → Inv.IsValid w.client.write_buffer
    → w.client.write_buffer.write + length (scan_listing m j) ≤ w.client.write_buffer.limit
    → fill w.client.write_buffer (
        scan_listing m j
        ++ replicate
            (w.client.write_buffer.limit - w.client.write_buffer.write - length (scan_listing m j))
            0)
      ≡ some c
    → buffer_write_adv c (pos (length (scan_listing m j))) ≡ some b'
    → list_line ms j w
      ≡ some (list_end ms (record (put_output (put_listed w (j + 1)) b') { interest = op_write }))
unfolding list_line buffer_write_ptr
lists ms j m w c b' at v room filled adv =
    let ok : leb w.client.write_buffer.write w.client.write_buffer.limit ≡ true =
      ground (arith, v.write_le_limit) in
    let fits : ltb (w.client.write_buffer.limit - w.client.write_buffer.write)
          (length (scan_listing m j))
        ≡ false =
      ground arith in
    simp (at, ok, fits, filled, adv)

list_end-IsValid :
    (ms : Mails) (w : World)
    → Inv.IsValid w.client.write_buffer
    → Inv.IsValid (list_end ms w).client.write_buffer
list_end-IsValid ms w v = elim (Bool-cases (w.client.n_listed == ms.len)) [
  | inl e ↦ rw e v
  | inr e ↦ rw e v
]

pending-done :
    (ms : Mails) (w : World) (j : ℕ)
    → (j == ms.len) ≡ true
    → listing (drop w.client.n_listed ms.mails) w.client.n_listed ≡ []
    → w.client.send.f ≡ some cmd_list_all_new
    → pending ms.mails (list_end ms (put_listed w j)) ≡ pending ms.mails w
pending-done ms w j e l f = rw e (rw f (rw l refl))

pending-next :
    (ms : Mails) (w : World) (j : ℕ) (b' : Buffer) (line : Str)
    → length ms.mails ≡ ms.len
    → w.client.send.f ≡ some cmd_list_all_new
    → contents b' ≡ contents w.client.write_buffer ++ line
    → listing (drop w.client.n_listed ms.mails) w.client.n_listed
      ≡ line ++ listing (drop (j + 1) ms.mails) (j + 1)
    → pending ms.mails
        (list_end ms (record (put_output (put_listed w (j + 1)) b') { interest = op_write }))
      ≡ pending ms.mails w
pending-next ms w j b' line len f held split =
    let out = contents w.client.write_buffer in
    elim (Bool-cases ((j + 1) == ms.len)) [
      | inl e ↦
          let rest : listing (drop (j + 1) ms.mails) (j + 1) ≡ [] =
            ap (λ ns. listing ns (j + 1)) (drop-all ms.mails (j + 1) (ground (arith, e, len))) in
          rw e (rw f (rw split (rw rest (rw held (append_assoc out line [])))))
      | inr e ↦
          let w3 : World = record (put_output (put_listed w (j + 1)) b') { interest = op_write } in
          let stays : list_end ms w3 ≡ w3 = rw e refl in
          ap (pending ms.mails) stays
          ∙ rw f
              (rw split (rw held (append_assoc out line (listing (drop (j + 1) ms.mails) (j + 1)))))
    ]

-- The end of a call: the listing is over, or it goes on behind the mail that was listed.
abbrev pub Goes : Mails → World → World → Type 0
Goes ms w w' =
    (w'.client.maildir.new ≡ some ms)
    × (w'.client.write_buffer.limit ≡ w.client.write_buffer.limit)
    × (w'.wire ≡ w.wire)
    × ((w'.client.send.f ≡ none)
        ⊎ ((w'.client.send.f ≡ some cmd_list_all_new)
            × (w.client.n_listed < w'.client.n_listed)
            × (w'.client.n_listed ≤ ms.len)))

list_end-Goes :
    (ms : Mails) (w : World) (j : ℕ) (b' : Buffer)
    → w.client.maildir.new ≡ some ms
    → w.client.send.f ≡ some cmd_list_all_new
    → w.client.n_listed ≤ j
    → j < ms.len
    → b'.limit ≡ w.client.write_buffer.limit
    → Goes ms w
        (list_end ms (record (put_output (put_listed w (j + 1)) b') { interest = op_write }))
list_end-Goes ms w j b' e f on less l = elim (Bool-cases ((j + 1) == ms.len)) [
  | inl t ↦ rw t (e, l, refl, inl refl)
  | inr t ↦ rw t (e, l, refl, inr (f, omega arith, omega arith))
]

-- Where LIST still has mails to list, a call for more on a listing whose counters are exact and an
-- output with room for 32 bytes is defined, keeps the output valid, and what is held followed by what
-- is still to be listed stays the same. The call ends the listing, or goes on behind a mail.
pub list_all_new-pending :
    (env : Env) (w : World) (ms : Mails)
    → w.client.maildir.new ≡ some ms
    → Marks.IsValid ms
    → w.client.n_listed ≤ ms.len
    → w.client.send.f ≡ some cmd_list_all_new
    → Inv.IsValid w.client.write_buffer
    → w.client.write_buffer.write + 32 ≤ w.client.write_buffer.limit
    → (w' : World) × (list_all_new env w ≡ some w')
      × Inv.IsValid w'.client.write_buffer
      × (pending ms.mails w' ≡ pending ms.mails w)
      × Goes ms w w'
unfolding list_line
list_all_new-pending env w ms e v n f ov room =
    let (j, skip, found) =
      skip_deleted-Found ms.mails (ms.len - w.client.n_listed) w.client.n_listed
        (omega (arith, v.len_exact)) in
    let more = continues env w ms j e skip in
    elim found [
      | inl (end, none_left) ↦
          let at_end : (j == ms.len) ≡ true = ground (arith, end, v.len_exact) in
          (
            list_end ms (put_listed w j),
            more ∙ rw at_end refl,
            list_end-IsValid ms (put_listed w j) ov,
            pending-done ms w j at_end none_left f,
            rw at_end (e, refl, refl, inl refl),
          )
      | inr (m, at, less, on, split) ↦
          let (c, b', filled, adv, bv, held, l) =
            append_padded w.client.write_buffer (scan_listing m j)
              (w.client.write_buffer.limit - w.client.write_buffer.write) ov
              (omega (arith, scan_listing-short m j)) refl in
          let before : (j == ms.len) ≡ false = ground (arith, less, v.len_exact) in
          let line =
            lists ms j m (put_listed w j) c b' at ov (omega (arith, scan_listing-short m j)) filled
              adv in
          (
            list_end ms (record (put_output (put_listed w (j + 1)) b') { interest = op_write }),
            more ∙ (rw before line),
            list_end-IsValid ms
                (record (put_output (put_listed w (j + 1)) b') { interest = op_write }) bv,
            pending-next ms w j b' (scan_listing m j) (sym v.len_exact) f held split,
            list_end-Goes ms w j b' e f on (omega (arith, v.len_exact)) l,
          )
    ]
