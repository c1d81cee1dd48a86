-- ===== src/Parser/Line/Command.antt =====
-- What the parser makes of whole command lines.
use pop.Common.{
  ℕ, suc, ◌+◌, ◌-◌, ◌≤◌, ◌<◌, ◌≡◌, ◌≢◌, ◌∙◌, refl, ap, Bool, true, false, Option, none, some, List,
  [], ◌∷◌, ◌++◌, append-nil, append_assoc, ◌>>=◌, length, length-append, length-replicate, set,
  store, replicate, Str, c_str, is_print, arith, lt→ltb, lt→leb_false, ℤ, pos,
}
use pop.Parser.{Parser, process_char}
use pop.Parser.Line.{
  LineSpec, LineParser, save_cmd, save_arg, no_error, to_size, to_unsigned, s0, s1, s2, s3,
}
use pop.Parser.Line.Table.{engine}
use pop.Parser.Line.Step.{
  IsLineSpec, process-s0_word, process-s0_space, process-s0_cr, process-s1_arg, process-s1_cr,
  process-s2_lf,
}
use pop.Parser.Line.Loop.{feed, is_open}

abbrev pub All {κ} : (ℕ → Type κ) → Str → Type κ
All P [] = Unit
All P (c ∷ cs) = P c × All P cs

-- An array of `n` characters that holds the string `s` and is 0 behind it.
abbrev pub pad : ℕ → Str → List ℕ
pad n s = s ++ replicate (n - length s) 0

set_at_end : (s zs : List ℕ) (z c : ℕ) → set (s ++ z ∷ zs) (length s) c ≡ (s ++ c ∷ []) ++ zs
set_at_end [] zs z c = refl
set_at_end (x ∷ s) zs z c = ap (λ t. x ∷ t) (set_at_end s zs z c)

length-pad : (n : ℕ) (s : Str) → length s ≤ n → length (pad n s) ≡ n
length-pad n s h =
    omega (
      arith,
      length-append s (replicate (n - length s) 0),
      length-replicate {A = ℕ} (n - length s) 0,
    )

store-pad :
    (n : ℕ) (s : Str) (c : ℕ)
    → length s < n
    → store (pad n s) (length s) c ≡ some (pad n (s ++ c ∷ []))
store-pad n s c h =
    let e : n - length s ≡ suc (n - suc (length s)) = omega arith in
    let e' : n - length (s ++ c ∷ []) ≡ n - suc (length s) =
      omega (arith, length-append s (c ∷ [])) in
    let fits : length s < length (pad n s) = omega (arith, length-pad n s) in
    rw (lt→ltb _ _ fits) (rw (e, e', set_at_end s))

c_str-append : (s zs : List ℕ) → All (λ c. c ≢ 0) s → c_str (s ++ 0 ∷ zs) ≡ s
c_str-append [] zs h = refl
c_str-append (c ∷ s) zs h = ground (arith, c_str-append s zs)

-- The string in a padded array.
pub c_str-pad : (n : ℕ) (s : Str) → All (λ c. c ≢ 0) s → length s < n → c_str (pad n s) ≡ s
c_str-pad n s h k =
    let e : n - length s ≡ suc (n - suc (length s)) = omega arith in
    rw e (c_str-append s (replicate (n - suc (length s)) 0) h)

pub print_bounds : (c : ℕ) → is_print c ≡ true → (32 ≤ c) × (c ≤ 126)
unfolding is_print
print_bounds c h = ground arith

pub prints-no_nul : (s : Str) → All (λ c. is_print c ≡ true) s → All (λ c. c ≢ 0) s
prints-no_nul [] h = ground arith
prints-no_nul (c ∷ s) h = ground (arith, h, print_bounds c h.0, prints-no_nul s h.1)

-- A parser that has ended takes nothing.
pub feed-shut :
    (engine : Parser LineParser) (p : LineParser) (cs : Str)
    → is_open p ≡ false
    → feed engine p cs ≡ some (p, cs)
unfolding feed
feed-shut engine p [] h = refl
feed-shut engine p (c ∷ cs) h = rw h

-- One round of an open parser.
pub feed-step :
    (engine : Parser LineParser) (p : LineParser) (c : ℕ) (cs : Str)
    → is_open p ≡ true
    → {next : ℤ} {q : LineParser}
    → process_char engine p (to_unsigned p.state_id) c ≡ some (next, q)
    → feed engine p (c ∷ cs) ≡ feed engine (record q { state_id = to_size next }) cs
unfolding feed
feed-step engine p c cs h e = rw (h, e)

pub feed-fault :
    (engine : Parser LineParser) (p : LineParser) (c : ℕ) (cs : Str)
    → is_open p ≡ true
    → process_char engine p (to_unsigned p.state_id) c ≡ none
    → feed engine p (c ∷ cs) ≡ none
unfolding feed
feed-fault engine p c cs h e = rw (h, e)

module _ (spec : LineSpec) (size : ℕ) where
  -- A parser in state `st` that has read the command `w` and the argument `a`, with `size`
  -- characters in its array of arguments.
  abbrev pub holding : Str → Str → ℕ → Bool → LineParser
  holding w a st over = record {
    ended = over;
    quit = false;
    state_id = st;
    total_cmd = length w;
    total_arg = length a;
    cmd = pad (spec.max_cmd_len + 1) w;
    arg = pad size a;
    arg_read = 0;
    err_value = no_error;
  }

  abbrev pub fresh : LineParser
  fresh = holding [] [] s0 false

module _ (spec : LineSpec) (legal : IsLineSpec spec) (size : ℕ) where
  save_cmd-holding :
      (w : Str) (c : ℕ)
      → spec.is_cmd_char c ≡ true
      → length w < spec.max_cmd_len
      → save_cmd spec (holding spec size w [] s0 false) c
        ≡ some (holding spec size (w ++ c ∷ []) [] s0 false)
  unfolding save_cmd
  save_cmd-holding w c h k =
      rw (h, lt→leb_false _ _ k, store-pad (spec.max_cmd_len + 1) w c (omega arith))
        (ap
          (λ n.
            let q : Option LineParser =
              some (record (holding spec size (w ++ c ∷ []) [] s0 false) { total_cmd = n }) in
            q)
          (omega (arith, length-append w (c ∷ []))))

  pub feed-word :
      (w ws : Str) (rest : Str)
      → All (λ c. spec.is_cmd_char c ≡ true) ws
      → length w + length ws ≤ spec.max_cmd_len
      → feed (engine spec) (holding spec size w [] s0 false) (ws ++ rest)
        ≡ feed (engine spec) (holding spec size (w ++ ws) [] s0 false) rest
  unfolding is_open
  feed-word w [] rest h k = rw (append-nil w)
  feed-word w (c ∷ ws) rest h k =
      let (low, high) = legal.cmd_chars c h.0 in
      let step = process-s0_word spec (holding spec size w [] s0 false) c low (omega arith) in
      let saved = save_cmd-holding w c h.0 (omega arith) in
      let ih = feed-word (w ++ c ∷ []) ws rest h.1 (omega (arith, length-append w (c ∷ []))) in
      feed-step (engine spec) _ c (ws ++ rest) refl
        (step ∙ ap (λ o. o >>= λ p'. some (pos s0, p')) saved)
      ∙ ih
      ∙ ap (λ v. feed (engine spec) (holding spec size v [] s0 false) rest)
          (append_assoc w (c ∷ []) ws)

  module _ (room : spec.max_arg_len ≤ size) where
    save_arg-holding :
        (w a : Str) (c : ℕ)
        → is_print c ≡ true
        → length a < spec.max_arg_len
        → save_arg spec (holding spec size w a s1 false) c
          ≡ some (holding spec size w (a ++ c ∷ []) s1 false)
    unfolding save_arg
    save_arg-holding w a c h k =
        rw (h, lt→leb_false _ _ k, store-pad size a c (omega arith))
          (ap
            (λ n.
              let q : Option LineParser =
                some (record (holding spec size w (a ++ c ∷ []) s1 false) { total_arg = n }) in
              q)
            (omega (arith, length-append a (c ∷ []))))

    pub feed-arg :
        (w a as' : Str) (rest : Str)
        → All (λ c. is_print c ≡ true) as'
        → length a + length as' ≤ spec.max_arg_len
        → feed (engine spec) (holding spec size w a s1 false) (as' ++ rest)
          ≡ feed (engine spec) (holding spec size w (a ++ as') s1 false) rest
    unfolding is_open
    feed-arg w a [] rest h k = rw (append-nil a)
    feed-arg w a (c ∷ cs) rest h k =
        let (low, high) = print_bounds c h.0 in
        let step = process-s1_arg spec (holding spec size w a s1 false) c low (omega arith) in
        let saved = save_arg-holding w a c h.0 (omega arith) in
        let ih = feed-arg w (a ++ c ∷ []) cs rest h.1 (omega (arith, length-append a (c ∷ []))) in
        feed-step (engine spec) _ c (cs ++ rest) refl
          (step ∙ ap (λ o. o >>= λ p'. some (pos s1, p')) saved)
        ∙ ih
        ∙ ap (λ v. feed (engine spec) (holding spec size w v s1 false) rest)
            (append_assoc a (c ∷ []) cs)

    -- A command and an argument within the limits, up to the first CR LF, are stored as they are;
    -- the parser ends without an error, and what follows the line is left.
    pub feed-line :
        (w a rest : Str)
        → All (λ c. spec.is_cmd_char c ≡ true) w
        → length w ≤ spec.max_cmd_len
        → All (λ c. is_print c ≡ true) a
        → length a ≤ spec.max_arg_len
        → feed (engine spec) (fresh spec size) (w ++ (b' ' ∷ (a ++ (b'\r' ∷ b'\n' ∷ rest))))
          ≡ some (holding spec size w a s3 true, rest)
    unfolding is_open
    feed-line w a rest hw kw ha ka =
        feed-word [] w _ hw (omega arith)
        ∙ feed-step (engine spec) _ 32 _ refl
            (process-s0_space spec (holding spec size w [] s0 false) legal)
        ∙ feed-arg w [] a _ ha (omega arith)
        ∙ feed-step (engine spec) _ 13 _ refl (process-s1_cr spec (holding spec size w a s1 false))
        ∙ feed-step (engine spec) _ 10 _ refl (process-s2_lf spec (holding spec size w a s2 false))
        ∙ feed-shut (engine spec) _ rest refl

  -- The same for a command with no argument.
  pub feed-line_no_args :
      (w rest : Str)
      → All (λ c. spec.is_cmd_char c ≡ true) w
      → length w ≤ spec.max_cmd_len
      → feed (engine spec) (fresh spec size) (w ++ (b'\r' ∷ b'\n' ∷ rest))
        ≡ some (holding spec size w [] s3 true, rest)
  unfolding is_open
  feed-line_no_args w rest hw kw =
      feed-word [] w _ hw (omega arith)
      ∙ feed-step (engine spec) _ 13 _ refl
          (process-s0_cr spec (holding spec size w [] s0 false) legal)
      ∙ feed-step (engine spec) _ 10 _ refl (process-s2_lf spec (holding spec size w [] s2 false))
      ∙ feed-shut (engine spec) _ rest refl
