-- ===== src/Cmd/Main/Words.antt =====
-- How the words of the command line are read as commands.
use pop.Common.{
  ℕ, zero, suc, ◌+◌, ◌-◌, ◌<◌, ◌≤◌, ◌≡◌, ◌⊎◌, inl, inr, refl, sym, ap, ◌∙◌, subst, false,
  Bool-cases, Option-cases, Option, some, List, [], ◌∷◌, ◌++◌, Str, str_eq, append_assoc, length,
  take, drop, get_elem?, length-take, length-drop, take-append-drop, drop-get_elem?, drop-drop,
  drop-beyond, ◌>>=◌, ltb, arith,
}
use pop.Cmd.{
  MonitorCmd, cmd_invalid, value, cmds, monitor_cmds, monitor_cmds_args, find_cmd, get_cmd_index,
}
use pop.Cmd.Main.{is_invalid, serve}

-- The number of arguments of the command that a word names.
abbrev pub arity : Str → Option ℕ
arity word = get_elem? monitor_cmds_args (value (get_cmd_index word))

abbrev Known : MonitorCmd → Type 0
Known c = (is_invalid c ≡ false) × ((n : ℕ) × (get_elem? monitor_cmds_args (value c) ≡ some n))

abbrev AllKnown : List MonitorCmd → Type 0
AllKnown [] = Unit
AllKnown (c ∷ cs) = Known c × AllKnown cs

find_cmd-Known :
    (word : Str) (ns : List Str) (cs : List MonitorCmd)
    → AllKnown cs
    → (find_cmd word ns cs ≡ cmd_invalid) ⊎ Known (find_cmd word ns cs)
unfolding find_cmd
find_cmd-Known word [] cs k = inl refl
find_cmd-Known word (n ∷ ns) [] k = inl refl
find_cmd-Known word (n ∷ ns) (c ∷ cs) (h, k) = elim (Bool-cases (str_eq word n)) [
  | inl e ↦ rw e (inr h)
  | inr e ↦ rw e (find_cmd-Known word ns cs k)
]

cmds-AllKnown : AllKnown cmds
cmds-AllKnown = (
  (refl, (0, refl)),
  (
    (refl, (2, refl)),
    (
      (refl, (0, refl)),
      (
        (refl, (1, refl)),
        (
          (refl, (0, refl)),
          (
            (refl, (0, refl)),
            (
              (refl, (0, refl)),
              (
                (refl, (2, refl)),
                ((refl, (1, refl)), ((refl, (1, refl)), ((refl, (0, refl)), tt))),
              ),
            ),
          ),
        ),
      ),
    ),
  ),
)

get_cmd_index-Known : (word : Str) → (get_cmd_index word ≡ cmd_invalid) ⊎ Known (get_cmd_index word)
unfolding get_cmd_index
get_cmd_index-Known word = find_cmd-Known word monitor_cmds cmds cmds-AllKnown

-- A command of the command line: the word that names it, and its arguments.
abbrev pub Call : Type 0
Call = Str × List Str

abbrev pub IsCall : Call → Type 0
IsCall (word, args) = (is_invalid (get_cmd_index word) ≡ false) × (arity word ≡ some (length args))

abbrev pub AreCalls : List Call → Type 0
AreCalls [] = Unit
AreCalls (c ∷ cs) = IsCall c × AreCalls cs

abbrev pub words : List Call → List Str
words [] = []
words ((word, args) ∷ cs) = word ∷ (args ++ words cs)

-- Where the loop stops: no word is left, or one that names no command, or one with too few words
-- behind it.
abbrev pub IsStop : List Str → Type 0
IsStop [] = Unit
IsStop (word ∷ ws) =
    (get_cmd_index word ≡ cmd_invalid) ⊎ ((n : ℕ) × (arity word ≡ some n) × (length ws < n))

module _ {S : Type 0} (run : MonitorCmd → List Str → S → Option S) where
  abbrev pub run_all : List Call → S → Option S
  run_all [] s = some s
  run_all ((word, args) ∷ cs) s = run (get_cmd_index word) args s >>= run_all cs

  module _
      (own : (word : Str) (args more : List Str) (s : S)
        → IsCall (word, args)
        → run (get_cmd_index word) (args ++ more) s ≡ run (get_cmd_index word) args s) where
    -- What the loop has done from a place of the command line on.
    pub record Reads (k : ℕ) (argv : List Str) (argcmd : ℕ) (s : S) : Type 0 where
      pub calls : List Call
      pub rest : List Str
      pub split : drop argcmd argv ≡ words calls ++ rest
      pub good : AreCalls calls
      pub stop : IsStop rest
      pub result : serve run k argv argcmd s ≡ run_all calls s

    stopped :
        (k : ℕ) (argv : List Str) (argcmd : ℕ) (s : S)
        → IsStop (drop argcmd argv)
        → serve run k argv argcmd s ≡ some s
        → Reads k argv argcmd s
    stopped k argv argcmd s h e = record {
      calls = [];
      rest = drop argcmd argv;
      split = refl;
      good = tt;
      stop = h;
      result = e;
    }

    -- A command that is executed, and what the loop does behind it.
    one_more :
        (k : ℕ) (argv : List Str) (argcmd n : ℕ) (s s' : S) (word : Str)
        → drop argcmd argv ≡ word ∷ drop (argcmd + 1) argv
        → is_invalid (get_cmd_index word) ≡ false
        → arity word ≡ some n
        → n + 1 ≤ length argv - argcmd
        → (r : Reads k argv (argcmd + 1 + n) s')
        → (serve run (suc k) argv argcmd s ≡ (
            run (get_cmd_index word) (drop (argcmd + 1) argv) s
            >>= serve run k argv (argcmd + 1 + n)))
        → (run (get_cmd_index word) (take n (drop (argcmd + 1) argv)) s
              >>= serve run k argv (argcmd + 1 + n)
            ≡ (run (get_cmd_index word) (take n (drop (argcmd + 1) argv)) s >>= run_all r.calls))
        → Reads (suc k) argv argcmd s
    one_more k argv argcmd n s s' word d valid a room r step same =
        let tail = drop (argcmd + 1) argv in
        let args = take n tail in
        let len : length args ≡ n =
          omega (arith, length-take n tail, length-drop (argcmd + 1) argv) in
        let whole = take-append-drop n tail in
        let call : IsCall (word, args) = (valid, a ∙ ap some (sym len)) in
        let own_args =
          ap (λ t. run (get_cmd_index word) t s) (sym whole) ∙ own word args (drop n tail) s call in
        let later : drop n tail ≡ words r.calls ++ r.rest =
          drop-drop argv (argcmd + 1) n (argcmd + 1 + n) refl ∙ r.split in
        record {
          calls = (word, args) ∷ r.calls;
          rest = r.rest;
          split =
              d
              ∙ ap (λ t. word ∷ t)
                  (sym whole
                    ∙ ap (λ t. args ++ t) later
                    ∙ sym (append_assoc args (words r.calls) r.rest));
          good = (call, r.good);
          stop = r.stop;
          result = step ∙ ap (λ o. o >>= serve run k argv (argcmd + 1 + n)) own_args ∙ same;
        }

    pub serve-Reads :
        (k : ℕ) (argv : List Str) (argcmd : ℕ) (s : S)
        → length argv - argcmd < k
        → Reads k argv argcmd s
    unfolding serve
    serve-Reads zero argv argcmd s h = elim h [ ]
    serve-Reads (suc k) argv argcmd s h = elim (Bool-cases (ltb argcmd (length argv))) [
      | inr t ↦
          let none_left : drop argcmd argv ≡ [] = drop-beyond argv argcmd (ground arith) in
          stopped (suc k) argv argcmd s (subst IsStop (sym none_left) tt) (rw t refl)
      | inl t ↦
          let below : argcmd < length argv = ground arith in
          let (word, g, d) = drop-get_elem? argv argcmd (argcmd + 1) below (omega arith) in
          elim (get_cmd_index-Known word) [
            | inl unknown ↦
                stopped (suc k) argv argcmd s (subst IsStop (sym d) (inl unknown))
                  (rw t (rw g (rw unknown refl)))
            | inr (valid, (n, a)) ↦ elim (Bool-cases (ltb (length argv - argcmd) (n + 1))) [
              | inl few ↦
                  let short : length (drop (argcmd + 1) argv) < n =
                    ground (arith, length-drop (argcmd + 1) argv) in
                  stopped (suc k) argv argcmd s (subst IsStop (sym d) (inr (n, a, short)))
                    (rw t (rw g (rw valid (rw a (rw few refl)))))
              | inr room ↦
                  let step : serve run (suc k) argv argcmd s ≡ (
                      run (get_cmd_index word) (drop (argcmd + 1) argv) s
                      >>= serve run k argv (argcmd + 1 + n)) =
                    rw t (rw g (rw valid (rw a (rw room refl)))) in
                  let fits : n + 1 ≤ length argv - argcmd = ground arith in
                  elim (Option-cases
                    (run (get_cmd_index word) (take n (drop (argcmd + 1) argv)) s)) [
                      | inl e ↦
                          let r = serve-Reads k argv (argcmd + 1 + n) s (omega arith) in
                          one_more k argv argcmd n s s word d valid a fits r step (rw e refl)
                      | inr (s', e) ↦
                          let r = serve-Reads k argv (argcmd + 1 + n) s' (omega arith) in
                          one_more k argv argcmd n s s' word d valid a fits r step (rw e r.result)
                    ]
            ]
          ]
    ]
