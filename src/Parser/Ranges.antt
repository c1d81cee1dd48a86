-- ===== src/Parser/Ranges.antt =====
-- Ranges of activators up to the last byte.
use pop.Common.{
  ℕ, zero, suc, ◌+◌, ◌%◌, ◌<◌, ◌≡◌, ◌≢◌, refl, sym, ◌∙◌, true, some, leb, arith, ◌>>=◌, >>=-eq-some,
}
use pop.Parser.{ParserTransition, add_activator, add_range}

-- With 255 as its end the loop of `add_activator_range` does not end, however many rounds it is given:
-- each of its values is at most 255, and the one behind 255 is 0.
pub add_range-endless :
    (k start i : ℕ) (t t' : ParserTransition) → i < 256 → add_range k start 255 i t ≢ some (some t')
unfolding add_range
add_range-endless zero start i t t' h e = cc
add_range-endless (suc k) start i t t' h e =
    let below : leb i 255 ≡ true = ground arith in
    let next : add_range (suc k) start 255 i t
        ≡ (add_activator t ((start + i) % 256) >>= add_range k start 255 ((i + 1) % 256)) =
      rw below refl in
    let (t1, a, f) =
      >>=-eq-some (add_activator t ((start + i) % 256)) (add_range k start 255 ((i + 1) % 256))
        (sym next ∙ e) in
    add_range-endless k start ((i + 1) % 256) t1 t' (omega arith) f
