-- ===== src/Start/Flows.antt =====
-- What holds of the variables of `main` behind a part of it.
use pop.Common.{Bool, true, false, Option, none, some, if◌then◌else◌, ◌>>=◌}
use pop.Start.{Locals, Flow, goes_on, finally, ◌then_on◌}

module _ {D W : Type 0} where
  -- `P` where the next part follows, and `Q` at the label `finally`.
  abbrev pub After : (P Q : Locals D W → Type 0) → Option (Flow D W) → Type 0
  After P Q none = Unit
  After P Q (some (goes_on l)) = P l
  After P Q (some (finally l)) = Q l

  module _ (P Q : Locals D W → Type 0) where
    pub then_on-After :
        (P2 : Locals D W → Type 0) (m : Option (Flow D W)) (f : Locals D W → Option (Flow D W))
        → After P Q m
        → ((l : Locals D W) → P l → After P2 Q (f l))
        → After P2 Q (m then_on f)
    then_on-After P2 none f o g = tt
    then_on-After P2 (some (goes_on l)) f o g = g l o
    then_on-After P2 (some (finally l)) f o g = o

    pub either-After :
        (b : Bool) (x y : Flow D W)
        → After P Q (some x)
        → After P Q (some y)
        → After P Q (some (if b then x else y))
    either-After true x y p q = p
    either-After false x y p q = q

    pub if-After :
        (b : Bool) (x y : Option (Flow D W))
        → After P Q x
        → After P Q y
        → After P Q (if b then x else y)
    if-After true x y p q = p
    if-After false x y p q = q

    pub >>=-After :
        {A : Type 0} (m : Option A) (f : A → Option (Flow D W))
        → ((a : A) → After P Q (f a))
        → After P Q (m >>= f)
    >>=-After none f g = tt
    >>=-After (some a) f g = g a
