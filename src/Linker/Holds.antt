-- ===== src/Linker/Holds.antt =====
-- What holds of the value of a rewriting, where it succeeds.
use mathlib.Core.Path.{subst}
use l.Base.{◌≡◌}
use l.Base.Results.{Result, ok, err, ◌>>=◌}

abbrev pub Holds : {E A : Type 0} → (A → Type 0) → Result E A → Type 0
Holds P (ok x) = P x
Holds P (err e) = Unit

pub Holds-bind :
    {E A B : Type 0} (Q : A → Type 0) (P : B → Type 0) (r : Result E A) (k : A → Result E B)
    → Holds Q r
    → ((x : A) → Q x → Holds P (k x))
    → Holds P (r >>= k)
Holds-bind Q P (ok x) k h g = g x h
Holds-bind Q P (err e) k h g = tt

-- a part of which nothing is asked
pub Holds-skip :
    {E A B : Type 0} (P : B → Type 0) (r : Result E A) (k : A → Result E B)
    → ((x : A) → Holds P (k x))
    → Holds P (r >>= k)
Holds-skip P (ok x) k g = g x
Holds-skip P (err e) k g = tt

pub Holds-ok : {E A : Type 0} (P : A → Type 0) (r : Result E A) (x : A) → r ≡ ok x → Holds P r → P x
Holds-ok P r x e h = subst (Holds P) e h
