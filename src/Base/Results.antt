-- ===== src/Base/Results.antt =====
-- What a raised exception leaves: `LangError` and `TrapSig` of src/lang/core.py carry a message.
-- The model keeps one constructor for each kind of failure that the modelled code can raise.
use mathlib.Core.Path.{◌≡◌, refl}

pub data Result {ℓ} (E A : Type ℓ) : Type ℓ where
  ok : A → Result E A
  err : E → Result E A

-- the statements behind one that may raise
infixl 5 ◌>>=◌
abbrev pub ◌>>=◌ {ℓ} : {E A B : Type ℓ} → Result E A → (A → Result E B) → Result E B
err raised >>= rest = err raised
ok x >>= rest = rest x

-- Where both parts succeed, the first one has a value that the second takes.
pub bind_ok {ℓ} :
    {E X Y : Type ℓ} (first : Result E X) (rest : X → Result E Y) {y : Y}
    → (first >>= rest) ≡ ok y
    → (x : X) × (first ≡ ok x) × (rest x ≡ ok y)
bind_ok (err raised) rest both = cc
bind_ok (ok x) rest both = (x, refl, both)

pub ok_injective : {E A : Type 0} (a b : A) → ◌≡◌ {A = Result E A} (ok a) (ok b) → a ≡ b
ok_injective a b h = cc
