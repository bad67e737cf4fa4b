-- ===== src/Checker/Kinds.antt =====
-- `Checker.binop` of src/lang/core.py: what the checker knows of operands that an operator accepts.
use l.Base.{
  Bool, true, false, ◌||◌, ◌&&◌, Option, none, some, Option-cases, ◌≡◌, refl, sym, ◌∙◌, ◌⊎◌, inl,
  inr, if◌then◌else◌, arith, [], ◌∷◌,
}
use l.Base.Results.{Result, ok, err, ◌>>=◌}
use l.Types.{Ty, nil, name_ty, is_prim, is_float, int_info, is_const_array, Layout}
use l.Types.Equality.{same_type, same_type_iff}
use l.Scalar.Range.{IsLayout}
use l.Checker.Operators.{
  TypeError, Enums, fieldless_enum, accept, req, is_int, is_number, is_ref, has_equality, typed_as,
  rem_of_float, arith_type, logic_type,
}

-- what a type says of its values, where an operator takes it
pub data Kind : Type 0 where
  ints : Layout → Kind
  floats bools refs fieldless others : Kind

abbrev pub kind_of : Enums → Ty → Kind
kind_of enums t = elim (int_info t) [
  | some i ↦ ints i
  | none ↦
      if is_float t
      then floats
      else (if is_prim t "bool"
          then bools
          else (if is_ref t then refs else (if fieldless_enum enums t then fieldless else others)))
]

-- the kinds that `==` compares
abbrev pub has_tests : Kind → Bool
has_tests others = false
has_tests _ = true

pub int_info-IsLayout : (t : Ty) (i : Layout) → int_info t ≡ some i → IsLayout i
unfolding int_info
int_info-IsLayout (Ty.name (n ∷ []) nil) i h = ground arith
int_info-IsLayout t i h = cc

pub bool-kind : (enums : Enums) → kind_of enums (name_ty "bool") ≡ bools
unfolding int_info is_float
bool-kind enums = refl

pub u64-kind : (enums : Enums) → kind_of enums (name_ty "u64") ≡ ints (64, false)
unfolding int_info
u64-kind enums = refl

pub equality-kind :
    (enums : Enums) (t : Ty) → has_equality enums t ≡ true → has_tests (kind_of enums t) ≡ true
equality-kind enums t h =
    go (int_info t) (is_float t) (is_prim t "bool") (is_ref t) (fieldless_enum enums t) h
  where
    go :
        (o : Option Layout) (f b r e : Bool)
        → (b || (is_int o || (f || (r || e)))) ≡ true
        → has_tests (elim o [
          | some i ↦ ints i
          | none ↦
              if f
              then floats
              else (if b then bools else (if r then refs else (if e then fieldless else others)))
        ])
          ≡ true
    go (some i) f b r e h = refl
    go none true b r e h = refl
    go none false true r e h = refl
    go none false false true e h = refl
    go none false false false true h = refl
    go none false false false false h = cc

pub req-same : (l r : Ty) → is_const_array l ≡ false → req l r ≡ ok tt → l ≡ r
unfolding req
req-same (Ty.const_array t) r n h = cc
req-same l r n h = accepted (same_type l r) refl h
  where
    accepted : (b : Bool) → same_type l r ≡ b → accept b ≡ ok tt → l ≡ r
    accepted true e k = (same_type_iff l r).0.0 e
    accepted false e k = cc

pub number-plain : (t : Ty) → is_number t ≡ true → is_const_array t ≡ false
unfolding int_info is_float
number-plain (Ty.const_array t) h = cc
number-plain _ h = refl

pub equality-plain :
    (enums : Enums) (t : Ty) → has_equality enums t ≡ true → is_const_array t ≡ false
unfolding int_info is_float fieldless_enum
equality-plain enums (Ty.const_array t) h = cc
equality-plain enums _ h = refl

-- an operator is accepted: its test, the comparison of the operand types, and the type
pub typed :
    (test : Bool) (e : TypeError) (wants r l t : Ty)
    → typed_as test e wants r l ≡ ok t
    → (test ≡ true) × (req wants r ≡ ok tt) × (t ≡ l)
typed false e wants r l t h = cc
typed true e wants r l t h = go (req wants r) refl h
  where
    go :
        (q : Result TypeError (Unit {0}))
        → req wants r ≡ q
        → (q >>= λ _. ok l) ≡ ok t
        → (true ≡ true) × (req wants r ≡ ok tt) × (t ≡ l)
    go (ok u) k j = (refl, k, cc)
    go (err x) k j = cc

pub tested :
    (q : Result TypeError (Unit {0})) (test : Bool) (e : TypeError) (u t : Ty)
    → (q >>= λ _. if test then ok u else err e) ≡ ok t
    → (q ≡ ok tt) × (test ≡ true) × (t ≡ u)
tested (ok tt) true e u t h = (refl, refl, cc)
tested (ok tt) false e u t h = cc
tested (err x) test e u t h = cc

pub logic-bool : (l r t : Ty) → logic_type l r ≡ ok t → t ≡ name_ty "bool"
logic-bool l r t h = go (req (name_ty "bool") l) (req l r) refl h
  where
    go :
        (p q : Result TypeError (Unit {0}))
        → req (name_ty "bool") l ≡ p
        → (p >>= λ _. q >>= λ _. ok l) ≡ ok t
        → t ≡ name_ty "bool"
    go (ok tt) (ok u) e k =
        let same = req-same (name_ty "bool") l refl e in let left : t ≡ l = cc in left ∙ sym same
    go (ok u) (err x) e k = cc
    go (err x) q e k = cc

pub rem_lem :
    (l r t : Ty)
    → (if is_number l && is_float l then err rem_of_float else arith_type l r) ≡ ok t
    → ((is_number l && is_float l) ≡ false) × (arith_type l r ≡ ok t)
rem_lem l r t h = go (is_number l && is_float l) h
  where
    go :
        (b : Bool)
        → (if b then err rem_of_float else arith_type l r) ≡ ok t
        → (b ≡ false) × (arith_type l r ≡ ok t)
    go true k = cc
    go false k = (refl, k)

pub not_float : (l : Ty) → (is_number l && is_float l) ≡ false → is_float l ≡ true → ⊥
not_float l n e = ground arith

pub number-kind :
    (enums : Enums) (t : Ty)
    → is_number t ≡ true
    → ((i : Layout) × (int_info t ≡ some i) × (kind_of enums t ≡ ints i))
      ⊎ ((is_float t ≡ true) × (kind_of enums t ≡ floats))
number-kind enums t h = elim (Option-cases (int_info t)) [
  | inl e ↦ inr (ground arith)
  | inr (i, e) ↦ inl (i, e, rw (kind_of, e) refl)
]

pub int-kind :
    (enums : Enums) (t : Ty)
    → is_int (int_info t) ≡ true
    → (i : Layout) × (int_info t ≡ some i) × (kind_of enums t ≡ ints i)
int-kind enums t h = elim (Option-cases (int_info t)) [
  | inl e ↦ cc
  | inr (i, e) ↦ (i, e, rw (kind_of, e) refl)
]
