-- ===== src/Checker/Sound.antt =====
-- `Checker.binop` against `scalar_value` of src/lang/core.py: operators on values of their types.
use l.Base.{String, Bool, true, false, not, some, ◌≡◌, refl, sym, ◌∙◌, inl, inr, ap, ℕ}
use l.Base.Int.{ℤ}
use l.Base.Results.{Result, ok, err, ◌>>=◌}
use mathlib.Core.Path.{subst}
use l.Types.{Ty, name_ty, is_float, int_info, Layout}
use l.Syntax.{
  Binary, or_else, and_then, eq, ne, lt, le, gt, ge, bor, bxor, band, shl, shr, add, sub, mul, div,
  rem,
}
use l.Scalar.{Op, Compare, scalar_int}
use l.Scalar.{Fault as ScalarFault}
use l.Scalar.Range.{Fits, IsLayout}
use l.Scalar.Ring.{scalar_int-Fits}
use l.Checker.Operators.{
  Enums, req, is_int, is_number, has_equality, not_integer, not_numeric, not_ordered, no_equality,
  arith_type, bits_type, shift_type, order_type, equality_type, logic_type, binop,
}
use l.Values.{Platform, Fault, scalar, bool_v, int_v, float_v, enum_v, ref_v, no_values}
use l.Values.Operators.{V, faulted, arithmetic, compared, equal, scalar_value}
use l.Checker.Kinds.{
  Kind, ints, floats, bools, refs, fieldless, others, kind_of, has_tests, req-same, number-plain,
  equality-plain, typed, number-kind, int-kind, int_info-IsLayout, bool-kind, u64-kind,
  equality-kind, tested, logic-bool, rem_lem, not_float,
}

module _ (P : Platform) where
  abbrev pub OfKind : Kind → V P → Type 0
  OfKind (ints i) (int_v n) = Fits i n
  OfKind floats (float_v x) = Unit
  OfKind bools (bool_v b) = Unit
  OfKind refs (ref_v a) = Unit
  OfKind fieldless (enum_v e v no_values) = Unit
  OfKind others v = Unit
  OfKind _ _ = ⊥

  -- a value of the kind, or a fault of the operator itself
  abbrev pub IsSafe : Kind → Result Fault (V P) → Type 0
  IsSafe k (ok v) = OfKind k v
  IsSafe k (err (scalar f)) = Unit
  IsSafe k (err _) = ⊥

  an_int : (i : Layout) (v : V P) → OfKind (ints i) v → (n : ℤ) × (v ≡ int_v n)
  an_int i (int_v n) h = (n, refl)
  an_int i _ h = absurd h

  int-Safe :
      (op : Op) (i : Layout) (a b : V P) (j : Layout) (l : Ty)
      → IsLayout i
      → int_info l ≡ some i
      → OfKind (ints i) a
      → OfKind (ints j) b
      → IsSafe (ints i) (arithmetic P op a b (some l))
  unfolding arithmetic
  int-Safe op i a b j l w e ha hb =
      let (n, p) = an_int i a ha in
      let (k, q) = an_int j b hb in rw (p, q, e) (go n k (scalar_int op n k i) refl)
    where
      go :
          (n k : ℤ) (r : Result ScalarFault ℤ)
          → scalar_int op n k i ≡ r
          → IsSafe (ints i) (faulted r >>= λ v. ok (int_v v))
      go n k (ok v) s = scalar_int-Fits op n k v i w s
      go n k (err f) s = tt

  a_float : (v : V P) → OfKind floats v → (x : P.Float) × (v ≡ float_v x)
  a_float (float_v x) h = (x, refl)
  a_float _ h = absurd h

  a_bool : (v : V P) → OfKind bools v → (b : Bool) × (v ≡ bool_v b)
  a_bool (bool_v b) h = (b, refl)
  a_bool _ h = absurd h

  a_ref : (v : V P) → OfKind refs v → (n : ℕ) × (v ≡ ref_v n)
  a_ref (ref_v n) h = (n, refl)
  a_ref _ h = absurd h

  a_variant :
      (v : V P) → OfKind fieldless v → (e : String) × (w : String) × (v ≡ enum_v e w no_values)
  a_variant (enum_v e w no_values) h = (e, w, refl)
  a_variant _ h = absurd h

  equal-answers :
      (k : Kind) (a b : V P)
      → has_tests k ≡ true
      → OfKind k a
      → OfKind k b
      → (c : Bool) × (equal P a b ≡ ok c)
  unfolding equal
  equal-answers (ints i) a b t ha hb =
      let (x, p) = an_int i a ha in let (y, q) = an_int i b hb in rw (p, q) (_, refl)
  equal-answers floats a b t ha hb =
      let (x, p) = a_float a ha in let (y, q) = a_float b hb in rw (p, q) (_, refl)
  equal-answers bools a b t ha hb =
      let (x, p) = a_bool a ha in let (y, q) = a_bool b hb in rw (p, q) (_, refl)
  equal-answers refs a b t ha hb =
      let (x, p) = a_ref a ha in let (y, q) = a_ref b hb in rw (p, q) (_, refl)
  equal-answers fieldless a b t ha hb =
      let (e, v, p) = a_variant a ha in let (f, w, q) = a_variant b hb in rw (p, q) (_, refl)
  equal-answers others a b t ha hb = cc

  compared-Safe :
      (enums : Enums) (c : Compare) (l : Ty) (a b : V P)
      → is_number l ≡ true
      → OfKind (kind_of enums l) a
      → OfKind (kind_of enums l) b
      → IsSafe bools (compared P c a b)
  unfolding compared
  compared-Safe enums c l a b n ha hb = elim (number-kind enums l n) [
    | inl (i, e, k) ↦
        let (x, p) = an_int i a (subst (λ w. OfKind w a) k ha) in
        let (y, q) = an_int i b (subst (λ w. OfKind w b) k hb) in rw (p, q) tt
    | inr (e, k) ↦
        let (x, p) = a_float a (subst (λ w. OfKind w a) k ha) in
        let (y, q) = a_float b (subst (λ w. OfKind w b) k hb) in rw (p, q) tt
  ]

  -- the operators that are taken on two floats
  abbrev ForFloats : Op → Ty → Type 0
  ForFloats op l =
      (x y : P.Float)
      → is_float l ≡ true
      → IsSafe floats (arithmetic P op (float_v x) (float_v y) (some l))

  arith-Safe :
      (enums : Enums) (op : Op) (l : Ty) (a b : V P)
      → is_number l ≡ true
      → OfKind (kind_of enums l) a
      → OfKind (kind_of enums l) b
      → ForFloats op l
      → IsSafe (kind_of enums l) (arithmetic P op a b (some l))
  arith-Safe enums op l a b n ha hb f = elim (number-kind enums l n) [
    | inl (i, e, k) ↦
        subst (λ w. IsSafe w (arithmetic P op a b (some l))) (sym k)
          (int-Safe op i a b i l (int_info-IsLayout l i e) e (subst (λ w. OfKind w a) k ha)
            (subst (λ w. OfKind w b) k hb))
    | inr (e, k) ↦
        let (x, p) = a_float a (subst (λ w. OfKind w a) k ha) in
        let (y, q) = a_float b (subst (λ w. OfKind w b) k hb) in
        subst (λ w. IsSafe w (arithmetic P op a b (some l))) (sym k) (rw (p, q) (f x y e))
  ]

  bits-Safe :
      (enums : Enums) (op : Op) (l : Ty) (a b : V P) (k' : Kind) (j : Layout)
      → is_int (int_info l) ≡ true
      → k' ≡ ints j
      → OfKind (kind_of enums l) a
      → OfKind k' b
      → IsSafe (kind_of enums l) (arithmetic P op a b (some l))
  bits-Safe enums op l a b k' j n kr ha hb =
      let (i, e, k) = int-kind enums l n in
      subst (λ w. IsSafe w (arithmetic P op a b (some l))) (sym k)
        (int-Safe op i a b j l (int_info-IsLayout l i e) e (subst (λ w. OfKind w a) k ha)
          (subst (λ w. OfKind w b) kr hb))

  add_floats : (l : Ty) → ForFloats Op.add l
  unfolding arithmetic
  add_floats l x y e = tt

  sub_floats : (l : Ty) → ForFloats Op.sub l
  unfolding arithmetic
  sub_floats l x y e = tt

  mul_floats : (l : Ty) → ForFloats Op.mul l
  unfolding arithmetic
  mul_floats l x y e = tt

  div_floats : (l : Ty) → ForFloats Op.div l
  unfolding arithmetic
  div_floats l x y e = tt

  -- what an operator gives at the type of its left operand
  at_left :
      (enums : Enums) (l t : Ty) (r : Result Fault (V P))
      → t ≡ l
      → IsSafe (kind_of enums l) r
      → IsSafe (kind_of enums t) r
  at_left enums l t r e h = subst (λ u. IsSafe (kind_of enums u) r) (sym e) h

  at_bool :
      (enums : Enums) (t : Ty) (r : Result Fault (V P))
      → t ≡ name_ty "bool"
      → IsSafe bools r
      → IsSafe (kind_of enums t) r
  at_bool enums t r e h =
      at_left enums (name_ty "bool") t r e (subst (λ k. IsSafe k r) (sym (bool-kind enums)) h)

  module _ (enums : Enums) (l r t : Ty) (a b : V P) (left : OfKind (kind_of enums l) a)
      (right : OfKind (kind_of enums r) b) where
    as_left : l ≡ r → OfKind (kind_of enums l) b
    as_left e = subst (λ u. OfKind (kind_of enums u) b) (sym e) right

    arith_lem :
        (op : Op)
        → ForFloats op l
        → arith_type l r ≡ ok t
        → IsSafe (kind_of enums t) (arithmetic P op a b (some l))
    arith_lem op f h =
        let (n, q, e) = typed (is_number l) not_numeric l r l t h in
        at_left enums l t _ e
          (arith-Safe enums op l a b n left (as_left (req-same l r (number-plain l n) q)) f)

    bits_lem :
        (op : Op) → bits_type l r ≡ ok t → IsSafe (kind_of enums t) (arithmetic P op a b (some l))
    bits_lem op h =
        let (n, q, e) = typed (is_int (int_info l)) not_integer l r l t h in
        let (i, _, k) = int-kind enums l n in
        let plain = number-plain l (rw n refl) in
        at_left enums l t _ e
          (bits-Safe enums op l a b (kind_of enums l) i n k left (as_left (req-same l r plain q)))

    shift_lem :
        (op : Op) → shift_type l r ≡ ok t → IsSafe (kind_of enums t) (arithmetic P op a b (some l))
    shift_lem op h =
        let (n, q, e) = typed (is_int (int_info l)) not_integer (name_ty "u64") r l t h in
        let k = ap (kind_of enums) (sym (req-same (name_ty "u64") r refl q)) ∙ u64-kind enums in
        at_left enums l t _ e
          (bits-Safe enums op l a b (kind_of enums r) (64, false) n k left right)

    order_lem : (c : Compare) → order_type l r ≡ ok t → IsSafe (kind_of enums t) (compared P c a b)
    order_lem c h =
        let (q, n, e) = tested (req l r) (is_number l) not_ordered (name_ty "bool") t h in
        at_bool enums t _ e
          (compared-Safe enums c l a b n left (as_left (req-same l r (number-plain l n) q)))

    equality_lem :
        (f : Bool → Bool)
        → equality_type enums l r ≡ ok t
        → IsSafe (kind_of enums t) (equal P a b >>= λ c. ok (bool_v (f c)))
    equality_lem f h =
        let (q, n, e) = tested (req l r) (has_equality enums l) no_equality (name_ty "bool") t h in
        let same = req-same l r (equality-plain enums l n) q in
        let (c, k) =
          equal-answers (kind_of enums l) a b (equality-kind enums l n) left (as_left same) in
        at_bool enums t _ e (rw k tt)

    logic_lem : (c : Bool) → logic_type l r ≡ ok t → IsSafe (kind_of enums t) (ok (bool_v c))
    logic_lem c h = let e = logic-bool l r t h in at_bool enums t (ok (bool_v c)) e tt

    -- Where the checker gives an operator on operands of two types the type t, and the operands are
    -- values of their types, the operator gives a value of type t, or faults as the operator of integers
    -- does: it never meets operands that it is not defined on. The types are numbers, bool, references
    -- and enums without payload; an integer lies in the range of its type.
    pub binop-IsSafe :
        (op : Binary)
        → binop enums op l r ≡ ok t
        → IsSafe (kind_of enums t) (scalar_value P op a b (some l))
    unfolding binop scalar_value
    binop-IsSafe or_else h = logic_lem _ h
    binop-IsSafe and_then h = logic_lem _ h
    binop-IsSafe eq h = equality_lem (λ c. c) h
    binop-IsSafe ne h = equality_lem not h
    binop-IsSafe lt h = order_lem Compare.lt h
    binop-IsSafe le h = order_lem Compare.le h
    binop-IsSafe gt h = order_lem Compare.gt h
    binop-IsSafe ge h = order_lem Compare.ge h
    binop-IsSafe shl h = shift_lem Op.shl h
    binop-IsSafe shr h = shift_lem Op.shr h
    binop-IsSafe band h = bits_lem Op.band h
    binop-IsSafe bor h = bits_lem Op.bor h
    binop-IsSafe bxor h = bits_lem Op.bxor h
    binop-IsSafe add h = arith_lem Op.add (add_floats l) h
    binop-IsSafe sub h = arith_lem Op.sub (sub_floats l) h
    binop-IsSafe mul h = arith_lem Op.mul (mul_floats l) h
    binop-IsSafe div h = arith_lem Op.div (div_floats l) h
    binop-IsSafe rem h =
        let (n, k) = rem_lem l r t h in arith_lem Op.rem (λ x y e. absurd (not_float l n e)) k
