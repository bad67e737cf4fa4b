-- ===== src/Values/Operators.antt =====
-- src/lang/core.py: `scalar_value` over the values of the interpreter, `cast_value`, `fround`,
-- Python's truth of a value, and the prefix operators. Operands that the checker rejects at an operator
-- are `stuck`; every node that it accepts has a type.
use l.Base.{Bool, true, false, ◌&&◌, not, if◌then◌else◌, Option, none, some, ◌==◌, str_eq}
use l.Base.Int.{ℤ, pos}
use l.Base.Results.{Result, ok, err, ◌>>=◌}
use l.Types.{Ty, int_info, is_prim, Layout}
use l.Scalar.{
  Op, Compare, scalar_int, compare_int, eq_ℤ, cast_int, cast_truncated, negate_int, invert_int,
}
use l.Scalar.{Fault as ScalarFault}
use l.Syntax.{
  Binary, or_else, and_then, eq, ne, lt, le, gt, ge, bor, bxor, band, shl, shr, add, sub, mul, div,
  rem, Prefix, not_op, invert, negate, deref,
}
use l.Values.{
  Platform, Fault, stuck, scalar, Value, none_v, bool_v, int_v, float_v, enum_v, ref_v, no_values,
}

abbrev layout_of : Option Ty → Option Layout
layout_of none = none
layout_of (some t) = int_info t

abbrev is_ref : Option Ty → Bool
is_ref (some (Ty.ref t)) = true
is_ref _ = false

abbrev bool_eq : Bool → Bool → Bool
bool_eq true b = b
bool_eq false b = not b

abbrev pub faulted : {A : Type 0} → Result ScalarFault A → Result Fault A
faulted (ok a) = ok a
faulted (err f) = err (scalar f)

module _ (P : Platform) where
  open P use {
    Float, HostFn, float_of_int, round_f32, trunc, f_neg, f_add, f_sub, f_mul, f_div, f_compare,
    f_zero, f_nan, f_infinity,
  }

  abbrev pub V : Type 0
  V = Value Float HostFn

  -- bool(v)
  abbrev pub truthy : V → Bool
  truthy none_v = false
  truthy (bool_v b) = b
  truthy (int_v n) = not (eq_ℤ n (pos 0))
  truthy (float_v x) = not (f_zero x)
  truthy v = true

  -- `fround`
  abbrev pub fround : Float → Option Ty → Float
  fround x none = x
  fround x (some t) = if is_prim t "f32" then round_f32 x else x

  -- `==` at the types that have equality: numbers, bool, enums without payload, and references,
  -- which are compared by identity. The checker accepts no other operands.
  unfoldable pub equal : V → V → Result Fault Bool
  equal (bool_v a) (bool_v b) = ok (bool_eq a b)
  equal (int_v a) (int_v b) = ok (eq_ℤ a b)
  equal (float_v a) (float_v b) = ok (f_compare Compare.eq a b)
  equal (ref_v a) (ref_v b) = ok (a == b)
  equal (enum_v e v no_values) (enum_v f w no_values) = ok (str_eq e f && str_eq v w)
  equal _ _ = err stuck

  unfoldable pub compared : Compare → V → V → Result Fault V
  compared c (int_v a) (int_v b) = ok (bool_v (compare_int c a b))
  compared c (float_v a) (float_v b) = ok (bool_v (f_compare c a b))
  compared c _ _ = err stuck

  -- / of two floats
  abbrev float_div : Float → Float → Option Ty → Float
  float_div a b t =
      if f_zero b then (if f_zero a then f_nan else f_infinity a b) else fround (f_div a b) t

  abbrev float_op : Op → Float → Float → Option Ty → Result Fault V
  float_op Op.add a b t = ok (float_v (fround (f_add a b) t))
  float_op Op.sub a b t = ok (float_v (fround (f_sub a b) t))
  float_op Op.mul a b t = ok (float_v (fround (f_mul a b) t))
  float_op Op.div a b t = ok (float_v (float_div a b t))
  float_op op a b t = err stuck

  abbrev int_op : Op → ℤ → ℤ → Option Layout → Result Fault V
  int_op op a b none = err stuck
  int_op op a b (some i) = faulted (scalar_int op a b i) >>= λ n. ok (int_v n)

  unfoldable pub arithmetic : Op → V → V → Option Ty → Result Fault V
  arithmetic op (int_v a) (int_v b) t = int_op op a b (layout_of t)
  arithmetic op (float_v a) (float_v b) t = float_op op a b t
  arithmetic op _ _ t = err stuck

  unfoldable pub scalar_value : Binary → V → V → Option Ty → Result Fault V
  unfolding equal compared arithmetic
  scalar_value eq a b t = equal a b >>= λ r. ok (bool_v r)
  scalar_value ne a b t = equal a b >>= λ r. ok (bool_v (not r))
  scalar_value lt a b t = compared Compare.lt a b
  scalar_value le a b t = compared Compare.le a b
  scalar_value gt a b t = compared Compare.gt a b
  scalar_value ge a b t = compared Compare.ge a b
  scalar_value and_then a b t = ok (bool_v (truthy a && truthy b))
  scalar_value or_else a b t = ok (bool_v (if truthy a then true else truthy b))
  scalar_value shl a b t = arithmetic Op.shl a b t
  scalar_value shr a b t = arithmetic Op.shr a b t
  scalar_value band a b t = arithmetic Op.band a b t
  scalar_value bor a b t = arithmetic Op.bor a b t
  scalar_value bxor a b t = arithmetic Op.bxor a b t
  scalar_value add a b t = arithmetic Op.add a b t
  scalar_value sub a b t = arithmetic Op.sub a b t
  scalar_value mul a b t = arithmetic Op.mul a b t
  scalar_value div a b t = arithmetic Op.div a b t
  scalar_value rem a b t = arithmetic Op.rem a b t

  abbrev cast_to_int : V → Layout → Result Fault V
  cast_to_int (float_v x) i = faulted (cast_truncated (trunc x) i) >>= λ n. ok (int_v n)
  cast_to_int (int_v n) i = ok (int_v (cast_int n i))
  cast_to_int (bool_v b) i = ok (int_v (cast_int (if b then pos 1 else pos 0) i))
  cast_to_int v i = err stuck

  abbrev cast_to_float : V → Option Ty → Result Fault V
  cast_to_float (float_v x) t = ok (float_v (fround x t))
  cast_to_float (int_v n) t = ok (float_v (fround (float_of_int n) t))
  cast_to_float (bool_v b) t = ok (float_v (fround (float_of_int (if b then pos 1 else pos 0)) t))
  cast_to_float v t = err stuck

  -- The type that the cast is from is not read.
  unfoldable pub cast_value : V → Option Ty → Result Fault V
  cast_value v none = err stuck
  cast_value v (some to) = elim (int_info to) [
    | some i ↦ cast_to_int v i
    | none ↦ cast_to_float v (some to)
  ]

  -- -v and ~v at the type t
  abbrev negated : V → Option Ty → Option Layout → Result Fault V
  negated (int_v n) t (some i) = ok (int_v (negate_int n i))
  negated (float_v x) t none = ok (float_v (fround (f_neg x) t))
  negated v t i = err stuck

  abbrev inverted : V → Option Layout → Result Fault V
  inverted (int_v n) (some i) = ok (int_v (invert_int n i))
  inverted v i = err stuck

  -- `!`, `~` and `-`; `*` reads the heap
  unfoldable pub prefix_value : Prefix → V → Option Ty → Result Fault V
  prefix_value not_op v t = ok (bool_v (not (truthy v)))
  prefix_value invert v t = inverted v (layout_of t)
  prefix_value negate v none = err stuck
  prefix_value negate v (some t) = negated v (some t) (int_info t)
  prefix_value deref v t = err stuck

  abbrev wrapped : ℤ → Option Layout → Result Fault V
  wrapped n none = err stuck
  wrapped n (some i) = ok (int_v (cast_int n i))

  -- wrap_int(n, t) of a literal
  unfoldable pub literal_value : ℤ → Option Ty → Result Fault V
  literal_value n t = wrapped n (layout_of t)
