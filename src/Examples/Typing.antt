-- ===== src/Examples/Typing.antt =====
-- Runs and instances for the types of operators in src/lang/core.py.
use l.Base.{arith, true, some, [], ◌∷◌, ◌≡◌, refl}
use l.Base.Int.{pos, negsuc}
use l.Base.Dict.{lookup}
use l.Base.Results.{ok, err}
use l.Types.{nil, cons, name_ty, int_info, is_float}
use l.Types.Equality.{same_type}
use l.Values.{int_v}
use l.Values.Operators.{V, scalar_value}
use l.Checker.Kinds.{kind_of}
use l.Checker.Sound.{OfKind, IsSafe, binop-IsSafe}
use l.Examples.Compiling.{python}
use l.Syntax.{add, rem, eq}
use l.Scalar.{int_lo, int_hi, Op, scalar_int, wrap_int, wrap_to, floor_mod}
use l.Checker.Operators.{Enums, binop, req, fieldless_enum, mismatch, rem_of_float, no_equality}

abbrev colours : Enums
colours =
    ("Colour", ("red", nil) ∷ ("green", nil) ∷ [])
    ∷ ("Shape", ("dot", cons (name_ty "i8") nil) ∷ [])
    ∷ []

adds : binop colours add (name_ty "i8") (name_ty "i8") ≡ ok (name_ty "i8")
unfolding binop req same_type int_info is_float
adds = refl

refuses_mixed : binop colours add (name_ty "i8") (name_ty "u8") ≡ err mismatch
unfolding binop req same_type int_info is_float
refuses_mixed = refl

refuses_float_rem : binop colours rem (name_ty "f64") (name_ty "f64") ≡ err rem_of_float
unfolding binop req same_type int_info is_float
refuses_float_rem = refl

compares_colours : binop colours eq (name_ty "Colour") (name_ty "Colour") ≡ ok (name_ty "bool")
unfolding binop req same_type int_info is_float fieldless_enum lookup
compares_colours = refl

refuses_shapes : binop colours eq (name_ty "Shape") (name_ty "Shape") ≡ err no_equality
unfolding binop req same_type int_info is_float fieldless_enum lookup
refuses_shapes = refl

i8_layout : int_info (name_ty "i8") ≡ some (8, true)
unfolding int_info
i8_layout = refl

overflows : scalar_int Op.add (pos 127) (pos 1) (8, true) ≡ ok (negsuc 127)
unfolding scalar_int wrap_int wrap_to floor_mod
overflows = refl

abbrev most : V python
most = int_v (pos 127)

abbrev one : V python
one = int_v (pos 1)

most_fits : OfKind python (kind_of colours (name_ty "i8")) most
unfolding int_info int_lo int_hi
most_fits = omega arith

one_fits : OfKind python (kind_of colours (name_ty "i8")) one
unfolding int_info int_lo int_hi
one_fits = omega arith

binop-IsSafe_example :
    IsSafe python
      (kind_of colours (name_ty "i8"))
      (scalar_value python add most one (some (name_ty "i8")))
binop-IsSafe_example =
    binop-IsSafe python colours (name_ty "i8") (name_ty "i8") (name_ty "i8") most one most_fits
      one_fits add adds
