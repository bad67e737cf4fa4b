-- ===== src/Examples/Scalars.antt =====
-- Runs and instances for the scalar operations of src/lang/core.py.
use l.Base.{some, ◌⊎◌, ◌≢◌, ◌+◌, ◌^◌, ◌≡◌, refl, true, false, arith}
use l.Base.Int.{ℤ, pos, negsuc}
use l.Base.Results.{ok, err}
use l.Types.{Layout}
use l.Scalar.{
  cast_truncated, cast_out_of_range, wrap_int, negate_int, invert_int, Op, scalar_int, quotient,
  int_lo, int_hi, cast_int, division_by_zero,
}
use l.Scalar.Words.{Cong}
use l.Scalar.Range.{Fits, wrap_int_lem}
use l.Scalar.Laws.{scalar_int-Faults, Faults}
use l.Scalar.Unary.{unary_lem}
use l.Scalar.Ring.{scalar_int-Fits, scalar_int_ring, cast_int_widen, cast_truncated_lem}
use l.Scalar.Division.{signed_rem}
use l.Scalar.Quotients.{IsRemainder, scalar_int_rem, scalar_int_div, scalar_int_div_least}

abbrev i8 : Layout
i8 = (8, true)

abbrev u8 : Layout
u8 = (8, false)

wraps : wrap_int (pos 200) i8 ≡ negsuc 55
unfolding wrap_int
wraps = refl

adds : scalar_int Op.add (pos 250) (pos 10) u8 ≡ ok (pos 4)
unfolding scalar_int
adds = refl

truncates : scalar_int Op.div (negsuc 6) (pos 2) i8 ≡ ok (negsuc 2)
unfolding scalar_int
truncates = refl

shifts : scalar_int Op.shr (negsuc 6) (pos 1) i8 ≡ ok (negsuc 3)
unfolding scalar_int
shifts = refl

masks : scalar_int Op.band (negsuc 0) (pos 15) i8 ≡ ok (pos 15)
unfolding scalar_int
masks = refl

in_i8 : Fits i8 (negsuc 6)
unfolding int_lo int_hi
in_i8 = omega arith

two_in_i8 : Fits i8 (pos 2)
unfolding int_lo int_hi
two_in_i8 = omega arith

two_nonzero : ¬ (pos 2 ≡ pos 0)
two_nonzero e = ground (arith, e)

not_least : ¬ ((negsuc 6 ≡ int_lo i8) × (pos 2 ≡ negsuc 0))
not_least e = ground (arith, e.1)

wrap_int_lem_example :
    ((Fits i8 (negsuc 55) × Cong (2 ^ 8) (negsuc 55) (pos 200)) → wrap_int (pos 200) i8 ≡ negsuc 55)
    × (wrap_int (pos 200) i8 ≡ negsuc 55 → Fits i8 (negsuc 55) × Cong (2 ^ 8) (negsuc 55) (pos 200))
wrap_int_lem_example = wrap_int_lem (pos 200) (negsuc 55) 8 true (omega arith)

scalar_int_rem_example :
    (r : ℤ) × (scalar_int Op.rem (negsuc 6) (pos 2) i8 ≡ ok r)
    × IsRemainder (negsuc 6) (pos 2) (quotient (negsuc 6) (pos 2)) r
scalar_int_rem_example = scalar_int_rem (negsuc 6) (pos 2) 8 true (omega arith) in_i8 two_nonzero

scalar_int_div_example :
    (scalar_int Op.div (negsuc 6) (pos 2) i8 ≡ ok (quotient (negsuc 6) (pos 2)))
    × IsRemainder (negsuc 6) (pos 2) (quotient (negsuc 6) (pos 2)) (signed_rem (negsuc 6) (pos 2))
scalar_int_div_example =
    scalar_int_div (negsuc 6) (pos 2) 8 true (omega arith) in_i8 two_in_i8 two_nonzero not_least

scalar_int_div_least_example : scalar_int Op.div (int_lo i8) (negsuc 0) i8 ≡ ok (int_lo i8)
scalar_int_div_least_example = scalar_int_div_least 8 (omega arith)

divides_by_zero : scalar_int Op.div (pos 3) (pos 0) i8 ≡ err division_by_zero
unfolding scalar_int
divides_by_zero = refl

scalar_int-Faults_example : Faults Op.div (pos 0) 8 division_by_zero
scalar_int-Faults_example = scalar_int-Faults Op.div (pos 3) (pos 0) 8 true divides_by_zero

scalar_int-Fits_example : Fits u8 (pos 4)
scalar_int-Fits_example = scalar_int-Fits Op.add (pos 250) (pos 10) (pos 4) u8 (omega arith) adds

scalar_int_ring_example :
    (scalar_int Op.add (wrap_int (pos 300) u8) (wrap_int (pos 7) u8) u8
      ≡ scalar_int Op.add (pos 300) (pos 7) u8)
    × (scalar_int Op.sub (wrap_int (pos 300) u8) (wrap_int (pos 7) u8) u8
        ≡ scalar_int Op.sub (pos 300) (pos 7) u8)
    × (scalar_int Op.mul (wrap_int (pos 300) u8) (wrap_int (pos 7) u8) u8
        ≡ scalar_int Op.mul (pos 300) (pos 7) u8)
scalar_int_ring_example = scalar_int_ring (pos 300) (pos 7) 8 false

cast_int_widen_example : cast_int (cast_int (negsuc 6) (8 + 8, false)) i8 ≡ negsuc 6
cast_int_widen_example = cast_int_widen (negsuc 6) 8 8 true false (omega arith) in_i8

cast_truncated_lem_example :
    ((cast_int (pos 256) u8 ≡ pos 256) × (cast_truncated (some (pos 256)) u8 ≡ ok (pos 256)))
    ⊎ ((cast_int (pos 256) u8 ≢ pos 256)
        × (cast_truncated (some (pos 256)) u8 ≡ err cast_out_of_range))
cast_truncated_lem_example = cast_truncated_lem (pos 256) u8 (omega arith)

unary_lem_example :
    (negate_int (negate_int (negsuc 6) i8) i8 ≡ negsuc 6)
    × (invert_int (invert_int (negsuc 6) i8) i8 ≡ negsuc 6)
    × (scalar_int Op.sub (negate_int (negsuc 6) i8) (pos 1) i8 ≡ ok (invert_int (negsuc 6) i8))
unary_lem_example = unary_lem (negsuc 6) 8 true (omega arith) in_i8
