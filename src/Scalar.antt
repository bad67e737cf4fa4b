-- ===== src/Scalar.antt =====
-- src/lang/core.py: `wrap_int`, `scalar_value`, `cast_value` and the literal range test, on the
-- unbounded integers of the source.
pub mod Words
pub mod Ints
pub mod Laws
pub mod Ring
pub mod Quotients
pub mod Range
pub mod Division
pub mod Unary
use Prim.Native.Nat.{bit_and, bit_or, bit_xor}
use l.Base.{
  ℕ, suc, ◌+◌, ◌-◌, ◌*◌, ◌/◌, ◌%◌, ◌^◌, ◌≤◌, Bool, true, false, Option, none, some, ◌&&◌, ◌||◌, ltb,
  leb, ◌==◌, if◌then◌else◌, not,
}
use l.Base.Int.{ℤ, pos, negsuc, pos_part, neg_part, sub_ℕ, ◌+ℤ◌, ◌-ℤ◌, ◌*ℤ◌, ◌≤ℤ◌, ltb_ℤ}
use l.Base.Results.{Result, ok, err, ◌>>=◌}
use l.Types.{Layout}

-- v % m for 0 < m: the remainder has the sign of the divisor
unfoldable pub floor_mod : ℤ → ℕ → ℕ
floor_mod (pos n) m = n % m
floor_mod (negsuc n) m = m - 1 - n % m

-- the body of `wrap_int` for the modulus 1 << w and 1 << (w - 1)
unfoldable pub wrap_to : ℕ → ℕ → Bool → ℤ → ℤ
unfolding floor_mod
wrap_to m half signed v = let r = floor_mod v m in if signed && leb half r then sub_ℕ r m else pos r

unfoldable pub wrap_int : ℤ → Layout → ℤ
unfolding wrap_to
wrap_int v (w, signed) = wrap_to (2 ^ w) (2 ^ (w - 1)) signed v

-- the bounds that `const_expr` and `cast_value` compute
unfoldable pub int_lo : Layout → ℤ
int_lo (w, signed) = if signed then sub_ℕ 0 (2 ^ (w - 1)) else pos 0

unfoldable pub int_hi : Layout → ℤ
int_hi (w, signed) = if signed then pos (2 ^ (w - 1) - 1) else pos (2 ^ w - 1)

abbrev pub leb_ℤ : ℤ → ℤ → Bool
leb_ℤ a b = leb (pos_part a + neg_part b) (pos_part b + neg_part a)

abbrev pub eq_ℤ : ℤ → ℤ → Bool
eq_ℤ a b = pos_part a + neg_part b == pos_part b + neg_part a

unfoldable pub fits : ℤ → Layout → Bool
unfolding int_lo int_hi
fits v i = leb_ℤ (int_lo i) v && leb_ℤ v (int_hi i)

-- what `fault` is called with
pub data Fault : Type 0 where
  invalid_shift division_by_zero remainder_by_zero cast_out_of_range : Fault

-- The spellings that yield a number, and the comparisons. Where the spelling is none of the
-- operators the source raises "bad scalar operator"; no value of these types stands for that.
pub data Op : Type 0 where
  shl shr band bor bxor add sub mul div rem : Op

pub data Compare : Type 0 where
  eq ne lt le gt ge : Compare

-- a & b, a | b, a ^ b and ~a on two's complement numbers of unbounded length
unfoldable pub and_ℤ : ℤ → ℤ → ℤ
and_ℤ (pos a) (pos b) = pos (bit_and a b)
and_ℤ (pos a) (negsuc b) = pos (a - bit_and a b)
and_ℤ (negsuc a) (pos b) = pos (b - bit_and a b)
and_ℤ (negsuc a) (negsuc b) = negsuc (bit_or a b)

abbrev pub not_ℤ : ℤ → ℤ
not_ℤ (pos a) = negsuc a
not_ℤ (negsuc a) = pos a

unfoldable pub or_ℤ : ℤ → ℤ → ℤ
unfolding and_ℤ
or_ℤ a b = not_ℤ (and_ℤ (not_ℤ a) (not_ℤ b))

unfoldable pub xor_ℤ : ℤ → ℤ → ℤ
xor_ℤ (pos a) (pos b) = pos (bit_xor a b)
xor_ℤ (pos a) (negsuc b) = negsuc (bit_xor a b)
xor_ℤ (negsuc a) (pos b) = negsuc (bit_xor a b)
xor_ℤ (negsuc a) (negsuc b) = pos (bit_xor a b)

-- a << b and a >> b for 0 ≤ b; `>>` rounds down
unfoldable pub shl_ℤ : ℤ → ℕ → ℤ
shl_ℤ (pos a) b = pos (a * 2 ^ b)
shl_ℤ (negsuc a) b = sub_ℕ 0 (suc a * 2 ^ b)

unfoldable pub shr_ℤ : ℤ → ℕ → ℤ
shr_ℤ (pos a) b = pos (a / 2 ^ b)
shr_ℤ (negsuc a) b = negsuc (a / 2 ^ b)

abbrev pub abs_ℤ : ℤ → ℕ
abs_ℤ (pos n) = n
abs_ℤ (negsuc n) = suc n

abbrev pub is_neg : ℤ → Bool
is_neg (pos n) = false
is_neg (negsuc n) = true

abbrev differ : Bool → Bool → Bool
differ true b = not b
differ false b = b

-- q = abs(a) // abs(b), negated where exactly one operand is negative
unfoldable pub quotient : ℤ → ℤ → ℤ
quotient a b =
    let q = abs_ℤ a / abs_ℤ b in if differ (is_neg a) (is_neg b) then sub_ℕ 0 q else pos q

-- The arithmetic part of `scalar_value` for an integer type.
unfoldable pub scalar_int : Op → ℤ → ℤ → Layout → Result Fault ℤ
unfolding wrap_int quotient shl_ℤ shr_ℤ and_ℤ or_ℤ xor_ℤ ◌+ℤ◌ ◌-ℤ◌ ◌*ℤ◌
scalar_int Op.shl a (negsuc b) i = err invalid_shift
scalar_int Op.shl a (pos b) (w, s) =
    if leb w b then err invalid_shift else ok (wrap_int (shl_ℤ a b) (w, s))
scalar_int Op.shr a (negsuc b) i = err invalid_shift
scalar_int Op.shr a (pos b) (w, s) =
    if leb w b then err invalid_shift else ok (wrap_int (shr_ℤ a b) (w, s))
scalar_int Op.band a b i = ok (wrap_int (and_ℤ a b) i)
scalar_int Op.bor a b i = ok (wrap_int (or_ℤ a b) i)
scalar_int Op.bxor a b i = ok (wrap_int (xor_ℤ a b) i)
scalar_int Op.add a b i = ok (wrap_int (a +ℤ b) i)
scalar_int Op.sub a b i = ok (wrap_int (a -ℤ b) i)
scalar_int Op.mul a b i = ok (wrap_int (a *ℤ b) i)
scalar_int Op.div a b i =
    if eq_ℤ b (pos 0) then err division_by_zero else ok (wrap_int (quotient a b) i)
scalar_int Op.rem a b i =
    if eq_ℤ b (pos 0) then err remainder_by_zero else ok (wrap_int (a -ℤ quotient a b *ℤ b) i)

-- The comparisons of `scalar_value` at integers.
unfoldable pub compare_int : Compare → ℤ → ℤ → Bool
compare_int Compare.eq a b = eq_ℤ a b
compare_int Compare.ne a b = not (eq_ℤ a b)
compare_int Compare.lt a b = ltb_ℤ a b
compare_int Compare.le a b = leb_ℤ a b
compare_int Compare.gt a b = ltb_ℤ b a
compare_int Compare.ge a b = leb_ℤ b a

-- unary `-` and `~` of the interpreter, which wraps
unfoldable pub negate_int : ℤ → Layout → ℤ
unfolding wrap_int ◌-ℤ◌
negate_int v i = wrap_int (pos 0 -ℤ v) i

unfoldable pub invert_int : ℤ → Layout → ℤ
unfolding wrap_int
invert_int v i = wrap_int (not_ℤ v) i

-- `cast_value` from an integer and from a finite float whose truncation is `v`
unfoldable pub cast_int : ℤ → Layout → ℤ
unfolding wrap_int
cast_int v i = wrap_int v i

unfoldable pub cast_truncated : Option ℤ → Layout → Result Fault ℤ
unfolding fits
cast_truncated none i = err cast_out_of_range
cast_truncated (some v) i = if fits v i then ok v else err cast_out_of_range
