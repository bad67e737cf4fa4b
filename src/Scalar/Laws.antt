-- ===== src/Scalar/Laws.antt =====
-- The integer part of `scalar_value` on every operator: results and faults.
use l.Base.{
  ℕ, zero, suc, ◌+◌, ◌-◌, ◌*◌, ◌/◌, ◌^◌, ◌≤◌, ◌<◌, ◌≡◌, refl, ◌⊎◌, inl, inr, Bool, true, false,
  arith, ltb, leb, Bool-cases,
}
use l.Base.Int.{ℤ, pos, negsuc, pos_part, ◌≤ℤ◌, ◌+ℤ◌, ◌-ℤ◌, ◌*ℤ◌}
use l.Base.Results.{ok, err}
use l.Scalar.{
  wrap_int, int_lo, int_hi, fits, Op, scalar_int, Fault, cast_int, cast_truncated, negate_int,
  invert_int, not_ℤ, quotient, eq_ℤ, invalid_shift, division_by_zero, remainder_by_zero,
  cast_out_of_range,
}

-- Where the operator has a value.
abbrev pub Defined : Op → ℤ → ℕ → Type 0
Defined Op.shl b w = (pos 0 ≤ℤ b) × (b ≤ℤ pos (w - 1)) × (0 < w)
Defined Op.shr b w = (pos 0 ≤ℤ b) × (b ≤ℤ pos (w - 1)) × (0 < w)
Defined Op.div b w = ¬ (b ≡ pos 0)
Defined Op.rem b w = ¬ (b ≡ pos 0)
Defined op b w = Unit {0}

-- The unwrapped value of the operator.
abbrev pub exact : Op → ℤ → ℤ → ℤ
exact Op.shl a b = l.Scalar.shl_ℤ a (pos_part b)
exact Op.shr a b = l.Scalar.shr_ℤ a (pos_part b)
exact Op.band a b = l.Scalar.and_ℤ a b
exact Op.bor a b = l.Scalar.or_ℤ a b
exact Op.bxor a b = l.Scalar.xor_ℤ a b
exact Op.add a b = a +ℤ b
exact Op.sub a b = a -ℤ b
exact Op.mul a b = a *ℤ b
exact Op.div a b = quotient a b
exact Op.rem a b = a -ℤ quotient a b *ℤ b

eq_ℤ→eq : (b : ℤ) → eq_ℤ b (pos 0) ≡ true → b ≡ pos 0
eq_ℤ→eq b h = ground arith

ne→eq_ℤ : (b : ℤ) → ¬ (b ≡ pos 0) → eq_ℤ b (pos 0) ≡ false
ne→eq_ℤ (pos zero) h = absurd (h refl)
ne→eq_ℤ (pos (suc n)) h = ground arith
ne→eq_ℤ (negsuc n) h = ground arith

-- A shift by a count inside the width, a division by a number other than zero, and every other
-- arithmetic operator yield the exact value, wrapped.
pub scalar_int_lem :
    (op : Op) (a b : ℤ) (w : ℕ) (s : Bool)
    → Defined op b w
    → scalar_int op a b (w, s) ≡ ok (wrap_int (exact op a b) (w, s))
unfolding scalar_int
scalar_int_lem Op.shl a (pos b) w s (p, q, r) = ground arith
scalar_int_lem Op.shl a (negsuc b) w s (p, q, r) = absurd (omega arith)
scalar_int_lem Op.shr a (pos b) w s (p, q, r) = ground arith
scalar_int_lem Op.shr a (negsuc b) w s (p, q, r) = absurd (omega arith)
scalar_int_lem Op.band a b w s d = refl
scalar_int_lem Op.bor a b w s d = refl
scalar_int_lem Op.bxor a b w s d = refl
scalar_int_lem Op.add a b w s d = refl
scalar_int_lem Op.sub a b w s d = refl
scalar_int_lem Op.mul a b w s d = refl
scalar_int_lem Op.div a b w s d = rw (ne→eq_ℤ b d)
scalar_int_lem Op.rem a b w s d = rw (ne→eq_ℤ b d)

-- Each fault with the operands that raise it.
abbrev pub Faults : Op → ℤ → ℕ → Fault → Type 0
Faults Op.shl b w f = ((b ≤ℤ negsuc 0) ⊎ (pos w ≤ℤ b)) × (f ≡ invalid_shift)
Faults Op.shr b w f = ((b ≤ℤ negsuc 0) ⊎ (pos w ≤ℤ b)) × (f ≡ invalid_shift)
Faults Op.div b w f = (b ≡ pos 0) × (f ≡ division_by_zero)
Faults Op.rem b w f = (b ≡ pos 0) × (f ≡ remainder_by_zero)
Faults op b w f = ⊥

shift_faults :
    (r : ℤ) (b w : ℕ) (s : Bool) {f : Fault}
    → l.Base.if◌then◌else◌ (leb w b) (err invalid_shift) (ok (wrap_int r (w, s))) ≡ err f
    → ((pos b ≤ℤ negsuc 0) ⊎ (pos w ≤ℤ pos b)) × (f ≡ invalid_shift)
shift_faults r b w s h = elim (Bool-cases (leb w b)) [
  | inl e ↦ (inr (ground arith), let k = rw e at h in cc)
  | inr e ↦ let k = rw e at h in cc
]

-- A fault is a shift by a negative count or by the width at least, or a division or remainder by
-- zero; no other operator faults.
pub scalar_int-Faults :
    (op : Op) (a b : ℤ) (w : ℕ) (s : Bool) {f : Fault}
    → scalar_int op a b (w, s) ≡ err f
    → Faults op b w f
unfolding scalar_int
scalar_int-Faults Op.shl a (pos b) w s h = shift_faults _ b w s h
scalar_int-Faults Op.shl a (negsuc b) w s h = (inl (omega arith), cc)
scalar_int-Faults Op.shr a (pos b) w s h = shift_faults _ b w s h
scalar_int-Faults Op.shr a (negsuc b) w s h = (inl (omega arith), cc)
scalar_int-Faults Op.band a b w s h = cc
scalar_int-Faults Op.bor a b w s h = cc
scalar_int-Faults Op.bxor a b w s h = cc
scalar_int-Faults Op.add a b w s h = cc
scalar_int-Faults Op.sub a b w s h = cc
scalar_int-Faults Op.mul a b w s h = cc
scalar_int-Faults Op.div a b w s h = elim (Bool-cases (eq_ℤ b (pos 0))) [
  | inl e ↦ (eq_ℤ→eq b e, let k = rw e at h in cc)
  | inr e ↦ let k = rw e at h in cc
]
scalar_int-Faults Op.rem a b w s h = elim (Bool-cases (eq_ℤ b (pos 0))) [
  | inl e ↦ (eq_ℤ→eq b e, let k = rw e at h in cc)
  | inr e ↦ let k = rw e at h in cc
]
