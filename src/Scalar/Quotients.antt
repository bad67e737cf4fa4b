-- ===== src/Scalar/Quotients.antt =====
-- `/` and `%` of `scalar_value` on integers.
use native.Mathlib.Nat.{div-one, mod-lt, mod-le, div-le_self, div-mul-le_self}
use l.Base.{
  ℕ, zero, suc, ◌-◌, ◌*◌, ◌/◌, ◌%◌, ◌^◌, ◌≤◌, ◌<◌, ◌≡◌, refl, ap, ◌∙◌, ◌≢◌, Bool, true, false,
  arith, ◌⊎◌, inl, inr,
}
use l.Base.Int.{ℤ, pos, negsuc, pos_part, neg_part, sub_ℕ, ◌+ℤ◌, ◌-ℤ◌, ◌*ℤ◌}
use l.Base.Results.{ok}
use l.Types.{Layout}
use l.Scalar.{Op, scalar_int, quotient, abs_ℤ, is_neg, int_lo, int_hi}
use l.Scalar.Ints.{eq_of_parts, -ℤ_parts, +ℤ_parts}
use l.Scalar.Words.{Cong, pow_pos, pow_half}
use l.Scalar.Range.{Fits, wrap_int_id, wrap_int_unique}
use l.Scalar.Laws.{scalar_int_lem}
use l.Scalar.Division.{rem-eq, signed_rem}

-- r is the remainder of a by b in a truncating division with quotient q.
pub record IsRemainder (a b q r : ℤ) : Type 0 where
  pub splits : a ≡ q *ℤ b +ℤ r
  pub smaller : abs_ℤ r < abs_ℤ b
  pub sign : (r ≡ pos 0) ⊎ (is_neg r ≡ is_neg a)

abs_pos : (b : ℤ) → ¬ (b ≡ pos 0) → 0 < abs_ℤ b
abs_pos (pos zero) h = absurd (h refl)
abs_pos (pos (suc n)) h = omega arith
abs_pos (negsuc n) h = omega arith

abs_neg : (n : ℕ) → abs_ℤ (sub_ℕ 0 n) ≡ n
abs_neg zero = refl
abs_neg (suc n) = ground arith

signed_rem_smaller : (a b : ℤ) → 0 < abs_ℤ b → abs_ℤ (signed_rem a b) < abs_ℤ b
signed_rem_smaller (pos a) b h = mod-lt a h
signed_rem_smaller (negsuc a) b h = omega (arith, abs_neg (suc a % abs_ℤ b), mod-lt (suc a) h)

neg_sign : (n : ℕ) → (sub_ℕ 0 n ≡ pos 0) ⊎ (is_neg (sub_ℕ 0 n) ≡ true)
neg_sign zero = inl refl
neg_sign (suc n) = inr (ground arith)

signed_rem_sign : (a b : ℤ) → (signed_rem a b ≡ pos 0) ⊎ (is_neg (signed_rem a b) ≡ is_neg a)
signed_rem_sign (pos a) b = inr refl
signed_rem_sign (negsuc a) b = neg_sign (suc a % abs_ℤ b)

signed_rem-Fits : (a b : ℤ) (i : Layout) → Fits i a → Fits i (signed_rem a b)
unfolding int_lo int_hi
signed_rem-Fits (pos a) b (w, true) f = (ground arith, omega (arith, mod-le a (abs_ℤ b)))
signed_rem-Fits (pos a) b (w, false) f = (omega arith, omega (arith, mod-le a (abs_ℤ b)))
signed_rem-Fits (negsuc a) b (w, true) f =
    let le = mod-le (suc a) (abs_ℤ b) in (ground (arith, le), ground (arith, le))
signed_rem-Fits (negsuc a) b (w, false) f = absurd (omega arith)

recombine : (a q r : ℤ) → a -ℤ q ≡ r → a ≡ q +ℤ r
recombine a q r h =
    eq_of_parts a (q +ℤ r) (omega (arith, -ℤ_parts a q, +ℤ_parts q r, ap pos_part h, ap neg_part h))

quotient-IsRemainder : (a b : ℤ) → ¬ (b ≡ pos 0) → IsRemainder a b (quotient a b) (signed_rem a b)
quotient-IsRemainder a b h = record {
  splits = recombine a (quotient a b *ℤ b) (signed_rem a b) (rem-eq a b);
  smaller = signed_rem_smaller a b (abs_pos b h);
  sign = signed_rem_sign a b;
}

-- The remainder is never wrapped: for a type of at least one bit, with the dividend in its range and
-- a divisor other than zero, `%` returns the remainder of truncating division, which is smaller than
-- the divisor and is zero or has the sign of the dividend.
pub scalar_int_rem :
    (a b : ℤ) (w : ℕ) (s : Bool)
    → 0 < w
    → Fits (w, s) a
    → ¬ (b ≡ pos 0)
    → (r : ℤ) × (scalar_int Op.rem a b (w, s) ≡ ok r) × IsRemainder a b (quotient a b) r
scalar_int_rem a b w s p f h = (
  signed_rem a b,
  rw (scalar_int_lem Op.rem a b w s h, rem-eq a b)
      (ap ok (wrap_int_id (signed_rem a b) (w, s) p (signed_rem-Fits a b (w, s) f))),
  quotient-IsRemainder a b h,
)

half_div : (a b h : ℕ) → 0 < h → suc a ≤ h → ¬ ((suc a ≡ h) × (b ≡ 0)) → suc a / suc b ≤ h - 1
half_div a zero h p le n =
    let ne : suc a ≢ h = λ e. n (e, refl) in omega (arith, div-le_self (suc a) 1, ne)
half_div a (suc b) h p le n =
    let e = div-mul-le_self (suc a) (suc (suc b)) in
    let q = suc a / suc (suc b) in
    let two : q * 2 ≤ q * suc (suc b) = grind arith in omega (arith, e, two)

quotient-Fits :
    (a b : ℤ) (w : ℕ) (s : Bool)
    → 0 < w
    → Fits (w, s) a
    → Fits (w, s) b
    → ¬ (b ≡ pos 0)
    → ¬ ((a ≡ int_lo (w, s)) × (b ≡ negsuc 0))
    → Fits (w, s) (quotient a b)
unfolding int_lo int_hi quotient
quotient-Fits (pos a) (pos b) w true p f g h n = (ground arith, omega (arith, div-le_self a b))
quotient-Fits (pos a) (negsuc b) w true p f g h n =
    let le = div-le_self a (suc b) in (ground (arith, le), ground (arith, le))
quotient-Fits (negsuc a) (pos b) w true p f g h n =
    let le = div-le_self (suc a) b in (ground (arith, le), ground (arith, le))
quotient-Fits (negsuc a) (negsuc b) w true p f g h n =
    let le : suc a ≤ 2 ^ (w - 1) = ground arith in
    let q =
      half_div a b (2 ^ (w - 1)) (pow_pos (w - 1)) le
        (λ (e, z). n (ground (arith, e), ground (arith, z))) in
    (ground arith, omega (arith, q))
quotient-Fits (pos a) (pos b) w false p f g h n = (omega arith, omega (arith, div-le_self a b))
quotient-Fits (negsuc a) b w false p f g h n = absurd (omega arith)
quotient-Fits (pos a) (negsuc b) w false p f g h n = absurd (omega arith)

-- For a type of at least one bit, with operands in its range and a divisor other than zero, and
-- unless the least value is divided by -1, `/` returns the exact truncated quotient.
pub scalar_int_div :
    (a b : ℤ) (w : ℕ) (s : Bool)
    → 0 < w
    → Fits (w, s) a
    → Fits (w, s) b
    → ¬ (b ≡ pos 0)
    → ¬ ((a ≡ int_lo (w, s)) × (b ≡ negsuc 0))
    → (scalar_int Op.div a b (w, s) ≡ ok (quotient a b))
      × IsRemainder a b (quotient a b) (signed_rem a b)
scalar_int_div a b w s p f g h n = (
  rw (scalar_int_lem Op.div a b w s h)
      (ap ok (wrap_int_id (quotient a b) (w, s) p (quotient-Fits a b w s p f g h n))),
  quotient-IsRemainder a b h,
)

least_quotient : (h : ℕ) → 0 < h → quotient (sub_ℕ 0 h) (negsuc 0) ≡ pos h
unfolding quotient
least_quotient zero p = elim p [ ]
least_quotient (suc k) p =
    let e : sub_ℕ 0 (suc k) ≡ negsuc k = ground arith in rw e (ap pos (div-one (suc k)))

quotient-least : (w : ℕ) → quotient (int_lo (w, true)) (negsuc 0) ≡ pos (2 ^ (w - 1))
unfolding int_lo
quotient-least w = least_quotient (2 ^ (w - 1)) (pow_pos (w - 1))

least-Cong : (w : ℕ) → 0 < w → Cong (2 ^ w) (pos (2 ^ (w - 1))) (int_lo (w, true))
unfolding int_lo
least-Cong w p = (0, 1, ground (arith, pow_half w p))

least-Fits : (w : ℕ) → 0 < w → Fits (w, true) (int_lo (w, true))
unfolding int_lo int_hi
least-Fits w p = (omega arith, ground (arith, pow_pos (w - 1)))

-- The least value of a signed type of at least one bit, divided by -1, is itself again.
pub scalar_int_div_least :
    (w : ℕ)
    → 0 < w
    → scalar_int Op.div (int_lo (w, true)) (negsuc 0) (w, true) ≡ ok (int_lo (w, true))
scalar_int_div_least w p =
    let lo = int_lo (w, true) in
    rw (scalar_int_lem Op.div lo (negsuc 0) w true (λ e. cc)) (
      ap ok (
        wrap_int_unique (quotient lo (negsuc 0)) lo w true (rw (quotient-least w) (least-Cong w p))
        ∙ wrap_int_id lo (w, true) p (least-Fits w p)))
