-- ===== src/Scalar/Division.antt =====
-- Truncating division of integers.
use native.Mathlib.Nat.{div-add-mod}
use l.Base.{ℕ, suc, ◌+◌, ◌*◌, ◌/◌, ◌%◌, ◌≡◌, ap, arith}
use l.Base.Int.{ℤ, pos, negsuc, pos_part, neg_part, sub_ℕ, ◌-ℤ◌, ◌*ℤ◌}
use l.Scalar.{quotient, abs_ℤ}
use l.Scalar.Ints.{*ℤ_parts, -ℤ_parts, eq_of_parts, sub_ℕ_parts}

-- the remainder of a by b, with the sign of a
abbrev pub signed_rem : ℤ → ℤ → ℤ
signed_rem (pos a) b = pos (a % abs_ℤ b)
signed_rem (negsuc a) b = sub_ℕ 0 (suc a % abs_ℤ b)

neg_mul_parts :
    (q : ℕ) (b : ℤ)
    → pos_part (sub_ℕ 0 q *ℤ b) + q * pos_part b ≡ neg_part (sub_ℕ 0 q *ℤ b) + q * neg_part b
neg_mul_parts q b =
    let p : pos_part (sub_ℕ 0 q) ≡ 0 = ground arith in
    let n : neg_part (sub_ℕ 0 q) ≡ q = ground arith in
    omega (
      arith,
      *ℤ_parts (sub_ℕ 0 q) b,
      ap (λ (t : ℕ). t * pos_part b) p,
      ap (λ (t : ℕ). t * neg_part b) p,
      ap (λ (t : ℕ). t * pos_part b) n,
      ap (λ (t : ℕ). t * neg_part b) n,
    )

-- what is left of a is its remainder, and has its sign
pub rem-eq : (a b : ℤ) → a -ℤ quotient a b *ℤ b ≡ signed_rem a b
unfolding quotient
rem-eq (pos a) (pos b) =
    let q = pos (a / b) in
    eq_of_parts _ _
      (omega (arith, -ℤ_parts (pos a) (q *ℤ pos b), *ℤ_parts q (pos b), div-add-mod a b))
rem-eq (pos a) (negsuc b) =
    let q = a / suc b in
    eq_of_parts _ _ (
      omega (
        arith,
        -ℤ_parts (pos a) (sub_ℕ 0 q *ℤ negsuc b),
        neg_mul_parts q (negsuc b),
        div-add-mod a (suc b),
      ))
rem-eq (negsuc a) (pos b) =
    let q = suc a / b in
    eq_of_parts _ _ (
      omega (
        arith,
        -ℤ_parts (negsuc a) (sub_ℕ 0 q *ℤ pos b),
        neg_mul_parts q (pos b),
        div-add-mod (suc a) b,
        sub_ℕ_parts 0 (suc a % b),
      ))
rem-eq (negsuc a) (negsuc b) =
    let q = pos (suc a / suc b) in
    eq_of_parts _ _ (
      omega (
        arith,
        -ℤ_parts (negsuc a) (q *ℤ negsuc b),
        *ℤ_parts q (negsuc b),
        div-add-mod (suc a) (suc b),
        sub_ℕ_parts 0 (suc a % suc b),
      ))
