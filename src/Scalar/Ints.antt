-- ===== src/Scalar/Ints.antt =====
-- The parts of sums, differences and products of integers, for `omega`, and their congruences.
use native.Mathlib.Nat.{pow-suc, zero-add}
use l.Base.{ℕ, zero, suc, ◌+◌, ◌*◌, ◌^◌, ◌≤◌, ◌<◌, ◌≡◌, ap, arith, leb}
use l.Base.Int.{ℤ, pos_part, neg_part, sub_ℕ, ◌+ℤ◌, ◌-ℤ◌, ◌*ℤ◌}
use l.Scalar.Words.{Cong}

pub +ℤ_parts :
    (a b : ℤ)
    → pos_part (a +ℤ b) + neg_part a + neg_part b ≡ neg_part (a +ℤ b) + pos_part a + pos_part b
unfolding ◌+ℤ◌
+ℤ_parts a b = ground arith

pub -ℤ_parts :
    (a b : ℤ)
    → pos_part (a -ℤ b) + neg_part a + pos_part b ≡ neg_part (a -ℤ b) + pos_part a + neg_part b
unfolding ◌-ℤ◌
-ℤ_parts a b = ground arith

pub sub_ℕ_parts : (a b : ℕ) → pos_part (sub_ℕ a b) + b ≡ neg_part (sub_ℕ a b) + a
sub_ℕ_parts a b = ground arith

pub *ℤ_parts :
    (a b : ℤ)
    → pos_part (a *ℤ b) + (pos_part a * neg_part b + neg_part a * pos_part b)
      ≡ neg_part (a *ℤ b) + (pos_part a * pos_part b + neg_part a * neg_part b)
unfolding ◌*ℤ◌
*ℤ_parts a b =
    sub_ℕ_parts (pos_part a * pos_part b + neg_part a * neg_part b)
      (pos_part a * neg_part b + neg_part a * pos_part b)

pub eq_of_parts : (a b : ℤ) → pos_part a + neg_part b ≡ pos_part b + neg_part a → a ≡ b
eq_of_parts a b h = ground arith

pub ruleset int_laws = (arith, +ℤ_parts, -ℤ_parts, eq_of_parts)

pub Cong-add : (m : ℕ) (a a' b b' : ℤ) → Cong m a a' → Cong m b b' → Cong m (a +ℤ b) (a' +ℤ b')
Cong-add m a a' b b' (x, y, e) (x', y', e') =
    (x + x', y + y', omega (arith, +ℤ_parts a b, +ℤ_parts a' b'))

pub Cong-sub : (m : ℕ) (a a' b b' : ℤ) → Cong m a a' → Cong m b b' → Cong m (a -ℤ b) (a' -ℤ b')
Cong-sub m a a' b b' (x, y, e) (x', y', e') =
    (x + y', y + x', omega (arith, -ℤ_parts a b, -ℤ_parts a' b'))

-- Both sides of an equation times p, and its reverse times n.
scale :
    (m u v x y p n : ℕ)
    → u + x * m ≡ v + y * m
    → u * p + v * n + (x * p + y * n) * m ≡ v * p + u * n + (y * p + x * n) * m
scale m u v x y p n e = omega (arith, ap (λ (t : ℕ). t * p) e, ap (λ (t : ℕ). t * n) e)

Cong-mul_left : (m : ℕ) (a a' b : ℤ) → Cong m a a' → Cong m (a *ℤ b) (a' *ℤ b)
Cong-mul_left m a a' b (x, y, e) = (
  x * pos_part b + y * neg_part b,
  y * pos_part b + x * neg_part b,
  omega (
    arith,
    *ℤ_parts a b,
    *ℤ_parts a' b,
    scale m (pos_part a + neg_part a') (neg_part a + pos_part a') x y (pos_part b) (neg_part b) e,
  ),
)

Cong-mul_right : (m : ℕ) (a b b' : ℤ) → Cong m b b' → Cong m (a *ℤ b) (a *ℤ b')
Cong-mul_right m a b b' (x, y, e) = (
  x * pos_part a + y * neg_part a,
  y * pos_part a + x * neg_part a,
  omega (
    arith,
    *ℤ_parts a b,
    *ℤ_parts a b',
    scale m (pos_part b + neg_part b') (neg_part b + pos_part b') x y (pos_part a) (neg_part a) e,
  ),
)

pub Cong-mul : (m : ℕ) (a a' b b' : ℤ) → Cong m a a' → Cong m b b' → Cong m (a *ℤ b) (a' *ℤ b')
Cong-mul m a a' b b' c d =
    l.Scalar.Words.Cong-trans m (a *ℤ b) (a' *ℤ b) (a' *ℤ b') (Cong-mul_left m a a' b c)
      (Cong-mul_right m a' b b' d)

pub pow-add : (j k : ℕ) → 2 ^ (j + k) ≡ 2 ^ j * 2 ^ k
pow-add zero k = rw zero-add (omega arith)
pow-add (suc j) k =
    let e : suc j + k ≡ suc (j + k) = omega arith in
    rw (e, pow-suc 2 (j + k), pow-suc 2 j, pow-add j k) (omega arith)

-- A congruence modulo 2 ^ v is one modulo 2 ^ w for a smaller w.
pub Cong-narrow : (w k : ℕ) (a b : ℤ) → Cong (2 ^ (k + w)) a b → Cong (2 ^ w) a b
Cong-narrow w k a b (x, y, e) = (
  x * 2 ^ k,
  y * 2 ^ k,
  omega (arith, e, ap (λ (t : ℕ). x * t) (pow-add k w), ap (λ (t : ℕ). y * t) (pow-add k w)),
)
