-- ===== src/Scalar/Words.antt =====
-- Congruence modulo m of integers, by their parts: what `wrap_to` keeps.
use native.Mathlib.Nat.{mod-lt, div-add-mod, add-mul-mod_self_right, mod-eq_of_lt, pow-suc}
use l.Base.{
  ℕ, zero, suc, ◌+◌, ◌-◌, ◌*◌, ◌%◌, ◌/◌, ◌^◌, ◌≤◌, ◌<◌, ◌≡◌, sym, ◌∙◌, ap, Bool, true, false, arith,
  leb, ltb,
}
use l.Base.Int.{ℤ, pos, negsuc, pos_part, neg_part, sub_ℕ}
use l.Scalar.{floor_mod, wrap_to}

pub pow_pos : (k : ℕ) → 0 < 2 ^ k
pow_pos zero = omega arith
pow_pos (suc k) = omega (arith, pow-suc 2 k, pow_pos k)

pub pow_half : (w : ℕ) → 0 < w → 2 ^ w ≡ 2 * 2 ^ (w - 1)
pow_half zero h = elim h [ ]
pow_half (suc w) h = rw (let e : suc w - 1 ≡ w = omega arith in e) (omega (arith, pow-suc 2 w))

pub floor_mod-lt : (v : ℤ) (m : ℕ) → 0 < m → floor_mod v m < m
unfolding floor_mod
floor_mod-lt (pos n) m h = mod-lt n h
floor_mod-lt (negsuc n) m h = omega arith

-- a and b differ by a multiple of m
abbrev pub Cong : ℕ → ℤ → ℤ → Type 0
Cong m a b = (x : ℕ) × (y : ℕ) × (pos_part a + neg_part b + x * m ≡ neg_part a + pos_part b + y * m)

pub Cong-refl : (m : ℕ) (a : ℤ) → Cong m a a
Cong-refl m a = (0, 0, omega arith)

pub Cong-sym : (m : ℕ) (a b : ℤ) → Cong m a b → Cong m b a
Cong-sym m a b (x, y, e) = (y, x, omega arith)

pub Cong-trans : (m : ℕ) (a b c : ℤ) → Cong m a b → Cong m b c → Cong m a c
Cong-trans m a b c (x, y, e) (x', y', e') = (x + x', y + y', omega arith)

pub floor_mod-Cong : (v : ℤ) (m : ℕ) → 0 < m → Cong m (pos (floor_mod v m)) v
unfolding floor_mod
floor_mod-Cong (pos n) m h = (n / m, 0, omega (arith, div-add-mod n m))
floor_mod-Cong (negsuc n) m h = (0, suc (n / m), omega (arith, div-add-mod n m, mod-lt n h))

remainder_unique : (x y m r s : ℕ) → r + x * m ≡ s + y * m → r < m → s < m → r ≡ s
remainder_unique x y m r s e hr hs =
    sym (add-mul-mod_self_right r x m ∙ mod-eq_of_lt hr)
    ∙ ap (λ (t : ℕ). t % m) e
    ∙ (add-mul-mod_self_right s y m ∙ mod-eq_of_lt hs)

pub floor_mod_unique : (a b : ℤ) (m : ℕ) → 0 < m → Cong m a b → floor_mod a m ≡ floor_mod b m
floor_mod_unique a b m h c =
    let (x, y, e) =
      Cong-trans m (pos (floor_mod a m)) a (pos (floor_mod b m)) (floor_mod-Cong a m h) (
        Cong-trans m a b (pos (floor_mod b m)) c
          (Cong-sym m (pos (floor_mod b m)) b (floor_mod-Cong b m h))) in
    remainder_unique x y m (floor_mod a m) (floor_mod b m) (omega arith) (floor_mod-lt a m h)
      (floor_mod-lt b m h)

pub wrap_to_unique :
    (s : Bool) (a b : ℤ) (m half : ℕ) → 0 < m → Cong m a b → wrap_to m half s a ≡ wrap_to m half s b
unfolding wrap_to
wrap_to_unique s a b m half h c = rw (floor_mod_unique a b m h c)

pub sub_ℕ-Cong : (r m : ℕ) → Cong m (sub_ℕ r m) (pos r)
sub_ℕ-Cong r m = (1, 0, ground arith)

pub wrap_to-Cong : (s : Bool) (v : ℤ) (m half : ℕ) → 0 < m → Cong m (wrap_to m half s v) v
unfolding wrap_to
wrap_to-Cong false v m half h = floor_mod-Cong v m h
wrap_to-Cong true v m half h = go (leb half (floor_mod v m))
  where
    go :
        (b : Bool)
        → Cong m (l.Base.if◌then◌else◌ b (sub_ℕ (floor_mod v m) m) (pos (floor_mod v m))) v
    go true =
        Cong-trans m (sub_ℕ (floor_mod v m) m) (pos (floor_mod v m)) v
          (sub_ℕ-Cong (floor_mod v m) m) (floor_mod-Cong v m h)
    go false = floor_mod-Cong v m h
