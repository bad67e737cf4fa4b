-- ===== src/Scalar/Range.antt =====
-- The range of a layout, and what wrapping keeps of a value.
use native.Mathlib.Nat.{mod-eq_of_lt}
use mathlib.Core.Path.{subst}
use l.Base.{
  sym, ◌∙◌, ℕ, zero, suc, ◌+◌, ◌-◌, ◌*◌, ◌^◌, ◌≤◌, ◌<◌, ◌≡◌, refl, Bool, true, false, arith, ltb,
  leb,
}
use l.Base.Int.{ℤ, pos, negsuc, sub_ℕ, ◌≤ℤ◌}
use l.Types.{Layout}
use l.Scalar.{floor_mod, wrap_to, wrap_int, int_lo, int_hi}
use l.Scalar.Words.{pow_pos, pow_half, floor_mod-lt, Cong, wrap_to-Cong, wrap_to_unique}

-- what an integer type of this layout can hold
abbrev pub Fits : Layout → ℤ → Type 0
Fits i v = (int_lo i ≤ℤ v) × (v ≤ℤ int_hi i)

abbrev pub IsLayout : Layout → Type 0
IsLayout (w, s) = 0 < w

wrap_to_range :
    (s : Bool) (v : ℤ) (m half : ℕ)
    → 0 < half
    → m ≡ 2 * half
    → let (lo, hi) : ℤ × ℤ =
        l.Base.if◌then◌else◌ s (sub_ℕ 0 half, pos (half - 1)) (pos 0, pos (m - 1)) in
      (lo ≤ℤ wrap_to m half s v) × (wrap_to m half s v ≤ℤ hi)
unfolding wrap_to
wrap_to_range true v m half h e =
    let r = floor_mod-lt v m (omega arith) in (ground (arith, r), ground (arith, r))
wrap_to_range false v m half h e =
    let r = floor_mod-lt v m (omega arith) in (omega arith, omega arith)

-- Wrapping ends in the range of the layout.
pub wrap_int-Fits : (v : ℤ) (i : Layout) → IsLayout i → Fits i (wrap_int v i)
unfolding wrap_int int_lo int_hi
wrap_int-Fits v (w, true) h =
    wrap_to_range true v (2 ^ w) (2 ^ (w - 1)) (pow_pos (w - 1)) (pow_half w h)
wrap_int-Fits v (w, false) h =
    wrap_to_range false v (2 ^ w) (2 ^ (w - 1)) (pow_pos (w - 1)) (pow_half w h)

pub wrap_int-Cong : (v : ℤ) (w : ℕ) (s : Bool) → Cong (2 ^ w) (wrap_int v (w, s)) v
unfolding wrap_int
wrap_int-Cong v w s = wrap_to-Cong s v (2 ^ w) (2 ^ (w - 1)) (pow_pos w)

pub wrap_int_unique :
    (a b : ℤ) (w : ℕ) (s : Bool) → Cong (2 ^ w) a b → wrap_int a (w, s) ≡ wrap_int b (w, s)
unfolding wrap_int
wrap_int_unique a b w s c = wrap_to_unique s a b (2 ^ w) (2 ^ (w - 1)) (pow_pos w) c

wrap_to_id :
    (s : Bool) (v : ℤ) (m half : ℕ)
    → 0 < half
    → m ≡ 2 * half
    → let (lo, hi) : ℤ × ℤ =
        l.Base.if◌then◌else◌ s (sub_ℕ 0 half, pos (half - 1)) (pos 0, pos (m - 1)) in
      (lo ≤ℤ v) → (v ≤ℤ hi) → wrap_to m half s v ≡ v
unfolding wrap_to floor_mod
wrap_to_id true (pos n) m half h e lo hi =
    let q = mod-eq_of_lt {n = n} {m = m} (omega arith) in ground (arith, q)
wrap_to_id true (negsuc n) m half h e lo hi =
    let q = mod-eq_of_lt {n = n} {m = m} (ground arith) in ground (arith, q)
wrap_to_id false (pos n) m half h e lo hi = ap_pos (mod-eq_of_lt {n = n} {m = m} (omega arith))
  where
    ap_pos : {a b : ℕ} → a ≡ b → pos a ≡ pos b
    ap_pos q = ground (arith, q)
wrap_to_id false (negsuc n) m half h e lo hi = absurd (omega arith)

-- A value in range is left alone.
pub wrap_int_id : (v : ℤ) (i : Layout) → IsLayout i → Fits i v → wrap_int v i ≡ v
unfolding wrap_int int_lo int_hi
wrap_int_id v (w, true) h (lo, hi) =
    wrap_to_id true v (2 ^ w) (2 ^ (w - 1)) (pow_pos (w - 1)) (pow_half w h) lo hi
wrap_int_id v (w, false) h (lo, hi) =
    wrap_to_id false v (2 ^ w) (2 ^ (w - 1)) (pow_pos (w - 1)) (pow_half w h) lo hi

-- For a type of at least one bit, wrapping gives the one value in the range of the type that differs
-- from the argument by a multiple of 2 ^ w.
pub wrap_int_lem :
    (v u : ℤ) (w : ℕ) (s : Bool)
    → 0 < w
    → ((Fits (w, s) u × Cong (2 ^ w) u v) → wrap_int v (w, s) ≡ u)
      × (wrap_int v (w, s) ≡ u → Fits (w, s) u × Cong (2 ^ w) u v)
wrap_int_lem v u w s h = (
  λ (f, c). sym (wrap_int_unique u v w s c) ∙ wrap_int_id u (w, s) h f,
  λ e. (
    subst (Fits (w, s)) e (wrap_int-Fits v (w, s) h),
    subst (λ x. Cong (2 ^ w) x v) e (wrap_int-Cong v w s),
  ),
)
