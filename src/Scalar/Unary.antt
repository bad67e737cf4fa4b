-- ===== src/Scalar/Unary.antt =====
-- The unary operators `-` and `~` of the interpreter on integers.
use mathlib.Core.Path.{subst}
use l.Base.{ℕ, ◌^◌, ◌<◌, ◌≡◌, refl, ap, ◌∙◌, Bool, arith}
use l.Base.Int.{ℤ, pos, negsuc, ◌-ℤ◌}
use l.Base.Results.{ok}
use l.Scalar.{wrap_int, Op, scalar_int, negate_int, invert_int, not_ℤ}
use l.Scalar.Words.{Cong, Cong-refl}
use l.Scalar.Ints.{Cong-sub, eq_of_parts, -ℤ_parts}
use l.Scalar.Range.{Fits, wrap_int-Cong, wrap_int_unique, wrap_int_id}

not_ℤ-eq : (v : ℤ) → (pos 0 -ℤ v) -ℤ pos 1 ≡ not_ℤ v
not_ℤ-eq (pos n) =
    eq_of_parts _ _ (omega (arith, -ℤ_parts (pos 0 -ℤ pos n) (pos 1), -ℤ_parts (pos 0) (pos n)))
not_ℤ-eq (negsuc n) =
    eq_of_parts _ _
      (omega (arith, -ℤ_parts (pos 0 -ℤ negsuc n) (pos 1), -ℤ_parts (pos 0) (negsuc n)))

negate_twice : (v : ℤ) → pos 0 -ℤ (pos 0 -ℤ v) ≡ v
negate_twice v = eq_of_parts _ _ (omega (arith, -ℤ_parts (pos 0) (pos 0 -ℤ v), -ℤ_parts (pos 0) v))

not_twice : (v : ℤ) → not_ℤ (not_ℤ v) ≡ v
not_twice (pos n) = refl
not_twice (negsuc n) = refl

Cong-not_ℤ : (m : ℕ) (a b : ℤ) → Cong m a b → Cong m (not_ℤ a) (not_ℤ b)
Cong-not_ℤ m a b c =
    let step =
      Cong-sub m (pos 0 -ℤ a) (pos 0 -ℤ b) (pos 1) (pos 1)
        (Cong-sub m (pos 0) (pos 0) a b (Cong-refl m (pos 0)) c) (Cong-refl m (pos 1)) in
    subst (λ t. Cong m (not_ℤ a) t) (not_ℤ-eq b)
      (subst (λ t. Cong m t ((pos 0 -ℤ b) -ℤ pos 1)) (not_ℤ-eq a) step)

-- For a value in the range of a type of at least one bit, the interpreter's `-` and `~` each undo
-- themselves, and `~` is `-` with one subtracted.
pub unary_lem :
    (v : ℤ) (w : ℕ) (s : Bool)
    → 0 < w
    → Fits (w, s) v
    → (negate_int (negate_int v (w, s)) (w, s) ≡ v)
      × (invert_int (invert_int v (w, s)) (w, s) ≡ v)
      × (scalar_int Op.sub (negate_int v (w, s)) (pos 1) (w, s) ≡ ok (invert_int v (w, s)))
unfolding scalar_int negate_int invert_int
unary_lem v w s p f =
    let i : ℕ × Bool = (w, s) in
    let m = 2 ^ w in
    let neg = wrap_int (pos 0 -ℤ v) i in
    let negs = wrap_int-Cong (pos 0 -ℤ v) w s in
    let back = Cong-sub m (pos 0) (pos 0) neg (pos 0 -ℤ v) (Cong-refl m (pos 0)) negs in
    let inv = wrap_int (not_ℤ v) i in
    (
      wrap_int_unique (pos 0 -ℤ neg) v w s
            (subst (λ t. Cong m (pos 0 -ℤ neg) t) (negate_twice v) back)
          ∙ wrap_int_id v i p f,
      wrap_int_unique (not_ℤ inv) v w s (
            subst (λ t. Cong m (not_ℤ inv) t) (not_twice v)
              (Cong-not_ℤ m inv (not_ℤ v) (wrap_int-Cong (not_ℤ v) w s)))
          ∙ wrap_int_id v i p f,
      ap ok (
          wrap_int_unique (neg -ℤ pos 1) (not_ℤ v) w s (
            subst (λ t. Cong m (neg -ℤ pos 1) t) (not_ℤ-eq v)
              (Cong-sub m neg (pos 0 -ℤ v) (pos 1) (pos 1) negs (Cong-refl m (pos 1))))),
    )
