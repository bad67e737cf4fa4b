-- ===== src/Scalar/Ring.antt =====
-- The results of `scalar_value` and `cast_value` against the range of a type and against wrapping.
use mathlib.Core.Path.{subst}
use l.Base.{
  ℕ, ◌+◌, ◌^◌, ◌<◌, ◌≡◌, ◌≢◌, ◌⊎◌, inl, inr, refl, ◌∙◌, ap, arith, Bool, true, false, ◌&&◌, leb,
  Bool-cases, if◌then◌else◌, some,
}
use l.Base.Int.{ℤ, pos, negsuc, ◌+ℤ◌, ◌-ℤ◌, ◌*ℤ◌}
use l.Base.Results.{Result, ok, err}
use l.Types.{Layout}
use l.Scalar.{
  wrap_int, Op, scalar_int, Fault, cast_int, int_lo, int_hi, leb_ℤ, fits, cast_truncated,
  cast_out_of_range,
}
use l.Scalar.Ints.{Cong-add, Cong-sub, Cong-mul, Cong-narrow}
use l.Scalar.Range.{Fits, IsLayout, wrap_int-Fits, wrap_int-Cong, wrap_int_unique, wrap_int_id}

abbrev value : ℤ → Result Fault ℤ
value v = ok v

ok_injective : {a b : ℤ} → value a ≡ ok b → a ≡ b
ok_injective h = cc

wrapped-Fits : (r v : ℤ) (i : Layout) → IsLayout i → value (wrap_int r i) ≡ ok v → Fits i v
wrapped-Fits r v i p h = subst (Fits i) (ok_injective h) (wrap_int-Fits r i p)

guarded-Fits :
    (t : Bool) (f : Fault) (r v : ℤ) (i : Layout)
    → IsLayout i
    → (if t then err f else ok (wrap_int r i)) ≡ ok v
    → Fits i v
guarded-Fits true f r v i p h = cc
guarded-Fits false f r v i p h = wrapped-Fits r v i p h

-- Whatever the operator and the operands, a result lies in the range of the type, for a type of at
-- least one bit.
pub scalar_int-Fits :
    (op : Op) (a b v : ℤ) (i : Layout) → IsLayout i → scalar_int op a b i ≡ ok v → Fits i v
unfolding scalar_int
scalar_int-Fits Op.shl a (pos b) v (w, s) p h = guarded-Fits (leb w b) _ _ v (w, s) p h
scalar_int-Fits Op.shl a (negsuc b) v i p h = cc
scalar_int-Fits Op.shr a (pos b) v (w, s) p h = guarded-Fits (leb w b) _ _ v (w, s) p h
scalar_int-Fits Op.shr a (negsuc b) v i p h = cc
scalar_int-Fits Op.band a b v i p h = wrapped-Fits _ v i p h
scalar_int-Fits Op.bor a b v i p h = wrapped-Fits _ v i p h
scalar_int-Fits Op.bxor a b v i p h = wrapped-Fits _ v i p h
scalar_int-Fits Op.add a b v i p h = wrapped-Fits _ v i p h
scalar_int-Fits Op.sub a b v i p h = wrapped-Fits _ v i p h
scalar_int-Fits Op.mul a b v i p h = wrapped-Fits _ v i p h
scalar_int-Fits Op.div a b v i p h = guarded-Fits _ _ _ v i p h
scalar_int-Fits Op.rem a b v i p h = guarded-Fits _ _ _ v i p h

-- Operands wrapped before an addition, a subtraction or a multiplication give what the same
-- operation gives on the operands themselves: integers modulo 2 ^ w.
pub scalar_int_ring :
    (a b : ℤ) (w : ℕ) (s : Bool)
    → let i : Layout = (w, s) in
      (scalar_int Op.add (wrap_int a i) (wrap_int b i) i ≡ scalar_int Op.add a b i)
      × (scalar_int Op.sub (wrap_int a i) (wrap_int b i) i ≡ scalar_int Op.sub a b i)
      × (scalar_int Op.mul (wrap_int a i) (wrap_int b i) i ≡ scalar_int Op.mul a b i)
unfolding scalar_int
scalar_int_ring a b w s =
    let i : Layout = (w, s) in
    let p = wrap_int-Cong a w s in
    let q = wrap_int-Cong b w s in
    let m = 2 ^ w in
    let wa = wrap_int a i in
    let wb = wrap_int b i in
    (
      ap ok (wrap_int_unique (wa +ℤ wb) (a +ℤ b) w s (Cong-add m wa a wb b p q)),
      ap ok (wrap_int_unique (wa -ℤ wb) (a -ℤ b) w s (Cong-sub m wa a wb b p q)),
      ap ok (wrap_int_unique (wa *ℤ wb) (a *ℤ b) w s (Cong-mul m wa a wb b p q)),
    )

-- A value in the range of a type of at least one bit, cast to a type of at least its width and back,
-- gives the value that was there.
pub cast_int_widen :
    (v : ℤ) (w k : ℕ) (s t : Bool)
    → 0 < w
    → Fits (w, s) v
    → cast_int (cast_int v (k + w, t)) (w, s) ≡ v
unfolding cast_int
cast_int_widen v w k s t h f =
    wrap_int_unique (wrap_int v (k + w, t)) v w s
      (Cong-narrow w k (wrap_int v (k + w, t)) v (wrap_int-Cong v (k + w) t))
    ∙ wrap_int_id v (w, s) h f

-- A cast through a type of at least the width makes no difference.
pub cast_int_through :
    (v : ℤ) (w k : ℕ) (s t : Bool) → cast_int (cast_int v (k + w, t)) (w, s) ≡ cast_int v (w, s)
unfolding cast_int
cast_int_through v w k s t =
    wrap_int_unique (wrap_int v (k + w, t)) v w s
      (Cong-narrow w k (wrap_int v (k + w, t)) v (wrap_int-Cong v (k + w) t))

fits_iff : (v : ℤ) (i : Layout) → (fits v i ≡ true → Fits i v) × (Fits i v → fits v i ≡ true)
unfolding fits
fits_iff v i =
    (λ h. within (leb_ℤ (int_lo i) v) (leb_ℤ v (int_hi i)) refl refl h, λ f. ground arith)
  where
    within :
        (a b : Bool) → leb_ℤ (int_lo i) v ≡ a → leb_ℤ v (int_hi i) ≡ b → (a && b) ≡ true → Fits i v
    within true true p q h = ground arith
    within true false p q h = cc
    within false b p q h = cc

-- A finite float whose truncation is v casts to a type of at least one bit as v where the wrapping cast
-- of v leaves v as it is, and faults where it would change v.
pub cast_truncated_lem :
    (v : ℤ) (i : Layout)
    → IsLayout i
    → ((cast_int v i ≡ v) × (cast_truncated (some v) i ≡ ok v))
      ⊎ ((cast_int v i ≢ v) × (cast_truncated (some v) i ≡ err cast_out_of_range))
unfolding cast_truncated cast_int
cast_truncated_lem v i w = elim (Bool-cases (fits v i)) [
  | inl p ↦ inl (wrap_int_id v i w ((fits_iff v i).0 p), rw p refl)
  | inr p ↦ inr (λ e. changed p (subst (Fits i) e (wrap_int-Fits v i w)), rw p refl)
]
  where
    changed : fits v i ≡ false → Fits i v → ⊥
    changed p f = let q = (fits_iff v i).1 f in cc
