-- ===== src/Base/Dict.antt =====
-- Python's `dict` with text keys, as the list of its entries in insertion order.
use l.Base.{
  String, ◌≡◌, refl, Option, none, some, List, [], ◌∷◌, arith, str_eq, eq_iff, if◌then◌else◌,
  Bool-cases, inl, inr, ap, sym,
}
use text.Mathlib.TextPositions.{eq_refl}

abbrev pub Dict {ℓ} : Type ℓ → Type ℓ
Dict V = List (String × V)

module _ {ℓ} {V : Type ℓ} where
  -- d.get(key)
  unfoldable pub lookup : String → Dict V → Option V
  lookup key ((first, val) ∷ rest) = if str_eq first key then some val else lookup key rest
  lookup key [] = none

  -- d[key] = val
  unfoldable pub insert : String → V → Dict V → Dict V
  insert key val ((first, old) ∷ rest) =
      if str_eq first key then (key, val) ∷ rest else (first, old) ∷ insert key val rest
  insert key val [] = (key, val) ∷ []

  pub lookup-insert :
      (key other : String) (val : V) (d : Dict V)
      → lookup other (insert key val d) ≡ (if str_eq key other then some val else lookup other d)
  unfolding lookup insert
  lookup-insert key other val ((first, old) ∷ rest) =
      let later = lookup-insert key other val rest in
      ground (arith, eq_iff key other, eq_iff first key, eq_iff first other, later)
  lookup-insert key other val [] = refl

  pub lookup-insert_self :
      (key : String) (val : V) (d : Dict V) → lookup key (insert key val d) ≡ some val
  lookup-insert_self key val d = simp (lookup-insert, eq_refl)

-- every entry that m has, n has
abbrev pub ◌⊑◌ {ℓ} : {V : Type ℓ} → Dict V → Dict V → Type ℓ
◌⊑◌ {V} m n = (k : String) (v : V) → lookup k m ≡ some v → lookup k n ≡ some v

infix 4 ◌⊑◌
module _ {ℓ} {V : Type ℓ} where
  pub ⊑-refl : (m : Dict V) → m ⊑ m
  ⊑-refl m k v h = h

  pub ⊑-trans : (m n o : Dict V) → m ⊑ n → n ⊑ o → m ⊑ o
  ⊑-trans m n o p q k v h = q k v (p k v h)

  -- an entry that is new, or is there already with this value
  pub ⊑-insert :
      (k : String) (v : V) (m : Dict V) → ((w : V) → lookup k m ≡ some w → w ≡ v) → m ⊑ insert k v m
  ⊑-insert k v m same j w h = rw (lookup-insert k j v m) (elim (Bool-cases (str_eq k j)) [
    | inl e ↦ rw e (ap some (sym (same w (rw (← (eq_iff k j).0 e) at h))))
    | inr e ↦ rw e h
  ])
