-- ===== src/Types/Subst.antt =====
-- `substitute` and `Checker.is_fully_bound`: generic parameters replaced by types.
use l.Base.{
  Bool, true, false, Option, none, some, ◌&&◌, ◌≡◌, refl, ap, Option-cases, inl, inr, and_left,
  and_right,
}
use l.Base.Dict.{Dict, lookup, ◌⊑◌}
use l.Types.{Ty, Tys, unit, name, opt, ref, array, const_array, fn, param, nil, cons}

-- m.get(n, t)
abbrev pub get_or {ℓ} : {A : Type ℓ} → Option A → A → A
get_or none t = t
get_or (some u) t = u

unfoldable mutual
  pub substitute : Ty → Dict Ty → Ty
  substitute (const_array t) m = const_array (substitute t m)
  substitute (param n) m = get_or (lookup n m) (param n)
  substitute (name q args) m = name q (substitute_all args m)
  substitute (opt t) m = opt (substitute t m)
  substitute (ref t) m = ref (substitute t m)
  substitute (array t) m = array (substitute t m)
  substitute (fn ps r) m = fn (substitute_all ps m) (substitute r m)
  substitute unit m = unit

  pub substitute_all : Tys → Dict Ty → Tys
  substitute_all nil m = nil
  substitute_all (cons t ts) m = cons (substitute t m) (substitute_all ts m)

-- `n in m`
abbrev pub is_some {ℓ} : {A : Type ℓ} → Option A → Bool
is_some none = false
is_some (some _) = true

unfoldable mutual
  pub is_fully_bound : Ty → Dict Ty → Bool
  is_fully_bound (param n) m = is_some (lookup n m)
  is_fully_bound (name q args) m = all_bound args m
  is_fully_bound (opt t) m = is_fully_bound t m
  is_fully_bound (ref t) m = is_fully_bound t m
  is_fully_bound (array t) m = is_fully_bound t m
  is_fully_bound (const_array t) m = is_fully_bound t m
  is_fully_bound (fn ps r) m = all_bound ps m && is_fully_bound r m
  is_fully_bound unit m = true

  pub all_bound : Tys → Dict Ty → Bool
  all_bound nil m = true
  all_bound (cons t ts) m = is_fully_bound t m && all_bound ts m

-- Once every parameter of a type is bound, later bindings change neither that nor the result.
mutual
  unfolding substitute is_fully_bound

  extend_ty :
      (t : Ty) (m n : Dict Ty)
      → m ⊑ n
      → is_fully_bound t m ≡ true
      → (is_fully_bound t n ≡ true) × (substitute t n ≡ substitute t m)
  extend_ty (param x) m n e h = elim (Option-cases (lookup x m)) [
    | inl p ↦ let k = rw p at h in cc
    | inr (u, p) ↦ let q = e x u p in (rw q, rw (p, q))
  ]
  extend_ty (name q args) m n e h = let (b, s) = extend_tys args m n e h in (b, ap (name q) s)
  extend_ty (opt t) m n e h = let (b, s) = extend_ty t m n e h in (b, ap opt s)
  extend_ty (ref t) m n e h = let (b, s) = extend_ty t m n e h in (b, ap ref s)
  extend_ty (array t) m n e h = let (b, s) = extend_ty t m n e h in (b, ap array s)
  extend_ty (const_array t) m n e h = let (b, s) = extend_ty t m n e h in (b, ap const_array s)
  extend_ty (fn ps r) m n e h =
      let (b, s) = extend_tys ps m n e (and_left (all_bound ps m) (is_fully_bound r m) h) in
      let (c, u) = extend_ty r m n e (and_right (all_bound ps m) (is_fully_bound r m) h) in
      (rw b c, cc (s, u))
  extend_ty unit m n e h = (refl, refl)

  extend_tys :
      (ts : Tys) (m n : Dict Ty)
      → m ⊑ n
      → all_bound ts m ≡ true
      → (all_bound ts n ≡ true) × (substitute_all ts n ≡ substitute_all ts m)
  extend_tys nil m n e h = (refl, refl)
  extend_tys (cons t ts) m n e h =
      let (b, s) = extend_ty t m n e (and_left (is_fully_bound t m) (all_bound ts m) h) in
      let (c, u) = extend_tys ts m n e (and_right (is_fully_bound t m) (all_bound ts m) h) in
      (rw b c, cc (s, u))

pub substitute-extend :
    (t : Ty) (m n : Dict Ty)
    → m ⊑ n
    → is_fully_bound t m ≡ true
    → (is_fully_bound t n ≡ true) × (substitute t n ≡ substitute t m)
substitute-extend t m n = extend_ty t m n

pub substitute_all-extend :
    (ts : Tys) (m n : Dict Ty)
    → m ⊑ n
    → all_bound ts m ≡ true
    → (all_bound ts n ≡ true) × (substitute_all ts n ≡ substitute_all ts m)
substitute_all-extend ts m n = extend_tys ts m n
