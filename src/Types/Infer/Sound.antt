-- ===== src/Types/Infer/Sound.antt =====
-- What a successful `unify` has found.
use mathlib.Core.Path.{subst}
use l.Base.{
  String, Bool, true, false, Option, none, some, ◌&&◌, ◌≡◌, refl, ap, ◌∙◌, sym, Option-cases,
  Bool-cases, inl, inr, if◌then◌else◌, not, and_left, and_right, true_ne_false,
}
use l.Base.Dict.{Dict, lookup, insert, lookup-insert_self, ◌⊑◌, ⊑-refl, ⊑-trans, ⊑-insert}
use l.Base.Results.{ok, err, ◌>>=◌}
use l.Types.{Ty, Tys, unit, name, opt, ref, array, const_array, fn, param, nil, cons, qname_eq}
use l.Types.Equality.{ty_eq, same_length, ty_eq→eq, qname_eq→eq}
use l.Types.Subst.{
  substitute, substitute_all, is_fully_bound, all_bound, substitute-extend, substitute_all-extend,
}
use l.Types.Infer.{unify, unify_all, bind_param, clashes, reject, Unified, InferError}

-- A type with the read-only mark of its arrays forgotten: its kinds and names.
abbrev mutual
  pub erase : Ty → Ty
  erase unit = unit
  erase (name q ts) = name q (erase_all ts)
  erase (opt t) = opt (erase t)
  erase (ref t) = ref (erase t)
  erase (array t) = array (erase t)
  erase (const_array t) = array (erase t)
  erase (fn ps r) = fn (erase_all ps) (erase r)
  erase (param n) = param n

  pub erase_all : Tys → Tys
  erase_all nil = nil
  erase_all (cons t ts) = cons (erase t) (erase_all ts)

-- The map n extends m, binds every parameter of p, and takes p to a but for read-only marks.
pub record Solves (p a : Ty) (m n : Dict Ty) : Type 0 where
  pub extends : m ⊑ n
  pub bound : is_fully_bound p n ≡ true
  pub equal : erase (substitute p n) ≡ erase a

pub record SolvesAll (ps as' : Tys) (m n : Dict Ty) : Type 0 where
  pub extends : m ⊑ n
  pub bound : all_bound ps n ≡ true
  pub equal : erase_all (substitute_all ps n) ≡ erase_all as'

no_clash : (o : Option Ty) (a : Ty) → clashes o a ≡ false → (w : Ty) → o ≡ some w → w ≡ a
no_clash none a h w e = cc
no_clash (some t) a h w e = ground_eq (Bool-cases (ty_eq t a))
  where
    ground_eq : l.Base.◌⊎◌ (ty_eq t a ≡ true) (ty_eq t a ≡ false) → w ≡ a
    ground_eq (inl p) = cc (ty_eq→eq t a p)
    ground_eq (inr p) = let k = rw p at h in cc

not-reject : (soft : Bool) (e : InferError) (m n : Dict Ty) → reject soft e m ≡ ok (true, n) → ⊥
not-reject true e m n h = cc
not-reject false e m n h = cc

insert-Solves :
    (x : String) (a : Ty) (m : Dict Ty)
    → clashes (lookup x m) a ≡ false
    → Solves (param x) a m (insert x a m)
unfolding is_fully_bound substitute
insert-Solves x a m c = record {
  extends = ⊑-insert x a m (no_clash (lookup x m) a c);
  bound = rw (lookup-insert_self x a m);
  equal = rw (lookup-insert_self x a m);
}

abbrev accepted : Dict Ty → Unified
accepted m = ok (true, m)

second : {m n : Dict Ty} → accepted m ≡ ok (true, n) → m ≡ n
second h = cc

bind_param-Solves :
    (soft : Bool) (x : String) (a : Ty) (m n : Dict Ty)
    → bind_param soft x a m ≡ ok (true, n)
    → Solves (param x) a m n
unfolding bind_param
bind_param-Solves soft x a m n h = elim (Bool-cases (clashes (lookup x m) a)) [
  | inl c ↦ absurd (not-reject soft InferError.conflicting_inference m n (rw c at h))
  | inr c ↦ subst (Solves (param x) a m) (second (rw c at h)) (insert-Solves x a m c)
]

-- both parts of a function type were solved, one after the other
fn_inv :
    (r : Unified) (k : Dict Ty → Unified) (n : Dict Ty)
    → (r >>= λ (x, m₁). k m₁ >>= λ (y, m₂). ok (y && x, m₂)) ≡ accepted n
    → (m₁ : Dict Ty) × (r ≡ accepted m₁) × (k m₁ ≡ accepted n)
fn_inv (err e) k n h = cc
fn_inv (ok (x, m₁)) k n h = go x (k m₁) refl h
  where
    go :
        (x : Bool) (q : Unified)
        → k m₁ ≡ q
        → (q >>= λ (y, m₂). ok (y && x, m₂)) ≡ accepted n
        → (m₂ : Dict Ty) × (ok (x, m₁) ≡ accepted m₂) × (k m₂ ≡ accepted n)
    go x (err e) p h = cc
    go true (ok (true, m₂)) p h = (m₁, refl, cc)
    go true (ok (false, m₂)) p h = cc
    go false (ok (true, m₂)) p h = cc
    go false (ok (false, m₂)) p h = cc

cons_inv :
    (r : Unified) (k : Dict Ty → Unified) (n : Dict Ty)
    → (r >>= λ (done, m₁). elim done [ true ↦ k m₁ | false ↦ ok (false, m₁) ]) ≡ accepted n
    → (m₁ : Dict Ty) × (r ≡ accepted m₁) × (k m₁ ≡ accepted n)
cons_inv (err e) k n h = cc
cons_inv (ok (true, m₁)) k n h = (m₁, refl, h)
cons_inv (ok (false, m₁)) k n h = cc

join-SolvesAll :
    (p a : Ty) (ps as' : Tys) (m m₁ n : Dict Ty)
    → Solves p a m m₁
    → SolvesAll ps as' m₁ n
    → SolvesAll (cons p ps) (cons a as') m n
unfolding is_fully_bound substitute
join-SolvesAll p a ps as' m m₁ n s t =
    let (b, e) = substitute-extend p m₁ n t.extends s.bound in
    record {
      extends = ⊑-trans m m₁ n s.extends t.extends;
      bound = rw b t.bound;
      equal = cc (ap erase e, s.equal, t.equal);
    }

join-Solves :
    (p a : Ty) (ps as' : Tys) (m m₁ n : Dict Ty)
    → SolvesAll ps as' m m₁
    → Solves p a m₁ n
    → Solves (fn ps p) (fn as' a) m n
unfolding is_fully_bound substitute
join-Solves p a ps as' m m₁ n s t =
    let (b, e) = substitute_all-extend ps m₁ n t.extends s.bound in
    record {
      extends = ⊑-trans m m₁ n s.extends t.extends;
      bound = rw b t.bound;
      equal = cc (ap erase_all e, s.equal, t.equal);
    }

mutual
  unfolding unify same_length is_fully_bound substitute

  unify-Solves :
      (soft : Bool) (p a : Ty) (m n : Dict Ty) → unify soft p a m ≡ ok (true, n) → Solves p a m n
  unify-Solves soft (param x) a m n h = bind_param-Solves soft x a m n h
  unify-Solves soft unit unit m n h = record {
    extends = subst (λ k. m ⊑ k) (second h) (⊑-refl m);
    bound = refl;
    equal = refl;
  }
  unify-Solves soft (name p as') (name q bs) m n h =
      elim (Bool-cases (qname_eq p q && same_length as' bs)) [
        | inl t ↦
            let s =
              unify_all-SolvesAll soft as' bs m n (and_right (qname_eq p q) (same_length as' bs) t)
                (rw t at h) in
            let e = qname_eq→eq p q (and_left (qname_eq p q) (same_length as' bs) t) in
            record { extends = s.extends; bound = s.bound; equal = cc (e, s.equal) }
        | inr t ↦ absurd (not-reject soft InferError.name_mismatch m n (rw t at h))
      ]
  unify-Solves soft (opt p) (opt a) m n h =
      let s = unify-Solves soft p a m n h in
      record { extends = s.extends; bound = s.bound; equal = ap opt s.equal }
  unify-Solves soft (ref p) (ref a) m n h =
      let s = unify-Solves soft p a m n h in
      record { extends = s.extends; bound = s.bound; equal = ap ref s.equal }
  unify-Solves soft (array p) (array a) m n h =
      let s = unify-Solves soft p a m n h in
      record { extends = s.extends; bound = s.bound; equal = ap array s.equal }
  unify-Solves soft (array p) (const_array a) m n h =
      let s = unify-Solves soft p a m n h in
      record { extends = s.extends; bound = s.bound; equal = ap array s.equal }
  unify-Solves soft (const_array p) (array a) m n h =
      let s = unify-Solves soft p a m n h in
      record { extends = s.extends; bound = s.bound; equal = ap array s.equal }
  unify-Solves soft (const_array p) (const_array a) m n h =
      let s = unify-Solves soft p a m n h in
      record { extends = s.extends; bound = s.bound; equal = ap array s.equal }
  unify-Solves soft (fn ps p) (fn as' a) m n h = elim (Bool-cases (same_length ps as')) [
    | inl t ↦
        let (m₁, e, f) = fn_inv (unify_all soft ps as' m) (λ k. unify soft p a k) n (rw t at h) in
        join-Solves p a ps as' m m₁ n (unify_all-SolvesAll soft ps as' m m₁ t e)
          (unify-Solves soft p a m₁ n f)
    | inr t ↦ absurd (not-reject soft InferError.arity_mismatch m n (rw t at h))
  ]
  unify-Solves soft _ _ m n h = absurd (not-reject soft InferError.kind_mismatch m n h)

  unify_all-SolvesAll :
      (soft : Bool) (ps as' : Tys) (m n : Dict Ty)
      → same_length ps as' ≡ true
      → unify_all soft ps as' m ≡ ok (true, n)
      → SolvesAll ps as' m n
  unify_all-SolvesAll soft nil nil m n l h = record {
    extends = subst (λ k. m ⊑ k) (second h) (⊑-refl m);
    bound = refl;
    equal = refl;
  }
  unify_all-SolvesAll soft (cons p ps) (cons a as') m n l h =
      let (m₁, e, f) = cons_inv (unify soft p a m) (λ k. unify_all soft ps as' k) n h in
      join-SolvesAll p a ps as' m m₁ n (unify-Solves soft p a m m₁ e)
        (unify_all-SolvesAll soft ps as' m₁ n l f)
  unify_all-SolvesAll soft nil (cons a as') m n l h = true_ne_false l refl
  unify_all-SolvesAll soft (cons p ps) nil m n l h = true_ne_false l refl

-- A successful inference keeps the bindings that it was given, binds every parameter of the
-- parameter type, and the parameter type under the new bindings is the argument's type but for
-- read-only marks of arrays.
pub unify_sound :
    (soft : Bool) (p a : Ty) (m n : Dict Ty)
    → unify soft p a m ≡ ok (true, n)
    → (m ⊑ n) × (is_fully_bound p n ≡ true) × (erase (substitute p n) ≡ erase a)
unify_sound soft p a m n h = let s = unify-Solves soft p a m n h in (s.extends, s.bound, s.equal)
