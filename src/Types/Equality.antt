-- ===== src/Types/Equality.antt =====
-- `==` on types, and `same_type`.
use l.Base.{
  String, Bool, true, false, List, [], ◌∷◌, ◌&&◌, str_eq, eq_iff, arith, ◌≡◌, refl, ap, ◌↔◌,
  and_left, and_right,
}
use l.Types.{Ty, Tys, unit, name, opt, ref, array, const_array, fn, param, nil, cons, qname_eq}

-- The `==` that the dataclass `Ty` and `ConstArrayTy.__eq__` define: the same class, kind and
-- children.
unfoldable mutual
  pub ty_eq : Ty → Ty → Bool
  ty_eq unit unit = true
  ty_eq (name p as') (name q bs) = qname_eq p q && tys_eq as' bs
  ty_eq (opt a) (opt b) = ty_eq a b
  ty_eq (ref a) (ref b) = ty_eq a b
  ty_eq (array a) (array b) = ty_eq a b
  ty_eq (const_array a) (const_array b) = ty_eq a b
  ty_eq (fn as' a) (fn bs b) = tys_eq as' bs && ty_eq a b
  ty_eq (param m) (param n) = str_eq m n
  ty_eq _ _ = false

  pub tys_eq : Tys → Tys → Bool
  tys_eq nil nil = true
  tys_eq (cons a as') (cons b bs) = ty_eq a b && tys_eq as' bs
  tys_eq _ _ = false

-- len(xs) == len(ys)
unfoldable pub same_length : Tys → Tys → Bool
same_length nil nil = true
same_length (cons _ as') (cons _ bs) = same_length as' bs
same_length _ _ = false

-- `same_type` walks ordinary types and leaves a read-only array to `==`.
unfoldable mutual
  unfolding ty_eq same_length

  pub same_type : Ty → Ty → Bool
  same_type (const_array a) b = ty_eq (const_array a) b
  same_type unit unit = ty_eq unit unit
  same_type (name p as') (name q bs) = qname_eq p q && (same_length as' bs && all_same as' bs)
  same_type (opt a) (opt b) = same_type a b
  same_type (ref a) (ref b) = same_type a b
  same_type (array a) (array b) = same_type a b
  same_type (fn as' a) (fn bs b) = same_length as' bs && (all_same as' bs && same_type a b)
  same_type (param m) (param n) = ty_eq (param m) (param n)
  same_type _ _ = false

  -- all(same_type(x, y) for x, y in zip(xs, ys))
  pub all_same : Tys → Tys → Bool
  all_same (cons a as') (cons b bs) = same_type a b && all_same as' bs
  all_same _ _ = true

pub qname_eq→eq : (p q : List String) → qname_eq p q ≡ true → p ≡ q
qname_eq→eq [] [] h = refl
qname_eq→eq [] (b ∷ bs) h = cc
qname_eq→eq (a ∷ as') [] h = cc
qname_eq→eq (a ∷ as') (b ∷ bs) h = ground (arith, eq_iff a b, qname_eq→eq as' bs)

pub qname_eq_refl : (p : List String) → qname_eq p p ≡ true
qname_eq_refl [] = refl
qname_eq_refl (a ∷ as') = ground (arith, eq_iff a a, qname_eq_refl as')

mutual
  unfolding ty_eq

  ty_eq_sound : (a b : Ty) → ty_eq a b ≡ true → a ≡ b
  ty_eq_sound unit unit h = refl
  ty_eq_sound (name p as') (name q bs) h = cc (
    qname_eq→eq p q (and_left (qname_eq p q) (tys_eq as' bs) h),
    tys_eq_sound as' bs (and_right (qname_eq p q) (tys_eq as' bs) h),
  )
  ty_eq_sound (opt a) (opt b) h = ap opt (ty_eq_sound a b h)
  ty_eq_sound (ref a) (ref b) h = ap ref (ty_eq_sound a b h)
  ty_eq_sound (array a) (array b) h = ap array (ty_eq_sound a b h)
  ty_eq_sound (const_array a) (const_array b) h = ap const_array (ty_eq_sound a b h)
  ty_eq_sound (fn as' a) (fn bs b) h = cc (
    ty_eq_sound a b (and_right (tys_eq as' bs) (ty_eq a b) h),
    tys_eq_sound as' bs (and_left (tys_eq as' bs) (ty_eq a b) h),
  )
  ty_eq_sound (param m) (param n) h = ap param ((eq_iff m n).0 h)
  ty_eq_sound _ _ h = cc

  tys_eq_sound : (as' bs : Tys) → tys_eq as' bs ≡ true → as' ≡ bs
  tys_eq_sound nil nil h = refl
  tys_eq_sound (cons a as') (cons b bs) h = cc (
    ty_eq_sound a b (and_left (ty_eq a b) (tys_eq as' bs) h),
    tys_eq_sound as' bs (and_right (ty_eq a b) (tys_eq as' bs) h),
  )
  tys_eq_sound _ _ h = cc

mutual
  unfolding ty_eq

  ty_eq_self : (a : Ty) → ty_eq a a ≡ true
  ty_eq_self unit = refl
  ty_eq_self (name p as') = rw (qname_eq_refl p) (tys_eq_self as')
  ty_eq_self (opt a) = ty_eq_self a
  ty_eq_self (ref a) = ty_eq_self a
  ty_eq_self (array a) = ty_eq_self a
  ty_eq_self (const_array a) = ty_eq_self a
  ty_eq_self (fn as' a) = rw (tys_eq_self as') (ty_eq_self a)
  ty_eq_self (param m) = (eq_iff m m).1 refl

  tys_eq_self : (as' : Tys) → tys_eq as' as' ≡ true
  tys_eq_self nil = refl
  tys_eq_self (cons a as') = rw (ty_eq_self a) (tys_eq_self as')

mutual
  unfolding same_type

  same_type_sound : (a b : Ty) → same_type a b ≡ true → a ≡ b
  same_type_sound (const_array a) b h = ty_eq_sound (const_array a) b h
  same_type_sound unit unit h = refl
  same_type_sound (name p as') (name q bs) h =
      let r = and_right (qname_eq p q) (same_length as' bs && all_same as' bs) h in
      cc (
        qname_eq→eq p q (and_left (qname_eq p q) (same_length as' bs && all_same as' bs) h),
        all_same_sound as' bs (and_left (same_length as' bs) (all_same as' bs) r)
            (and_right (same_length as' bs) (all_same as' bs) r),
      )
  same_type_sound (opt a) (opt b) h = ap opt (same_type_sound a b h)
  same_type_sound (ref a) (ref b) h = ap ref (same_type_sound a b h)
  same_type_sound (array a) (array b) h = ap array (same_type_sound a b h)
  same_type_sound (fn as' a) (fn bs b) h =
      let r = and_right (same_length as' bs) (all_same as' bs && same_type a b) h in
      cc (
        same_type_sound a b (and_right (all_same as' bs) (same_type a b) r),
        all_same_sound as' bs (and_left (same_length as' bs) (all_same as' bs && same_type a b) h)
            (and_left (all_same as' bs) (same_type a b) r),
      )
  same_type_sound (param m) (param n) h = ap param ((eq_iff m n).0 h)
  same_type_sound _ _ h = cc

  all_same_sound : (as' bs : Tys) → same_length as' bs ≡ true → all_same as' bs ≡ true → as' ≡ bs
  all_same_sound nil nil l h = refl
  all_same_sound (cons a as') (cons b bs) l h = cc (
    same_type_sound a b (and_left (same_type a b) (all_same as' bs) h),
    all_same_sound as' bs l (and_right (same_type a b) (all_same as' bs) h),
  )
  all_same_sound nil (cons b bs) l h = cc
  all_same_sound (cons a as') nil l h = cc

mutual
  unfolding same_type

  same_type_self : (a : Ty) → same_type a a ≡ true
  same_type_self unit = refl
  same_type_self (name p as') = rw (qname_eq_refl p, (all_same_self as').0, (all_same_self as').1)
  same_type_self (opt a) = same_type_self a
  same_type_self (ref a) = same_type_self a
  same_type_self (array a) = same_type_self a
  same_type_self (const_array a) = ty_eq_self (const_array a)
  same_type_self (fn as' a) = rw ((all_same_self as').0, (all_same_self as').1) (same_type_self a)
  same_type_self (param m) = ty_eq_self (param m)

  all_same_self : (as' : Tys) → (same_length as' as' ≡ true) × (all_same as' as' ≡ true)
  all_same_self nil = (refl, refl)
  all_same_self (cons a as') =
      ((all_same_self as').0, rw (same_type_self a) ((all_same_self as').1))

-- `same_type` and `==` both decide that two types are the same, read-only arrays included.
pub same_type_iff : (a b : Ty) → ((same_type a b ≡ true) ↔ (a ≡ b)) × ((ty_eq a b ≡ true) ↔ (a ≡ b))
same_type_iff a b = (
  (same_type_sound a b, λ e. rw e (same_type_self b)),
  (ty_eq_sound a b, λ e. rw e (ty_eq_self b)),
)

pub ty_eq→eq : (a b : Ty) → ty_eq a b ≡ true → a ≡ b
ty_eq→eq a b = ty_eq_sound a b

pub ty_eq_refl : (a : Ty) → ty_eq a a ≡ true
ty_eq_refl a = ty_eq_self a
