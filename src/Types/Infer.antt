-- ===== src/Types/Infer.antt =====
-- `Checker.unify`: inference of the generic arguments of a call.
pub mod Sound
use l.Base.{
  String, Bool, true, false, Option, none, some, ◌&&◌, arith, ◌≡◌, refl, ap, ◌∙◌, sym, Option-cases,
  Bool-cases, ◌⊎◌, inl, inr, if◌then◌else◌, not, str_eq, eq_iff, and_left, and_right, List,
}
use l.Base.Dict.{Dict, lookup, insert, lookup-insert_self, ◌⊑◌, ⊑-refl, ⊑-trans, ⊑-insert}
use l.Base.Results.{Result, ok, err, ◌>>=◌}
use l.Types.{Ty, Tys, unit, name, opt, ref, array, const_array, fn, param, nil, cons, qname_eq}
use l.Types.Equality.{ty_eq, same_length, ty_eq→eq, ty_eq_refl, qname_eq→eq, qname_eq_refl}
use l.Types.Subst.{
  substitute, substitute_all, is_fully_bound, all_bound, substitute-extend, substitute_all-extend,
}

-- the four `LangError`s of `unify`
pub data InferError : Type 0 where
  conflicting_inference kind_mismatch name_mismatch arity_mismatch : InferError

-- The result is the returned Boolean and the map, which the calls share and extend in place.
abbrev pub Unified : Type 0
Unified = Result InferError (Bool × Dict Ty)

-- a failed test: `return False` where soft, the error otherwise
abbrev pub reject : Bool → InferError → Dict Ty → Unified
reject soft e m = if soft then ok (false, m) else err e

-- n in m and m[n] != a
abbrev pub clashes : Option Ty → Ty → Bool
clashes none a = false
clashes (some t) a = not (ty_eq t a)

pub bind_param : Bool → String → Ty → Dict Ty → Unified
bind_param soft n a m =
    if clashes (lookup n m) a then reject soft conflicting_inference m else ok (true, insert n a m)

unfoldable mutual
  unfolding bind_param

  -- A read-only array has the kind "array" too, so it matches any array.
  pub unify : Bool → Ty → Ty → Dict Ty → Unified
  unify soft (param n) a m = bind_param soft n a m
  unify soft unit unit m = ok (true, m)
  unify soft (name p as') (name q bs) m =
      if qname_eq p q && same_length as' bs
      then unify_all soft as' bs m
      else reject soft name_mismatch m
  unify soft (opt p) (opt a) m = unify soft p a m
  unify soft (ref p) (ref a) m = unify soft p a m
  unify soft (array p) (array a) m = unify soft p a m
  unify soft (array p) (const_array a) m = unify soft p a m
  unify soft (const_array p) (array a) m = unify soft p a m
  unify soft (const_array p) (const_array a) m = unify soft p a m
  unify soft (fn ps p) (fn as' a) m =
      let both : Unified = (do
        (args_ok, m₁) ← unify_all soft ps as' m
        (result_ok, m₂) ← unify soft p a m₁
        ok (result_ok && args_ok, m₂)) in
      if same_length ps as' then both else reject soft arity_mismatch m
  unify soft _ _ m = reject soft kind_mismatch m

  -- all(unify(x, y) for x, y in zip(ps, as)): the first False ends the walk
  pub unify_all : Bool → Tys → Tys → Dict Ty → Unified
  unify_all soft (cons p ps) (cons a as') m = do
    (done, m₁) ← unify soft p a m
    elim done [ true ↦ unify_all soft ps as' m₁ | false ↦ ok (false, m₁) ]
  unify_all soft _ _ m = ok (true, m)
