-- ===== src/Linker/Visible.antt =====
-- Which declarations the names of a rewritten type stand for.
use l.Base.{
  String, Bool, true, false, Option, none, some, List, [], ◌∷◌, ◌≡◌, refl, if◌then◌else◌, ℕ, ◌&&◌,
}
use l.Base.Dict.{lookup}
use l.Base.Results.{Result, ok, err, ◌>>=◌}
use l.Types.{Ty, Tys, nil, cons}
use l.Lexer.Chars.{codes, continues_name}
use l.Linker.{contains}
use l.Linker.Names.{
  LinkError, unknown_member, private_member, Names, internal_name, resolve_source_name, member_name,
  imported_name, own_name,
}
use l.Linker.Rewrite.{rewrite_ty, rewrite_tys, is_one_of, resolve}
use l.Linker.Holds.{Holds, Holds-bind}

-- a text of the characters of names
abbrev all_continue : List ℕ → Bool
all_continue [] = true
all_continue (c ∷ cs) = continues_name c && all_continue cs

abbrev pub IsWord : String → Type 0
IsWord n = all_continue (codes n) ≡ true

abbrev pub AreWords : List String → Type 0
AreWords [] = Unit
AreWords (n ∷ ns) = IsWord n × AreWords ns

-- Every name in the type is one that the lexer can read.
abbrev mutual
  pub IsSpelled : Ty → Type 0
  IsSpelled (Ty.name q ts) = AreWords q × AreSpelled ts
  IsSpelled (Ty.opt t) = IsSpelled t
  IsSpelled (Ty.ref t) = IsSpelled t
  IsSpelled (Ty.array t) = IsSpelled t
  IsSpelled (Ty.const_array t) = IsSpelled t
  IsSpelled (Ty.fn ps r) = AreSpelled ps × IsSpelled r
  IsSpelled Ty.unit = Unit
  IsSpelled (Ty.param n) = Unit

  pub AreSpelled : Tys → Type 0
  AreSpelled nil = Unit
  AreSpelled (cons t ts) = IsSpelled t × AreSpelled ts

module _ (parsed : List String → Option Names) (m : List String) (here : Names) where
  -- What a name of a module may stand for: a declaration of its own and a host module that it imports,
  -- under an internal name; what another source module declares and exports; and a name that is neither
  -- imported nor declared, as it stands, which the lexer can read and is no internal name therefore.
  pub data Visible : List String → List String → Type 0 where
    nothing : Visible [] []
    own :
        (n : String) (more : List String)
        → contains n here.tops ≡ true
        → Visible (n ∷ more) (internal_name m n ∷ more)
    host :
        (n : String) (more target : List String)
        → lookup n here.imports ≡ some target
        → parsed target ≡ none
        → Visible (n ∷ more) (internal_name m n ∷ more)
    exported :
        (a n : String) (more target : List String) (t : Names)
        → lookup a here.imports ≡ some target
        → parsed target ≡ some t
        → contains n t.tops ≡ true
        → contains n t.exports ≡ true
        → Visible (a ∷ n ∷ more) (internal_name target n ∷ more)
    kept :
        (n : String) (more : List String)
        → lookup n here.imports ≡ none
        → contains n here.tops ≡ false
        → IsWord n
        → Visible (n ∷ more) (n ∷ more)

  member-Visible :
      (a : String) (target rest : List String) (t : Names)
      → lookup a here.imports ≡ some target
      → parsed target ≡ some t
      → Holds (Visible (a ∷ rest)) (member_name target t rest)
  member-Visible a target [] t h k = tt
  member-Visible a target (n ∷ more) t h k = go (contains n t.tops) (contains n t.exports) refl refl
    where
      go :
          (x y : Bool)
          → contains n t.tops ≡ x
          → contains n t.exports ≡ y
          → Holds (Visible (a ∷ n ∷ more)) (
              if x
              then (if y then ok (internal_name target n ∷ more) else err (private_member target n))
              else err (unknown_member target n))
      go true true p q = exported a n more target t h k p q
      go true false p q = tt
      go false true p q = tt
      go false false p q = tt

  imported-Visible :
      (a : String) (target rest : List String)
      → lookup a here.imports ≡ some target
      → Holds (Visible (a ∷ rest)) (imported_name parsed m a target rest)
  imported-Visible a target rest h = go (parsed target) refl
    where
      go :
          (o : Option Names)
          → parsed target ≡ o
          → Holds (Visible (a ∷ rest)) (elim o as (λ _. Result LinkError (List String)) [
            | some t ↦ member_name target t rest
            | none ↦ ok (internal_name m a ∷ rest)
          ])
      go (some t) k = member-Visible a target rest t h k
      go none k = host a rest target h k

  own-Visible :
      (n : String) (rest : List String)
      → lookup n here.imports ≡ none
      → IsWord n
      → Visible (n ∷ rest) (own_name parsed m here n rest)
  own-Visible n rest h w = go (contains n here.tops) refl
    where
      go :
          (b : Bool)
          → contains n here.tops ≡ b
          → Visible (n ∷ rest) (if b then internal_name m n ∷ rest else n ∷ rest)
      go true p = own n rest p
      go false p = kept n rest h p w

  resolve-Visible : (q : List String) → AreWords q → Holds (Visible q) (resolve parsed m here q)
  unfolding resolve_source_name
  resolve-Visible [] w = nothing
  resolve-Visible (n ∷ rest) w = go (lookup n here.imports) refl
    where
      go :
          (o : Option (List String))
          → lookup n here.imports ≡ o
          → Holds (Visible (n ∷ rest)) (elim o as (λ _. Result LinkError (List String)) [
            | some target ↦ imported_name parsed m n target rest
            | none ↦ ok (own_name parsed m here n rest)
          ])
      go (some target) h = imported-Visible n target rest h
      go none h = own-Visible n rest h w.0

  module _ (gps : List String) where
    -- A type and what it is rewritten to: every name in it stands for what is visible, or is a generic
    -- parameter, which is kept with its arguments.
    mutual
      pub data InScope : Ty → Ty → Type 0 where
        generic :
            {q : List String} {ts : Tys}
            → is_one_of gps q ≡ true
            → InScope (Ty.name q ts) (Ty.name q ts)
        named :
            {q q' : List String} {ts ts' : Tys}
            → Visible q q'
            → AllInScope ts ts'
            → InScope (Ty.name q ts) (Ty.name q' ts')
        of_opt : {t t' : Ty} → InScope t t' → InScope (Ty.opt t) (Ty.opt t')
        of_ref : {t t' : Ty} → InScope t t' → InScope (Ty.ref t) (Ty.ref t')
        of_array : {t t' : Ty} → InScope t t' → InScope (Ty.array t) (Ty.array t')
        of_const : {t t' : Ty} → InScope t t' → InScope (Ty.const_array t) (Ty.const_array t')
        of_fn :
            {ps ps' : Tys} {r r' : Ty}
            → AllInScope ps ps'
            → InScope r r'
            → InScope (Ty.fn ps r) (Ty.fn ps' r')
        of_unit : InScope Ty.unit Ty.unit
        of_param : {n : String} → InScope (Ty.param n) (Ty.param n)

      pub data AllInScope : Tys → Tys → Type 0 where
        none_left : AllInScope nil nil
        one_more :
            {t t' : Ty} {ts ts' : Tys}
            → InScope t t'
            → AllInScope ts ts'
            → AllInScope (cons t ts) (cons t' ts')

    name-InScope :
        (q : List String) (ts : Tys)
        → AreWords q
        → Holds (AllInScope ts) (rewrite_tys parsed m here gps ts)
        → Holds (InScope (Ty.name q ts)) (rewrite_ty parsed m here gps (Ty.name q ts))
    unfolding rewrite_ty
    name-InScope q ts w h = go (is_one_of gps q) refl
      where
        go :
            (b : Bool)
            → is_one_of gps q ≡ b
            → Holds (InScope (Ty.name q ts)) (
                if b
                then ok (Ty.name q ts)
                else resolve parsed m here q >>= λ q'.
                    rewrite_tys parsed m here gps ts >>= λ ts'. ok (Ty.name q' ts'))
        go true p = generic p
        go false p =
            Holds-bind (Visible q) _ (resolve parsed m here q) _ (resolve-Visible q w) λ q' v.
              Holds-bind (AllInScope ts) _ (rewrite_tys parsed m here gps ts) _ h
                λ ts' vs. named v vs

    mutual
      unfolding rewrite_ty

      ty-InScope : (t : Ty) → IsSpelled t → Holds (InScope t) (rewrite_ty parsed m here gps t)
      ty-InScope (Ty.name q ts) w = name-InScope q ts w.0 (tys-InScope ts w.1)
      ty-InScope (Ty.opt t) w =
          Holds-bind (InScope t) _ (rewrite_ty parsed m here gps t) _ (ty-InScope t w)
            λ t' h. of_opt h
      ty-InScope (Ty.ref t) w =
          Holds-bind (InScope t) _ (rewrite_ty parsed m here gps t) _ (ty-InScope t w)
            λ t' h. of_ref h
      ty-InScope (Ty.array t) w =
          Holds-bind (InScope t) _ (rewrite_ty parsed m here gps t) _ (ty-InScope t w)
            λ t' h. of_array h
      ty-InScope (Ty.const_array t) w =
          Holds-bind (InScope t) _ (rewrite_ty parsed m here gps t) _ (ty-InScope t w)
            λ t' h. of_const h
      ty-InScope (Ty.fn ps r) w =
          Holds-bind (AllInScope ps) _ (rewrite_tys parsed m here gps ps) _ (tys-InScope ps w.0)
            λ ps' hs.
              Holds-bind (InScope r) _ (rewrite_ty parsed m here gps r) _ (ty-InScope r w.1)
                λ r' h. of_fn hs h
      ty-InScope Ty.unit w = of_unit
      ty-InScope (Ty.param n) w = of_param

      tys-InScope :
          (ts : Tys) → AreSpelled ts → Holds (AllInScope ts) (rewrite_tys parsed m here gps ts)
      tys-InScope nil w = none_left
      tys-InScope (cons t ts) w =
          Holds-bind (InScope t) _ (rewrite_ty parsed m here gps t) _ (ty-InScope t w.0) λ t' h.
            Holds-bind (AllInScope ts) _ (rewrite_tys parsed m here gps ts) _ (tys-InScope ts w.1)
              λ ts' hs. one_more h hs
