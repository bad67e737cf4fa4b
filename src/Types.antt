-- ===== src/Types.antt =====
-- src/lang/core.py: the semantic types (`Ty`, `ConstArrayTy`) and the primitive tables.
-- A type is its kind and its children; `ConstArrayTy`, a class of its own with the kind "array", is
-- the constructor `const_array`.
pub mod Equality
pub mod Subst
pub mod Infer
use l.Base.{
  ℕ, String, Bool, true, false, Option, none, some, List, [], ◌∷◌, ◌&&◌, str_eq, if◌then◌else◌,
}

mutual
  pub data Ty : Type 0 where
    unit : Ty
    name : List String → Tys → Ty
    opt ref array const_array : Ty → Ty
    fn : Tys → Ty → Ty
    param : String → Ty

  -- a tuple of types
  pub data Tys : Type 0 where
    nil : Tys
    cons : Ty → Tys → Tys

-- name_ty at a bare name
abbrev pub name_ty : String → Ty
name_ty n = name (n ∷ []) nil

abbrev pub is_const_array : Ty → Bool
is_const_array (const_array t) = true
is_const_array _ = false

abbrev pub is_mutable_array : Ty → Bool
is_mutable_array (array t) = true
is_mutable_array _ = false

-- `==` of two tuples of names
abbrev pub qname_eq : List String → List String → Bool
qname_eq [] [] = true
qname_eq [] (_ ∷ _) = false
qname_eq (_ ∷ _) [] = false
qname_eq (a ∷ as') (b ∷ bs) = str_eq a b && qname_eq as' bs

abbrev find_name {ℓ} : {A : Type ℓ} → String → List (String × A) → Option A
find_name n [] = none
find_name n ((k, v) ∷ rest) = if str_eq k n then some v else find_name n rest

-- an integer layout: (width, signed)
abbrev pub Layout : Type 0
Layout = ℕ × Bool

abbrev ints : List (String × Layout)
ints =
    ("i8", (8, true))
    ∷ ("i16", (16, true))
    ∷ ("i32", (32, true))
    ∷ ("i64", (64, true))
    ∷ ("u8", (8, false))
    ∷ ("u16", (16, false))
    ∷ ("u32", (32, false))
    ∷ ("u64", (64, false))
    ∷ []

unfoldable pub int_info : Ty → Option Layout
int_info (name (n ∷ []) nil) = find_name n ints
int_info _ = none

abbrev pub is_prim : Ty → String → Bool
is_prim (name q nil) n = qname_eq q (n ∷ [])
is_prim _ n = false

-- FLOATS, as the operators test it: the first part of a type's name
unfoldable pub is_float : Ty → Bool
is_float (name (n ∷ _) _) = if str_eq n "f32" then true else str_eq n "f64"
is_float _ = false
