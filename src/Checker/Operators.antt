-- ===== src/Checker/Operators.antt =====
-- src/lang/core.py, class `Checker`: `binop`, `check_cast`, `req` and `fieldless_enum`, the types of
-- operators.
use l.Base.{String, Bool, true, false, ◌&&◌, ◌||◌, Option, some, none, List, [], ◌∷◌, if◌then◌else◌}
use l.Base.Dict.{Dict, lookup}
use l.Base.Results.{Result, ok, err, ◌>>=◌}
use l.Types.{Ty, Tys, nil, cons, name_ty, is_prim, is_float, int_info, Layout}
use l.Types.Equality.{same_type}
use l.Syntax.{
  Binary, or_else, and_then, eq, ne, lt, le, gt, ge, bor, bxor, band, shl, shr, add, sub, mul, div,
  rem,
}

pub data TypeError : Type 0 where
  mismatch not_ordered no_equality not_integer not_numeric rem_of_float no_cast : TypeError

-- the variants of each enum, with their payloads
abbrev pub Enums : Type 0
Enums = Dict (List (String × Tys))

abbrev pub no_payloads : List (String × Tys) → Bool
no_payloads [] = true
no_payloads ((n, nil) ∷ vs) = no_payloads vs
no_payloads ((n, cons t ts) ∷ vs) = false

unfoldable pub fieldless_enum : Enums → Ty → Bool
fieldless_enum enums (Ty.name (n ∷ []) args) = elim (lookup n enums) [
  | some vs ↦ no_payloads vs
  | none ↦ false
]
fieldless_enum enums _ = false

abbrev pub accept : Bool → Result TypeError (Unit {0})
accept true = ok tt
accept false = err mismatch

unfoldable pub req : Ty → Ty → Result TypeError (Unit {0})
req (Ty.const_array t) (Ty.array u) = accept (same_type t u)
req (Ty.const_array t) (Ty.const_array u) = accept (same_type t u)
req (Ty.const_array t) u = err mismatch
req t u = accept (same_type t u)

abbrev pub is_int : Option Layout → Bool
is_int none = false
is_int (some i) = true

abbrev pub is_number : Ty → Bool
is_number t = is_int (int_info t) || is_float t

abbrev pub is_ref : Ty → Bool
is_ref (Ty.ref t) = true
is_ref _ = false

-- the operand types that == and != accept
abbrev pub has_equality : Enums → Ty → Bool
has_equality enums t =
    is_prim t "bool"
    || (is_int (int_info t) || (is_float t || (is_ref t || fieldless_enum enums t)))

-- a test, a comparison of the operand types, and the type of the result
abbrev pub typed_as : Bool → TypeError → Ty → Ty → Ty → Result TypeError Ty
typed_as test e wants r t = if test then (req wants r >>= λ _. ok t) else err e

abbrev pub equality_type : Enums → Ty → Ty → Result TypeError Ty
equality_type enums l r =
    req l r >>= λ _. if has_equality enums l then ok (name_ty "bool") else err no_equality

abbrev pub order_type : Ty → Ty → Result TypeError Ty
order_type l r = req l r >>= λ _. if is_number l then ok (name_ty "bool") else err not_ordered

abbrev pub logic_type : Ty → Ty → Result TypeError Ty
logic_type l r = req (name_ty "bool") l >>= λ _. req l r >>= λ _. ok l

abbrev pub bits_type : Ty → Ty → Result TypeError Ty
bits_type l r = typed_as (is_int (int_info l)) not_integer l r l

abbrev pub shift_type : Ty → Ty → Result TypeError Ty
shift_type l r = typed_as (is_int (int_info l)) not_integer (name_ty "u64") r l

abbrev pub arith_type : Ty → Ty → Result TypeError Ty
arith_type l r = typed_as (is_number l) not_numeric l r l

unfoldable pub binop : Enums → Binary → Ty → Ty → Result TypeError Ty
binop enums or_else l r = logic_type l r
binop enums and_then l r = logic_type l r
binop enums eq l r = equality_type enums l r
binop enums ne l r = equality_type enums l r
binop enums lt l r = order_type l r
binop enums le l r = order_type l r
binop enums gt l r = order_type l r
binop enums ge l r = order_type l r
binop enums shl l r = shift_type l r
binop enums shr l r = shift_type l r
binop enums band l r = bits_type l r
binop enums bor l r = bits_type l r
binop enums bxor l r = bits_type l r
binop enums add l r = arith_type l r
binop enums sub l r = arith_type l r
binop enums mul l r = arith_type l r
binop enums div l r = arith_type l r
binop enums rem l r =
    let rest = typed_as (is_number l) not_numeric l r l in
    if is_number l && is_float l then err rem_of_float else rest

unfoldable pub check_cast : Ty → Ty → Result TypeError (Unit {0})
check_cast a b = if is_number a && is_number b then ok tt else err no_cast
