-- ===== src/Values/Eval.antt =====
-- src/lang/core.py, class `Interpreter`: `get_local` and `eval`. The forms that call, take fields or
-- build arrays and structs, and the names that are no local of their own, are left to `rest`.
use l.Base.{ℕ, String, Bool, true, false, Option, none, some, List, [], ◌∷◌, map}
use l.Base.Int.{pos}
use l.Base.Dict.{Dict, lookup}
use l.Base.Results.{Result, ok, err, ◌>>=◌}
use l.Types.{Ty}
use l.Syntax.{Expr, node, Form, deref, or_else, and_then}
use l.Values.{
  Platform, Fault, stuck, Heap, Effect, unit_v, none_v, bool_v, int_v, float_v, some_v, copy_value,
  alloc_ref, alloc_array, alloc_repeat, items, target, index_of, item_at,
}
use l.Values.Operators.{V, truthy, fround, scalar_value, cast_value, prefix_value, literal_value}
use l.Values.Match.{Variant, match}
use l.Bytecode.Names.{parse_int_text}

abbrev pub ty_of : Expr → Option Ty
ty_of (node ty e) = ty

-- the innermost frame that has the name; none is the trap "unknown local"
unfoldable pub get_local {ℓ} : {A : Type ℓ} → String → List (Dict A) → Option A
get_local n [] = none
get_local n (f ∷ fs) = elim (lookup n f) [ some v ↦ some v | none ↦ get_local n fs ]

abbrev pub is_some {ℓ} : {A : Type ℓ} → Option A → Bool
is_some none = false
is_some (some a) = true

module _ (P : Platform) where
  abbrev pub with_heap : Result Fault (V P) → Heap (V P) → Result Fault (V P × Heap (V P))
  with_heap r h = r >>= λ v. ok (v, h)

  -- bool(a and r), bool(a or r): the right operand where the left one does not decide
  abbrev pub lazy_and : Bool → Effect (V P) (V P) → Effect (V P) (V P)
  lazy_and true r h = r h >>= λ b. ok (bool_v (truthy P b.0), b.1)
  lazy_and false r h = ok (bool_v false, h)

  abbrev pub lazy_or : Bool → Effect (V P) (V P) → Effect (V P) (V P)
  lazy_or true r h = ok (bool_v true, h)
  lazy_or false r h = r h >>= λ b. ok (bool_v (truthy P b.0), b.1)

module _ (P : Platform) (variant : List String → Option Ty → Option Variant) (depth : ℕ)
    (rest : Expr → List (Dict (V P)) → Effect (V P) (V P)) where
  unfoldable pub eval : Expr → List (Dict (V P)) → Effect (V P) (V P)
  unfolding get_local copy_value alloc_ref alloc_array alloc_repeat item_at scalar_value cast_value
      prefix_value literal_value match parse_int_text
  eval (node ty Form.unit) fs h = ok (unit_v, h)
  eval (node ty (Form.bool b)) fs h = ok (bool_v b, h)
  eval (node ty (Form.byte n)) fs h = ok (int_v (pos n), h)
  eval (node ty (Form.int s)) fs h = elim (parse_int_text s) [
    | some n ↦ with_heap P (literal_value P (pos n) ty) h
    | none ↦ err stuck
  ]
  eval (node ty (Form.float s)) fs h = ok (float_v (fround P (Platform.float_of_text P s) ty), h)
  eval (node ty (Form.string bs)) fs h = alloc_array depth (map (λ b. int_v (pos b)) bs) h
  eval (node ty Form.none_lit) fs h = ok (none_v, h)
  eval (node ty (Form.some_of e)) fs h =
      eval e fs h >>= λ r. copy_value depth r.0 r.1 >>= λ q. ok (some_v q.0, q.1)
  eval (node ty (Form.qname (n ∷ []))) fs h = elim (get_local n fs) [
    | some v ↦ copy_value depth v h
    | none ↦ rest (node ty (Form.qname (n ∷ []))) fs h
  ]
  eval (node ty (Form.repeat e n)) fs h =
      eval e fs h >>= λ r. eval n fs r.1 >>= λ q. alloc_repeat depth r.0 q.0 q.1
  eval (node ty (Form.unary deref x)) fs h =
      eval x fs h >>= λ r. target r.0 r.1 >>= λ v. copy_value depth v r.1
  eval (node ty (Form.unary op x)) fs h =
      eval x fs h >>= λ r. with_heap P (prefix_value P op r.0 ty) r.1
  eval (node ty (Form.is_match e p)) fs h = eval e fs h >>= λ r.
      match variant depth p r.0 (ty_of e) r.1 >>= λ q. ok (bool_v (is_some q.0), q.1)
  eval (node ty (Form.binary and_then l r)) fs h =
      eval l fs h >>= λ a. lazy_and P (truthy P a.0) (eval r fs) a.1
  eval (node ty (Form.binary or_else l r)) fs h =
      eval l fs h >>= λ a. lazy_or P (truthy P a.0) (eval r fs) a.1
  eval (node ty (Form.binary op l r)) fs h = eval l fs h >>= λ a.
      eval r fs a.1 >>= λ b. with_heap P (scalar_value P op a.0 b.0 (ty_of l)) b.1
  eval (node ty (Form.cast e t)) fs h = eval e fs h >>= λ r. with_heap P (cast_value P r.0 ty) r.1
  eval (node ty (Form.new e)) fs h = eval e fs h >>= λ r. alloc_ref depth r.0 r.1
  eval (node ty (Form.index a i)) fs h = eval a fs h >>= λ r. eval i fs r.1 >>= λ q.
      index_of q.0 >>= λ n. items r.0 q.1 >>= λ vs. item_at n vs >>= λ v. copy_value depth v q.1
  eval e fs h = rest e fs h
