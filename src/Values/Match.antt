-- ===== src/Values/Match.antt =====
-- src/lang/core.py, class `Interpreter`: `match`.
use l.Base.{
  ℕ, String, Bool, true, false, ◌&&◌, if◌then◌else◌, Option, none, some, List, [], ◌∷◌, str_eq,
}
use l.Base.Int.{pos}
use l.Base.Dict.{Dict, insert}
use l.Base.Results.{ok, err, ◌>>=◌}
use l.Types.{Ty}
use l.Scalar.{eq_ℤ}
use l.Syntax.{
  Pattern, Patterns, no_patterns, pattern_then, p_wild, p_unit, p_none, p_bind, p_some, p_bool,
  p_int, p_byte, p_name,
}
use l.Values.{
  stuck, Effect, Value, Values, unit_v, none_v, bool_v, int_v, some_v, enum_v, value_then,
  copy_value,
}
use l.Bytecode.Names.{parse_int_text}

abbrev inner_ty : Option Ty → Option Ty
inner_ty (some (Ty.opt t)) = some t
inner_ty (some (Ty.ref t)) = some t
inner_ty (some (Ty.array t)) = some t
inner_ty _ = none

-- out.update(m)
abbrev pub update {ℓ} : {A : Type ℓ} → Dict A → Dict A → Dict A
update [] out = out
update ((k, v) ∷ m) out = update m (insert k v out)

abbrev pub Variant : Type 0
Variant = String × String × List Ty

abbrev bool_is : Bool → Bool → Bool
bool_is true b = b
bool_is false true = false
bool_is false false = true

-- len(q) == 1 and not subs
abbrev bare_name : List String → Patterns → Option String
bare_name (n ∷ []) no_patterns = some n
bare_name _ _ = none

module _ {F H : Type 0} where
  abbrev when : Bool → Option (Dict (Value F H))
  when true = some []
  when false = none

  abbrev is_unit : Value F H → Bool
  is_unit unit_v = true
  is_unit _ = false

  abbrev is_none : Value F H → Bool
  is_none none_v = true
  is_none _ = false

  abbrev is_bool : Bool → Value F H → Bool
  is_bool b (bool_v c) = bool_is b c
  is_bool b _ = false

  -- a number against a literal
  abbrev is_int : ℕ → Value F H → Bool
  is_int n (int_v m) = eq_ℤ m (pos n)
  is_int n _ = false

  -- the payload of a value of the enum and variant
  abbrev payload_of : String → String → Value F H → Option (Values F H)
  payload_of en vn (enum_v e v xs) = if str_eq e en && str_eq v vn then some xs else none
  payload_of en vn _ = none

  abbrev bound : ℕ → String → Value F H → Effect (Value F H) (Option (Dict (Value F H)))
  bound n k v h = copy_value n v h >>= λ r. ok (some ((k, r.0) ∷ []), r.1)

-- `variant` is `Checker._variant_for_pattern`: the enum, the variant and the types of its payload;
-- `depth` bounds the depth of copies.
module _ {F H : Type 0} (variant : List String → Option Ty → Option Variant) (depth : ℕ) where
  unfoldable mutual
    unfolding copy_value parse_int_text

    pub match : Pattern → Value F H → Option Ty → Effect (Value F H) (Option (Dict (Value F H)))
    match p_wild v t h = ok (some [], h)
    match (p_bind n) v t h = bound depth n v h
    match p_unit v t h = ok (when (is_unit v), h)
    match p_none v t h = ok (when (is_none v), h)
    match (p_some p) (some_v v) t h = match p v (inner_ty t) h
    match (p_some p) v t h = ok (none, h)
    match (p_bool b) v t h = ok (when (is_bool b v), h)
    match (p_int s) v t h = elim (parse_int_text s) [
      | some n ↦ ok (when (is_int n v), h)
      | none ↦ err stuck
    ]
    match (p_byte n) v t h = ok (when (is_int n v), h)
    match (p_name q ps) v t h =
        let parts = match_all ps in
        elim (variant q t) [
          | some (en, vn, ts) ↦ elim (payload_of en vn v) [
            | some xs ↦ parts xs ts [] h
            | none ↦ ok (none, h)
          ]
          | none ↦ elim (bare_name q ps) [ some n ↦ bound depth n v h | none ↦ ok (none, h) ]
        ]

    -- the parts of the payload, with the bindings so far
    pub match_all :
        Patterns
        → Values F H
        → List Ty
        → Dict (Value F H)
        → Effect (Value F H) (Option (Dict (Value F H)))
    match_all (pattern_then p ps) (value_then v vs) (t ∷ ts) out h = match p v (some t) h >>= λ r.
        elim r.0 [ some m ↦ match_all ps vs ts (update m out) r.1 | none ↦ ok (none, r.1) ]
    match_all _ vs ts out h = ok (some out, h)
