-- ===== src/Values.antt =====
-- src/lang/core.py: the values that the interpreter and the virtual machine share, `copy_value`,
-- `alloc_ref` and `alloc_array`. Structs, references and arrays are objects with an identity: a value
-- has the address of one, and the heap has its contents.
pub mod Operators
pub mod Match
pub mod Eval
use l.Base.{
  ℕ, zero, suc, String, Bool, true, false, Option, none, some, List, [], ◌∷◌, ◌++◌, length,
  get_elem?, set, not,
}
use l.Base.Int.{ℤ, pos, negsuc}
use l.Base.Dict.{Dict, lookup, insert}
use l.Base.Results.{Result, ok, err, ◌>>=◌}
use l.Scalar.{eq_ℤ, Compare}
use l.Scalar.{Fault as ScalarFault}
use l.Types.{Ty}

-- What Python provides: its floats, with the rounding to 32 bits, and the functions of host modules.
pub record Platform : Type 1 where
  pub Float : Type 0
  pub HostFn : Type 0
  pub float_of_text : String → Float
  pub float_of_int : ℤ → Float
  pub round_f32 : Float → Float
  -- math.trunc, where the float is finite
  pub trunc : Float → Option ℤ
  pub f_neg : Float → Float
  pub f_add : Float → Float → Float
  pub f_sub : Float → Float → Float
  pub f_mul : Float → Float → Float
  pub f_div : Float → Float → Float
  pub f_compare : Compare → Float → Float → Bool
  pub f_zero : Float → Bool
  pub f_nan : Float
  -- infinity with the sign of the product of two floats
  pub f_infinity : Float → Float → Float

-- what `TrapSig` says; `stuck` stands for the errors of Python itself, as at a missing key
pub data Fault : Type 0 where
  index_out_of_bounds pop_empty splice_out_of_bounds not_callable : Fault
  match_fell_through trapped stuck : Fault
  unknown_local : String → Fault
  scalar : ScalarFault → Fault

module _ (F H : Type 0) where
  mutual
    pub data Value : Type 0 where
      unit_v none_v : Value
      bool_v : Bool → Value
      int_v : ℤ → Value
      float_v : F → Value
      some_v : Value → Value
      enum_v : String → String → Values → Value
      struct_v ref_v array_v : ℕ → Value
      user_fn : String → Value
      host_fn : H → Value

    pub data Values : Type 0 where
      no_values : Values
      value_then : Value → Values → Values

-- the objects, by their addresses: a struct with its name and fields, a reference, an array
pub record Heap (V : Type 0) : Type 0 where
  pub structs : List (String × Dict V)
  pub refs : List V
  pub arrays : List (List V)

-- an effect on the heap, or a fault
abbrev pub Effect : Type 0 → Type 0 → Type 0
Effect V A = Heap V → Result Fault (A × Heap V)

-- what Python finds or raises
abbrev pub found : {A : Type 0} → Option A → Result Fault A
found none = err stuck
found (some a) = ok a

module _ {F H : Type 0} where
  abbrev pub from_list : List (Value F H) → Values F H
  from_list [] = no_values
  from_list (v ∷ vs) = value_then v (from_list vs)

  abbrev pub to_list : Values F H → List (Value F H)
  to_list no_values = []
  to_list (value_then v vs) = v ∷ to_list vs

  abbrev pub new_struct : String → Dict (Value F H) → Effect (Value F H) (Value F H)
  new_struct n fields h =
      ok (struct_v (length h.structs), record h { structs = h.structs ++ ((n, fields) ∷ []) })

  -- `copy_value`: structs are copied with what they hold, the other objects are shared. The first
  -- argument bounds the depth, as Python's recursion limit does.
  unfoldable mutual
    pub copy_value : ℕ → Value F H → Effect (Value F H) (Value F H)
    copy_value zero v h = err stuck
    copy_value (suc n) (some_v v) h = copy_value n v h >>= λ r. ok (some_v r.0, r.1)
    copy_value (suc n) (struct_v a) h =
        found (get_elem? h.structs a) >>= λ s. copy_fields n s.1 h >>= λ r. new_struct s.0 r.0 r.1
    copy_value (suc n) (enum_v e v xs) h = copy_payload n xs h >>= λ r. ok (enum_v e v r.0, r.1)
    copy_value (suc n) v h = ok (v, h)

    pub copy_fields : ℕ → Dict (Value F H) → Effect (Value F H) (Dict (Value F H))
    copy_fields zero d h = err stuck
    copy_fields (suc n) [] h = ok ([], h)
    copy_fields (suc n) ((k, v) ∷ d) h =
        copy_value n v h >>= λ r. copy_fields n d r.1 >>= λ q. ok ((k, r.0) ∷ q.0, q.1)

    pub copy_payload : ℕ → Values F H → Effect (Value F H) (Values F H)
    copy_payload zero vs h = err stuck
    copy_payload (suc n) no_values h = ok (no_values, h)
    copy_payload (suc n) (value_then v vs) h =
        copy_value n v h >>= λ r. copy_payload n vs r.1 >>= λ q. ok (value_then r.0 q.0, q.1)

  -- [copy_value(x) for x in xs]
  unfoldable pub copy_list : ℕ → List (Value F H) → Effect (Value F H) (List (Value F H))
  unfolding copy_value
  copy_list n [] h = ok ([], h)
  copy_list n (v ∷ vs) h = copy_value n v h >>= λ r. copy_list n vs r.1 >>= λ q. ok (r.0 ∷ q.0, q.1)

  -- {name: copy_value(x)} of names zipped with values; a later name replaces an earlier one
  unfoldable pub copy_named :
      ℕ → List String → List (Value F H) → Dict (Value F H) → Effect (Value F H) (Dict (Value F H))
  unfolding copy_value
  copy_named n (k ∷ ks) (v ∷ vs) d h =
      copy_value n v h >>= λ r. copy_named n ks vs (insert k r.0 d) r.1
  copy_named n _ _ d h = ok (d, h)

  unfoldable pub alloc_ref : ℕ → Value F H → Effect (Value F H) (Value F H)
  unfolding copy_value
  alloc_ref n v h = copy_value n v h >>= λ r.
      ok (ref_v (length r.1.refs), record r.1 { refs = r.1.refs ++ (r.0 ∷ []) })

  unfoldable pub alloc_array : ℕ → List (Value F H) → Effect (Value F H) (Value F H)
  unfolding copy_list
  alloc_array n vs h = copy_list n vs h >>= λ r.
      ok (array_v (length r.1.arrays), record r.1 { arrays = r.1.arrays ++ (r.0 ∷ []) })

  -- alloc_array(copy_value(v) for _ in range(n)), which copies each copy once more; `range` of a
  -- negative number is empty
  abbrev copies : ℕ → ℕ → Value F H → Effect (Value F H) (List (Value F H))
  copies depth zero v h = ok ([], h)
  copies depth (suc n) v h = copy_value depth v h >>= λ r.
      copy_value depth r.0 r.1 >>= λ s. copies depth n v s.1 >>= λ q. ok (s.0 ∷ q.0, q.1)

  abbrev range_of : Value F H → Result Fault ℕ
  range_of (int_v (pos n)) = ok n
  range_of (int_v (negsuc n)) = ok 0
  range_of v = err stuck

  unfoldable pub alloc_repeat : ℕ → Value F H → Value F H → Effect (Value F H) (Value F H)
  unfolding copy_value
  alloc_repeat depth v n h = range_of n >>= λ k. copies depth k v h >>= λ r.
      ok (array_v (length r.1.arrays), record r.1 { arrays = r.1.arrays ++ (r.0 ∷ []) })

  -- a.items, r.value and v.fields[f], where v may be a reference to a struct
  abbrev pub items : Value F H → Heap (Value F H) → Result Fault (List (Value F H))
  items (array_v a) h = found (get_elem? h.arrays a)
  items v h = err stuck

  abbrev pub target : Value F H → Heap (Value F H) → Result Fault (Value F H)
  target (ref_v a) h = found (get_elem? h.refs a)
  target v h = err stuck

  -- if isinstance(v, RefObj): v = v.value
  abbrev pub behind_ref : Value F H → Heap (Value F H) → Result Fault (Value F H)
  behind_ref (ref_v a) h = found (get_elem? h.refs a)
  behind_ref v h = ok v

  abbrev pub own_field : Value F H → String → Heap (Value F H) → Result Fault (Value F H)
  own_field (struct_v a) f h = found (get_elem? h.structs a) >>= λ s. found (lookup f s.1)
  own_field v f h = err stuck

  -- the writes to the same parts
  abbrev pub set_items :
      Value F H → List (Value F H) → Heap (Value F H) → Result Fault (Heap (Value F H))
  set_items (array_v a) vs h = ok (record h { arrays = set h.arrays a vs })
  set_items v vs h = err stuck

  abbrev pub set_target : Value F H → Value F H → Heap (Value F H) → Result Fault (Heap (Value F H))
  set_target (ref_v a) v h = ok (record h { refs = set h.refs a v })
  set_target _ v h = err stuck

  abbrev pub set_own_field :
      Value F H → String → Value F H → Heap (Value F H) → Result Fault (Heap (Value F H))
  set_own_field (struct_v a) f v h = found (get_elem? h.structs a) >>= λ s.
      ok (record h { structs = set h.structs a (s.0, insert f v s.1) })
  set_own_field _ f v h = err stuck

  abbrev pub index_of : Value F H → Result Fault ℤ
  index_of (int_v i) = ok i
  index_of v = err stuck

  -- i < 0 or i >= len(items) traps
  unfoldable pub item_at : ℤ → List (Value F H) → Result Fault (Value F H)
  item_at (negsuc n) vs = err index_out_of_bounds
  item_at (pos n) vs = elim (get_elem? vs n) [ some v ↦ ok v | none ↦ err index_out_of_bounds ]
