-- ===== src/Bytecode/Vm.antt =====
-- src/lang/bytecode.py, class `BCVM`: its state, the operand stack, locals, places and arrays.
use l.Base.{
  ℕ, zero, suc, String, ◌||◌, Option, none, some, List, [], ◌∷◌, ◌++◌, length, set, take, drop, ltb,
  ◌==◌, if◌then◌else◌,
}
use l.Base.Int.{ℤ, pos, negsuc}
use l.Base.Dict.{Dict, lookup, insert}
use l.Base.Results.{Result, ok, err, ◌>>=◌}
use l.Values.{
  item_at, Fault, stuck, unknown_local, index_out_of_bounds, splice_out_of_bounds, Heap, Effect,
  Value, found, items, target, behind_ref, own_field, set_items, set_target, set_own_field,
}
use l.Bytecode.{Ins}

module _ (V : Type 0) where
  -- `Place`, by what its two functions close over: a scope of the running function, counted from
  -- the outermost, a field of another place, a field of an object, a cell of an array, a reference.
  pub data Place : Type 0 where
    at_local : ℕ → String → Place
    at_field : Place → String → Place
    at_object : V → String → Place
    at_index : V → ℤ → Place
    at_ref : V → Place

  -- the operand stack holds values, places, and the bindings or None that a pattern leaves
  pub data Entry : Type 0 where
    val : V → Entry
    a_place : Place → Entry
    matched : Option (Dict V) → Entry

-- The running function's frame, `self.frames[-1]`, with the innermost scope first, and what all
-- frames share. The frames below are not read before the running function returns.
pub record Vm (V : Type 0) : Type 0 where
  pub code : List (Ins V)
  pub ip : ℕ
  pub scopes : List (Dict V)
  pub stack : List (Entry V)
  pub match_value : V
  pub pending : Option (Dict V)
  pub heap : Heap V

module _ {V : Type 0} where
  abbrev pub push_entry : Entry V → Vm V → Vm V
  push_entry e m = record m { stack = e ∷ m.stack }

  abbrev pub push_value : V → Vm V → Vm V
  push_value v m = push_entry (val v) m

  abbrev pub jump_to : Option ℕ → Vm V → Result Fault (Vm V)
  jump_to none m = err stuck
  jump_to (some t) m = ok (record m { ip = t })

  -- S.pop(), where a value, a place or anything is wanted
  abbrev pub pop_entry : Vm V → (Entry V → Vm V → Result Fault (Vm V)) → Result Fault (Vm V)
  pop_entry m k = elim m.stack [ e ∷ st ↦ k e (record m { stack = st }) | [] ↦ err stuck ]

  abbrev on_value : (V → Vm V → Result Fault (Vm V)) → Entry V → Vm V → Result Fault (Vm V)
  on_value k (val v) m = k v m
  on_value k e m = err stuck

  abbrev pub pop_value : Vm V → (V → Vm V → Result Fault (Vm V)) → Result Fault (Vm V)
  pop_value m k = pop_entry m (on_value k)

  abbrev on_place : (Place V → Vm V → Result Fault (Vm V)) → Entry V → Vm V → Result Fault (Vm V)
  on_place k (a_place p) m = k p m
  on_place k e m = err stuck

  abbrev pub pop_place : Vm V → (Place V → Vm V → Result Fault (Vm V)) → Result Fault (Vm V)
  pop_place m k = pop_entry m (on_place k)

  -- the last n entries, in the order in which they were pushed, and what is below them
  abbrev pub pop_many : ℕ → List (Entry V) → List V → Result Fault (List V × List (Entry V))
  pop_many zero st vs = ok (vs, st)
  pop_many (suc n) (val v ∷ st) vs = pop_many n st (v ∷ vs)
  pop_many (suc n) _ vs = err stuck

  -- an effect on the heap whose answer is pushed
  abbrev pub push_from : Effect V V → Vm V → Result Fault (Vm V)
  push_from e m = e m.heap >>= λ r. ok (push_value r.0 (record m { heap = r.1 }))

  abbrev pub push_answer : Result Fault V → Vm V → Result Fault (Vm V)
  push_answer r m = r >>= λ v. ok (push_value v m)

  -- the innermost scope that has the name
  abbrev pub find_local : String → List (Dict V) → Option V
  find_local n [] = none
  find_local n (s ∷ ss) = elim (lookup n s) [ some v ↦ some v | none ↦ find_local n ss ]

  unfoldable pub lookup_local : String → List (Dict V) → Result Fault V
  lookup_local n ss = elim (find_local n ss) [ some v ↦ ok v | none ↦ err (unknown_local n) ]

  -- the place of a local: the number of scopes below its own, and its name
  unfoldable pub local_place : String → List (Dict V) → Result Fault (Place V)
  local_place n [] = err (unknown_local n)
  local_place n (s ∷ ss) = elim (lookup n s) [
    | some v ↦ ok (at_local (length ss) n)
    | none ↦ local_place n ss
  ]

  -- the scope with k scopes below it
  abbrev scope_at : ℕ → List (Dict V) → Option (Dict V)
  scope_at k [] = none
  scope_at k (s ∷ ss) = let rest = scope_at k ss in if length ss == k then some s else rest

  abbrev set_scope : ℕ → Dict V → List (Dict V) → List (Dict V)
  set_scope k d [] = []
  set_scope k d (s ∷ ss) =
      let rest = set_scope k d ss in if length ss == k then d ∷ ss else s ∷ rest

  -- fr["scopes"][-1][n] = v
  abbrev pub declare : String → V → List (Dict V) → Result Fault (List (Dict V))
  declare n v [] = err stuck
  declare n v (s ∷ ss) = ok (insert n v s ∷ ss)

  -- fr["scopes"].pop(), n times
  abbrev pub pop_scopes : ℕ → List (Dict V) → Result Fault (List (Dict V))
  pop_scopes zero ss = ok ss
  pop_scopes (suc n) [] = err stuck
  pop_scopes (suc n) (s ∷ ss) = pop_scopes n ss

  -- the write traps alike
  unfoldable pub with_item : ℤ → V → List V → Result Fault (List V)
  with_item (negsuc n) v vs = err index_out_of_bounds
  with_item (pos n) v vs = if ltb n (length vs) then ok (set vs n v) else err index_out_of_bounds

  -- a.items[start:end] = snap, where 0 <= start <= end <= len(a.items)
  unfoldable pub spliced : List V → ℤ → ℤ → List V → Result Fault (List V)
  spliced vs (pos start) (pos stop) snap =
      if ltb stop start || ltb (length vs) stop
      then err splice_out_of_bounds
      else ok (take start vs ++ (snap ++ drop stop vs))
  spliced vs _ _ snap = err splice_out_of_bounds

  -- the value at the front of a list of items that is taken from its end, and the rest
  abbrev pub last_of : List V → Option (V × List V)
  last_of [] = none
  last_of (v ∷ vs) = elim (last_of vs) [ none ↦ some (v, []) | some (w, ws) ↦ some (w, v ∷ ws) ]

module _ {F H : Type 0} where
  -- p.get()
  unfoldable pub get_place : Place (Value F H) → Vm (Value F H) → Result Fault (Value F H)
  unfolding item_at
  get_place (at_local k n) m = found (scope_at k m.scopes) >>= λ d. found (lookup n d)
  get_place (at_field p f) m =
      get_place p m >>= λ v. behind_ref v m.heap >>= λ b. own_field b f m.heap
  get_place (at_object v f) m = own_field v f m.heap
  get_place (at_index a i) m = items a m.heap >>= λ vs. item_at i vs
  get_place (at_ref r) m = target r m.heap

  abbrev keep_heap :
      Vm (Value F H) → Result Fault (Heap (Value F H)) → Result Fault (Vm (Value F H))
  keep_heap m r = r >>= λ h. ok (record m { heap = h })

  -- p.set(v)
  unfoldable pub set_place :
      Place (Value F H) → Value F H → Vm (Value F H) → Result Fault (Vm (Value F H))
  unfolding get_place with_item
  set_place (at_local k n) v m = found (scope_at k m.scopes) >>= λ d.
      ok (record m { scopes = set_scope k (insert n v d) m.scopes })
  set_place (at_field p f) v m =
      get_place p m >>= λ w. behind_ref w m.heap >>= λ b. keep_heap m (set_own_field b f v m.heap)
  set_place (at_object b f) v m = keep_heap m (set_own_field b f v m.heap)
  set_place (at_index a i) v m =
      items a m.heap >>= λ vs. with_item i v vs >>= λ ws. keep_heap m (set_items a ws m.heap)
  set_place (at_ref r) v m = keep_heap m (set_target r v m.heap)
