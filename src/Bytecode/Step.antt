-- ===== src/Bytecode/Step.antt =====
-- src/lang/bytecode.py, `BCVM.loop`: what one instruction does.
use l.Base.{
  ℕ, suc, String, Bool, true, false, not, Option, none, some, List, [], ◌∷◌, ◌++◌, map, length,
  get_elem?,
}
use l.Base.Int.{ℤ, pos, ◌+ℤ◌}
use l.Base.Dict.{Dict}
use l.Base.Results.{Result, ok, err, ◌>>=◌}
use l.Types.{Ty, name_ty}
use l.Values.{
  item_at, index_of, Platform, Fault, stuck, not_callable, match_fell_through, trapped, pop_empty,
  Effect, unit_v, none_v, bool_v, int_v, float_v, some_v, enum_v, user_fn, host_fn, from_list,
  copy_value, copy_list, copy_named, alloc_ref, alloc_array, alloc_repeat, no_values, new_struct,
  items, target, behind_ref, own_field, set_items,
}
use l.Values.Operators.{V, truthy, fround, scalar_value, cast_value, prefix_value, literal_value}
use l.Values.Match.{Variant, match, update}
use l.Bytecode.{Ins}
use l.Bytecode.Vm.{
  Entry, val, a_place, matched, at_field, at_object, at_index, at_ref, Vm, push_entry, push_value,
  jump_to, pop_entry, pop_value, pop_place, pop_many, push_from, push_answer, lookup_local,
  local_place, declare, pop_scopes, spliced, last_of, get_place, set_place,
}

-- The checker's `_variant_for_pattern`, the values of host modules, and Python's recursion limit.
pub record Runtime (P : Platform) : Type 0 where
  pub variant : List String → Option Ty → Option Variant
  pub host_member : List String → List String → Result Fault (V P)
  pub depth : ℕ

-- What an instruction leads to: the next one, a call of a compiled or of a host function, whose
-- answer is pushed, or the end of the running function.
pub data Next (P : Platform) : Type 0 where
  go : Vm (V P) → Next P
  calls : String → List (V P) → Vm (V P) → Next P
  calls_host : Platform.HostFn P → List (V P) → Vm (V P) → Next P
  returns : V P → Vm (V P) → Next P

module _ (P : Platform) (run : Runtime P) where
  abbrev M : Type 0
  M = Vm (V P)

  abbrev goes : Result Fault M → Result Fault (Next P)
  goes r = r >>= λ m. ok (go m)

  -- the truth of what is on the stack
  abbrev holds : Entry (V P) → Bool
  holds (val v) = truthy P v
  holds (a_place p) = true
  holds (matched (some (b ∷ bs))) = true
  holds (matched _) = false

  -- m is not None
  abbrev pub is_match : Entry (V P) → Bool
  is_match (val none_v) = false
  is_match (matched none) = false
  is_match e = true

  abbrev copied : V P → Effect (V P) (V P)
  copied v h = copy_value run.depth v h

  abbrev or_empty : Option (Dict (V P)) → Dict (V P)
  or_empty none = []
  or_empty (some d) = d

  abbrev merge_top : Dict (V P) → List (Dict (V P)) → Result Fault (List (Dict (V P)))
  merge_top d [] = err stuck
  merge_top d (s ∷ ss) = ok (update d s ∷ ss)

  abbrev with_scopes : M → Result Fault (List (Dict (V P))) → Result Fault M
  with_scopes m r = r >>= λ ss. ok (record m { scopes = ss })

  abbrev jump_when : Bool → Option ℕ → M → Result Fault M
  jump_when true t m = jump_to t m
  jump_when false t m = ok m

  -- S[-1], which stays
  abbrev top_entry : M → (Entry (V P) → Result Fault M) → Result Fault M
  top_entry m k = elim m.stack [ e ∷ st ↦ k e | [] ↦ err stuck ]

  abbrev struct_of : String → List String → List (V P) → Effect (V P) (V P)
  struct_of n fs vs h = copy_named run.depth fs vs [] h >>= λ r. new_struct n r.0 r.1

  abbrev enum_of : String → String → List (V P) → Effect (V P) (V P)
  enum_of en v vs h = copy_list run.depth vs h >>= λ r. ok (enum_v en v (from_list r.0), r.1)

  -- i = S.pop(), a = S.pop() with an integer i
  abbrev pop_index : M → (V P → ℤ → M → Result Fault M) → Result Fault M
  pop_index m k = pop_value m λ i m₁. pop_value m₁ λ a m₂. index_of i >>= λ n. k a n m₂

  -- wrap_int(v + 1, u64)
  abbrev increased : V P → Result Fault (V P)
  increased (int_v n) = literal_value P (n +ℤ pos 1) (some (name_ty "u64"))
  increased v = err stuck

  abbrev splice_at : V P → V P → V P → V P → M → Result Fault M
  splice_at a start stop repl m = index_of start >>= λ i. index_of stop >>= λ j.
      items a m.heap >>= λ vs. spliced vs i j [] >>= λ _. items repl m.heap >>= λ rs.
      copy_list run.depth rs m.heap >>= λ r. items a r.1 >>= λ ws. spliced ws i j r.0 >>= λ xs.
      set_items a xs r.1 >>= λ h. ok (push_value unit_v (record m { heap = h }))

  -- a function value is popped from under its arguments
  abbrev callee : List (V P) → M → Result Fault (Next P)
  callee args m = elim m.stack [
    | val (user_fn n) ∷ st ↦ ok (calls n args (record m { stack = st }))
    | val (host_fn f) ∷ st ↦ ok (calls_host f args (record m { stack = st }))
    | e ∷ st ↦ err not_callable
    | [] ↦ err stuck
  ]

  -- return copy_value(S.pop())
  abbrev value_of : M → Result Fault (Next P)
  value_of m = elim m.stack [
    | val v ∷ st ↦ copied v m.heap >>= λ r. ok (returns r.0 (record m { stack = st; heap = r.1 }))
    | _ ↦ err stuck
  ]

  -- operators, arrays and patterns
  unfoldable pub operate : Ins (V P) → M → Result Fault M
  unfolding copy_value copy_list scalar_value cast_value prefix_value match spliced
  operate (Ins.unary op t) m = pop_value m λ v m₁. push_answer (prefix_value P op v t) m₁
  operate (Ins.bin op t) m =
      pop_value m λ b m₁. pop_value m₁ λ a m₂. push_answer (scalar_value P op a b t) m₂
  operate (Ins.cast fr to) m = pop_value m λ v m₁. push_answer (cast_value P v to) m₁
  operate Ins.len m =
      pop_value m λ a m₁. items a m₁.heap >>= λ vs. ok (push_value (int_v (pos (length vs))) m₁)
  operate Ins.array_push m = pop_value m λ v m₁. pop_value m₁ λ a m₂. copied v m₂.heap >>= λ r.
      items a r.1 >>= λ vs.
      set_items a (vs ++ (r.0 ∷ [])) r.1 >>= λ h. ok (push_value unit_v (record m₂ { heap = h }))
  operate Ins.array_pop m = pop_value m λ a m₁. items a m₁.heap >>= λ vs. elim (last_of vs) [
    | none ↦ err pop_empty
    | some (v, ws) ↦ set_items a ws m₁.heap >>= λ h. push_from (copied v) (record m₁ { heap = h })
  ]
  operate Ins.array_splice m = pop_value m λ repl m₁.
      pop_value m₁
        λ stop m₂. pop_value m₂ λ start m₃. pop_value m₃ λ a m₄. splice_at a start stop repl m₄
  operate Ins.save_match_value m = pop_value m λ v m₁. ok (record m₁ { match_value = v })
  operate Ins.load_match_value m = push_from (copied m.match_value) m
  operate Ins.clear_match_value m = ok (record m { match_value = none_v })
  operate (Ins.try_pattern p t) m = pop_value m λ v m₁.
      match run.variant run.depth p v t m₁.heap >>= λ r.
      ok (push_entry (matched r.0) (record m₁ { pending = r.0; heap = r.1 }))
  operate Ins.pattern_to_bool m = pop_entry m λ e m₁. ok (push_value (bool_v (is_match e)) m₁)
  operate Ins.trap_match m = err match_fell_through
  operate Ins.trap m = err trapped
  operate i m = err stuck

  -- scopes, pending bindings and jumps
  unfoldable pub control : Ins (V P) → M → Result Fault M
  unfolding operate
  control Ins.scope_enter m = ok (record m { scopes = [] ∷ m.scopes })
  control Ins.scope_enter_bindings m =
      ok (record m { scopes = or_empty m.pending ∷ m.scopes; pending = none })
  control Ins.scope_exit m = with_scopes m (pop_scopes 1 m.scopes)
  control (Ins.unwind n) m = with_scopes m (pop_scopes n m.scopes)
  control Ins.no_bindings m = ok (record m { pending = some [] })
  control Ins.drop_bindings m = ok (record m { pending = none })
  control Ins.merge_bindings m =
      with_scopes (record m { pending = none }) (merge_top (or_empty m.pending) m.scopes)
  control (Ins.jump t) m = jump_to t m
  control (Ins.jump_if_false t) m = pop_entry m λ e m₁. jump_when (not (holds e)) t m₁
  control (Ins.jump_if_false_keep t) m = top_entry m λ e. jump_when (not (holds e)) t m
  control (Ins.jump_if_true_keep t) m = top_entry m λ e. jump_when (holds e) t m
  control (Ins.jump_if_no_match t) m = pop_entry m λ e m₁. jump_when (not (is_match e)) t m₁
  control i m = operate i m

  -- locals and places
  unfoldable pub reach : Ins (V P) → M → Result Fault M
  unfolding control copy_value lookup_local local_place get_place set_place item_at
  reach (Ins.decl n) m = pop_value m λ v m₁.
      copied v m₁.heap >>= λ r. with_scopes (record m₁ { heap = r.1 }) (declare n r.0 m₁.scopes)
  reach (Ins.load n) m = lookup_local n m.scopes >>= λ v. push_from (copied v) m
  reach (Ins.local_place n) m = local_place n m.scopes >>= λ p. ok (push_entry (a_place p) m)
  reach (Ins.field_place f) m = pop_place m λ p m₁. ok (push_entry (a_place (at_field p f)) m₁)
  reach (Ins.value_field_place f) m =
      pop_value m λ v m₁. behind_ref v m₁.heap >>= λ b. ok (push_entry (a_place (at_object b f)) m₁)
  reach Ins.index_place m = pop_index m λ a i m₁.
      items a m₁.heap >>= λ vs. item_at i vs >>= λ v. ok (push_entry (a_place (at_index a i)) m₁)
  reach Ins.deref_place m = pop_value m λ v m₁. ok (push_entry (a_place (at_ref v)) m₁)
  reach Ins.load_place m = pop_place m λ p m₁. get_place p m₁ >>= λ v. push_from (copied v) m₁
  reach Ins.store_place m = pop_value m λ v m₁.
      pop_place m₁ λ p m₂. copied v m₂.heap >>= λ r. set_place p r.0 (record m₂ { heap = r.1 })
  reach Ins.dup m = top_entry m λ e. ok (push_entry e m)
  reach Ins.pop m = pop_entry m λ e m₁. ok m₁
  reach Ins.index m =
      pop_index m λ a i m₁. items a m₁.heap >>= λ vs. item_at i vs >>= λ v. push_from (copied v) m₁
  reach (Ins.get_field f) m =
      pop_value m
        λ v m₁. behind_ref v m₁.heap >>= λ b. own_field b f m₁.heap >>= λ w. push_from (copied w) m₁
  reach Ins.deref m = pop_value m λ v m₁. target v m₁.heap >>= λ w. push_from (copied w) m₁
  reach (Ins.local_inc_u64 n) m =
      local_place n m.scopes >>= λ p. get_place p m >>= λ v. increased v >>= λ w. set_place p w m
  reach i m = control i m

  -- literals, and what allocates
  unfoldable pub make : Ins (V P) → M → Result Fault M
  unfolding reach copy_value copy_list copy_named alloc_ref alloc_array alloc_repeat literal_value
  make Ins.push_unit m = ok (push_value unit_v m)
  make Ins.push_none m = ok (push_value none_v m)
  make (Ins.push v) m = ok (push_value v m)
  make (Ins.push_bool b) m = ok (push_value (bool_v b) m)
  make (Ins.push_int n t) m = push_answer (literal_value P (pos n) t) m
  make (Ins.push_float s t) m =
      ok (push_value (float_v (fround P (Platform.float_of_text P s) t)) m)
  make (Ins.make_bytes bs) m = push_from (alloc_array run.depth (map (λ b. int_v (pos b)) bs)) m
  make Ins.make_some m =
      pop_value m λ v m₁. push_from (λ h. copied v h >>= λ r. ok (some_v r.0, r.1)) m₁
  make (Ins.make_array n) m = pop_many n m.stack [] >>= λ r.
      push_from (alloc_array run.depth r.0) (record m { stack = r.1 })
  make Ins.make_repeat m =
      pop_value m λ n m₁. pop_value m₁ λ v m₂. push_from (alloc_repeat run.depth v n) m₂
  make Ins.new m = pop_value m λ v m₁. push_from (alloc_ref run.depth v) m₁
  make (Ins.make_struct n fs) m = pop_many (length fs) m.stack [] >>= λ r.
      push_from (struct_of n fs r.0) (record m { stack = r.1 })
  make (Ins.make_enum_zero en v) m = ok (push_value (enum_v en v no_values) m)
  make (Ins.make_enum en v n) m =
      pop_many n m.stack [] >>= λ r. push_from (enum_of en v r.0) (record m { stack = r.1 })
  make (Ins.push_func n) m = ok (push_value (user_fn n) m)
  make i m = reach i m

  -- calls, members of host modules, and all other instructions
  unfoldable pub effect : Ins (V P) → M → Result Fault (Next P)
  unfolding make copy_value
  effect (Ins.call_named n k) m =
      pop_many k m.stack [] >>= λ r. ok (calls n r.0 (record m { stack = r.1 }))
  effect (Ins.call_value k) m = pop_many k m.stack [] >>= λ r. callee r.0 (record m { stack = r.1 })
  effect (Ins.host_member q fs) m = goes (push_answer (run.host_member q fs) m)
  effect Ins.ret m = value_of m
  effect i m = goes (make i m)

  -- The instruction at `ip`, with `ip` moved behind it. The code ends without one.
  unfoldable pub step : M → Result Fault (Next P)
  unfolding effect
  step m = elim (get_elem? m.code m.ip) [
    | some i ↦ effect i (record m { ip = suc m.ip })
    | none ↦ ok (returns unit_v m)
  ]
