-- ===== src/Bytecode/Statements.antt =====
-- src/lang/bytecode.py: what `BCCompiler` emits for a statement, by the code of its parts.
use l.Base.{ℕ, suc, String, Bool, true, false, Option, none, some, List, ◌∷◌}
use l.Base.Results.{Result, ok, ◌>>=◌}
use l.Types.{Ty, name_ty}
use l.Syntax.{Pattern, Assign, plain, compound, lt}
use l.Bytecode.{
  Ins, Compiler, CompileError, Compiled, emit, mark, patch, patch_all, enter_scope, exit_scope,
  push_loop, close_loop,
}
use l.Bytecode.Names.{array_name, counter_name}

abbrev pub Code : Type 0 → Type 0
Code V = Compiler V → Compiled V

-- the arms of a match statement, with the jumps behind them in the order of the arms
abbrev pub ArmsCode : Type 0 → Type 0
ArmsCode V = Compiler V → Result CompileError (List ℕ × Compiler V)

module _ {V : Type 0} where
  -- a block in a scope of its own
  unfoldable pub scoped : Bool → Code V → Code V
  unfolding enter_scope exit_scope
  scoped bindings b c = b (enter_scope bindings c) >>= λ c₁. ok (exit_scope c₁)

  -- `condition`: an `is` test has the code that it has as an expression, and leaves its bindings.
  unfoldable pub condition : Bool → Code V → Code V
  unfolding emit
  condition true e c = e c
  condition false e c = e c >>= λ c₁. ok (emit Ins.no_bindings c₁)

  -- The statements, by the code of their parts.
  unfoldable pub var_stmt : String → Code V → Code V
  unfolding emit
  var_stmt n e c = e c >>= λ c₁. ok (emit (Ins.decl n) c₁)

  unfoldable pub assign_stmt : Code V → Assign → Option Ty → Code V → Code V
  unfolding emit
  assign_stmt l plain ty r c = l c >>= λ c₁. r c₁ >>= λ c₂. ok (emit Ins.store_place c₂)
  assign_stmt l (compound op) ty r c = l c >>= λ c₁.
      r (emit Ins.load_place (emit Ins.dup c₁)) >>= λ c₂.
      ok (emit Ins.store_place (emit (Ins.bin op ty) c₂))

  -- `&&` and `||`, by the jump that skips the right operand
  unfoldable pub lazy_binary : (Option ℕ → Ins V) → Code V → Code V → Code V
  unfolding emit mark patch
  lazy_binary keep l r c = l c >>= λ c₁.
      r (emit Ins.pop (emit (keep none) c₁)) >>= λ c₂. ok (patch (mark c₁) (mark c₂) c₂)

  unfoldable pub if_stmt : Code V → Code V → Code V → Code V
  unfolding emit mark patch scoped
  if_stmt e t f c = e c >>= λ c₁. scoped true t (emit (Ins.jump_if_false none) c₁) >>= λ c₂.
      let c₃ = emit (Ins.jump none) c₂ in
      scoped false f (emit Ins.drop_bindings (patch (mark c₁) (mark c₃) c₃)) >>= λ c₄.
      ok (patch (mark c₂) (mark c₄) c₄)

  unfoldable pub while_stmt : Code V → Code V → Code V
  unfolding emit mark patch enter_scope exit_scope push_loop close_loop
  while_stmt e b c = e c >>= λ c₁.
      let inside = enter_scope true (emit (Ins.jump_if_false none) c₁) in
      b (push_loop c.scope_depth c.scope_depth inside) >>= λ c₂.
      let c₃ = exit_scope c₂ in
      let c₄ = emit (Ins.jump (some (mark c))) c₃ in
      let c₅ = emit Ins.drop_bindings (patch (mark c₁) (mark c₄) c₄) in
      close_loop (mark c₅) (mark c₃) c₅

  -- The condition of a for statement, where it has one, and the place of its jump.
  unfoldable pub for_test :
      Option (Code V) → Compiler V → Result CompileError (Option ℕ × Compiler V)
  unfolding emit mark
  for_test none c = ok (none, c)
  for_test (some e) c = e c >>= λ c₁. ok (some (mark c₁), emit (Ins.jump_if_false none) c₁)

  unfoldable pub for_exit : Option ℕ → ℕ → Compiler V → Compiler V
  unfolding emit patch
  for_exit none at c = c
  for_exit (some j) at c = emit Ins.drop_bindings (patch j at c)

  unfoldable pub for_stmt : Code V → Option (Code V) → Code V → Code V → Code V
  unfolding emit mark enter_scope exit_scope push_loop close_loop scoped for_test for_exit
  for_stmt i e st b c =
      let outer = enter_scope false c in
      i outer >>= λ c₁. for_test e c₁ >>= λ r.
      scoped false b (push_loop c.scope_depth outer.scope_depth r.1) >>= λ c₂. st c₂ >>= λ c₃.
      let c₄ = emit (Ins.jump (some (mark c₁))) c₃ in
      let c₅ = exit_scope (for_exit r.0 (mark c₄) c₄) in close_loop (mark c₅) (mark c₂) c₅

  -- the code of a for-in statement up to its body, and the places of its start and its jump
  unfoldable pub forin_head : String → ℕ → Compiler V → ℕ × ℕ × Compiler V
  unfolding emit mark enter_scope
  forin_head n seq c₁ =
      let u64 = some (name_ty "u64") in
      let av = array_name seq in
      let iv = counter_name seq in
      let start = emit (Ins.decl iv) (emit (Ins.push_int 0 u64) (emit (Ins.decl av) c₁)) in
      let test = emit Ins.len (emit (Ins.load av) (emit (Ins.load iv) start)) in
      let tested = emit (Ins.bin lt u64) test in
      let inside = enter_scope false (emit (Ins.jump_if_false none) tested) in
      let item = emit Ins.index (emit (Ins.load iv) (emit (Ins.load av) inside)) in
      (mark start, mark tested, emit (Ins.decl n) item)

  unfoldable pub forin_stmt : String → Code V → Code V → Code V
  unfolding emit mark patch enter_scope exit_scope push_loop close_loop forin_head
  forin_stmt n e b c =
      let seq = suc c.seq in
      let outer = enter_scope false (record c { seq = seq }) in
      e outer >>= λ c₁.
      let (start, test, head) = forin_head n seq c₁ in
      b (push_loop c.scope_depth outer.scope_depth head) >>= λ c₂.
      let c₃ = exit_scope c₂ in
      let next_item = emit (Ins.local_inc_u64 (counter_name seq)) c₃ in
      let c₄ = emit (Ins.jump (some start)) next_item in
      let c₅ = exit_scope (patch test (mark c₄) c₄) in close_loop (mark c₅) (mark c₃) c₅

  unfoldable pub arm_code : Pattern → Option Ty → Code V → ArmsCode V → ArmsCode V
  unfolding emit mark patch scoped
  arm_code p ty b more c =
      let c₁ = emit (Ins.try_pattern p ty) (emit Ins.load_match_value c) in
      scoped true b (emit (Ins.jump_if_no_match none) c₁) >>= λ c₂.
      let c₃ = emit (Ins.jump none) c₂ in
      more (patch (mark c₁) (mark c₃) c₃) >>= λ r. ok (mark c₂ ∷ r.0, r.1)

  unfoldable pub match_stmt : Code V → ArmsCode V → Code V
  unfolding emit mark patch_all
  match_stmt e ms c = e c >>= λ c₁. ms (emit Ins.save_match_value c₁) >>= λ r.
      let c₂ = emit Ins.trap_match r.1 in
      ok (emit Ins.clear_match_value (patch_all r.0 (mark c₂) c₂))

  unfoldable pub letelse_stmt : Pattern → Option Ty → Code V → Code V → Code V
  unfolding emit mark patch scoped
  letelse_stmt p ty e b c = e c >>= λ c₁.
      let loaded = emit Ins.load_match_value (emit Ins.save_match_value c₁) in
      let c₂ = emit Ins.clear_match_value (emit (Ins.try_pattern p ty) loaded) in
      let c₃ = emit Ins.merge_bindings (emit (Ins.jump_if_no_match none) c₂) in
      let c₄ = emit (Ins.jump none) c₃ in
      scoped false b (patch (mark c₂) (mark c₄) c₄) >>= λ c₅.
      let c₆ = emit Ins.trap_match c₅ in ok (patch (mark c₃) (mark c₆) c₆)
