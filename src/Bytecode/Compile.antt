-- ===== src/Bytecode/Compile.antt =====
-- src/lang/bytecode.py: `BCCompiler.compile_fn`, `anon_fn`, `stmt`, `condition`, `can_place`,
-- `place` and `expr`.
use l.Base.{
  ℕ, suc, String, Bool, true, false, Option, none, some, List, [], ◌∷◌, map, ◌||◌, str_eq,
  if◌then◌else◌,
}
use l.Base.Dict.{Dict, lookup, insert}
use l.Base.Results.{ok, err, ◌>>=◌}
use l.Types.{Ty}
use l.Syntax.{
  Expr, node, Form, Exprs, Inits, Stmt, Clause, Block, end, next, Arms, no_arms, arm, or_else,
  and_then, deref, no_exprs, expr_then, no_inits, init_then, no_expr, an_expr, no_clause,
  var_clause, assign_clause,
}
use l.Bytecode.{
  Ins, FnInfo, Checked, Compiler, Compiled, place_missing, unnamed_callee, no_name, bad_number,
  emit, break_jump, continue_jump,
}
use l.Bytecode.Statements.{
  Code, ArmsCode, var_stmt, assign_stmt, lazy_binary, if_stmt, while_stmt, for_stmt, forin_stmt,
  arm_code, condition, match_stmt, letelse_stmt,
}
use l.Bytecode.Names.{anon_name, parse_int_text}

-- len(e.a[0]) of a tuple of expressions
abbrev pub count : Exprs → ℕ
count no_exprs = 0
count (expr_then e es) = suc (count es)

abbrev pub init_names : Inits → List String
init_names no_inits = []
init_names (init_then n e is) = n ∷ init_names is

-- for f in q[1:]: self.emit(opcode, f)
unfoldable pub emit_fields : {V : Type 0} → (String → Ins V) → List String → Compiler V → Compiler V
unfolding emit
emit_fields opcode [] c = c
emit_fields opcode (f ∷ fs) c = emit_fields opcode fs (emit (opcode f) c)

abbrev is_ref_ty : Option Ty → Bool
is_ref_ty (some (Ty.ref t)) = true
is_ref_ty _ = false

-- the test that chooses how the base of a field place is compiled
unfoldable pub can_place : Expr → Bool
can_place (node ty (Form.qname q)) = true
can_place (node ty (Form.index a i)) = true
can_place (node ty (Form.unary deref x)) = true
can_place (node ty (Form.field (node t b) n)) = can_place (node t b) || is_ref_ty t
can_place _ = false

-- the one name of a qname, where it has one
abbrev pub single : Expr → Option String
single (node ty (Form.qname (n ∷ []))) = some n
single _ = none

-- cal.a[0][0] of a struct literal
abbrev pub head_name : Expr → Option String
head_name (node ty (Form.qname (n ∷ fs))) = some n
head_name _ = none

abbrev pub type_of : Expr → Option Ty
type_of (node ty e) = ty

abbrev pub is_test : Expr → Bool
is_test (node ty (Form.is_match e p)) = true
is_test _ = false

-- the opcodes of the functions that are built in
abbrev builtin : {V : Type 0} → String → Option (Ins V)
builtin n =
    if str_eq n "len"
    then some Ins.len
    else (if str_eq n "push"
        then some Ins.array_push
        else (if str_eq n "pop"
            then some Ins.array_pop
            else (if str_eq n "splice" then some Ins.array_splice else none)))

module _ {V : Type 0} where
  abbrev pub start_fn : Compiler V → Compiler V
  start_fn c = record c { code = []; loops = []; scope_depth = 1 }

  -- the end of a function's body, its entry in `self.funcs`, and what was saved put back
  abbrev pub finish_fn : String → List (String × Ty) → Ty → Compiler V → Compiler V → Compiler V
  finish_fn name ps rt old c =
      let full = emit Ins.ret (emit Ins.push_unit c) in
      record c {
        code = old.code;
        loops = old.loops;
        scope_depth = old.scope_depth;
        done =
            insert name (record { param_names = map (λ p. p.0) ps; code = full.code; result = rt })
              c.done;
      }

  -- self.anon[key] = name
  abbrev pub note_anon : Compiler V → Compiler V
  note_anon c = record c { anon = suc c.anon }

module _ {V : Type 0} (checked : Checked V) where
  abbrev pub global {ℓ} : {A : Type ℓ} → Dict A → Option String → Option A
  global d none = none
  global d (some n) = lookup n d

  -- the instruction of a name alone, of a variant and of a member of a host module
  abbrev pub qname_code : Expr → List String → Compiler V → Compiled V
  qname_code e [] c = err no_name
  qname_code e (n ∷ fs) c = elim (global checked.consts (single e)) [
    | some v ↦ ok (emit (Ins.push v) c)
    | none ↦ elim (global checked.funcs (single e)) [
      | some f ↦ ok (emit (Ins.push_func n) c)
      | none ↦ elim (checked.resolved_variant e) [
        | some (enum, variant) ↦ ok (emit (Ins.make_enum_zero enum variant) c)
        | none ↦ elim (lookup n checked.imports) [
          | some q ↦ ok (emit (Ins.host_member q fs) c)
          | none ↦ ok (emit_fields Ins.get_field fs (emit (Ins.load n) c))
        ]
      ]
    ]
  ]

  abbrev variant_code : Expr → ℕ → Option (Ins V)
  variant_code e n = elim (checked.resolved_variant e) [
    | some (enum, variant) ↦ some (Ins.make_enum enum variant n)
    | none ↦ none
  ]

  -- The instruction behind the arguments of a call: a built-in function, a named function or a
  -- variant, in the order of the tests. Otherwise the callee is a value.
  abbrev pub call_code : Expr → Option String → ℕ → Option (Ins V)
  call_code e none n = variant_code e n
  call_code e (some f) n = elim (builtin f) [
    | some i ↦ some i
    | none ↦ elim (lookup f checked.funcs) [
      | some info ↦ some (Ins.call_named f n)
      | none ↦ variant_code e n
    ]
  ]

  unfoldable mutual
    unfolding emit break_jump continue_jump lazy_binary var_stmt assign_stmt if_stmt while_stmt
        for_stmt forin_stmt match_stmt letelse_stmt arm_code condition

    pub expr : Expr → Compiler V → Compiled V
    expr (node ty Form.unit) c = ok (emit Ins.push_unit c)
    expr (node ty (Form.bool b)) c = ok (emit (Ins.push_bool b) c)
    expr (node ty (Form.byte n)) c = ok (emit (Ins.push_int n ty) c)
    expr (node ty (Form.int s)) c = elim (parse_int_text s) [
      | some n ↦ ok (emit (Ins.push_int n ty) c)
      | none ↦ err bad_number
    ]
    expr (node ty (Form.float s)) c = ok (emit (Ins.push_float s ty) c)
    expr (node ty (Form.string bs)) c = ok (emit (Ins.make_bytes bs) c)
    expr (node ty Form.none_lit) c = ok (emit Ins.push_none c)
    expr (node ty (Form.some_of e)) c = expr e c >>= λ c₁. ok (emit Ins.make_some c₁)
    expr (node ty (Form.array es)) c = exprs es c >>= λ c₁. ok (emit (Ins.make_array (count es)) c₁)
    expr (node ty (Form.repeat e n)) c =
        expr e c >>= λ c₁. expr n c₁ >>= λ c₂. ok (emit Ins.make_repeat c₂)
    expr (node ty (Form.qname q)) c = qname_code (node ty (Form.qname q)) q c
    expr (node ty (Form.unary deref x)) c = expr x c >>= λ c₁. ok (emit Ins.deref c₁)
    expr (node ty (Form.unary op x)) c = expr x c >>= λ c₁. ok (emit (Ins.unary op ty) c₁)
    expr (node ty (Form.is_match e p)) c =
        expr e c >>= λ c₁. ok (emit Ins.pattern_to_bool (emit (Ins.try_pattern p (type_of e)) c₁))
    expr (node ty (Form.binary and_then l r)) c =
        lazy_binary Ins.jump_if_false_keep (expr l) (expr r) c
    expr (node ty (Form.binary or_else l r)) c =
        lazy_binary Ins.jump_if_true_keep (expr l) (expr r) c
    expr (node ty (Form.binary op l r)) c =
        expr l c >>= λ c₁. expr r c₁ >>= λ c₂. ok (emit (Ins.bin op (type_of l)) c₂)
    expr (node ty (Form.cast e t)) c = expr e c >>= λ c₁. ok (emit (Ins.cast (type_of e) ty) c₁)
    expr (node ty (Form.new e)) c = expr e c >>= λ c₁. ok (emit Ins.new c₁)
    expr (node ty (Form.index a i)) c =
        expr a c >>= λ c₁. expr i c₁ >>= λ c₂. ok (emit Ins.index c₂)
    expr (node ty (Form.field e n)) c = expr e c >>= λ c₁. ok (emit (Ins.get_field n) c₁)
    expr (node ty (Form.structlit cal is)) c = inits is c >>= λ c₁. elim (head_name cal) [
      | some n ↦ ok (emit (Ins.make_struct n (init_names is)) c₁)
      | none ↦ err no_name
    ]
    expr (node ty (Form.generic_call cal ts es)) c =
        let args = exprs es c in
        elim (single cal) [
          | none ↦ err unnamed_callee
          | some f ↦ elim (lookup f checked.funcs) [
            | some info ↦ args >>= λ c₁. ok (emit (Ins.call_named f (count es)) c₁)
            | none ↦ err unnamed_callee
          ]
        ]
    expr (node ty (Form.call cal es)) c =
        let args = exprs es c in
        let value = expr cal c >>= λ c₁. exprs es c₁ in
        elim (call_code (node ty (Form.call cal es)) (single cal) (count es)) [
          | some i ↦ args >>= λ c₁. ok (emit i c₁)
          | none ↦ value >>= λ c₁. ok (emit (Ins.call_value (count es)) c₁)
        ]
    expr (node ty (Form.anonfn ps rt b)) c = block b (start_fn c) >>= λ c₁.
        let name = anon_name c.anon in
        ok (emit (Ins.push_func name) (note_anon (finish_fn name ps rt c c₁)))

    pub exprs : Exprs → Compiler V → Compiled V
    exprs no_exprs c = ok c
    exprs (expr_then e es) c = expr e c >>= λ c₁. exprs es c₁

    pub inits : Inits → Compiler V → Compiled V
    inits no_inits c = ok c
    inits (init_then n e is) c = expr e c >>= λ c₁. inits is c₁

    pub place : Expr → Compiler V → Compiled V
    place (node ty (Form.qname [])) c = err no_name
    place (node ty (Form.qname (n ∷ fs))) c =
        ok (emit_fields Ins.field_place fs (emit (Ins.local_place n) c))
    place (node ty (Form.index a i)) c =
        expr a c >>= λ c₁. expr i c₁ >>= λ c₂. ok (emit Ins.index_place c₂)
    place (node ty (Form.unary deref x)) c = expr x c >>= λ c₁. ok (emit Ins.deref_place c₁)
    place (node ty (Form.field b n)) c =
        let inner = place b c in
        let value = expr b c in
        if can_place b
        then (inner >>= λ c₁. ok (emit (Ins.field_place n) c₁))
        else value >>= λ c₁. ok (emit (Ins.value_field_place n) c₁)
    place e c = err place_missing

    pub stmt : Stmt → Code V
    stmt (Stmt.var n t e) c = var_stmt n (expr e) c
    stmt (Stmt.assign l op r) c = assign_stmt (place l) op (type_of l) (expr r) c
    stmt (Stmt.exprstmt e) c = expr e c >>= λ c₁. ok (emit Ins.pop c₁)
    stmt (Stmt.return no_expr) c = ok (emit Ins.ret (emit Ins.push_unit c))
    stmt (Stmt.return (an_expr e)) c = expr e c >>= λ c₁. ok (emit Ins.ret c₁)
    stmt Stmt.trap c = ok (emit Ins.trap c)
    stmt Stmt.break c = break_jump c
    stmt Stmt.continue c = continue_jump c
    stmt (Stmt.if_else e t f) c = if_stmt (condition (is_test e) (expr e)) (block t) (block f) c
    stmt (Stmt.while e b) c = while_stmt (condition (is_test e) (expr e)) (block b) c
    stmt (Stmt.for i no_expr st b) c = for_stmt (clause i) none (clause st) (block b) c
    stmt (Stmt.for i (an_expr e) st b) c =
        for_stmt (clause i) (some (condition (is_test e) (expr e))) (clause st) (block b) c
    stmt (Stmt.forin n e b) c = forin_stmt n (expr e) (block b) c
    stmt (Stmt.match e ms) c = match_stmt (expr e) (arms (type_of e) ms) c
    stmt (Stmt.letelse p e b) c = letelse_stmt p (type_of e) (expr e) (block b) c

    pub block : Block → Code V
    block end c = ok c
    block (next s b) c = stmt s c >>= λ c₁. block b c₁

    pub clause : Clause → Code V
    clause no_clause c = ok c
    clause (var_clause n t e) c = var_stmt n (expr e) c
    clause (assign_clause l op r) c = assign_stmt (place l) op (type_of l) (expr r) c

    pub arms : Option Ty → Arms → ArmsCode V
    arms ty no_arms c = ok ([], c)
    arms ty (arm p b ms) c = arm_code p ty (block b) (arms ty ms) c

  -- a function that is there already is left as it is
  unfoldable pub compile_fn : String → FnInfo → Compiler V → Compiled V
  compile_fn name f c = elim (lookup name c.done) [
    | some g ↦ ok c
    | none ↦ block f.body (start_fn c) >>= λ c₁. ok (finish_fn name f.params f.ret_ty c c₁)
  ]

  abbrev compile_fns : Dict FnInfo → Compiler V → Compiled V
  compile_fns [] c = ok c
  compile_fns ((name, f) ∷ fs) c = compile_fn name f c >>= λ c₁. compile_fns fs c₁

  abbrev fresh : Compiler V
  fresh = record { code = []; loops = []; scope_depth = 1; seq = 0; anon = 0; done = [] }

  -- `BCCompiler.__init__`: all functions of the module, in their order
  unfoldable pub compile : Compiled V
  unfolding compile_fn
  compile = compile_fns checked.funcs fresh
