-- ===== src/Bytecode/Balance.antt =====
-- src/lang/bytecode.py: `BCCompiler.expr`, `place` and `stmt` on every node.
use l.Base.{◌≡◌, String, Option, none, some, List, [], ◌∷◌, arith}
use l.Base.Dict.{lookup}
use l.Base.Results.{ok, err, ◌>>=◌}
use l.Types.{Ty}
use l.Syntax.{
  Expr, node, Form, Exprs, Inits, Stmt, Clause, Block, end, next, Arms, no_arms, arm, or_else,
  and_then, deref, no_exprs, expr_then, no_inits, init_then, no_expr, an_expr, no_clause,
  var_clause, assign_clause,
}
use l.Linker.Holds.{Holds-ok}
use l.Bytecode.{
  Ins, Checked, Compiler, emit, mark, no_name, bad_number, unnamed_callee, place_missing,
}
use l.Bytecode.Names.{parse_int_text}
use l.Bytecode.Statements.{condition}
use l.Bytecode.Compile.{
  count, init_names, qname_code, call_code, single, head_name, global, expr, exprs, inits, place,
  stmt, block, clause, arms, type_of, is_test, can_place,
}
use l.Bytecode.Kept.{
  Same, Same-refl, Steady, Steady-then, with-Steady, emit-Steady, emit-Same, emitted,
}
use l.Bytecode.Blocks.{
  condition-Steady, var_stmt-Steady, assign_stmt-Steady, lazy_binary-Steady, if_stmt-Steady,
  letelse_stmt-Steady,
}
use l.Bytecode.Rounds.{while_stmt-Steady, for_stmt-Steady}
use l.Bytecode.ForIn.{forin_stmt-Steady}
use l.Bytecode.Arms.{match_stmt-Steady, arm_code-ArmsSteady, ArmsSteady, no_arms-Armed}
use l.Bytecode.Steadily.{
  Steady-option, Steady-if, err-Steady, fields-Steady, break_jump-Steady, continue_jump-Steady,
  anonfn-Steady,
}

module _ {V : Type 0} (checked : Checked V) where
  ok-Steady : Steady {V = V} ok
  ok-Steady s c le = Same-refl s c

  qname_code-Steady : (e : Expr) (q : List String) → Steady (qname_code checked e q)
  qname_code-Steady e [] = err-Steady no_name
  qname_code-Steady e (n ∷ fs) =
      Steady-option (global checked checked.consts (single e)) _ (λ v c. ok (emit (Ins.push v) c))
        (Steady-option (global checked checked.funcs (single e)) _
          (λ f c. ok (emit (Ins.push_func n) c))
          (Steady-option (checked.resolved_variant e) _
            (λ p c. ok (emit (Ins.make_enum_zero p.0 p.1) c))
            (Steady-option (lookup n checked.imports) _ (λ q c. ok (emit (Ins.host_member q fs) c))
              (fields-Steady Ins.get_field fs (Ins.load n))
              (λ q. emit-Steady (Ins.host_member q fs)))
            (λ p. emit-Steady (Ins.make_enum_zero p.0 p.1)))
          (λ f. emit-Steady (Ins.push_func n)))
        (λ v. emit-Steady (Ins.push v))

  mutual
    unfolding expr can_place

    expr_keeps : (e : Expr) → Steady (expr checked e)
    expr_keeps (node ty Form.unit) = emit-Steady Ins.push_unit
    expr_keeps (node ty (Form.bool b)) = emit-Steady (Ins.push_bool b)
    expr_keeps (node ty (Form.byte n)) = emit-Steady (Ins.push_int n ty)
    expr_keeps (node ty (Form.int s)) =
        Steady-option (parse_int_text s) (λ c. err bad_number)
          (λ n c. ok (emit (Ins.push_int n ty) c)) (err-Steady bad_number)
          (λ n. emit-Steady (Ins.push_int n ty))
    expr_keeps (node ty (Form.float s)) = emit-Steady (Ins.push_float s ty)
    expr_keeps (node ty (Form.string bs)) = emit-Steady (Ins.make_bytes bs)
    expr_keeps (node ty Form.none_lit) = emit-Steady Ins.push_none
    expr_keeps (node ty (Form.some_of e)) =
        with-Steady (expr checked e) Ins.make_some (expr_keeps e)
    expr_keeps (node ty (Form.array es)) =
        with-Steady (exprs checked es) (Ins.make_array (count es)) (exprs_keep es)
    expr_keeps (node ty (Form.repeat e n)) =
        Steady-then (expr checked e) _ (expr_keeps e)
          (with-Steady (expr checked n) Ins.make_repeat (expr_keeps n))
    expr_keeps (node ty (Form.qname q)) = qname_code-Steady (node ty (Form.qname q)) q
    expr_keeps (node ty (Form.unary deref x)) =
        with-Steady (expr checked x) Ins.deref (expr_keeps x)
    expr_keeps (node ty (Form.unary op x)) =
        with-Steady (expr checked x) (Ins.unary op ty) (expr_keeps x)
    expr_keeps (node ty (Form.is_match e p)) =
        Steady-then (expr checked e) _ (expr_keeps e) (λ s c le.
          emitted Ins.pattern_to_bool (emit-Same s (Ins.try_pattern p (type_of e)) c le) le)
    expr_keeps (node ty (Form.binary and_then l r)) =
        lazy_binary-Steady Ins.jump_if_false_keep (expr checked l) (expr checked r) (expr_keeps l)
          (expr_keeps r)
    expr_keeps (node ty (Form.binary or_else l r)) =
        lazy_binary-Steady Ins.jump_if_true_keep (expr checked l) (expr checked r) (expr_keeps l)
          (expr_keeps r)
    expr_keeps (node ty (Form.binary op l r)) =
        Steady-then (expr checked l) _ (expr_keeps l)
          (with-Steady (expr checked r) (Ins.bin op (type_of l)) (expr_keeps r))
    expr_keeps (node ty (Form.cast e t)) =
        with-Steady (expr checked e) (Ins.cast (type_of e) ty) (expr_keeps e)
    expr_keeps (node ty (Form.new e)) = with-Steady (expr checked e) Ins.new (expr_keeps e)
    expr_keeps (node ty (Form.index a i)) =
        Steady-then (expr checked a) _ (expr_keeps a)
          (with-Steady (expr checked i) Ins.index (expr_keeps i))
    expr_keeps (node ty (Form.field e n)) =
        with-Steady (expr checked e) (Ins.get_field n) (expr_keeps e)
    expr_keeps (node ty (Form.structlit cal is)) =
        Steady-then (inits checked is) _ (inits_keep is) (
          Steady-option (head_name cal) (λ c. err no_name)
            (λ n c. ok (emit (Ins.make_struct n (init_names is)) c)) (err-Steady no_name)
            (λ n. emit-Steady (Ins.make_struct n (init_names is))))
    expr_keeps (node ty (Form.generic_call cal ts es)) =
        Steady-option (single cal) (λ c. err unnamed_callee) _ (err-Steady unnamed_callee)
          (λ f.
            Steady-option (lookup f checked.funcs) (λ c. err unnamed_callee)
              (λ info c. exprs checked es c >>= λ d. ok (emit (Ins.call_named f (count es)) d))
              (err-Steady unnamed_callee)
              (λ info.
                with-Steady (exprs checked es) (Ins.call_named f (count es)) (exprs_keep es)))
    expr_keeps (node ty (Form.call cal es)) =
        Steady-option (call_code checked (node ty (Form.call cal es)) (single cal) (count es))
          (λ c. (expr checked cal c >>= λ d. exprs checked es d) >>= λ d.
            ok (emit (Ins.call_value (count es)) d))
          (λ i c. exprs checked es c >>= λ d. ok (emit i d))
          (with-Steady (λ c. expr checked cal c >>= λ d. exprs checked es d)
            (Ins.call_value (count es))
            (Steady-then (expr checked cal) (exprs checked es) (expr_keeps cal) (exprs_keep es)))
          (λ i. with-Steady (exprs checked es) i (exprs_keep es))
    expr_keeps (node ty (Form.anonfn ps rt b)) = anonfn-Steady (block checked b) ps rt

    exprs_keep : (es : Exprs) → Steady (exprs checked es)
    exprs_keep no_exprs = ok-Steady
    exprs_keep (expr_then e es) =
        Steady-then (expr checked e) (exprs checked es) (expr_keeps e) (exprs_keep es)

    inits_keep : (is : Inits) → Steady (inits checked is)
    inits_keep no_inits = ok-Steady
    inits_keep (init_then n e is) =
        Steady-then (expr checked e) (inits checked is) (expr_keeps e) (inits_keep is)

    place_keeps : (e : Expr) → Steady (place checked e)
    place_keeps (node ty (Form.qname [])) = err-Steady no_name
    place_keeps (node ty (Form.qname (n ∷ fs))) =
        fields-Steady Ins.field_place fs (Ins.local_place n)
    place_keeps (node ty (Form.index a i)) =
        Steady-then (expr checked a) _ (expr_keeps a)
          (with-Steady (expr checked i) Ins.index_place (expr_keeps i))
    place_keeps (node ty (Form.unary deref x)) =
        with-Steady (expr checked x) Ins.deref_place (expr_keeps x)
    place_keeps (node ty (Form.field b n)) =
        Steady-if (can_place b) _ _
          (with-Steady (place checked b) (Ins.field_place n) (place_keeps b))
          (with-Steady (expr checked b) (Ins.value_field_place n) (expr_keeps b))
    place_keeps e = err-Steady place_missing

    stmt_keeps : (st : Stmt) → Steady (stmt checked st)
    stmt_keeps (Stmt.var n t e) = var_stmt-Steady n (expr checked e) (expr_keeps e)
    stmt_keeps (Stmt.assign l op r) =
        assign_stmt-Steady (place checked l) op (type_of l) (expr checked r) (place_keeps l)
          (expr_keeps r)
    stmt_keeps (Stmt.exprstmt e) = with-Steady (expr checked e) Ins.pop (expr_keeps e)
    stmt_keeps (Stmt.return no_expr) = λ s c le. emitted Ins.ret (emit-Same s Ins.push_unit c le) le
    stmt_keeps (Stmt.return (an_expr e)) = with-Steady (expr checked e) Ins.ret (expr_keeps e)
    stmt_keeps Stmt.trap = emit-Steady Ins.trap
    stmt_keeps Stmt.break = break_jump-Steady
    stmt_keeps Stmt.continue = continue_jump-Steady
    stmt_keeps (Stmt.if_else e t f) =
        if_stmt-Steady _ (block checked t) (block checked f)
          (condition-Steady (is_test e) (expr checked e) (expr_keeps e)) (block_keeps t)
          (block_keeps f)
    stmt_keeps (Stmt.while e b) =
        while_stmt-Steady _ (block checked b)
          (condition-Steady (is_test e) (expr checked e) (expr_keeps e)) (block_keeps b)
    stmt_keeps (Stmt.for i no_expr st b) =
        for_stmt-Steady (clause checked i) none (clause checked st) (block checked b)
          (clause_keeps i) tt (clause_keeps st) (block_keeps b)
    stmt_keeps (Stmt.for i (an_expr e) st b) =
        for_stmt-Steady (clause checked i) (some (condition (is_test e) (expr checked e)))
          (clause checked st) (block checked b) (clause_keeps i)
          (condition-Steady (is_test e) (expr checked e) (expr_keeps e)) (clause_keeps st)
          (block_keeps b)
    stmt_keeps (Stmt.forin n e b) =
        forin_stmt-Steady n (expr checked e) (block checked b) (expr_keeps e) (block_keeps b)
    stmt_keeps (Stmt.match e ms) =
        match_stmt-Steady (expr checked e) (arms checked (type_of e) ms) (expr_keeps e)
          (arms_keep (type_of e) ms)
    stmt_keeps (Stmt.letelse p e b) =
        letelse_stmt-Steady p (type_of e) (expr checked e) (block checked b) (expr_keeps e)
          (block_keeps b)

    block_keeps : (b : Block) → Steady (block checked b)
    block_keeps end = ok-Steady
    block_keeps (next st b) =
        Steady-then (stmt checked st) (block checked b) (stmt_keeps st) (block_keeps b)

    clause_keeps : (k : Clause) → Steady (clause checked k)
    clause_keeps no_clause = ok-Steady
    clause_keeps (var_clause n t e) = var_stmt-Steady n (expr checked e) (expr_keeps e)
    clause_keeps (assign_clause l op r) =
        assign_stmt-Steady (place checked l) op (type_of l) (expr checked r) (place_keeps l)
          (expr_keeps r)

    arms_keep : (ty : Option Ty) (ms : Arms) → ArmsSteady (arms checked ty ms)
    arms_keep ty no_arms = λ s c le. no_arms-Armed s c
    arms_keep ty (arm p b ms) =
        arm_code-ArmsSteady p ty (block checked b) (arms checked ty ms) (block_keeps b)
          (arms_keep ty ms)

  -- A statement that compiles leaves the instructions before its own, the loops around it and the
  -- depth of scopes as they were, but for jumps added to those loops, none of which stands before
  -- the statement's code.
  pub stmt-Same : (st : Stmt) (c c' : Compiler V) → stmt checked st c ≡ ok c' → Same (mark c) c c'
  stmt-Same st c c' e =
      Holds-ok (Same (mark c) c) (stmt checked st c) c' e (stmt_keeps st (mark c) c (omega arith))
