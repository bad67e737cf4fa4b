-- ===== src/Parser/Exprs/Fuel.antt =====
-- The fuel of expressions and statements, against the tokens that are left.
use l.Base.{
  ℕ, zero, suc, ◌+◌, ◌-◌, ◌*◌, ◌≤◌, ◌≡◌, refl, arith, Bool, true, false, ◌&&◌, Option, some, none,
}
use l.Types.{Tys}
use l.Syntax.{Expr, Exprs}
use l.Parser.Tokens.{eof}
use l.Parser.Types.Fuel.{qname_rest-Consumes, type-Consumes, result_type-Consumes, types-Consumes}
use l.Parser.Patterns.Fuel.{pattern_at-Consumes}
use l.Parser.Operators.{
  Infix, is_op, binary_op, compares, infix_from, literal_of, prefix_of, assign_of,
}
use l.Parser.Exprs.{
  expr, prefix_expr, after_first, items, postfix, after_bracket, generic_args, exprs, exprs_from,
  inits, inits_from, binary_loop, operand, params, param_list, params_from, block, stmts, stmt,
  simple_stmt, var_parts, if_parts, else_part, for_parts, init_part, test_part, step_part,
  assign_no_semi, arms,
}
use l.Parser.Consumes.{
  Consumes, Consumes-ret, Consumes-fail, Consumes-weaken, Consumes-some, Consumes-look,
  Consumes-look_in, Consumes-peek, Consumes-bind, Consumes-take, Consumes-take_name, Consumes-if,
  Consumes-attempt,
}

infix_from-eof : (minp : ℕ) → infix_from minp eof ≡ none
unfolding infix_from
infix_from-eof minp = refl

mutual
  unfolding expr literal_of prefix_of assign_of

  pub expr-Consumes : (f : ℕ) (minp : ℕ) {a : ℕ} → 8 * a + 2 ≤ f → Consumes a (a - 1) (expr f minp)
  expr-Consumes zero minp le = absurd (omega arith)
  expr-Consumes (suc f) minp le = Consumes-some λ n e₁.
      Consumes-bind (prefix_expr-Consumes f (omega arith)) λ e.
        Consumes-bind (postfix-Consumes f e (omega arith)) λ e'.
          Consumes-look _ refl
            (λ _. Consumes-bind (type-Consumes f (omega arith)) λ t.
              Consumes-weaken (binary_loop-Consumes f minp false _ (omega arith)) (omega arith))
            (Consumes-weaken (binary_loop-Consumes f minp false _ (omega arith)) (omega arith))

  pub prefix_expr-Consumes : (f : ℕ) {a : ℕ} → 8 * a + 1 ≤ f → Consumes a (a - 1) (prefix_expr f)
  prefix_expr-Consumes zero le = absurd (omega arith)
  prefix_expr-Consumes (suc f) le = Consumes-some λ n e₁.
      Consumes-look _ refl
        (λ _.
          Consumes-look _ refl (λ _. Consumes-ret _ (omega arith))
            (Consumes-bind (expr-Consumes f 0 (omega arith))
              λ e. Consumes-bind (Consumes-take ")") λ _. Consumes-ret _ (omega arith)))
        (Consumes-look _ refl (λ _. Consumes-ret _ (omega arith))
          (Consumes-look _ refl
            (λ _. Consumes-bind (Consumes-take "(") λ _.
              Consumes-bind (expr-Consumes f 0 (omega arith))
                λ x. Consumes-bind (Consumes-take ")") λ _. Consumes-ret _ (omega arith))
            (Consumes-look _ refl
              (λ _.
                Consumes-bind (expr-Consumes f 10 (omega arith)) λ x. Consumes-ret _ (omega arith))
              (Consumes-look _ refl
                (λ _. Consumes-bind (params-Consumes f (omega arith)) λ ps.
                  Consumes-bind (result_type-Consumes f (omega arith)) λ r.
                    Consumes-bind (block-Consumes f (omega arith))
                      λ b. Consumes-ret _ (omega arith))
                (Consumes-look _ refl
                  (λ _.
                    Consumes-look _ refl (λ _. Consumes-ret _ (omega arith))
                      (Consumes-bind (expr-Consumes f 0 (omega arith)) λ first.
                        Consumes-weaken (after_first-Consumes f first (omega arith)) (omega arith)))
                  (Consumes-look _ refl
                    (λ _.
                      Consumes-bind (qname_rest-Consumes f _ (omega arith))
                        λ q. Consumes-ret _ (omega arith))
                    (Consumes-look _ refl
                      (λ _.
                        Consumes-bind (expr-Consumes f 10 (omega arith))
                          λ x. Consumes-ret _ (omega arith))
                      (Consumes-fail _))))))))

  pub after_first-Consumes :
      (f : ℕ) (first : Expr) {a : ℕ} → 8 * a + 2 ≤ f → Consumes a (a - 1) (after_first f first)
  after_first-Consumes zero first le = absurd (omega arith)
  after_first-Consumes (suc f) first le = Consumes-some λ n e₁.
      Consumes-look _ refl
        (λ _.
          Consumes-bind (expr-Consumes f 0 (omega arith))
            λ n. Consumes-bind (Consumes-take "]") λ _. Consumes-ret _ (omega arith))
        (Consumes-bind (items-Consumes f (omega arith))
          λ xs. Consumes-bind (Consumes-take "]") λ _. Consumes-ret _ (omega arith))

  pub items-Consumes : (f : ℕ) {a : ℕ} → 8 * a + 1 ≤ f → Consumes a (a) (items f)
  items-Consumes zero le = absurd (omega arith)
  items-Consumes (suc f) le = Consumes-some λ n e₁.
      Consumes-look _ refl
        (λ _. Consumes-peek _ (Consumes-ret _ (omega arith)) (
          Consumes-bind (expr-Consumes f 0 (omega arith))
            λ x. Consumes-bind (items-Consumes f (omega arith)) λ xs. Consumes-ret _ (omega arith)))
        (Consumes-ret _ (omega arith))

  pub postfix-Consumes : (f : ℕ) (e : Expr) {a : ℕ} → 8 * a + 1 ≤ f → Consumes a (a) (postfix f e)
  postfix-Consumes zero e le = absurd (omega arith)
  postfix-Consumes (suc f) e le = Consumes-some λ n e₁.
      Consumes-look _ refl
        (λ _. Consumes-bind (exprs-Consumes f (omega arith)) λ as'.
          Consumes-bind (Consumes-take ")")
            λ _. Consumes-weaken (postfix-Consumes f _ (omega arith)) (omega arith))
        (Consumes-look _ refl
          (λ _.
            Consumes-bind (Consumes-attempt (generic_args-Consumes f (omega arith)) (omega arith))
              λ r. Consumes-weaken (after_bracket-Consumes f e r (omega arith)) (omega arith))
          (Consumes-look _ refl
            (λ _.
              Consumes-bind Consumes-take_name
                λ m. Consumes-weaken (postfix-Consumes f _ (omega arith)) (omega arith))
            (Consumes-look _ refl
              (λ _. Consumes-bind (inits-Consumes f (omega arith)) λ fs.
                Consumes-bind (Consumes-take "}")
                  λ _. Consumes-weaken (postfix-Consumes f _ (omega arith)) (omega arith))
              (Consumes-ret _ (omega arith)))))

  pub after_bracket-Consumes :
      (f : ℕ) (e : Expr) (r : Option (Tys × Exprs)) {a : ℕ}
      → 8 * a + 3 ≤ f
      → Consumes a (a) (after_bracket f e r)
  after_bracket-Consumes zero e r le = absurd (omega arith)
  after_bracket-Consumes (suc f) e (some (ts, as')) le =
      Consumes-some λ n e₁. Consumes-weaken (postfix-Consumes f _ (omega arith)) (omega arith)
  after_bracket-Consumes (suc f) e none le = Consumes-some λ n e₁.
      Consumes-bind (expr-Consumes f 0 (omega arith)) λ i.
        Consumes-bind (Consumes-take "]")
          λ _. Consumes-weaken (postfix-Consumes f _ (omega arith)) (omega arith)

  pub generic_args-Consumes : (f : ℕ) {a : ℕ} → 8 * a + 5 ≤ f → Consumes a (a) (generic_args f)
  generic_args-Consumes zero le = absurd (omega arith)
  generic_args-Consumes (suc f) le = Consumes-some λ n e₁.
      Consumes-bind (types-Consumes f "]" (omega arith)) λ ts.
        Consumes-look _ refl
          (λ _.
            Consumes-look _ refl
              (λ _.
                Consumes-bind (exprs-Consumes f (omega arith))
                  λ as'. Consumes-bind (Consumes-take ")") λ _. Consumes-ret _ (omega arith))
              (Consumes-ret _ (omega arith)))
          (Consumes-ret _ (omega arith))

  pub exprs-Consumes : (f : ℕ) {a : ℕ} → 8 * a + 4 ≤ f → Consumes a (a) (exprs f)
  exprs-Consumes zero le = absurd (omega arith)
  exprs-Consumes (suc f) le = Consumes-some λ n e₁.
      Consumes-peek _ (Consumes-ret _ (omega arith))
        (Consumes-weaken (exprs_from-Consumes f (omega arith)) (omega arith))

  pub exprs_from-Consumes : (f : ℕ) {a : ℕ} → 8 * a + 3 ≤ f → Consumes a (a - 1) (exprs_from f)
  exprs_from-Consumes zero le = absurd (omega arith)
  exprs_from-Consumes (suc f) le = Consumes-some λ n e₁.
      Consumes-bind (expr-Consumes f 0 (omega arith)) λ x.
        Consumes-look _ refl
          (λ _. Consumes-bind (exprs-Consumes f (omega arith)) λ xs. Consumes-ret _ (omega arith))
          (Consumes-ret _ (omega arith))

  pub inits-Consumes : (f : ℕ) {a : ℕ} → 8 * a + 2 ≤ f → Consumes a (a) (inits f)
  inits-Consumes zero le = absurd (omega arith)
  inits-Consumes (suc f) le = Consumes-some λ n e₁.
      Consumes-peek _ (Consumes-ret _ (omega arith))
        (Consumes-weaken (inits_from-Consumes f (omega arith)) (omega arith))

  pub inits_from-Consumes : (f : ℕ) {a : ℕ} → 8 * a + 1 ≤ f → Consumes a (a - 1) (inits_from f)
  inits_from-Consumes zero le = absurd (omega arith)
  inits_from-Consumes (suc f) le = Consumes-some λ n e₁. Consumes-bind Consumes-take_name λ m.
      Consumes-bind (Consumes-take ":") λ _. Consumes-bind (expr-Consumes f 0 (omega arith)) λ x.
        Consumes-look _ refl
          (λ _. Consumes-bind (inits-Consumes f (omega arith)) λ xs. Consumes-ret _ (omega arith))
          (Consumes-ret _ (omega arith))

  pub binary_loop-Consumes :
      (f : ℕ) (minp : ℕ) (used : Bool) (e : Expr) {a : ℕ}
      → 8 * a + 1 ≤ f
      → Consumes a (a) (binary_loop f minp used e)
  binary_loop-Consumes zero minp used e le = absurd (omega arith)
  binary_loop-Consumes (suc f) minp used e le = Consumes-some λ n e₁.
      Consumes-look _ (infix_from-eof minp)
        (λ op.
          Consumes-if (compares op && used) (Consumes-fail _)
            (Consumes-weaken (operand-Consumes f minp used e op (omega arith)) (omega arith)))
        (Consumes-ret _ (omega arith))

  pub operand-Consumes :
      (f : ℕ) (minp : ℕ) (used : Bool) (e : Expr) (op : Infix) {a : ℕ}
      → 8 * a + 3 ≤ f
      → Consumes a (a) (operand f minp used e op)
  operand-Consumes zero minp used e op le = absurd (omega arith)
  operand-Consumes (suc f) minp used e is_op le = Consumes-some λ n e₁.
      Consumes-bind (pattern_at-Consumes f (omega arith))
        λ p. Consumes-weaken (binary_loop-Consumes f minp true _ (omega arith)) (omega arith)
  operand-Consumes (suc f) minp used e (binary_op b p) le = Consumes-some λ n e₁.
      Consumes-bind (expr-Consumes f (p + 1) (omega arith))
        λ r. Consumes-weaken (binary_loop-Consumes f minp _ _ (omega arith)) (omega arith)

  pub params-Consumes : (f : ℕ) {a : ℕ} → 8 * a + 1 ≤ f → Consumes a (a - 1) (params f)
  params-Consumes zero le = absurd (omega arith)
  params-Consumes (suc f) le = Consumes-some λ n e₁. Consumes-bind (Consumes-take "(") λ _.
      Consumes-bind (param_list-Consumes f (omega arith))
        λ ps. Consumes-bind (Consumes-take ")") λ _. Consumes-ret _ (omega arith)

  pub param_list-Consumes : (f : ℕ) {a : ℕ} → 8 * a + 2 ≤ f → Consumes a (a) (param_list f)
  param_list-Consumes zero le = absurd (omega arith)
  param_list-Consumes (suc f) le = Consumes-some λ n e₁.
      Consumes-peek _ (Consumes-ret _ (omega arith))
        (Consumes-weaken (params_from-Consumes f (omega arith)) (omega arith))

  pub params_from-Consumes : (f : ℕ) {a : ℕ} → 8 * a + 1 ≤ f → Consumes a (a - 1) (params_from f)
  params_from-Consumes zero le = absurd (omega arith)
  params_from-Consumes (suc f) le = Consumes-some λ n e₁. Consumes-bind Consumes-take_name λ m.
      Consumes-bind (Consumes-take ":") λ _. Consumes-bind (type-Consumes f (omega arith)) λ t.
        Consumes-look _ refl
          (λ _.
            Consumes-bind (param_list-Consumes f (omega arith)) λ ps. Consumes-ret _ (omega arith))
          (Consumes-ret _ (omega arith))

  pub block-Consumes : (f : ℕ) {a : ℕ} → 8 * a + 1 ≤ f → Consumes a (a - 1) (block f)
  block-Consumes zero le = absurd (omega arith)
  block-Consumes (suc f) le = Consumes-some λ n e₁.
      Consumes-bind (Consumes-take "{")
        λ _. Consumes-weaken (stmts-Consumes f (omega arith)) (omega arith)

  pub stmts-Consumes : (f : ℕ) {a : ℕ} → 8 * a + 5 ≤ f → Consumes a (a - 1) (stmts f)
  stmts-Consumes zero le = absurd (omega arith)
  stmts-Consumes (suc f) le = Consumes-some λ n e₁.
      Consumes-look _ refl (λ _. Consumes-ret _ (omega arith))
        (Consumes-bind (stmt-Consumes f (omega arith))
          λ s. Consumes-bind (stmts-Consumes f (omega arith)) λ b. Consumes-ret _ (omega arith))

  pub stmt-Consumes : (f : ℕ) {a : ℕ} → 8 * a + 4 ≤ f → Consumes a (a - 1) (stmt f)
  stmt-Consumes zero le = absurd (omega arith)
  stmt-Consumes (suc f) le = Consumes-some λ n e₁.
      Consumes-look _ refl
        (λ _.
          Consumes-bind (var_parts-Consumes f (omega arith))
            λ (m, t, e). Consumes-bind (Consumes-take ";") λ _. Consumes-ret _ (omega arith))
        (Consumes-look _ refl
          (λ _. Consumes-weaken (if_parts-Consumes f (omega arith)) (omega arith))
          (Consumes-look _ refl
            (λ _. Consumes-bind (Consumes-take "(") λ _.
              Consumes-bind (expr-Consumes f 0 (omega arith)) λ c.
                Consumes-bind (Consumes-take ")") λ _.
                  Consumes-bind (block-Consumes f (omega arith)) λ b. Consumes-ret _ (omega arith))
            (Consumes-look _ refl
              (λ _.
                Consumes-bind (Consumes-take "(")
                  λ _. Consumes-weaken (for_parts-Consumes f (omega arith)) (omega arith))
              (Consumes-look _ refl
                (λ _. Consumes-bind (Consumes-take "(") λ _.
                  Consumes-bind (expr-Consumes f 0 (omega arith)) λ e.
                    Consumes-bind (Consumes-take ")") λ _. Consumes-bind (Consumes-take "{") λ _.
                      Consumes-bind (arms-Consumes f (omega arith))
                        λ as'. Consumes-ret _ (omega arith))
                (Consumes-look _ refl
                  (λ _. Consumes-bind (pattern_at-Consumes f (omega arith)) λ p.
                    Consumes-bind (Consumes-take "=") λ _.
                      Consumes-bind (expr-Consumes f 0 (omega arith)) λ e.
                        Consumes-bind (Consumes-take "else") λ _.
                          Consumes-bind (block-Consumes f (omega arith)) λ b.
                            Consumes-bind (Consumes-take ";") λ _. Consumes-ret _ (omega arith))
                  (Consumes-weaken (simple_stmt-Consumes f (omega arith)) (omega arith)))))))

  pub simple_stmt-Consumes : (f : ℕ) {a : ℕ} → 8 * a + 3 ≤ f → Consumes a (a - 1) (simple_stmt f)
  simple_stmt-Consumes zero le = absurd (omega arith)
  simple_stmt-Consumes (suc f) le = Consumes-some λ n e₁.
      Consumes-look _ refl
        (λ _.
          Consumes-look _ refl (λ _. Consumes-ret _ (omega arith))
            (Consumes-bind (expr-Consumes f 0 (omega arith))
              λ e. Consumes-bind (Consumes-take ";") λ _. Consumes-ret _ (omega arith)))
        (Consumes-look _ refl
          (λ _. Consumes-bind (Consumes-take ";") λ _. Consumes-ret _ (omega arith))
          (Consumes-look _ refl
            (λ _. Consumes-bind (Consumes-take ";") λ _. Consumes-ret _ (omega arith))
            (Consumes-look _ refl
              (λ _. Consumes-bind (Consumes-take ";") λ _. Consumes-ret _ (omega arith))
              (Consumes-bind (expr-Consumes f 0 (omega arith)) λ l.
                Consumes-look _ refl
                  (λ _.
                    Consumes-bind (expr-Consumes f 0 (omega arith))
                      λ r. Consumes-bind (Consumes-take ";") λ _. Consumes-ret _ (omega arith))
                  (Consumes-bind (Consumes-take ";") λ _. Consumes-ret _ (omega arith))))))

  pub var_parts-Consumes : (f : ℕ) {a : ℕ} → 8 * a + 1 ≤ f → Consumes a (a - 1) (var_parts f)
  var_parts-Consumes zero le = absurd (omega arith)
  var_parts-Consumes (suc f) le = Consumes-some λ n e₁. Consumes-bind Consumes-take_name λ m.
      Consumes-look _ refl
        (λ _. Consumes-bind (type-Consumes f (omega arith)) λ t.
          Consumes-bind (Consumes-take "=")
            λ _. Consumes-bind (expr-Consumes f 0 (omega arith)) λ e. Consumes-ret _ (omega arith))
        (Consumes-bind (Consumes-take "=")
          λ _. Consumes-bind (expr-Consumes f 0 (omega arith)) λ e. Consumes-ret _ (omega arith))

  pub if_parts-Consumes : (f : ℕ) {a : ℕ} → 8 * a + 1 ≤ f → Consumes a (a - 1) (if_parts f)
  if_parts-Consumes zero le = absurd (omega arith)
  if_parts-Consumes (suc f) le = Consumes-some λ n e₁. Consumes-bind (Consumes-take "(") λ _.
      Consumes-bind (expr-Consumes f 0 (omega arith)) λ c. Consumes-bind (Consumes-take ")") λ _.
        Consumes-bind (block-Consumes f (omega arith))
          λ t. Consumes-bind (else_part-Consumes f (omega arith)) λ e. Consumes-ret _ (omega arith)

  pub else_part-Consumes : (f : ℕ) {a : ℕ} → 8 * a + 1 ≤ f → Consumes a (a) (else_part f)
  else_part-Consumes zero le = absurd (omega arith)
  else_part-Consumes (suc f) le = Consumes-some λ n e₁.
      Consumes-look _ refl
        (λ _.
          Consumes-look _ refl
            (λ _.
              Consumes-bind (if_parts-Consumes f (omega arith)) λ s. Consumes-ret _ (omega arith))
            (Consumes-weaken (block-Consumes f (omega arith)) (omega arith)))
        (Consumes-ret _ (omega arith))

  pub for_parts-Consumes : (f : ℕ) {a : ℕ} → 8 * a + 5 ≤ f → Consumes a (a - 1) (for_parts f)
  for_parts-Consumes zero le = absurd (omega arith)
  for_parts-Consumes (suc f) le = Consumes-some λ n e₁.
      Consumes-look_in
        (λ k. Consumes-bind (expr-Consumes f 0 (omega arith)) λ e.
          Consumes-bind (Consumes-take ")")
            λ _. Consumes-bind (block-Consumes f (omega arith)) λ b. Consumes-ret _ (omega arith))
        (Consumes-bind (init_part-Consumes f (omega arith)) λ i.
          Consumes-bind (Consumes-take ";") λ _.
            Consumes-bind (test_part-Consumes f (omega arith)) λ c.
              Consumes-bind (Consumes-take ";") λ _.
                Consumes-bind (step_part-Consumes f (omega arith)) λ s.
                  Consumes-bind (Consumes-take ")") λ _.
                    Consumes-bind (block-Consumes f (omega arith))
                      λ b. Consumes-ret _ (omega arith))

  pub init_part-Consumes : (f : ℕ) {a : ℕ} → 8 * a + 4 ≤ f → Consumes a (a) (init_part f)
  init_part-Consumes zero le = absurd (omega arith)
  init_part-Consumes (suc f) le = Consumes-some λ n e₁.
      Consumes-peek _ (Consumes-ret _ (omega arith)) (
        Consumes-look _ refl
          (λ _.
            Consumes-bind (var_parts-Consumes f (omega arith))
              λ (m, t, e). Consumes-ret _ (omega arith))
          (Consumes-weaken (assign_no_semi-Consumes f (omega arith)) (omega arith)))

  pub test_part-Consumes : (f : ℕ) {a : ℕ} → 8 * a + 3 ≤ f → Consumes a (a) (test_part f)
  test_part-Consumes zero le = absurd (omega arith)
  test_part-Consumes (suc f) le = Consumes-some λ n e₁.
      Consumes-peek _ (Consumes-ret _ (omega arith))
        (Consumes-bind (expr-Consumes f 0 (omega arith)) λ c. Consumes-ret _ (omega arith))

  pub step_part-Consumes : (f : ℕ) {a : ℕ} → 8 * a + 4 ≤ f → Consumes a (a) (step_part f)
  step_part-Consumes zero le = absurd (omega arith)
  step_part-Consumes (suc f) le = Consumes-some λ n e₁.
      Consumes-peek _ (Consumes-ret _ (omega arith))
        (Consumes-weaken (assign_no_semi-Consumes f (omega arith)) (omega arith))

  pub assign_no_semi-Consumes :
      (f : ℕ) {a : ℕ} → 8 * a + 3 ≤ f → Consumes a (a - 1) (assign_no_semi f)
  assign_no_semi-Consumes zero le = absurd (omega arith)
  assign_no_semi-Consumes (suc f) le = Consumes-some λ n e₁.
      Consumes-bind (expr-Consumes f 0 (omega arith)) λ l.
        Consumes-look _ refl
          (λ _. Consumes-bind (expr-Consumes f 0 (omega arith)) λ r. Consumes-ret _ (omega arith))
          (Consumes-fail _)

  pub arms-Consumes : (f : ℕ) {a : ℕ} → 8 * a + 3 ≤ f → Consumes a (a - 1) (arms f)
  arms-Consumes zero le = absurd (omega arith)
  arms-Consumes (suc f) le = Consumes-some λ n e₁.
      Consumes-look _ refl (λ _. Consumes-ret _ (omega arith))
        (Consumes-bind (pattern_at-Consumes f (omega arith)) λ p.
          Consumes-bind (block-Consumes f (omega arith))
            λ b. Consumes-bind (arms-Consumes f (omega arith)) λ as'. Consumes-ret _ (omega arith))
