-- ===== src/Parser/Exprs.antt =====
-- `Parser.expr`, `stmt`, `block` and `params`. An expression may hold a function body, and a statement
-- expressions.
pub mod Fuel
use l.Base.{
  ℕ, zero, suc, ◌+◌, String, Bool, true, false, Option, none, some, List, [], ◌∷◌, ◌&&◌, ◌||◌,
  if◌then◌else◌,
}
use l.Types.{Ty, Tys}
use l.Syntax.{
  Expr, node, Form, unit, some_of, new, anonfn, array, repeat, qname, unary, binary, is_match, cast,
  index, field, structlit, call, generic_call, Exprs, no_exprs, expr_then, Inits, no_inits,
  init_then, Stmt, var, assign, exprstmt, if_else, while, for, forin, match, letelse, return, break,
  continue, trap, Clause, no_clause, var_clause, assign_clause, OptExpr, no_expr, an_expr, Block,
  end, next, Arms, no_arms, arm,
}
use l.Parser.Tokens.{Token, name, word}
use l.Parser.Monad.{
  Parse, ◌>>=◌, ◌>>◌, ret, fail, exhausted, look, look_in, peek, is_word, a_name, maybe, take,
  take_name, attempt, comparisons_chain, expected_expression, expected_assignment,
}
use l.Parser.Types.{type, types, result_type, qname_rest}
use l.Parser.Patterns.{pattern_at}
use l.Parser.Operators.{
  Infix, binary_op, is_op, compares, is_comparison, infix_from, assign_of, prefix_of, literal_of,
}

-- a node without its type
abbrev pub bare : Form → Expr
bare e = node none e

unfoldable mutual
  pub expr : ℕ → ℕ → Parse Expr
  expr zero minp = exhausted
  expr (suc f) minp = prefix_expr f >>= λ e. postfix f e >>= λ e'.
      maybe "as" (type f >>= λ t. binary_loop f minp false (bare (cast e' t)))
        (binary_loop f minp false e')

  pub prefix_expr : ℕ → Parse Expr
  prefix_expr zero = exhausted
  prefix_expr (suc f) =
      maybe "(" (maybe ")" (ret (bare unit)) (expr f 0 >>= λ e. take ")" >> ret e)) (
        look literal_of (λ x. ret (bare x))
          (maybe "some" (take "(" >> (expr f 0 >>= λ x. take ")" >> ret (bare (some_of x)))) (
            maybe "new" (expr f 10 >>= λ x. ret (bare (new x))) (
              maybe "fn"
                (params f >>= λ ps.
                  result_type f >>= λ r. block f >>= λ b. ret (bare (anonfn ps r b)))
                (maybe "["
                  (maybe "]" (ret (bare (array no_exprs)))
                    (expr f 0 >>= λ first. after_first f first))
                  (look a_name (λ n. qname_rest f (n ∷ []) >>= λ q. ret (bare (qname q)))
                    (look prefix_of (λ op. expr f 10 >>= λ x. ret (bare (unary op x)))
                      (fail expected_expression))))))))

  -- an array literal behind its first item
  pub after_first : ℕ → Expr → Parse Expr
  after_first zero first = exhausted
  after_first (suc f) first =
      maybe ";" (expr f 0 >>= λ n. take "]" >> ret (bare (repeat first n)))
        (items f >>= λ xs. take "]" >> ret (bare (array (expr_then first xs))))

  -- while self.maybe(","): if self.t("]"): break
  pub items : ℕ → Parse Exprs
  items zero = exhausted
  items (suc f) =
      maybe ","
        (peek (is_word "]") (ret no_exprs)
          (expr f 0 >>= λ x. items f >>= λ xs. ret (expr_then x xs)))
        (ret no_exprs)

  -- while True: call, generic call or index, field, struct literal
  pub postfix : ℕ → Expr → Parse Expr
  postfix zero e = exhausted
  postfix (suc f) e = maybe "(" (exprs f >>= λ as'. take ")" >> postfix f (bare (call e as'))) (
      maybe "[" (attempt (generic_args f) >>= λ r. after_bracket f e r) (
        maybe "." (take_name >>= λ n. postfix f (bare (field e n)))
          (maybe "{" (inits f >>= λ fs. take "}" >> postfix f (bare (structlit e fs))) (ret e))))

  pub after_bracket : ℕ → Expr → Option (Tys × Exprs) → Parse Expr
  after_bracket zero e r = exhausted
  after_bracket (suc f) e (some (ts, as')) = postfix f (bare (generic_call e ts as'))
  after_bracket (suc f) e none = expr f 0 >>= λ i. take "]" >> postfix f (bare (index e i))

  -- the body of the `try`: type arguments and the arguments of a call, or none
  pub generic_args : ℕ → Parse (Option (Tys × Exprs))
  generic_args zero = exhausted
  generic_args (suc f) = types f "]" >>= λ ts.
      maybe "]" (maybe "(" (exprs f >>= λ as'. take ")" >> ret (some (ts, as'))) (ret none))
        (ret none)

  -- self.comma_list(")", self.expr)
  pub exprs : ℕ → Parse Exprs
  exprs zero = exhausted
  exprs (suc f) = peek (is_word ")") (ret no_exprs) (exprs_from f)

  pub exprs_from : ℕ → Parse Exprs
  exprs_from zero = exhausted
  exprs_from (suc f) = expr f 0 >>= λ x.
      maybe "," (exprs f >>= λ xs. ret (expr_then x xs)) (ret (expr_then x no_exprs))

  -- the fields of a struct literal
  pub inits : ℕ → Parse Inits
  inits zero = exhausted
  inits (suc f) = peek (is_word "}") (ret no_inits) (inits_from f)

  pub inits_from : ℕ → Parse Inits
  inits_from zero = exhausted
  inits_from (suc f) = take_name >>= λ n.
      take ":"
      >> (expr f 0 >>= λ x.
          maybe "," (inits f >>= λ xs. ret (init_then n x xs)) (ret (init_then n x no_inits)))

  -- while self.t().kind in PREC or self.t("is"); the flag is `used_cmp`
  pub binary_loop : ℕ → ℕ → Bool → Expr → Parse Expr
  binary_loop zero minp used e = exhausted
  binary_loop (suc f) minp used e =
      look (infix_from minp)
        (λ op. if compares op && used then fail comparisons_chain else operand f minp used e op)
        (ret e)

  -- what stands behind an operator
  pub operand : ℕ → ℕ → Bool → Expr → Infix → Parse Expr
  operand zero minp used e op = exhausted
  operand (suc f) minp used e is_op =
      pattern_at f >>= λ p. binary_loop f minp true (bare (is_match e p))
  operand (suc f) minp used e (binary_op b p) =
      expr f (p + 1) >>= λ r. binary_loop f minp (used || is_comparison b) (bare (binary b e r))

  pub params : ℕ → Parse (List (String × Ty))
  params zero = exhausted
  params (suc f) = take "(" >> (param_list f >>= λ ps. take ")" >> ret ps)

  -- self.comma_list(")", one)
  pub param_list : ℕ → Parse (List (String × Ty))
  param_list zero = exhausted
  param_list (suc f) = peek (is_word ")") (ret []) (params_from f)

  pub params_from : ℕ → Parse (List (String × Ty))
  params_from zero = exhausted
  params_from (suc f) = take_name >>= λ n.
      take ":"
      >> (type f >>= λ t. maybe "," (param_list f >>= λ ps. ret ((n, t) ∷ ps)) (ret ((n, t) ∷ [])))

  pub block : ℕ → Parse Block
  block zero = exhausted
  block (suc f) = take "{" >> stmts f

  -- while not self.t("}"), and the brace
  pub stmts : ℕ → Parse Block
  stmts zero = exhausted
  stmts (suc f) = maybe "}" (ret end) (stmt f >>= λ s. stmts f >>= λ b. ret (next s b))

  pub stmt : ℕ → Parse Stmt
  stmt zero = exhausted
  stmt (suc f) = maybe "var" (var_parts f >>= λ (n, t, e). take ";" >> ret (var n t e)) (
      maybe "if" (if_parts f) (
        maybe "while"
          (take "(" >> (expr f 0 >>= λ c. take ")" >> (block f >>= λ b. ret (while c b))))
          (maybe "for" (take "(" >> for_parts f) (
            maybe "match"
              (take "("
                >> (expr f 0 >>= λ e.
                    take ")" >> (take "{" >> (arms f >>= λ as'. ret (match e as')))))
              (maybe "let"
                (pattern_at f >>= λ p.
                  take "="
                  >> (expr f 0 >>= λ e.
                      take "else" >> (block f >>= λ b. take ";" >> ret (letelse p e b))))
                (simple_stmt f))))))

  -- return, break, continue, trap, assignments and expressions
  pub simple_stmt : ℕ → Parse Stmt
  simple_stmt zero = exhausted
  simple_stmt (suc f) =
      maybe "return"
        (maybe ";" (ret (return no_expr)) (expr f 0 >>= λ e. take ";" >> ret (return (an_expr e))))
        (maybe "break" (take ";" >> ret break) (
          maybe "continue" (take ";" >> ret continue) (
            maybe "trap" (take ";" >> ret trap) (
              expr f 0 >>= λ l.
              look assign_of (λ op. expr f 0 >>= λ r. take ";" >> ret (assign l op r))
                (take ";" >> ret (exprstmt l))))))

  -- a name, a type or none, and a value
  pub var_parts : ℕ → Parse (String × Option Ty × Expr)
  var_parts zero = exhausted
  var_parts (suc f) = take_name >>= λ n.
      maybe ":" (type f >>= λ t. take "=" >> (expr f 0 >>= λ e. ret (n, some t, e)))
        (take "=" >> (expr f 0 >>= λ e. ret (n, none, e)))

  pub if_parts : ℕ → Parse Stmt
  if_parts zero = exhausted
  if_parts (suc f) =
      take "("
      >> (expr f 0 >>= λ c. take ")" >> (block f >>= λ t. else_part f >>= λ e. ret (if_else c t e)))

  pub else_part : ℕ → Parse Block
  else_part zero = exhausted
  else_part (suc f) =
      maybe "else" (maybe "if" (if_parts f >>= λ s. ret (next s end)) (block f)) (ret end)

  pub for_parts : ℕ → Parse Stmt
  for_parts zero = exhausted
  for_parts (suc f) =
      look_in (λ n. expr f 0 >>= λ e. take ")" >> (block f >>= λ b. ret (forin n e b)))
        (init_part f >>= λ i.
          take ";"
          >> (test_part f >>= λ c.
              take ";" >> (step_part f >>= λ s. take ")" >> (block f >>= λ b. ret (for i c s b)))))

  pub init_part : ℕ → Parse Clause
  init_part zero = exhausted
  init_part (suc f) =
      peek (is_word ";") (ret no_clause)
        (maybe "var" (var_parts f >>= λ (n, t, e). ret (var_clause n t e)) (assign_no_semi f))

  pub test_part : ℕ → Parse OptExpr
  test_part zero = exhausted
  test_part (suc f) = peek (is_word ";") (ret no_expr) (expr f 0 >>= λ c. ret (an_expr c))

  pub step_part : ℕ → Parse Clause
  step_part zero = exhausted
  step_part (suc f) = peek (is_word ")") (ret no_clause) (assign_no_semi f)

  pub assign_no_semi : ℕ → Parse Clause
  assign_no_semi zero = exhausted
  assign_no_semi (suc f) = expr f 0 >>= λ l.
      look assign_of (λ op. expr f 0 >>= λ r. ret (assign_clause l op r)) (fail expected_assignment)

  -- while not self.t("}"), and the brace
  pub arms : ℕ → Parse Arms
  arms zero = exhausted
  arms (suc f) =
      maybe "}" (ret no_arms)
        (pattern_at f >>= λ p. block f >>= λ b. arms f >>= λ as'. ret (arm p b as'))
