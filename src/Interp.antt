-- ===== src/Interp.antt =====
-- src/lang/core.py, class `Interpreter`: statements, blocks and the bodies of calls, over the
-- interface `Machine`.
pub mod Signals
pub mod Loops
pub mod Selection
pub mod Returns
pub mod Jumps
pub mod Diverges
pub mod Calls
pub use l.Machine.{
  Trap, State, Signal, Machine, S, Sig, Outcome, push_frame, pop_frame, bind_local, update_frame,
  with_answer, and_then, finally_pop, after_body, Bound, answer_map, expr_ty, select, assigned,
  lift_result, call_result, call_frame, trapped, non_exhaustive_match, fell_through, machine,
  normal, broke, continued, returned, raised,
}
unfoldable pub use l.Machine.{cond}
use l.Base.{
  ℕ, zero, suc, ◌+◌, String, Bool, true, false, Option, none, some, List, [], ◌∷◌, get_elem?,
}
use l.Base.Dict.{Dict, insert}
use l.Base.Results.{Result, ok, err}
use l.Types.{Ty}
use l.Syntax.{
  Expr, node, Form, is_match, Pattern, Assign, plain, compound, Binary, Stmt, Clause, OptExpr,
  Block, end, next, Arms, no_arms, arm, var, assign, exprstmt, if_else, while, for, forin, match,
  letelse, return, break, continue, trap, no_clause, var_clause, assign_clause, no_expr, an_expr,
}

module _ (m : Machine) where
  open m use {
    Value, Heap, Place, unit_value, copy_value, truthy, eval, place, get, set, scalar_op,
    match_pattern, items,
  }

  -- Each step into a statement, along a block and around a loop spends one unit of fuel.
  unfoldable mutual
    unfolding cond

    pub exec : ℕ → Stmt → S m → Outcome m
    exec zero st s = none
    exec (suc f) (var n t e) s =
        with_answer m (eval e s) λ v s₁. some (normal, bind_local m n (copy_value v) s₁)
    exec (suc f) (assign l op r) s = with_answer m (place l s) λ p s₁.
        with_answer m (get p s₁) λ old s₂. with_answer m (eval r s₂) λ v s₃.
          with_answer m (lift_result m (assigned m op old v (expr_ty m l)) s₃)
            λ nv s₄. with_answer m (set p (copy_value nv) s₄) λ _ s₅. some (normal, s₅)
    exec (suc f) (exprstmt e) s = with_answer m (eval e s) λ _ s₁. some (normal, s₁)
    exec (suc f) (if_else c t e) s = with_answer m (cond m c s) λ b s₁. elim b [
      | some d ↦ finally_pop m (run_block f t (push_frame m d s₁))
      | none ↦ finally_pop m (run_block f e (push_frame m [] s₁))
    ]
    exec (suc f) (while c b) s = while_loop f c b s
    exec (suc f) (for i c st b) s =
        finally_pop m (and_then m (run_clause f i (push_frame m [] s)) (for_loop f c st b))
    exec (suc f) (forin n e b) s = with_answer m (eval e s) λ a s₁. forin_loop f n a 0 b s₁
    exec (suc f) (match e arms) s = with_answer m (eval e s) λ v s₁.
        elim (select m v (expr_ty m e) arms) [
          | some (d, b) ↦ finally_pop m (run_block f b (push_frame m d s₁))
          | none ↦ some (raised non_exhaustive_match, s₁)
        ]
    exec (suc f) (letelse p e b) s = with_answer m (eval e s) λ v s₁.
        elim (match_pattern p v (expr_ty m e)) [
          | some d ↦ some (normal, update_frame m d s₁)
          | none ↦
              and_then m (finally_pop m (run_block f b (push_frame m [] s₁)))
                λ s₂. some (raised fell_through, s₂)
        ]
    exec (suc f) (return no_expr) s = some (returned unit_value, s)
    exec (suc f) (return (an_expr e)) s = with_answer m (eval e s) λ v s₁. some (returned v, s₁)
    exec (suc f) break s = some (broke, s)
    exec (suc f) continue s = some (continued, s)
    exec (suc f) trap s = some (raised trapped, s)

    -- the statements of a block, in the frame that is there
    pub run_block : ℕ → Block → S m → Outcome m
    run_block zero b s = none
    run_block (suc f) end s = some (normal, s)
    run_block (suc f) (next st b) s = and_then m (exec f st s) (run_block f b)

    pub run_clause : ℕ → Clause → S m → Outcome m
    run_clause zero c s = none
    run_clause (suc f) no_clause s = some (normal, s)
    run_clause (suc f) (var_clause n t e) s = exec f (var n t e) s
    run_clause (suc f) (assign_clause l op r) s = exec f (assign l op r) s

    pub while_loop : ℕ → Expr → Block → S m → Outcome m
    while_loop zero c b s = none
    while_loop (suc f) c b s = with_answer m (cond m c s) λ t s₁. elim t [
      | some d ↦ after_body m (finally_pop m (run_block f b (push_frame m d s₁))) (while_loop f c b)
      | none ↦ some (normal, s₁)
    ]

    pub for_loop : ℕ → OptExpr → Clause → Block → S m → Outcome m
    for_loop zero c st b s = none
    for_loop (suc f) no_expr st b s = for_round f no_expr st b s
    for_loop (suc f) (an_expr c) st b s =
        with_answer m (cond m c s)
          λ t s₁. elim t [ some d ↦ for_round f (an_expr c) st b s₁ | none ↦ some (normal, s₁) ]

    -- the body and the step
    pub for_round : ℕ → OptExpr → Clause → Block → S m → Outcome m
    for_round zero c st b s = none
    for_round (suc f) c st b s =
        after_body m (finally_pop m (run_block f b (push_frame m [] s)))
          λ s₁. and_then m (run_clause f st s₁) (for_loop f c st b)

    -- while i < len(a.items), with the length read again in every round
    pub forin_loop : ℕ → String → Value → ℕ → Block → S m → Outcome m
    forin_loop zero n a i b s = none
    forin_loop (suc f) n a i b s = with_answer m (lift_result m (items a s) s) λ xs s₁.
        elim (get_elem? xs i) [
          | some x ↦
              after_body m
                (finally_pop m (run_block f b (push_frame m ((n, copy_value x) ∷ []) s₁)))
                (forin_loop f n a (i + 1) b)
          | none ↦ some (normal, s₁)
        ]

  -- `call_user`, and the call of an anonymous function in `call_value`
  unfoldable pub call_user : ℕ → List (String × Ty) → Block → List Value → S m → Outcome m
  unfolding exec
  call_user f ps body args s = call_result m (run_block f body (call_frame m ps args s))
