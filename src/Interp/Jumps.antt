-- ===== src/Interp/Jumps.antt =====
-- `break` and `continue` in bodies that pass `check_block`.
use l.Base.{ℕ, zero, suc, true, false, ◌≡◌, ◌&&◌, and_left, and_right, []}
use l.Syntax.{
  Stmt, Block, end, next, var, assign, exprstmt, if_else, while, for, forin, match, letelse, return,
  break, continue, trap,
}
use l.Checker.{check_flow, check_block, block_diverges, is_nonempty}
use l.Interp.{Machine, S, exec, run_block, cond, expr_ty, push_frame}
use l.Interp.Signals.{Ends, Ends-with_answer, Ends-and_then, Ends-finally_pop}
use l.Interp.Loops.{
  NoJump, Unless-self, var-Ends, assign-Ends, exprstmt-Ends, return-Ends, Ends-option,
  for_loop-NoJump, while_loop-NoJump, forin_loop-NoJump, run_clause-NoJump,
}
use l.Interp.Selection.{AllArms-check, select-Ends}

module _ (m : Machine) where
  mutual
    unfolding exec check_flow

    exec-NoJump :
        (f : ℕ) (st : Stmt) (s : S m)
        → check_flow false st ≡ true
        → Ends m (NoJump m) (exec m f st s)
    exec-NoJump zero st s h = tt
    exec-NoJump (suc f) (var n t e) s h = var-Ends m (NoJump m) (suc f) n t e s tt (λ _. tt)
    exec-NoJump (suc f) (assign l op r) s h = assign-Ends m (NoJump m) (suc f) l op r s tt (λ _. tt)
    exec-NoJump (suc f) (exprstmt e) s h = exprstmt-Ends m (NoJump m) (suc f) e s tt (λ _. tt)
    exec-NoJump (suc f) (if_else c t e) s h =
        Ends-with_answer m (NoJump m) (cond m c s) _ (λ _. tt)
          λ o s₁.
            Ends-option m (NoJump m) o _ _
              (λ d. Ends-finally_pop m (NoJump m) _ (
                block-NoJump f t (push_frame m d s₁)
                  (and_left (check_block false t) (check_block false e) h)))
              (Ends-finally_pop m (NoJump m) _ (
                block-NoJump f e (push_frame m [] s₁)
                  (and_right (check_block false t) (check_block false e) h)))
    exec-NoJump (suc f) (while c b) s h = while_loop-NoJump m f c b s
    exec-NoJump (suc f) (for i c st b) s h = Ends-finally_pop m (NoJump m) _ (
        Ends-and_then m (NoJump m) (NoJump m) _ _ (run_clause-NoJump m f i (push_frame m [] s))
          (Unless-self m (NoJump m)) (for_loop-NoJump m f c st b))
    exec-NoJump (suc f) (forin n e b) s h =
        Ends-with_answer m (NoJump m) (m.eval e s) _ (λ _. tt)
          λ a s₁. forin_loop-NoJump m f n a 0 b s₁
    exec-NoJump (suc f) (match e arms) s h =
        Ends-with_answer m (NoJump m) (m.eval e s) _ (λ _. tt)
          λ v s₁.
            select-Ends m (NoJump m) (λ b. check_block false b ≡ true) v (expr_ty m e) arms _ _
              (AllArms-check false arms h)
              (λ d b r. Ends-finally_pop m (NoJump m) _ (block-NoJump f b (push_frame m d s₁) r)) tt
    exec-NoJump (suc f) (letelse p e b) s h =
        let r = and_right (is_nonempty b) (block_diverges b && check_block false b) h in
        Ends-with_answer m (NoJump m) (m.eval e s) _ (λ _. tt)
          λ v s₁.
            Ends-option m (NoJump m) (m.match_pattern p v (expr_ty m e)) _ _ (λ d. tt)
              (Ends-and_then m (NoJump m) (NoJump m) _ _
                (Ends-finally_pop m (NoJump m) _ (
                  block-NoJump f b (push_frame m [] s₁)
                    (and_right (block_diverges b) (check_block false b) r)))
                (Unless-self m (NoJump m)) (λ s₂. tt))
    exec-NoJump (suc f) (return e) s h = return-Ends m (NoJump m) (suc f) e s (λ _. tt) (λ _. tt)
    exec-NoJump (suc f) break s h = cc
    exec-NoJump (suc f) continue s h = cc
    exec-NoJump (suc f) trap s h = tt

    block-NoJump :
        (f : ℕ) (b : Block) (s : S m)
        → check_block false b ≡ true
        → Ends m (NoJump m) (run_block m f b s)
    block-NoJump zero b s h = tt
    block-NoJump (suc f) end s h = tt
    block-NoJump (suc f) (next st b) s h =
        Ends-and_then m (NoJump m) (NoJump m) (exec m f st s) _
          (exec-NoJump f st s (and_left (check_flow false st) (check_block false b) h))
          (Unless-self m (NoJump m))
          (λ s₁. block-NoJump f b s₁ (and_right (check_flow false st) (check_block false b) h))

  pub run_block-NoJump :
      (f : ℕ) (b : Block) (s : S m)
      → check_block false b ≡ true
      → Ends m (NoJump m) (run_block m f b s)
  run_block-NoJump f b s = block-NoJump f b s
