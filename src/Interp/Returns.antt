-- ===== src/Interp/Returns.antt =====
-- The checker's flow tests against the interpreter: what a block that passes them can end with.
use l.Base.{ℕ, zero, suc, false, ◌≡◌, refl, or_false_left, or_false_right, true_ne_false, []}
use l.Syntax.{
  Stmt, Block, end, next, var, assign, exprstmt, if_else, while, for, forin, match, letelse, return,
  break, continue, trap,
}
use l.Checker.{contains_break, breaks}
use l.Interp.{
  Machine, normal, broke, continued, returned, raised, Outcome, S, Sig, exec, run_block, cond,
  expr_ty, push_frame,
}
use l.Interp.Signals.{Ends, Ends-with_answer, Ends-and_then, Ends-finally_pop, Ends-map}
use l.Interp.Loops.{
  NoJump, NoBreak, Unless-self, var-Ends, assign-Ends, exprstmt-Ends, return-Ends, Ends-option,
  for_loop-NoJump, while_loop-NoJump, forin_loop-NoJump, run_clause-NoJump,
}
use l.Interp.Selection.{AllArms-breaks, select-Ends}

module _ (m : Machine) where
  NoJump-NoBreak : (sg : Sig m) → NoJump m sg → NoBreak m sg
  NoJump-NoBreak normal h = tt
  NoJump-NoBreak broke h = h
  NoJump-NoBreak continued h = tt
  NoJump-NoBreak (returned v) h = tt
  NoJump-NoBreak (raised t) h = tt

  weaken : (o : Outcome m) → Ends m (NoJump m) o → Ends m (NoBreak m) o
  weaken o h = Ends-map m (NoJump m) (NoBreak m) o h NoJump-NoBreak

  mutual
    unfolding exec contains_break

    exec-NoBreak :
        (f : ℕ) (st : Stmt) (s : S m) → breaks st ≡ false → Ends m (NoBreak m) (exec m f st s)
    exec-NoBreak zero st s h = tt
    exec-NoBreak (suc f) (var n t e) s h = var-Ends m (NoBreak m) (suc f) n t e s tt (λ _. tt)
    exec-NoBreak (suc f) (assign l op r) s h =
        assign-Ends m (NoBreak m) (suc f) l op r s tt (λ _. tt)
    exec-NoBreak (suc f) (exprstmt e) s h = exprstmt-Ends m (NoBreak m) (suc f) e s tt (λ _. tt)
    exec-NoBreak (suc f) (if_else c t e) s h =
        Ends-with_answer m (NoBreak m) (cond m c s) _ (λ _. tt)
          λ o s₁.
            Ends-option m (NoBreak m) o _ _
              (λ d. Ends-finally_pop m (NoBreak m) _ (
                block-NoBreak f t (push_frame m d s₁)
                  (or_false_left (contains_break t) (contains_break e) h)))
              (Ends-finally_pop m (NoBreak m) _ (
                block-NoBreak f e (push_frame m [] s₁)
                  (or_false_right (contains_break t) (contains_break e) h)))
    exec-NoBreak (suc f) (while c b) s h = weaken _ (while_loop-NoJump m f c b s)
    exec-NoBreak (suc f) (for i c st b) s h = weaken _ (
        Ends-finally_pop m (NoJump m) _ (
          Ends-and_then m (NoJump m) (NoJump m) _ _ (run_clause-NoJump m f i (push_frame m [] s))
            (Unless-self m (NoJump m)) (for_loop-NoJump m f c st b)))
    exec-NoBreak (suc f) (forin n e b) s h =
        Ends-with_answer m (NoBreak m) (m.eval e s) _ (λ _. tt)
          λ a s₁. weaken _ (forin_loop-NoJump m f n a 0 b s₁)
    exec-NoBreak (suc f) (match e arms) s h =
        Ends-with_answer m (NoBreak m) (m.eval e s) _ (λ _. tt)
          λ v s₁.
            select-Ends m (NoBreak m) (λ b. contains_break b ≡ false) v (expr_ty m e) arms _ _
              (AllArms-breaks arms h)
              (λ d b r. Ends-finally_pop m (NoBreak m) _ (block-NoBreak f b (push_frame m d s₁) r))
              tt
    exec-NoBreak (suc f) (letelse p e b) s h =
        Ends-with_answer m (NoBreak m) (m.eval e s) _ (λ _. tt)
          λ v s₁.
            Ends-option m (NoBreak m) (m.match_pattern p v (expr_ty m e)) _ _ (λ d. tt)
              (Ends-and_then m (NoBreak m) (NoBreak m) _ _
                (Ends-finally_pop m (NoBreak m) _ (block-NoBreak f b (push_frame m [] s₁) h))
                (Unless-self m (NoBreak m)) (λ s₂. tt))
    exec-NoBreak (suc f) (return e) s h = return-Ends m (NoBreak m) (suc f) e s (λ _. tt) (λ _. tt)
    exec-NoBreak (suc f) break s h = true_ne_false refl h
    exec-NoBreak (suc f) continue s h = tt
    exec-NoBreak (suc f) trap s h = tt

    block-NoBreak :
        (f : ℕ) (b : Block) (s : S m)
        → contains_break b ≡ false
        → Ends m (NoBreak m) (run_block m f b s)
    block-NoBreak zero b s h = tt
    block-NoBreak (suc f) end s h = tt
    block-NoBreak (suc f) (next st b) s h =
        Ends-and_then m (NoBreak m) (NoBreak m) (exec m f st s) _
          (exec-NoBreak f st s (or_false_left (breaks st) (contains_break b) h))
          (Unless-self m (NoBreak m))
          (λ s₁. block-NoBreak f b s₁ (or_false_right (breaks st) (contains_break b) h))

  pub run_block-NoBreak :
      (f : ℕ) (b : Block) (s : S m)
      → contains_break b ≡ false
      → Ends m (NoBreak m) (run_block m f b s)
  run_block-NoBreak f b s = block-NoBreak f b s
