-- ===== src/Interp/Diverges.antt =====
-- Blocks that diverge by `Checker.block_diverges`, and the let-else statements around them.
use l.Base.{
  ℕ, zero, suc, true, none, some, ◌≡◌, refl, ◌&&◌, and_left, and_right, or_cases, inl, inr, [],
}
use l.Base.Results.{ok}
use l.Syntax.{
  Expr, Stmt, Block, end, next, if_else, letelse, return, break, continue, trap, Pattern,
}
use l.Checker.{block_diverges, stmt_diverges, is_nonempty}
use l.Interp.{
  Machine, normal, broke, continued, returned, raised, Outcome, S, exec, run_block, cond, expr_ty,
  push_frame, finally_pop, and_then, fell_through,
}
use l.Interp.Signals.{Ends, Ends-with_answer, Ends-finally_pop}
use l.Interp.Loops.{NoFall, return-Ends, Ends-option}

module _ (m : Machine) where
  pub after-NoFall :
      (o : Outcome m) (k : S m → Outcome m)
      → Ends m (NoFall m) o
      → Ends m (NoFall m) (and_then m o k)
  after-NoFall none k h = tt
  after-NoFall (some (normal, s)) k h = absurd h
  after-NoFall (some (broke, s)) k h = tt
  after-NoFall (some (continued, s)) k h = tt
  after-NoFall (some (returned v, s)) k h = tt
  after-NoFall (some (raised t, s)) k h = tt

  pub then-NoFall :
      (o : Outcome m) (k : S m → Outcome m)
      → ((s : S m) → Ends m (NoFall m) (k s))
      → Ends m (NoFall m) (and_then m o k)
  then-NoFall none k h = tt
  then-NoFall (some (normal, s)) k h = h s
  then-NoFall (some (broke, s)) k h = tt
  then-NoFall (some (continued, s)) k h = tt
  then-NoFall (some (returned v, s)) k h = tt
  then-NoFall (some (raised t, s)) k h = tt

  mutual
    unfolding exec stmt_diverges

    exec_diverges :
        (f : ℕ) (st : Stmt) (s : S m) → stmt_diverges st ≡ true → Ends m (NoFall m) (exec m f st s)
    exec_diverges zero st s h = tt
    exec_diverges (suc f) (return e) s h = return-Ends m (NoFall m) (suc f) e s (λ _. tt) (λ _. tt)
    exec_diverges (suc f) break s h = tt
    exec_diverges (suc f) continue s h = tt
    exec_diverges (suc f) trap s h = tt
    exec_diverges (suc f) (if_else c t e) s h =
        let r = and_right (is_nonempty e) (block_diverges t && block_diverges e) h in
        Ends-with_answer m (NoFall m) (cond m c s) _ (λ _. tt)
          λ o s₁.
            Ends-option m (NoFall m) o _ _
              (λ d. Ends-finally_pop m (NoFall m) _ (
                diverging f t (push_frame m d s₁)
                  (and_left (block_diverges t) (block_diverges e) r)))
              (Ends-finally_pop m (NoFall m) _ (
                diverging f e (push_frame m [] s₁)
                  (and_right (block_diverges t) (block_diverges e) r)))
    exec_diverges (suc f) _ s h = cc

    diverging :
        (f : ℕ) (b : Block) (s : S m)
        → block_diverges b ≡ true
        → Ends m (NoFall m) (run_block m f b s)
    diverging zero b s h = tt
    diverging (suc f) end s h = cc
    diverging (suc f) (next st b) s h = elim (or_cases (stmt_diverges st) (block_diverges b) h) [
      | inl p ↦ after-NoFall (exec m f st s) (run_block m f b) (exec_diverges f st s p)
      | inr p ↦ then-NoFall (exec m f st s) (run_block m f b) (λ s₁. diverging f b s₁ p)
    ]

  same_outcome :
      (o : Outcome m) (k : S m → Outcome m)
      → Ends m (NoFall m) o
      → and_then m (finally_pop m o) k ≡ finally_pop m o
  same_outcome none k h = refl
  same_outcome (some (normal, s)) k h = absurd h
  same_outcome (some (broke, s)) k h = refl
  same_outcome (some (continued, s)) k h = refl
  same_outcome (some (returned v, s)) k h = refl
  same_outcome (some (raised t, s)) k h = refl

  -- Where the else block of a let-else statement diverges by the checker's test and the pattern does
  -- not match, the statement ends as the else block does: the trap "match fell through" behind it is
  -- never reached.
  pub letelse_lem :
      (f : ℕ) (p : Pattern) (e : Expr) (b : Block) (s s₁ : S m) (v : m.Value)
      → block_diverges b ≡ true
      → m.eval e s ≡ some (ok v, s₁)
      → m.match_pattern p v (expr_ty m e) ≡ none
      → exec m (suc f) (letelse p e b) s ≡ finally_pop m (run_block m f b (push_frame m [] s₁))
  unfolding exec
  letelse_lem f p e b s s₁ v d h n =
      let done =
        same_outcome (run_block m f b (push_frame m [] s₁)) (λ s₂. some (raised fell_through, s₂))
          (diverging f b (push_frame m [] s₁) d) in
      cc (h, n, done)
