-- ===== src/Interp/Calls.antt =====
-- Bodies that return by `Checker.block_returns`, and the calls of functions with such a body.
use mathlib.Core.Path.{subst}
use l.Base.{
  ℕ, zero, suc, String, true, false, Option, none, some, ◌≡◌, refl, ◌&&◌, and_left, and_right,
  or_cases, not-true, inl, inr, [], List, ◌⊎◌,
}
use l.Base.Results.{ok}
use l.Types.{Ty}
use l.Syntax.{node, bool, Stmt, Block, end, next, if_else, while, match, return, trap}
use l.Checker.{
  contains_break, block_returns, stmt_returns, all_return, has_arms, check_block, is_nonempty,
}
use l.Interp.{
  Machine, normal, broke, continued, returned, raised, Trap, Outcome, S, Sig, exec, run_block,
  while_loop, cond, expr_ty, push_frame, call_user, call_result, call_frame,
}
use l.Interp.Signals.{Ends, Ends-with_answer, Ends-finally_pop, Ends-after_body}
use l.Interp.Loops.{NoJump, NoBreak, NoFall, return-Ends, Ends-option}
use l.Interp.Selection.{AllArms-returns, select-Ends}
use l.Interp.Returns.{run_block-NoBreak}
use l.Interp.Jumps.{run_block-NoJump}
use l.Interp.Diverges.{after-NoFall, then-NoFall}

-- What the interpreter needs of `eval`: a literal `true` evaluates, and tests as true.
pub record Literals (m : Machine) : Type 0 where
  pub true_literal :
      (ty : Option Ty) (s : S m)
      → (v : m.Value) × (m.eval (node ty (bool true)) s ≡ some (ok v, s)) × (m.truthy v ≡ true)

module _ (m : Machine) (laws : Literals m) where
  -- while (true) with no break never ends by its test
  while_true-NoFall :
      (f : ℕ) (ty : Option Ty) (b : Block) (s : S m)
      → contains_break b ≡ false
      → Ends m (NoFall m) (while_loop m f (node ty (bool true)) b s)
  unfolding exec
  while_true-NoFall zero ty b s h = tt
  while_true-NoFall (suc f) ty b s h =
      let (v, e, t) = laws.true_literal ty s in
      rw (e, t)
        (Ends-after_body m (NoFall m) (NoBreak m) _ _
          (Ends-finally_pop m (NoBreak m) _ (run_block-NoBreak m f b (push_frame m [] s) h))
          (λ z. absurd z) (λ _. tt) (λ _. tt) (λ s₁. while_true-NoFall f ty b s₁ h))

  mutual
    unfolding exec stmt_returns

    exec_returns :
        (f : ℕ) (st : Stmt) (s : S m) → stmt_returns st ≡ true → Ends m (NoFall m) (exec m f st s)
    exec_returns zero st s h = tt
    exec_returns (suc f) (return e) s h = return-Ends m (NoFall m) (suc f) e s (λ _. tt) (λ _. tt)
    exec_returns (suc f) trap s h = tt
    exec_returns (suc f) (if_else c t e) s h =
        let r = and_right (is_nonempty e) (block_returns t && block_returns e) h in
        Ends-with_answer m (NoFall m) (cond m c s) _ (λ _. tt)
          λ o s₁.
            Ends-option m (NoFall m) o _ _
              (λ d. Ends-finally_pop m (NoFall m) _ (
                returning f t (push_frame m d s₁) (and_left (block_returns t) (block_returns e) r)))
              (Ends-finally_pop m (NoFall m) _ (
                returning f e (push_frame m [] s₁)
                  (and_right (block_returns t) (block_returns e) r)))
    exec_returns (suc f) (match e arms) s h =
        Ends-with_answer m (NoFall m) (m.eval e s) _ (λ _. tt)
          λ v s₁.
            select-Ends m (NoFall m) (λ b. block_returns b ≡ true) v (expr_ty m e) arms _ _
              (AllArms-returns arms (and_right (has_arms arms) (all_return arms) h))
              (λ d b r. Ends-finally_pop m (NoFall m) _ (returning f b (push_frame m d s₁) r)) tt
    exec_returns (suc f) (while (node ty (bool true)) b) s h =
        while_true-NoFall f ty b s (not-true (contains_break b) h)
    exec_returns (suc f) _ s h = cc

    returning :
        (f : ℕ) (b : Block) (s : S m)
        → block_returns b ≡ true
        → Ends m (NoFall m) (run_block m f b s)
    returning zero b s h = tt
    returning (suc f) end s h = cc
    returning (suc f) (next st b) s h = elim (or_cases (stmt_returns st) (block_returns b) h) [
      | inl p ↦ after-NoFall m (exec m f st s) (run_block m f b) (exec_returns f st s p)
      | inr p ↦ then-NoFall m (exec m f st s) (run_block m f b) (λ s₁. returning f b s₁ p)
    ]

  -- Where a literal `true` evaluates and tests as true, a block that returns by the checker's test
  -- never ends normally, whatever fuel it is given.
  pub run_block_returns :
      (f : ℕ) (b : Block) (s s' : S m)
      → block_returns b ≡ true
      → ¬ (run_block m f b s ≡ some (normal, s'))
  run_block_returns f b s s' h e = subst (Ends m (NoFall m)) e (returning f b s h)

  -- Where a literal `true` evaluates and tests as true, a call of a function whose body passes the
  -- checker's loop test and return test ends, if it ends, by a `return` that the body executed, with
  -- a copy of its value, or by a trap: it does not fall off the end of the body, and no break or
  -- continue leaves it.
  pub call_user_returns :
      (f : ℕ) (ps : List (String × Ty)) (b : Block) (args : List m.Value) (s s' : S m) (sg : Sig m)
      → check_block false b ≡ true
      → block_returns b ≡ true
      → call_user m f ps b args s ≡ some (sg, s')
      → ((v : m.Value) × (s₁ : S m) × (run_block m f b (call_frame m ps args s)
            ≡ some (returned v, s₁))
          × (sg ≡ returned (m.copy_value v)))
        ⊎ ((t : Trap) × (sg ≡ raised t))
  unfolding call_user
  call_user_returns f ps b args s s' sg c r h =
      go (run_block m f b (call_frame m ps args s)) (run_block-NoJump m f b _ c) (returning f b _ r)
        h
    where
      go :
          (o : Outcome m)
          → Ends m (NoJump m) o
          → Ends m (NoFall m) o
          → call_result m o ≡ some (sg, s')
          → ((v : m.Value) × (s₁ : S m) × (o ≡ some (returned v, s₁))
              × (sg ≡ returned (m.copy_value v)))
            ⊎ ((t : Trap) × (sg ≡ raised t))
      go none j n e = cc
      go (some (normal, s₁)) j n e = absurd n
      go (some (broke, s₁)) j n e = absurd j
      go (some (continued, s₁)) j n e = absurd j
      go (some (returned v, s₁)) j n e = inl (v, s₁, refl, cc)
      go (some (raised t, s₁)) j n e = inr (t, cc)
