-- ===== src/Cfg/Dead.antt =====
-- The open ends of the graph against the interpreter.
use l.Base.{
  ℕ, zero, suc, true, false, Option, none, some, [], ◌∷◌, ◌≡◌, refl, ap, sym, ◌∙◌, or_false_left,
  or_false_right, true_ne_false, not,
}
use l.Syntax.{
  Stmt, Block, end, next, Arms, no_arms, arm, Clause, no_expr, if_else, for, match, return, break,
  continue, trap,
}
use l.Checker.{contains_break}
use l.Interp.{
  Machine, normal, broke, continued, returned, raised, Outcome, S, exec, run_block, run_clause,
  for_loop, for_round, cond, expr_ty, push_frame, and_then,
}
use l.Interp.Signals.{Ends, Ends-with_answer, Ends-finally_pop, Ends-after_body}
use l.Interp.Loops.{NoBreak, NoFall, return-Ends, Ends-option}
use l.Interp.Returns.{run_block-NoBreak}
use l.Interp.Selection.{AllArms, select-Ends}
use l.Interp.Diverges.{after-NoFall, then-NoFall}
use l.Cfg.{Frontier, Loop, Graph, Label, block, is_empty}
use l.Cfg.OpenEnds.{opens, block_opens, arms_open, block-Leaves}

-- the statements of two blocks, one behind the other
abbrev pub append : Block → Block → Block
append end c = c
append (next s b) c = next s (append b c)

AllArms-closed :
    (arms : Arms) → arms_open arms ≡ false → AllArms (λ b. block_opens true b ≡ false) arms
unfolding opens
AllArms-closed no_arms h = tt
AllArms-closed (arm p b arms) h = (
  or_false_left (block_opens true b) (arms_open arms) h,
  AllArms-closed arms (or_false_right (block_opens true b) (arms_open arms) h),
)

module _ (m : Machine) where
  mutual
    unfolding exec

    -- a loop with no test and no break
    for_loop-NoFall :
        (f : ℕ) (st : Clause) (b : Block) (s : S m)
        → contains_break b ≡ false
        → Ends m (NoFall m) (for_loop m f no_expr st b s)
    for_loop-NoFall zero st b s h = tt
    for_loop-NoFall (suc f) st b s h = for_round-NoFall f st b s h

    for_round-NoFall :
        (f : ℕ) (st : Clause) (b : Block) (s : S m)
        → contains_break b ≡ false
        → Ends m (NoFall m) (for_round m f no_expr st b s)
    for_round-NoFall zero st b s h = tt
    for_round-NoFall (suc f) st b s h =
        Ends-after_body m (NoFall m) (NoBreak m) _ _
          (Ends-finally_pop m (NoBreak m) _ (run_block-NoBreak m f b (push_frame m [] s) h))
          (λ x. x) (λ _. tt) (λ _. tt)
          λ s₁. then-NoFall m (run_clause m f st s₁) _ (λ s₂. for_loop-NoFall f st b s₂ h)

  mutual
    unfolding exec opens

    exec-closed :
        (f : ℕ) (st : Stmt) (s : S m) → opens st ≡ false → Ends m (NoFall m) (exec m f st s)
    exec-closed zero st s h = tt
    exec-closed (suc f) (return e) s h = return-Ends m (NoFall m) (suc f) e s (λ _. tt) (λ _. tt)
    exec-closed (suc f) break s h = tt
    exec-closed (suc f) continue s h = tt
    exec-closed (suc f) trap s h = tt
    exec-closed (suc f) (if_else c t e) s h =
        Ends-with_answer m (NoFall m) (cond m c s) _ (λ _. tt)
          λ o s₁.
            Ends-option m (NoFall m) o _ _
              (λ d. Ends-finally_pop m (NoFall m) _ (
                closed f t (push_frame m d s₁)
                  (or_false_left (block_opens true t) (block_opens true e) h)))
              (Ends-finally_pop m (NoFall m) _ (
                closed f e (push_frame m [] s₁)
                  (or_false_right (block_opens true t) (block_opens true e) h)))
    exec-closed (suc f) (for i no_expr st b) s h =
        Ends-finally_pop m (NoFall m) _ (
          then-NoFall m (run_clause m f i (push_frame m [] s)) _
            (λ s₁. for_loop-NoFall f st b s₁ h))
    exec-closed (suc f) (match e arms) s h =
        Ends-with_answer m (NoFall m) (m.eval e s) _ (λ _. tt)
          λ v s₁.
            select-Ends m (NoFall m) (λ b. block_opens true b ≡ false) v (expr_ty m e) arms _ _
              (AllArms-closed arms h)
              (λ d b r. Ends-finally_pop m (NoFall m) _ (closed f b (push_frame m d s₁) r)) tt
    exec-closed (suc f) _ s h = cc

    closed :
        (f : ℕ) (b : Block) (s : S m)
        → block_opens true b ≡ false
        → Ends m (NoFall m) (run_block m f b s)
    closed zero b s h = tt
    closed (suc f) end s h = cc
    closed (suc f) (next st end) s h = after-NoFall m _ _ (exec-closed f st s h)
    closed (suc f) (next st (next st' b)) s h =
        then-NoFall m (exec m f st s) _ (λ s₁. closed f (next st' b) s₁ h)

  never-and_then :
      (o : Outcome m) (k k' : S m → Outcome m)
      → Ends m (NoFall m) o
      → and_then m o k ≡ and_then m o k'
  never-and_then none k k' h = refl
  never-and_then (some (normal, s)) k k' h = absurd h
  never-and_then (some (broke, s)) k k' h = refl
  never-and_then (some (continued, s)) k k' h = refl
  never-and_then (some (returned v, s)) k k' h = refl
  never-and_then (some (raised t, s)) k k' h = refl

  same-and_then :
      (o : Outcome m) (k k' : S m → Outcome m)
      → ((s : S m) → k s ≡ k' s)
      → and_then m o k ≡ and_then m o k'
  same-and_then none k k' h = refl
  same-and_then (some (normal, s)) k k' h = h s
  same-and_then (some (broke, s)) k k' h = refl
  same-and_then (some (continued, s)) k k' h = refl
  same-and_then (some (returned v, s)) k k' h = refl
  same-and_then (some (raised t, s)) k k' h = refl

  along-dead :
      (f : ℕ) (st : Stmt) (b c c' : Block) (s : S m)
      → block_opens (opens st) b ≡ false
      → and_then m (exec m f st s) (run_block m f (append b c))
        ≡ and_then m (exec m f st s) (run_block m f (append b c'))
  unfolding exec opens
  along-dead zero st b c c' s h = refl
  along-dead (suc f) st end c c' s h = never-and_then _ _ _ (exec-closed (suc f) st s h)
  along-dead (suc f) st (next st' b) c c' s h =
      same-and_then (exec m (suc f) st s) _ _ (λ s₁. along-dead f st' b c c' s₁ h)

  closed_block :
      (b : Block) (x : ℕ × Option Label) (fr : Frontier) (l : Option Loop) (n : ℕ) (g : Graph)
      → (block b (x ∷ fr) l n g).frontier ≡ []
      → block_opens true b ≡ false
  closed_block b x fr l n g h =
      sym (block-Leaves b (x ∷ fr) l n g).0 ∙ ap (λ ends. not (is_empty ends)) h

  -- Where the graph of a block that an open end leads to has no open end itself, what stands behind
  -- the block is never run: the run is the same with any other statements there.
  pub dead_code :
      (f : ℕ) (b c c' : Block) (s : S m) (x : ℕ × Option Label) (fr : Frontier) (l : Option Loop)
      (n : ℕ) (g : Graph)
      → (block b (x ∷ fr) l n g).frontier ≡ []
      → run_block m f (append b c) s ≡ run_block m f (append b c') s
  unfolding exec opens
  dead_code zero b c c' s x fr l n g h = refl
  dead_code (suc f) end c c' s x fr l n g h = true_ne_false refl (closed_block end x fr l n g h)
  dead_code (suc f) (next st b) c c' s x fr l n g h =
      along-dead f st b c c' s (closed_block (next st b) x fr l n g h)

  -- A block that an open end leads to, and whose graph has no open end itself, never ends normally,
  -- whatever fuel it is given.
  pub run_block-closed :
      (f : ℕ) (b : Block) (s : S m) (x : ℕ × Option Label) (fr : Frontier) (l : Option Loop) (n : ℕ)
      (g : Graph)
      → (block b (x ∷ fr) l n g).frontier ≡ []
      → Ends m (NoFall m) (run_block m f b s)
  run_block-closed f b s x fr l n g h = closed f b s (closed_block b x fr l n g h)
