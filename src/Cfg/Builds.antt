-- ===== src/Cfg/Builds.antt =====
-- The graph that `build` returns: numbered nodes, and edges between them.
use l.Base.{ℕ, ◌+◌, true, false, Option, none, some, [], ◌∷◌, refl, arith}
use l.Syntax.{
  Stmt, Block, end, next, Arms, no_arms, arm, var, assign, exprstmt, if_else, while, for, forin,
  match, letelse, return, break, continue, trap,
}
use l.Cfg.{
  Frontier, Loop, Graph, NodeKind, FlowKind, fixed, of_expr, of_forin, of_pattern, add_node,
  add_edge, connect, else_built, block, along, stmt, arms, build, fresh_graph, note_dead, nest,
  open_at, decide, simple, context, mark_used, init_graph, step_graph, step_target, break_edge,
  continue_edge,
}
use l.Cfg.Formed.{
  Step, Ready, LoopReady, Inner, Good, IsFormed, Ready-mono, Ready-append, LoopReady-mono,
  mark_used-Ready, one-Ready, open_at-Ready, Step-mono, Step-self, connect-Step, led-Step,
  join-Good, break_edge-Step, continue_edge-Step,
}
use l.Cfg.Clauses.{
  init-Good, step_graph-Ready, for_end-Good, for_start, for_start-Step, let_start-Step,
}
use l.Cfg.Parts.{
  Good-mono, note_dead-Step, else_built-Good, loop_start-Step, loop_end-Good, simple-Step,
  terminal-Good, exit-Step, plain-Good,
}

mutual
  unfolding block

  stmt-Good :
      (s : Stmt) (fr : Frontier) (l : Option Loop) (k : ℕ) (g : Graph) (n : ℕ)
      → Step n g
      → Ready n fr
      → LoopReady n l
      → Good n (stmt s fr l k g)
  stmt-Good (if_else c t e) fr l k g n h r lr =
      let d = g.serial in
      let g₁ = decide (of_expr "if " c) fr g in
      let s₁ = led-Step n NodeKind.decision (of_expr "if " c) false fr g h r in
      let a = block t (open_at d "yes") l (k + 1) g₁ in
      let ha =
        block-Good t (open_at d "yes") l (k + 1) g₁ (d + 1) s₁
          (open_at-Ready (d + 1) d "yes" (h.2, omega arith))
          (LoopReady-mono n (d + 1) l (omega arith) lr) in
      let b = block e (open_at d "no") a.loop (k + 1) a.graph in
      let hb =
        block-Good e (open_at d "no") a.loop (k + 1) a.graph a.graph.serial
          (Step-self (d + 1) a.graph ha.0) (open_at-Ready a.graph.serial d "no" (h.2, omega arith))
          ha.2 in
      let eb = else_built e d a b in
      let he = else_built-Good (d + 1) e d a b ha (h.2, omega arith) hb in
      join-Good n (fixed "merge") _ (
        Step-mono n a.graph.serial eb.graph (omega arith) he.0,
        Ready-append eb.graph.serial a.frontier eb.frontier
            (Ready-mono a.graph.serial eb.graph.serial a.frontier (omega arith) ha.1) he.1,
        he.2,
      )
  stmt-Good (while c b) fr l k g n h r lr =
      let d = g.serial in
      let s = loop_start-Step n (of_expr "while " c) "after while" "no" fr g h r in
      loop_end-Good n d l _ h.2 (omega arith) lr (
        block-Good b (open_at d "yes") (context (d + 1) d) (k + 1) _ (d + 2) s
          (open_at-Ready (d + 2) d "yes" (h.2, omega arith))
          ((omega arith, omega arith), (h.2, omega arith)))
  stmt-Good (forin x c b) fr l k g n h r lr =
      let d = g.serial in
      let s = loop_start-Step n (of_forin x c) "after for" "done" fr g h r in
      loop_end-Good n d l _ h.2 (omega arith) lr (
        block-Good b (open_at d "next") (context (d + 1) d) (k + 1) _ (d + 2) s
          (open_at-Ready (d + 2) d "next" (h.2, omega arith))
          ((omega arith, omega arith), (h.2, omega arith)))
  stmt-Good (for i c st b) fr l k g n h r lr =
      let g₁ = init_graph i fr g in
      let d = g₁.serial in
      let h₁ = (init-Good n i fr g h r).0 in
      let g₃ = for_start i c fr g in
      let h₃ = for_start-Step n i c fr g h r in
      let t = g₃.serial in
      let g₄ = step_graph st g₃ in
      let h₄ = step_graph-Ready (d + 2) st d g₃ h₃ (h₁.2, omega arith) in
      let ctx = context (d + 1) (step_target st t d) in
      let q = block b (open_at d "yes") ctx (k + 1) g₄ in
      let hq =
        block-Good b (open_at d "yes") ctx (k + 1) g₄ g₄.serial (Step-self (d + 2) g₄ h₄.0)
          (open_at-Ready g₄.serial d "yes" (h₁.2, omega arith))
          ((omega arith, omega arith), h₄.1) in
      for_end-Good n g₄.serial c st t d l q h₁.2 h₁.1 h₄.0.1 lr h₄.1 hq
  stmt-Good (match e as') fr l k g n h r lr =
      let d = g.serial in
      let s = led-Step n NodeKind.decision (of_expr "match " e) false fr g h r in
      join-Good n (fixed "after match") _ (
        Good-mono n (d + 1) (arms as' d l (k + 1) (decide (of_expr "match " e) fr g)) (omega arith)
          (arms-Good as' d l (k + 1) (decide (of_expr "match " e) fr g) (d + 1) s (h.2, omega arith)
            (LoopReady-mono n (d + 1) l (omega arith) lr)))
  stmt-Good (letelse p e b) fr l k g n h r lr =
      let d = g.serial in
      let g₁ =
        add_node NodeKind.merge (fixed "after let-else") true
          (decide (of_expr "let-else " e) fr g) in
      let g₂ = add_edge d (d + 1) (some (of_pattern p)) FlowKind.flow g₁ in
      let s = let_start-Step n p e fr g h r in
      let q = block b (open_at d "else") l (k + 1) g₂ in
      let hq =
        block-Good b (open_at d "else") l (k + 1) g₂ (d + 2) s
          (open_at-Ready (d + 2) d "else" (h.2, omega arith))
          (LoopReady-mono n (d + 2) l (omega arith) lr) in
      let g₃ = connect q.frontier (d + 1) q.graph in
      let c =
        connect-Step q.graph.serial q.frontier (d + 1) q.graph (Step-self (d + 2) q.graph hq.0) hq.1
          (omega arith) (omega arith) in
      (
        Step-mono n q.graph.serial g₃ (omega arith) c,
        one-Ready g₃.serial (d + 1) none (omega arith, omega arith),
        LoopReady-mono q.graph.serial g₃.serial q.loop (omega arith) hq.2,
      )
  stmt-Good (return e) fr l k g n h r lr =
      let g₁ = simple NodeKind.terminal (return e) fr g in
      let label = some (fixed "return") in
      terminal-Good n g.serial l (add_edge g.serial 1 label FlowKind.terminal_flow g₁) (omega arith)
        lr (exit-Step n g.serial label g₁ h.2 (simple-Step n NodeKind.terminal (return e) fr g h r))
  stmt-Good trap fr l k g n h r lr =
      let g₁ = simple NodeKind.terminal trap fr g in
      let label = some (fixed "trap") in
      terminal-Good n g.serial l (add_edge g.serial 1 label FlowKind.terminal_flow g₁) (omega arith)
        lr (exit-Step n g.serial label g₁ h.2 (simple-Step n NodeKind.terminal trap fr g h r))
  stmt-Good break fr l k g n h r lr =
      let g₁ = simple NodeKind.terminal break fr g in
      terminal-Good n g.serial (mark_used l) (break_edge g.serial l g₁) (omega arith)
        (mark_used-Ready n l lr)
        (break_edge-Step (g.serial + 1) g.serial l g₁
          (simple-Step n NodeKind.terminal break fr g h r) (h.2, omega arith)
          (LoopReady-mono n (g.serial + 1) l (omega arith) lr))
  stmt-Good continue fr l k g n h r lr =
      let g₁ = simple NodeKind.terminal continue fr g in
      terminal-Good n g.serial l (continue_edge g.serial l g₁) (omega arith) lr (
        continue_edge-Step (g.serial + 1) g.serial l g₁
          (simple-Step n NodeKind.terminal continue fr g h r) (h.2, omega arith)
          (LoopReady-mono n (g.serial + 1) l (omega arith) lr))
  stmt-Good (var x t e) fr l k g n h r lr = plain-Good n (var x t e) fr l g h r lr
  stmt-Good (assign x t e) fr l k g n h r lr = plain-Good n (assign x t e) fr l g h r lr
  stmt-Good (exprstmt e) fr l k g n h r lr = plain-Good n (exprstmt e) fr l g h r lr

  block-Good :
      (b : Block) (fr : Frontier) (l : Option Loop) (k : ℕ) (g : Graph) (n : ℕ)
      → Step n g
      → Ready n fr
      → LoopReady n l
      → Good n (block b fr l k g)
  block-Good end fr l k g n h r lr =
      (h, Ready-mono n g.serial fr (omega arith) r, LoopReady-mono n g.serial l (omega arith) lr)
  block-Good (next s b) fr l k g n h r lr =
      let g₁ = note_dead fr s (nest k g) in
      let a = stmt s fr l k g₁ in
      let ha = stmt-Good s fr l k g₁ n (note_dead-Step n fr s (nest k g) h) r lr in
      Good-mono n a.graph.serial (along b a.frontier a.loop k a.graph) (omega arith) (
        along-Good b a.frontier a.loop k a.graph a.graph.serial (Step-self n a.graph ha.0) ha.1
          ha.2)

  along-Good :
      (b : Block) (fr : Frontier) (l : Option Loop) (k : ℕ) (g : Graph) (n : ℕ)
      → Step n g
      → Ready n fr
      → LoopReady n l
      → Good n (along b fr l k g)
  along-Good end fr l k g n h r lr =
      (h, Ready-mono n g.serial fr (omega arith) r, LoopReady-mono n g.serial l (omega arith) lr)
  along-Good (next s b) fr l k g n h r lr =
      let g₁ = note_dead fr s g in
      let a = stmt s fr l k g₁ in
      let ha = stmt-Good s fr l k g₁ n (note_dead-Step n fr s g h) r lr in
      Good-mono n a.graph.serial (along b a.frontier a.loop k a.graph) (omega arith) (
        along-Good b a.frontier a.loop k a.graph a.graph.serial (Step-self n a.graph ha.0) ha.1
          ha.2)

  arms-Good :
      (as' : Arms) (d : ℕ) (l : Option Loop) (k : ℕ) (g : Graph) (n : ℕ)
      → Step n g
      → Inner n d
      → LoopReady n l
      → Good n (arms as' d l k g)
  arms-Good no_arms d l k g n h i lr = (h, tt, LoopReady-mono n g.serial l (omega arith) lr)
  arms-Good (arm p b as') d l k g n h i lr =
      let fr = (d, some (of_pattern p)) ∷ [] in
      let a = block b fr l k g in
      let ha = block-Good b fr l k g n h (one-Ready n d (some (of_pattern p)) i) lr in
      let q = arms as' d a.loop k a.graph in
      let hq =
        arms-Good as' d a.loop k a.graph a.graph.serial (Step-self n a.graph ha.0)
          (i.0, omega arith) ha.2 in
      (
        Step-mono n a.graph.serial q.graph (omega arith) hq.0,
        Ready-append q.graph.serial a.frontier q.frontier
            (Ready-mono a.graph.serial q.graph.serial a.frontier (omega arith) ha.1) hq.1,
        hq.2,
      )

fresh-Step : Step 2 fresh_graph
fresh-Step = ((refl, tt), omega arith, omega arith)

-- The nodes of a graph that `build` returns are numbered in order from 0, and every edge joins two of
-- them; no edge leaves the exit, and none enters the entry.
pub build-IsFormed : (b : Block) → IsFormed (build b)
unfolding build
build-IsFormed b =
    let r = block b ((0, none) ∷ []) none 0 fresh_graph in
    let h =
      block-Good b ((0, none) ∷ []) none 0 fresh_graph 2 fresh-Step
        (omega arith, (λ e. absurd (omega (arith, e))), tt) tt in
    (connect-Step r.graph.serial r.frontier 1 r.graph (Step-self 2 r.graph h.0) h.1 (omega arith)
      (omega arith)).0
