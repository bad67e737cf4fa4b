-- ===== src/Cfg/Clauses.antt =====
-- The parts of for and let-else statements: what holds of the graph after each of them.
use l.Base.{ℕ, ◌+◌, ◌≤◌, true, false, Option, none, some, [], arith, Bool, if◌then◌else◌}
use l.Syntax.{
  Expr, Clause, OptExpr, Pattern, no_expr, an_expr, no_clause, var_clause, assign_clause,
}
use l.Cfg.{
  Frontier, Loop, Graph, NodeKind, FlowKind, Built, fixed, of_expr, of_pattern, of_test, add_node,
  add_edge, connect, decide, init_graph, init_frontier, exit_edge, step_graph, step_target,
  close_for, for_frontier, behind, was_used,
}
use l.Cfg.Formed.{
  connect_back-Step, Step, Ready, LoopReady, Inner, Good, Ready-mono, LoopReady-mono, not_exit,
  one-Ready, Step-mono, Step-self, add_node-Step, add_edge-Step, connect-Step, led-Step,
}

-- the node of an `init` clause, and the open ends behind it
pub init-Good :
    (n : ℕ) (c : Clause) (fr : Frontier) (g : Graph)
    → Step n g
    → Ready n fr
    → Step n (init_graph c fr g) × Ready (init_graph c fr g).serial (init_frontier c fr g)
init-Good n no_clause fr g h r = (h, Ready-mono n g.serial fr h.1 r)
init-Good n (var_clause x t e) fr g h r =
    let s = led-Step n NodeKind.statement _ false fr g h r in
    (
      Step-mono n (g.serial + 1) (init_graph (var_clause x t e) fr g) (omega arith) s,
      one-Ready _ g.serial none (h.2, omega arith),
    )
init-Good n (assign_clause x t e) fr g h r =
    let s = led-Step n NodeKind.statement _ false fr g h r in
    (
      Step-mono n (g.serial + 1) (init_graph (assign_clause x t e) fr g) (omega arith) s,
      one-Ready _ g.serial none (h.2, omega arith),
    )

pub exit_edge-Step :
    (n : ℕ) (c : OptExpr) (d t : ℕ) (g : Graph)
    → Step n g
    → Inner n d
    → Inner n t
    → Step n (exit_edge c d t g)
exit_edge-Step n no_expr d t g h i j = h
exit_edge-Step n (an_expr e) d t g h i j =
    add_edge-Step n d t _ FlowKind.flow g h i.1 (not_exit d i.0) (omega arith) j.1

-- the node of a `step` clause, where the rounds of the loop go on
pub step_graph-Ready :
    (n : ℕ) (c : Clause) (d : ℕ) (g : Graph)
    → Step n g
    → Inner n d
    → Step n (step_graph c g) × Inner (step_graph c g).serial (step_target c g.serial d)
step_graph-Ready n no_clause d g h i = (h, (i.0, omega arith))
step_graph-Ready n (var_clause x t e) d g h i = (
  Step-mono n (n + 1) (step_graph (var_clause x t e) g) (omega arith)
      (add_node-Step n NodeKind.statement _ false g h),
  (h.2, omega arith),
)
step_graph-Ready n (assign_clause x t e) d g h i = (
  Step-mono n (n + 1) (step_graph (assign_clause x t e) g) (omega arith)
      (add_node-Step n NodeKind.statement _ false g h),
  (h.2, omega arith),
)

pub close_for-Step :
    (n : ℕ) (c : Clause) (fr : Frontier) (t d : ℕ) (g : Graph)
    → Step n g
    → Ready n fr
    → Inner n (step_target c t d)
    → Inner n d
    → Step n (close_for c fr t d g)
close_for-Step n no_clause fr t d g h r i j = connect_back-Step n fr d g h r (omega arith) j.1
close_for-Step n (var_clause x y e) fr t d g h r i j =
    add_edge-Step n t d _ FlowKind.back (connect fr t g)
      (connect-Step n fr t g h r (omega arith) i.1) i.1 (not_exit t i.0) (omega arith) j.1
close_for-Step n (assign_clause x y e) fr t d g h r i j =
    add_edge-Step n t d _ FlowKind.back (connect fr t g)
      (connect-Step n fr t g h r (omega arith) i.1) i.1 (not_exit t i.0) (omega arith) j.1

pub for_frontier-Ready :
    (n : ℕ) (c : OptExpr) (ctx : Option Loop) (d : ℕ) → Inner n d → Ready n (for_frontier c ctx d)
for_frontier-Ready n no_expr ctx d i = go (was_used ctx)
  where
    go : (b : Bool) → Ready n (if b then behind d else [])
    go true = one-Ready n d none i
    go false = tt
for_frontier-Ready n (an_expr e) ctx d i = one-Ready n d none i

-- a for statement around the answer of its body
abbrev pub for_end : OptExpr → Clause → ℕ → ℕ → Option Loop → Built → Built
for_end c st n d loop r = record {
  frontier = for_frontier c r.loop (d + 1);
  loop = loop;
  graph = close_for st r.frontier n d r.graph;
}

pub for_end-Good :
    (n m : ℕ) (c : OptExpr) (st : Clause) (t d : ℕ) (l : Option Loop) (r : Built)
    → 2 ≤ d
    → n ≤ d
    → d + 2 ≤ m
    → LoopReady n l
    → Inner m (step_target st t d)
    → Good m r
    → Good n (for_end c st t d l r)
for_end-Good n m c st t d l r two le le' lr i h =
    let s =
      close_for-Step r.graph.serial st r.frontier t d r.graph (Step-self m r.graph h.0) h.1
        (i.0, omega arith) (two, omega arith) in
    (
      Step-mono n r.graph.serial (close_for st r.frontier t d r.graph) (omega arith) s,
      for_frontier-Ready _ c r.loop (d + 1) (omega arith, omega arith),
      LoopReady-mono n _ l (omega arith) lr,
    )

-- the graph of a for statement up to the edge that leaves it
abbrev pub for_start : Clause → OptExpr → Frontier → Graph → Graph
for_start i c fr g =
    let g₁ = init_graph i fr g in
    let d = g₁.serial in
    exit_edge c d (d + 1) (
      add_node NodeKind.merge (fixed "after for") true
        (decide (of_test c) (init_frontier i fr g) g₁))

pub for_start-Step :
    (n : ℕ) (i : Clause) (c : OptExpr) (fr : Frontier) (g : Graph)
    → Step n g
    → Ready n fr
    → Step ((init_graph i fr g).serial + 2) (for_start i c fr g)
for_start-Step n i c fr g h r =
    let g₁ = init_graph i fr g in
    let d = g₁.serial in
    let h₁ = init-Good n i fr g h r in
    let g₂ = decide (of_test c) (init_frontier i fr g) g₁ in
    let s =
      led-Step d NodeKind.decision (of_test c) false (init_frontier i fr g) g₁ (Step-self n g₁ h₁.0)
        h₁.1 in
    let g₃ = add_node NodeKind.merge (fixed "after for") true g₂ in
    exit_edge-Step (d + 2) c d (d + 1) g₃
      (Step-mono (d + 2) (d + 1 + 1) g₃ (omega arith)
        (add_node-Step (d + 1) NodeKind.merge (fixed "after for") true g₂ s))
      (h₁.0.2, omega arith) (omega arith, omega arith)

pub let_start-Step :
    (n : ℕ) (p : Pattern) (e : Expr) (fr : Frontier) (g : Graph)
    → Step n g
    → Ready n fr
    → Step (g.serial + 2) (
        add_edge g.serial (g.serial + 1) (some (of_pattern p)) FlowKind.flow (
          add_node NodeKind.merge
            (fixed "after let-else")
            true
            (decide (of_expr "let-else " e) fr g)))
let_start-Step n p e fr g h r =
    let d = g.serial in
    let g₁ = decide (of_expr "let-else " e) fr g in
    let g₂ = add_node NodeKind.merge (fixed "after let-else") true g₁ in
    let s = led-Step n NodeKind.decision (of_expr "let-else " e) false fr g h r in
    add_edge-Step (d + 2) d (d + 1) (some (of_pattern p)) FlowKind.flow g₂
      (Step-mono (d + 2) (d + 1 + 1) g₂ (omega arith)
        (add_node-Step (d + 1) NodeKind.merge (fixed "after let-else") true g₁ s))
      (omega arith) (not_exit d h.2) (omega arith) (omega arith)
