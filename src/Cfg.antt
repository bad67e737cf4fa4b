-- ===== src/Cfg.antt =====
-- src/lang/analysis_cfg.py, class `CFGBuilder`: the control-flow graph of a function body, over the
-- steps of Graph. `block` and `stmt` return the open ends with the graph and the loop context.
pub mod OpenEnds
pub mod Dead
pub mod Formed
pub mod Parts
pub mod Clauses
pub mod Builds
pub use l.Graph.{
  NodeKind, Label, Node, FlowKind, Edge, Loop, Graph, Frontier, add_node, add_edge, or_next, Built,
  max, is_empty, note_dead, join_from, join, simple, decide, break_edge, continue_edge, mark_used,
  was_used, context, open_at, behind, init_graph, init_frontier, exit_edge, step_graph, step_target,
  close_for, for_frontier, nest, loop_start, loop_end, else_built, fresh_graph, entry, exit,
  decision, merge, statement, terminal, fixed, of_expr, of_forin, of_clause, of_stmt, of_pattern,
  of_test, flow, back, terminal_flow, jump,
}
unfoldable pub use l.Graph.{connect, connect_back}
use l.Base.{
  ℕ, suc, ◌+◌, String, Bool, true, false, Option, none, some, List, [], ◌∷◌, ◌++◌, if◌then◌else◌,
  leb,
}
use l.Syntax.{
  Expr, Pattern, Stmt, Clause, OptExpr, Block, end, next, Arms, no_arms, arm, if_else, while, for,
  forin, match, letelse, return, break, continue, trap, no_clause, no_expr, an_expr,
}

unfoldable mutual
  pub block : Block → Frontier → Option Loop → ℕ → Graph → Built
  block end fr loop depth g = record { frontier = fr; loop = loop; graph = nest depth g }
  block (next s b) fr loop depth g =
      let r = stmt s fr loop depth (note_dead fr s (nest depth g)) in
      along b r.frontier r.loop depth r.graph

  -- for stmt in body
  pub along : Block → Frontier → Option Loop → ℕ → Graph → Built
  along end fr loop depth g = record { frontier = fr; loop = loop; graph = g }
  along (next s b) fr loop depth g =
      let r = stmt s fr loop depth (note_dead fr s g) in along b r.frontier r.loop depth r.graph

  pub stmt : Stmt → Frontier → Option Loop → ℕ → Graph → Built
  stmt (if_else c t e) fr loop depth g =
      let d = g.serial in
      let g₁ = decide (of_expr "if " c) fr g in
      let a = block t (open_at d "yes") loop (depth + 1) g₁ in
      let b = else_built e d a (block e (open_at d "no") a.loop (depth + 1) a.graph) in
      join (fixed "merge")
        (record { frontier = a.frontier ++ b.frontier; loop = b.loop; graph = b.graph })
  stmt (while c b) fr loop depth g =
      let d = g.serial in
      let g₁ = loop_start (of_expr "while " c) "after while" "no" fr g in
      loop_end d loop (block b (open_at d "yes") (context (d + 1) d) (depth + 1) g₁)
  stmt (forin n e b) fr loop depth g =
      let d = g.serial in
      let g₁ = loop_start (of_forin n e) "after for" "done" fr g in
      loop_end d loop (block b (open_at d "next") (context (d + 1) d) (depth + 1) g₁)
  stmt (for i c st b) fr loop depth g =
      let g₁ = init_graph i fr g in
      let d = g₁.serial in
      let g₂ = decide (of_test c) (init_frontier i fr g) g₁ in
      let g₃ = exit_edge c d (d + 1) (add_node merge (fixed "after for") true g₂) in
      let n = g₃.serial in
      let g₄ = step_graph st g₃ in
      let r = block b (open_at d "yes") (context (d + 1) (step_target st n d)) (depth + 1) g₄ in
      record {
        frontier = for_frontier c r.loop (d + 1);
        loop = loop;
        graph = close_for st r.frontier n d r.graph;
      }
  stmt (match e as') fr loop depth g =
      let d = g.serial in
      join (fixed "after match") (arms as' d loop (depth + 1) (decide (of_expr "match " e) fr g))
  stmt (letelse p e b) fr loop depth g =
      let d = g.serial in
      let g₁ = add_node merge (fixed "after let-else") true (decide (of_expr "let-else " e) fr g) in
      let g₂ = add_edge d (d + 1) (some (of_pattern p)) FlowKind.flow g₁ in
      let r = block b (open_at d "else") loop (depth + 1) g₂ in
      record {
        frontier = behind (d + 1);
        loop = r.loop;
        graph = connect r.frontier (d + 1) r.graph;
      }
  stmt (return e) fr loop depth g =
      let g₁ = simple terminal (return e) fr g in
      record {
        frontier = [];
        loop = loop;
        graph = add_edge g.serial 1 (some (fixed "return")) terminal_flow g₁;
      }
  stmt trap fr loop depth g =
      let g₁ = simple terminal trap fr g in
      record {
        frontier = [];
        loop = loop;
        graph = add_edge g.serial 1 (some (fixed "trap")) terminal_flow g₁;
      }
  stmt break fr loop depth g =
      let g₁ = simple terminal break fr g in
      record { frontier = []; loop = mark_used loop; graph = break_edge g.serial loop g₁ }
  stmt continue fr loop depth g =
      let g₁ = simple terminal continue fr g in
      record { frontier = []; loop = loop; graph = continue_edge g.serial loop g₁ }
  stmt s fr loop depth g = record {
    frontier = behind g.serial;
    loop = loop;
    graph = simple statement s fr g;
  }

  -- the arms of a match statement with the decision d: their open ends, one behind the other
  pub arms : Arms → ℕ → Option Loop → ℕ → Graph → Built
  arms no_arms d loop depth g = record { frontier = []; loop = loop; graph = g }
  arms (arm p b as') d loop depth g =
      let a = block b ((d, some (of_pattern p)) ∷ []) loop depth g in
      let r = arms as' d a.loop depth a.graph in
      record { frontier = a.frontier ++ r.frontier; loop = r.loop; graph = r.graph }

unfoldable pub build : Block → Graph
build b = let r = block b ((0, none) ∷ []) none 0 fresh_graph in connect r.frontier 1 r.graph
