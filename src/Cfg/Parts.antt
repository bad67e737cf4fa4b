-- ===== src/Cfg/Parts.antt =====
-- The parts of a statement's graph: what holds of the graph after each of them.
use l.Base.{ℕ, ◌+◌, ◌≤◌, true, false, Option, none, String, [], ◌∷◌, arith}
use l.Syntax.{Stmt, Block, end, next}
use l.Cfg.{
  Frontier, Loop, Graph, Label, NodeKind, FlowKind, Built, fixed, of_stmt, add_node, add_edge,
  connect_back, else_built, note_dead, decide, simple, loop_start, loop_end, behind,
}
use l.Cfg.Formed.{
  Step, Ready, LoopReady, Inner, Good, LoopReady-mono, not_exit, one-Ready, open_at-Ready,
  Step-mono, Step-self, add_node-Step, add_edge-Step, connect_back-Step, led-Step,
}

pub Good-mono : (n k : ℕ) (r : Built) → n ≤ k → Good k r → Good n r
Good-mono n k r le h = (Step-mono n k r.graph le h.0, h.1, h.2)

pub note_dead-Step :
    (n : ℕ) (fr : Frontier) (s : Stmt) (g : Graph) → Step n g → Step n (note_dead fr s g)
note_dead-Step n [] s g h = h
note_dead-Step n (x ∷ fr) s g h = h

pub else_built-Good :
    (n : ℕ) (e : Block) (d : ℕ) (a b : Built)
    → Good n a
    → Inner n d
    → Good a.graph.serial b
    → Good a.graph.serial (else_built e d a b)
else_built-Good n end d a b h i k =
    (Step-self n a.graph h.0, open_at-Ready a.graph.serial d "no" (i.0, omega arith), h.2)
else_built-Good n (next s e) d a b h i k = k

pub loop_start-Step :
    (n : ℕ) (t : Label) (name leave : String) (fr : Frontier) (g : Graph)
    → Step n g
    → Ready n fr
    → Step (g.serial + 2) (loop_start t name leave fr g)
loop_start-Step n t name leave fr g h r =
    let s = led-Step n NodeKind.decision t false fr g h r in
    let g₁ = decide t fr g in
    add_edge-Step (g.serial + 2) g.serial (g.serial + 1) _ FlowKind.flow
      (add_node NodeKind.merge (fixed name) true g₁)
      (Step-mono (g.serial + 2) (g.serial + 1 + 1) (add_node NodeKind.merge (fixed name) true g₁)
        (omega arith) (add_node-Step (g.serial + 1) NodeKind.merge (fixed name) true g₁ s))
      (omega arith) (not_exit g.serial h.2) (omega arith) (omega arith)

pub loop_end-Good :
    (n d : ℕ) (l : Option Loop) (r : Built)
    → 2 ≤ d
    → n ≤ d
    → LoopReady n l
    → Good (d + 2) r
    → Good n (loop_end d l r)
loop_end-Good n d l r two le lr h =
    let s =
      connect_back-Step r.graph.serial r.frontier d r.graph (Step-self (d + 2) r.graph h.0) h.1
        (omega arith) (omega arith) in
    (
      Step-mono n r.graph.serial (connect_back r.frontier d r.graph) (omega arith) s,
      one-Ready _ (d + 1) none (omega arith, omega arith),
      LoopReady-mono n _ l (omega arith) lr,
    )

pub simple-Step :
    (n : ℕ) (k : NodeKind) (s : Stmt) (fr : Frontier) (g : Graph)
    → Step n g
    → Ready n fr
    → Step (g.serial + 1) (simple k s fr g)
simple-Step n k s fr g h r = led-Step n k (of_stmt s) false fr g h r

-- a statement that control does not leave to the next one
pub terminal-Good :
    (n d : ℕ) (l : Option Loop) (g' : Graph)
    → n ≤ d
    → LoopReady n l
    → Step (d + 1) g'
    → Good n (record { frontier = []; loop = l; graph = g' })
terminal-Good n d l g' le lr h =
    (Step-mono n (d + 1) g' (omega arith) h, tt, LoopReady-mono n g'.serial l (omega arith) lr)

-- an edge from a new node to the exit
pub exit-Step :
    (n d : ℕ) (l : Option Label) (g : Graph)
    → 2 ≤ d
    → Step (d + 1) g
    → Step (d + 1) (add_edge d 1 l FlowKind.terminal_flow g)
exit-Step n d l g two h =
    add_edge-Step (d + 1) d 1 l FlowKind.terminal_flow g h (omega arith) (not_exit d two)
      (omega arith) (omega arith)

pub plain-Good :
    (n : ℕ) (s : Stmt) (fr : Frontier) (l : Option Loop) (g : Graph)
    → Step n g
    → Ready n fr
    → LoopReady n l
    → Good n
        (record { frontier = behind g.serial; loop = l; graph = simple NodeKind.statement s fr g })
plain-Good n s fr l g h r lr =
    let s₁ = simple-Step n NodeKind.statement s fr g h r in
    (
      Step-mono n (g.serial + 1) (simple NodeKind.statement s fr g) (omega arith) s₁,
      one-Ready _ g.serial none (h.2, omega arith),
      LoopReady-mono n _ l (omega arith) lr,
    )
