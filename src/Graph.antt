-- ===== src/Graph.antt =====
-- src/lang/analysis_cfg.py: the nodes and edges of a control-flow graph, and the steps of `CFGBuilder`
-- on them. The builder's lists and its counter are the record Graph, which every method takes and
-- returns; the identity of a node is the number behind its "n". Labels keep the syntax that they are the
-- text of.
use l.Base.{
  ℕ, suc, ◌+◌, String, Bool, true, false, Option, none, some, List, [], ◌∷◌, ◌++◌, if◌then◌else◌,
  leb,
}
use l.Syntax.{Expr, Pattern, Stmt, Clause, OptExpr, Block, end, next, no_clause, no_expr, an_expr}

pub data NodeKind : Type 0 where
  entry exit decision merge statement terminal : NodeKind

pub data Label : Type 0 where
  fixed : String → Label
  of_expr : String → Expr → Label
  of_forin : String → Expr → Label
  of_clause : String → Clause → Label
  of_stmt : Stmt → Label
  of_pattern : Pattern → Label
  of_test : OptExpr → Label

-- CFGNode, without its position
pub record Node : Type 0 where
  pub id : ℕ
  pub kind : NodeKind
  pub label : Label
  pub synthetic : Bool

pub data FlowKind : Type 0 where
  flow back terminal_flow jump : FlowKind

-- CFGEdge
pub record Edge : Type 0 where
  pub source : ℕ
  pub target : ℕ
  pub label : Option Label
  pub kind : FlowKind

-- LoopContext
pub record Loop : Type 0 where
  pub break_target : ℕ
  pub continue_target : ℕ
  pub break_used : Bool

-- `unreachable` holds the statements whose lines the source keeps.
pub record Graph : Type 0 where
  pub nodes : List Node
  pub edges : List Edge
  pub serial : ℕ
  pub unreachable : List Stmt
  pub max_nesting : ℕ

-- the open ends: a node, and the label of the edge that will leave it
abbrev pub Frontier : Type 0
Frontier = List (ℕ × Option Label)

-- self.node(kind, label, synthetic=synthetic), whose answer is the counter before the call
abbrev pub add_node : NodeKind → Label → Bool → Graph → Graph
add_node k l synthetic g = record g {
  nodes = g.nodes ++ record { id = g.serial; kind = k; label = l; synthetic = synthetic } ∷ [];
  serial = suc g.serial;
}

-- self.edge
abbrev pub add_edge : ℕ → ℕ → Option Label → FlowKind → Graph → Graph
add_edge s t l k g = record g {
  edges = g.edges ++ record { source = s; target = t; label = l; kind = k } ∷ [];
}

unfoldable pub connect : Frontier → ℕ → Graph → Graph
connect [] t g = g
connect ((s, l) ∷ fr) t g = connect fr t (add_edge s t l FlowKind.flow g)

-- label or "next"
abbrev pub or_next : Option Label → Option Label
or_next none = some (fixed "next")
or_next (some l) = some l

-- for src, label in frontier: self.edge(src, t, label or "next", "back")
unfoldable pub connect_back : Frontier → ℕ → Graph → Graph
connect_back [] t g = g
connect_back ((s, l) ∷ fr) t g = connect_back fr t (add_edge s t (or_next l) back g)

-- the answer of `block` and `stmt`, with the loop context that they may have marked
pub record Built : Type 0 where
  pub frontier : Frontier
  pub loop : Option Loop
  pub graph : Graph

abbrev pub max : ℕ → ℕ → ℕ
max a b = if leb a b then b else a

abbrev pub is_empty : {A : Type 0} → List A → Bool
is_empty [] = true
is_empty (_ ∷ _) = false

-- a statement that no open end leads to is unreachable
abbrev pub note_dead : Frontier → Stmt → Graph → Graph
note_dead [] s g = record g { unreachable = s ∷ g.unreachable }
note_dead (_ ∷ _) s g = g

-- one merge node for the open ends, if there are any
abbrev pub join_from : Label → Frontier → Option Loop → Graph → Built
join_from l [] loop g = record { frontier = []; loop = loop; graph = g }
join_from l (x ∷ xs) loop g = record {
  frontier = (g.serial, none) ∷ [];
  loop = loop;
  graph = connect (x ∷ xs) g.serial (add_node merge l true g);
}

abbrev pub join : Label → Built → Built
join l r = join_from l r.frontier r.loop r.graph

-- a simple statement: one node behind the open ends
abbrev pub simple : NodeKind → Stmt → Frontier → Graph → Graph
simple k s fr g = connect fr g.serial (add_node k (of_stmt s) false g)

abbrev pub decide : Label → Frontier → Graph → Graph
decide l fr g = connect fr g.serial (add_node decision l false g)

abbrev pub break_edge : ℕ → Option Loop → Graph → Graph
break_edge n none g = g
break_edge n (some l) g = add_edge n l.break_target (some (fixed "break")) jump g

abbrev pub continue_edge : ℕ → Option Loop → Graph → Graph
continue_edge n none g = g
continue_edge n (some l) g = add_edge n l.continue_target (some (fixed "continue")) back g

-- loop.break_used = True
abbrev pub mark_used : Option Loop → Option Loop
mark_used none = none
mark_used (some l) = some (record l { break_used = true })

abbrev pub was_used : Option Loop → Bool
was_used none = false
was_used (some l) = l.break_used

abbrev pub context : ℕ → ℕ → Option Loop
context after again =
    some (record { break_target = after; continue_target = again; break_used = false })

abbrev pub open_at : ℕ → String → Frontier
open_at n l = (n, some (fixed l)) ∷ []

abbrev pub behind : ℕ → Frontier
behind n = (n, none) ∷ []

-- the node of an `init` clause, with the open ends behind it
abbrev pub init_graph : Clause → Frontier → Graph → Graph
init_graph no_clause fr g = g
init_graph c fr g = connect fr g.serial (add_node statement (of_clause "for init: " c) false g)

abbrev pub init_frontier : Clause → Frontier → Graph → Frontier
init_frontier no_clause fr g = fr
init_frontier c fr g = behind g.serial

-- the edge that leaves a for statement where its test fails
abbrev pub exit_edge : OptExpr → ℕ → ℕ → Graph → Graph
exit_edge no_expr d after g = g
exit_edge (an_expr e) d after g = add_edge d after (some (fixed "no")) FlowKind.flow g

abbrev pub step_graph : Clause → Graph → Graph
step_graph no_clause g = g
step_graph c g = add_node statement (of_clause "for step: " c) false g

-- step_node or d, with the step's node n
abbrev pub step_target : Clause → ℕ → ℕ → ℕ
step_target no_clause n d = d
step_target _ n d = n

abbrev pub close_for : Clause → Frontier → ℕ → ℕ → Graph → Graph
close_for no_clause fr n d g = connect_back fr d g
close_for _ fr n d g = add_edge n d (some (fixed "next")) back (connect fr n g)

-- [(after, None)] if cond is not None or ctx.break_used else []
abbrev pub for_frontier : OptExpr → Option Loop → ℕ → Frontier
for_frontier no_expr ctx after = if was_used ctx then behind after else []
for_frontier (an_expr e) ctx after = behind after

-- self.max_nesting = max(self.max_nesting, depth)
abbrev pub nest : ℕ → Graph → Graph
nest depth g = record g { max_nesting = max g.max_nesting depth }

-- The decision d of a `while` or for-in statement, the node d + 1 behind it, and the edge between.
abbrev pub loop_start : Label → String → String → Frontier → Graph → Graph
loop_start l name leave fr g =
    add_edge g.serial (g.serial + 1) (some (fixed leave)) FlowKind.flow
      (add_node merge (fixed name) true (decide l fr g))

-- the edges back from the end of the body
abbrev pub loop_end : ℕ → Option Loop → Built → Built
loop_end d loop r = record {
  frontier = behind (d + 1);
  loop = loop;
  graph = connect_back r.frontier d r.graph;
}

-- `self.block(no, ...) if no else [(d, "no")]`, behind the other branch
abbrev pub else_built : Block → ℕ → Built → Built → Built
else_built end d a b = record { frontier = open_at d "no"; loop = a.loop; graph = a.graph }
else_built (next _ _) d a b = b

-- CFGBuilder(source): the nodes 0 and 1 are the entry and the exit
abbrev pub fresh_graph : Graph
fresh_graph = add_node exit (fixed "exit") true (
    add_node entry (fixed "entry") true
      (record { nodes = []; edges = []; serial = 0; unreachable = []; max_nesting = 0 }))
