-- ===== src/Cfg/Formed.antt =====
-- The nodes of the graph are numbered in order, and its edges join them.
use l.Base.{
  ℕ, zero, suc, ◌+◌, ◌≤◌, ◌<◌, Bool, true, Option, none, some, List, [], ◌∷◌, ◌++◌, String, ◌≡◌,
  ◌≢◌, arith, map, ap, ◌∙◌,
}
use mathlib.Core.List.{map-append}
use l.Cfg.{
  Frontier, Loop, Graph, Node, Edge, FlowKind, NodeKind, Label, Built, add_node, add_edge, connect,
  connect_back, or_next, join, join_from, break_edge, continue_edge, mark_used, open_at, fixed,
}

-- the numbers below n
abbrev pub upto : ℕ → List ℕ
upto zero = []
upto (suc n) = upto n ++ n ∷ []

-- Both ends are numbers below n, nothing leaves the exit, and nothing enters the entry.
abbrev pub Inside : ℕ → Edge → Type 0
Inside n e = (e.source < n) × (e.target < n) × (e.source ≢ 1) × (0 < e.target)

abbrev pub AllInside : ℕ → List Edge → Type 0
AllInside n [] = Unit
AllInside n (e ∷ es) = Inside n e × AllInside n es

abbrev pub IsFormed : Graph → Type 0
IsFormed g = (map (λ (n : Node). n.id) g.nodes ≡ upto g.serial) × AllInside g.serial g.edges

-- a graph with at least n nodes, the entry and the exit among them
abbrev pub Step : ℕ → Graph → Type 0
Step n g = IsFormed g × (n ≤ g.serial) × (2 ≤ g.serial)

-- a number below n that is neither the entry nor the exit
abbrev pub Inner : ℕ → ℕ → Type 0
Inner n t = (2 ≤ t) × (t < n)

abbrev pub Ready : ℕ → Frontier → Type 0
Ready n [] = Unit
Ready n ((s, l) ∷ fr) = (s < n) × (s ≢ 1) × Ready n fr

abbrev pub LoopReady : ℕ → Option Loop → Type 0
LoopReady n none = Unit
LoopReady n (some l) = Inner n l.break_target × Inner n l.continue_target

abbrev pub Good : ℕ → Built → Type 0
Good n r = Step n r.graph × Ready r.graph.serial r.frontier × LoopReady r.graph.serial r.loop

AllInside-mono : (n k : ℕ) (es : List Edge) → n ≤ k → AllInside n es → AllInside k es
AllInside-mono n k [] le h = tt
AllInside-mono n k (e ∷ es) le h =
    ((omega arith, omega arith, h.0.2, h.0.3), AllInside-mono n k es le h.1)

AllInside-snoc :
    (n : ℕ) (es : List Edge) (e : Edge) → AllInside n es → Inside n e → AllInside n (es ++ e ∷ [])
AllInside-snoc n [] e h i = (i, tt)
AllInside-snoc n (x ∷ es) e h i = (h.0, AllInside-snoc n es e h.1 i)

pub Ready-mono : (n k : ℕ) (fr : Frontier) → n ≤ k → Ready n fr → Ready k fr
Ready-mono n k [] le h = tt
Ready-mono n k ((s, l) ∷ fr) le h = (omega arith, h.1, Ready-mono n k fr le h.2)

pub Ready-append : (n : ℕ) (fr fr' : Frontier) → Ready n fr → Ready n fr' → Ready n (fr ++ fr')
Ready-append n [] fr' h k = k
Ready-append n ((s, l) ∷ fr) fr' h k = (h.0, h.1, Ready-append n fr fr' h.2 k)

pub LoopReady-mono : (n k : ℕ) (l : Option Loop) → n ≤ k → LoopReady n l → LoopReady k l
LoopReady-mono n k none le h = tt
LoopReady-mono n k (some l) le h = ((h.0.0, omega arith), (h.1.0, omega arith))

pub mark_used-Ready : (n : ℕ) (l : Option Loop) → LoopReady n l → LoopReady n (mark_used l)
mark_used-Ready n none h = tt
mark_used-Ready n (some l) h = h

pub not_exit : (t : ℕ) → 2 ≤ t → t ≢ 1
not_exit t h e = absurd (omega (arith, e))

pub one-Ready : (n t : ℕ) (l : Option Label) → Inner n t → Ready n ((t, l) ∷ [])
one-Ready n t l h = (h.1, not_exit t h.0, tt)

pub Step-mono : (n k : ℕ) (g : Graph) → n ≤ k → Step k g → Step n g
Step-mono n k g le h = (h.0, omega arith, h.2)

pub Step-self : (n : ℕ) (g : Graph) → Step n g → Step g.serial g
Step-self n g h = (h.0, omega arith, h.2)

pub add_node-Step :
    (n : ℕ) (k : NodeKind) (l : Label) (b : Bool) (g : Graph)
    → Step n g
    → Step (n + 1) (add_node k l b g)
add_node-Step n k l b g h = (
  (
    map-append (λ (x : Node). x.id) g.nodes _ ∙ ap (λ ids. ids ++ g.serial ∷ []) h.0.0,
    AllInside-mono g.serial (suc g.serial) g.edges (omega arith) h.0.1,
  ),
  omega arith,
  omega arith,
)

pub add_edge-Step :
    (n s t : ℕ) (l : Option Label) (k : FlowKind) (g : Graph)
    → Step n g
    → s < n
    → s ≢ 1
    → 0 < t
    → t < n
    → Step n (add_edge s t l k g)
add_edge-Step n s t l k g h a b c d =
    ((h.0.0, AllInside-snoc g.serial g.edges _ h.0.1 (omega arith, omega arith, b, c)), h.1, h.2)

pub connect-Step :
    (n : ℕ) (fr : Frontier) (t : ℕ) (g : Graph)
    → Step n g
    → Ready n fr
    → 0 < t
    → t < n
    → Step n (connect fr t g)
unfolding connect
connect-Step n [] t g h r a b = h
connect-Step n ((s, l) ∷ fr) t g h r a b =
    connect-Step n fr t (add_edge s t l FlowKind.flow g)
      (add_edge-Step n s t l FlowKind.flow g h r.0 r.1 a b) r.2 a b

pub connect_back-Step :
    (n : ℕ) (fr : Frontier) (t : ℕ) (g : Graph)
    → Step n g
    → Ready n fr
    → 0 < t
    → t < n
    → Step n (connect_back fr t g)
unfolding connect_back
connect_back-Step n [] t g h r a b = h
connect_back-Step n ((s, l) ∷ fr) t g h r a b =
    connect_back-Step n fr t (add_edge s t (or_next l) FlowKind.back g)
      (add_edge-Step n s t (or_next l) FlowKind.back g h r.0 r.1 a b) r.2 a b

-- a new node with the open ends led to it
pub led-Step :
    (n : ℕ) (k : NodeKind) (l : Label) (b : Bool) (fr : Frontier) (g : Graph)
    → Step n g
    → Ready n fr
    → Step (g.serial + 1) (connect fr g.serial (add_node k l b g))
led-Step n k l b fr g h r =
    connect-Step (g.serial + 1) fr g.serial (add_node k l b g)
      (add_node-Step g.serial k l b g (Step-self n g h))
      (Ready-mono n (g.serial + 1) fr (omega arith) r) (omega arith) (omega arith)

join_from-Good :
    (n : ℕ) (t : Label) (fr : Frontier) (l : Option Loop) (g : Graph)
    → Step n g
    → Ready g.serial fr
    → LoopReady g.serial l
    → Good n (join_from t fr l g)
join_from-Good n t [] l g h r k = (h, tt, k)
join_from-Good n t (x ∷ fr) l g h r k =
    let s = led-Step g.serial NodeKind.merge t true (x ∷ fr) g (Step-self n g h) r in
    (
      Step-mono n (g.serial + 1) (connect (x ∷ fr) g.serial (add_node NodeKind.merge t true g))
          (omega arith) s,
      one-Ready _ g.serial none (h.2, omega arith),
      LoopReady-mono g.serial _ l (omega arith) k,
    )

pub join-Good : (n : ℕ) (t : Label) (r : Built) → Good n r → Good n (join t r)
join-Good n t r h = join_from-Good n t r.frontier r.loop r.graph h.0 h.1 h.2

pub open_at-Ready : (n d : ℕ) (l : String) → Inner n d → Ready n (open_at d l)
open_at-Ready n d l h = one-Ready n d (some (fixed l)) h

pub break_edge-Step :
    (n d : ℕ) (l : Option Loop) (g : Graph)
    → Step n g
    → Inner n d
    → LoopReady n l
    → Step n (break_edge d l g)
break_edge-Step n d none g h i r = h
break_edge-Step n d (some l) g h i r =
    add_edge-Step n d l.break_target _ FlowKind.jump g h i.1 (not_exit d i.0) (omega arith) r.0.1

pub continue_edge-Step :
    (n d : ℕ) (l : Option Loop) (g : Graph)
    → Step n g
    → Inner n d
    → LoopReady n l
    → Step n (continue_edge d l g)
continue_edge-Step n d none g h i r = h
continue_edge-Step n d (some l) g h i r =
    add_edge-Step n d l.continue_target _ FlowKind.back g h i.1 (not_exit d i.0) (omega arith) r.1.1
