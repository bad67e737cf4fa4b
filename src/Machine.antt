-- ===== src/Machine.antt =====
-- src/lang/core.py, class `Interpreter`: frames, signals and what statements ask of expressions.
-- A Python exception that unwinds is a signal beside the state.
use l.Base.{ℕ, String, Bool, true, false, Option, none, some, List, [], ◌∷◌}
use l.Base.Dict.{Dict, insert}
use l.Base.Results.{Result, ok, err}
use l.Types.{Ty}
use l.Syntax.{
  Expr, node, is_match, Pattern, Assign, plain, compound, Binary, Block, Arms, no_arms, arm,
}

-- The messages of `TrapSig` that statements raise; `machine` is one that an expression raised.
pub data Trap : Type 0 where
  trapped non_exhaustive_match fell_through : Trap
  machine : ℕ → Trap

module _ (V : Type 0) where
  -- `self.frames`, the last frame first, and the objects on the heap
  pub record State (H : Type 0) : Type 0 where
    pub frames : List (Dict V)
    pub heap : H

  -- how a statement ends
  pub data Signal : Type 0 where
    normal broke continued : Signal
    returned : V → Signal
    raised : Trap → Signal

-- `none` as an answer means that the expression has not come to an end.
pub record Machine : Type 1 where
  pub Value : Type 0
  pub Heap : Type 0
  pub Place : Type 0
  pub unit_value : Value
  pub copy_value : Value → Value
  pub truthy : Value → Bool
  pub eval : Expr → State Value Heap → Option (Result Trap Value × State Value Heap)
  pub place : Expr → State Value Heap → Option (Result Trap Place × State Value Heap)
  pub get : Place → State Value Heap → Option (Result Trap Value × State Value Heap)
  pub set : Place → Value → State Value Heap → Option (Result Trap (Unit {0}) × State Value Heap)
  pub scalar_op : Binary → Value → Value → Option Ty → Result Trap Value
  pub match_pattern : Pattern → Value → Option Ty → Option (Dict Value)
  -- a.items of an array value
  pub items : Value → State Value Heap → Result Trap (List Value)

module _ (m : Machine) where
  open m use {
    Value, Heap, Place, unit_value, copy_value, truthy, eval, place, get, set, scalar_op,
    match_pattern, items,
  }

  abbrev pub S : Type 0
  S = State Value Heap

  abbrev pub Sig : Type 0
  Sig = Signal Value

  abbrev pub Outcome : Type 0
  Outcome = Option (Sig × S)

  abbrev pub push_frame : Dict Value → S → S
  push_frame d s = record s { frames = d ∷ s.frames }

  abbrev pop_list : List (Dict Value) → List (Dict Value)
  pop_list [] = []
  pop_list (f ∷ fs) = fs

  abbrev pub pop_frame : S → S
  pop_frame s = record s { frames = pop_list s.frames }

  abbrev bind_list : String → Value → List (Dict Value) → List (Dict Value)
  bind_list n v [] = []
  bind_list n v (f ∷ fs) = insert n v f ∷ fs

  -- self.frames[-1][n] = v
  abbrev pub bind_local : String → Value → S → S
  bind_local n v s = record s { frames = bind_list n v s.frames }

  abbrev update_all : Dict Value → Dict Value → Dict Value
  update_all [] f = f
  update_all ((n, v) ∷ d) f = update_all d (insert n v f)

  abbrev update_list : Dict Value → List (Dict Value) → List (Dict Value)
  update_list d [] = []
  update_list d (f ∷ fs) = update_all d f ∷ fs

  -- self.frames[-1].update(d)
  abbrev pub update_frame : Dict Value → S → S
  update_frame d s = record s { frames = update_list d s.frames }

  -- go on with an answer, or raise its trap
  abbrev pub with_answer : {A : Type 0} → Option (Result Trap A × S) → (A → S → Outcome) → Outcome
  with_answer none k = none
  with_answer (some (ok a, s)) k = k a s
  with_answer (some (err t, s)) k = some (raised t, s)

  -- go on where a statement fell through
  abbrev pub and_then : Outcome → (S → Outcome) → Outcome
  and_then none k = none
  and_then (some (normal, s)) k = k s
  and_then (some (sg, s)) k = some (sg, s)

  -- a `finally` that pops the frame
  abbrev pub finally_pop : Outcome → Outcome
  finally_pop none = none
  finally_pop (some (sg, s)) = some (sg, pop_frame s)

  -- The `except` clauses around a loop body: BreakSig ends the loop, ContinueSig and a normal end
  -- go on.
  abbrev pub after_body : Outcome → (S → Outcome) → Outcome
  after_body none again = none
  after_body (some (normal, s)) again = again s
  after_body (some (continued, s)) again = again s
  after_body (some (broke, s)) again = some (normal, s)
  after_body (some (sg, s)) again = some (sg, s)

  abbrev pub Bound : Type 0
  Bound = Option (Result Trap (Option (Dict Value)) × S)

  abbrev pub answer_map :
      {A B : Type 0} → Option (Result Trap A × S) → (A → B) → Option (Result Trap B × S)
  answer_map none f = none
  answer_map (some (ok a, s)) f = some (ok (f a), s)
  answer_map (some (err t, s)) f = some (err t, s)

  abbrev when : Bool → Option (Dict Value)
  when true = some []
  when false = none

  -- `cond`: none where the test fails, the bindings of an `is` test where it holds
  unfoldable pub cond : Expr → S → Bound
  cond (node ty (is_match (node ty' e) p)) s =
      answer_map (eval (node ty' e) s) λ v. match_pattern p v ty'
  cond e s = answer_map (eval e s) λ v. when (truthy v)

  abbrev pub expr_ty : Expr → Option Ty
  expr_ty (node ty e) = ty

  -- the arms of a match statement, tried in turn
  abbrev pub select : Value → Option Ty → Arms → Option (Dict Value × Block)
  select v ty no_arms = none
  select v ty (arm p b arms) = elim (match_pattern p v ty) [
    | some d ↦ some (d, b)
    | none ↦ select v ty arms
  ]

  -- the value that a compound assignment stores
  abbrev pub assigned : Assign → Value → Value → Option Ty → Result Trap Value
  assigned plain old v ty = ok v
  assigned (compound op) old v ty = scalar_op op old v ty

  abbrev pub lift_result : {A : Type 0} → Result Trap A → S → Option (Result Trap A × S)
  lift_result r s = some (r, s)

  -- What a call returns: the value of `return`, or unit where the body falls off its end. A break or
  -- continue that leaves the body is not caught.
  abbrev pub call_result : Outcome → Outcome
  call_result none = none
  call_result (some (normal, s)) = some (returned unit_value, pop_frame s)
  call_result (some (returned v, s)) = some (returned (copy_value v), pop_frame s)
  call_result (some (sg, s)) = some (sg, pop_frame s)

  abbrev bind_params : List (String × Ty) → List Value → Dict Value → Dict Value
  bind_params ((n, t) ∷ ps) (v ∷ vs) d = bind_params ps vs (insert n (copy_value v) d)
  bind_params _ _ d = d

  -- the state in which the body starts: one frame more, with the parameters
  abbrev pub call_frame : List (String × Ty) → List Value → S → S
  call_frame ps args s = push_frame (bind_params ps args []) s
