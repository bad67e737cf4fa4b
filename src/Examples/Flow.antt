-- ===== src/Examples/Flow.antt =====
-- Runs and instances for the statements of src/lang/core.py. The machine has Booleans as its values
-- and no places.
use l.Base.{String, Bool, true, false, ◌≡◌, ◌⊎◌, refl, Option, none, some, List, [], ◌∷◌}
use l.Base.Dict.{Dict, lookup, insert}
use l.Base.Results.{Result, ok, err}
use l.Types.{Ty, name_ty}
use l.Syntax.{
  Expr, node, bool, qname, Pattern, p_some, p_wild, Block, end, next, while, if_else, letelse,
  return, an_expr, trap, Binary,
}
use l.Checker.{contains_break, check_block, block_returns, block_diverges}
use l.Interp.{
  Machine, State, returned, raised, normal, Trap, machine, call_user, exec, run_block, finally_pop,
  push_frame, call_frame, cond,
}
use l.Interp.Diverges.{letelse_lem}
use l.Interp.Calls.{Literals, call_user_returns, run_block_returns}

abbrev Store : Type 0
Store = State Bool (Unit {0})

abbrev lookup_local : String → List (Dict Bool) → Result Trap Bool
lookup_local n [] = err (machine 1)
lookup_local n (f ∷ fs) = elim (lookup n f) [ some v ↦ ok v | none ↦ lookup_local n fs ]

-- a Boolean literal, a local variable, or a trap
abbrev toy_eval : Expr → Store → Option (Result Trap Bool × Store)
toy_eval (node ty (bool b)) s = some (ok b, s)
toy_eval (node ty (qname (n ∷ []))) s = some (lookup_local n s.frames, s)
toy_eval _ s = some (err (machine 0), s)

abbrev toy_match : Pattern → Bool → Option Ty → Option (Dict Bool)
toy_match p_wild v ty = some []
toy_match _ v ty = none

abbrev toy_place : Expr → Store → Option (Result Trap (Unit {0}) × Store)
toy_place e s = some (err (machine 2), s)

abbrev toy_get : Unit {0} → Store → Option (Result Trap Bool × Store)
toy_get p s = some (err (machine 2), s)

abbrev toy_set : Unit {0} → Bool → Store → Option (Result Trap (Unit {0}) × Store)
toy_set p v s = some (ok tt, s)

abbrev toy_op : Binary → Bool → Bool → Option Ty → Result Trap Bool
toy_op op a b ty = err (machine 3)

abbrev toy_items : Bool → Store → Result Trap (List Bool)
toy_items v s = ok []

abbrev same : Bool → Bool
same v = v

abbrev pub toy : Machine
toy = record {
  Value = Bool;
  Heap = Unit {0};
  Place = Unit {0};
  unit_value = false;
  copy_value = same;
  truthy = same;
  eval = toy_eval;
  place = toy_place;
  get = toy_get;
  set = toy_set;
  scalar_op = toy_op;
  match_pattern = toy_match;
  items = toy_items;
}

toy_laws : Literals toy
toy_laws = record { true_literal = λ ty s. (true, refl, refl) }

abbrev pub start : Store
start = record { frames = []; heap = tt }

abbrev pub yes : Expr
yes = node none (bool true)

abbrev x_now : Expr
x_now = node none (qname ("x" ∷ []))

-- while (true) { if (x) { return x; } else { trap; } }
abbrev pub loop_body : Block
loop_body =
    next (while yes (next (if_else x_now (next (return (an_expr x_now)) end) (next trap end)) end))
      end

abbrev x_param : List (String × Ty)
x_param = ("x", name_ty "bool") ∷ []

returns : call_user toy 20 x_param loop_body (true ∷ []) start ≡ some (returned true, start)
unfolding call_user exec cond lookup insert
returns = refl

traps : call_user toy 20 x_param loop_body (false ∷ []) start ≡ some (raised Trap.trapped, start)
unfolding call_user exec cond lookup insert
traps = refl

loop_checks : check_block false loop_body ≡ true
unfolding check_block
loop_checks = refl

loop_returns : block_returns loop_body ≡ true
unfolding block_returns contains_break
loop_returns = refl

call_user_returns_example :
    ((v : Bool) × (s₁ : Store) × (run_block toy 20 loop_body
          (call_frame toy x_param (true ∷ []) start)
        ≡ some (returned v, s₁))
      × (returned true ≡ returned v))
    ⊎ ((t : Trap) × (returned true ≡ raised t))
call_user_returns_example =
    call_user_returns toy toy_laws 20 x_param loop_body (true ∷ []) start start (returned true)
      loop_checks loop_returns returns

run_block_returns_example : ¬ (run_block toy 20 loop_body start ≡ some (normal, start))
run_block_returns_example = run_block_returns toy toy_laws 20 loop_body start start loop_returns

-- return x
abbrev pub leave : Block
leave = next (return (an_expr yes)) end

leave_diverges : block_diverges leave ≡ true
unfolding block_diverges
leave_diverges = refl

letelse_lem_example :
    exec toy 6 (letelse (p_some p_wild) yes leave) start
    ≡ finally_pop toy (run_block toy 5 leave (push_frame toy [] start))
letelse_lem_example =
    letelse_lem toy 5 (p_some p_wild) yes leave start start true leave_diverges refl refl
