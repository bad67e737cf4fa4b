-- ===== src/Examples/Graphs.antt =====
-- Runs and instances for the control-flow graphs of src/lang/analysis_cfg.py.
use l.Base.{[], ◌∷◌, ◌≡◌, refl, none, map}
use l.Syntax.{Block, end, next, for, no_clause, no_expr, if_else, continue, break, exprstmt}
use l.Interp.{run_block}
use l.Interp.Signals.{Ends}
use l.Interp.Loops.{NoFall}
use l.Cfg.{Edge, block, build, connect, connect_back, fresh_graph}
use l.Cfg.Formed.{IsFormed}
use l.Cfg.Builds.{build-IsFormed}
use l.Cfg.Dead.{append, dead_code, run_block-closed}
use l.Examples.Flow.{toy, start, yes, leave, loop_body}

-- for (;;) { if (true) { return true; } else { continue; } }
abbrev endless : Block
endless =
    next (for no_clause no_expr no_clause (next (if_else yes leave (next continue end)) end)) end

-- for (;;) { break; }
abbrev left : Block
left = next (for no_clause no_expr no_clause (next break end)) end

-- true;
abbrev after : Block
after = next (exprstmt yes) end

-- the entry leads to the test, the test into the body, and both branches jump
endless_sources : map (λ (e : Edge). e.source) (build endless).edges ≡ 0 ∷ 2 ∷ 4 ∷ 5 ∷ 4 ∷ 6 ∷ []
unfolding build block connect connect_back
endless_sources = refl

endless_targets : map (λ (e : Edge). e.target) (build endless).edges ≡ 2 ∷ 4 ∷ 5 ∷ 1 ∷ 6 ∷ 2 ∷ []
unfolding build block connect connect_back
endless_targets = refl

left_dead : (build (append left after)).unreachable ≡ []
unfolding build block connect connect_back
left_dead = refl

endless_dead : (build (append endless after)).unreachable ≡ exprstmt yes ∷ []
unfolding build block connect connect_back
endless_dead = refl

endless_closed : (block endless ((0, none) ∷ []) none 0 fresh_graph).frontier ≡ []
unfolding block connect connect_back
endless_closed = refl

build-IsFormed_example : IsFormed (build loop_body)
build-IsFormed_example = build-IsFormed loop_body

dead_code_example :
    run_block toy 20 (append endless after) start ≡ run_block toy 20 (append endless leave) start
dead_code_example =
    dead_code toy 20 endless after leave start (0, none) [] none 0 fresh_graph endless_closed

run_block-closed_example : Ends toy (NoFall toy) (run_block toy 20 endless start)
run_block-closed_example =
    run_block-closed toy 20 endless start (0, none) [] none 0 fresh_graph endless_closed
