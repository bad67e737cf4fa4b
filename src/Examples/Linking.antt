-- ===== src/Examples/Linking.antt =====
-- Runs and instances for `Program._toposort` of src/lang/core.py.
use l.Base.{String, true, ◌≡◌, refl, List, [], ◌∷◌, arith, str_eq, if◌then◌else◌}
use l.Base.Dict.{lookup, insert}
use l.Base.Results.{ok, err}
use l.Linker.{Sources, toposort, contains, import_cycle, out_of_fuel}
use l.Linker.Order.{OrderedAfter}
use l.Linker.Toposort.{toposort-Ordered}
use l.Linker.Cycles.{Cycle, toposort-Cycle}
use l.Linker.Fuel.{ImportsBound, toposort-total}

abbrev line_imports : String → List String
line_imports m =
    if str_eq m "main" then "io" ∷ "text" ∷ [] else if str_eq m "text" then "io" ∷ [] else []

-- main imports io and text, and text imports io, a host module
abbrev line_program : Sources
line_program = record { modules = "main" ∷ "text" ∷ []; hosts = "io" ∷ []; imports = line_imports }

abbrev loop_imports : String → List String
loop_imports m = if str_eq m "a" then "b" ∷ [] else "a" ∷ []

-- a and b import one another
abbrev loop_program : Sources
loop_program = record { modules = "a" ∷ "b" ∷ []; hosts = []; imports = loop_imports }

sorts : toposort line_program 20 ≡ ok ("text" ∷ "main" ∷ [])
unfolding toposort contains lookup insert
sorts = refl

finds_cycle : toposort loop_program 20 ≡ err import_cycle
unfolding toposort contains lookup insert
finds_cycle = refl

two_at_most : ImportsBound line_program 2
two_at_most m = ground arith

toposort-Ordered_example :
    OrderedAfter line_program [] ("text" ∷ "main" ∷ [])
    × ((m : String)
        → contains m ("main" ∷ "text" ∷ []) ≡ true
        → contains m ("text" ∷ "main" ∷ []) ≡ true)
toposort-Ordered_example = toposort-Ordered line_program 20 ("text" ∷ "main" ∷ []) sorts

toposort-Cycle_example : Cycle loop_program
toposort-Cycle_example = toposort-Cycle loop_program 20 finds_cycle

toposort-total_example : ¬ (toposort line_program 9 ≡ err out_of_fuel)
toposort-total_example = toposort-total line_program 2 two_at_most 9 (omega arith)
