-- ===== src/Bytecode/Run.antt =====
-- src/lang/bytecode.py, class `BCVM`: `loop` and `call`, on fuel.
use l.Base.{ℕ, zero, suc, String, Option, none, some, List, [], ◌∷◌}
use l.Base.Dict.{Dict, lookup, insert}
use l.Base.Results.{Result, ok, err, ◌>>=◌}
use l.Values.{Platform, Fault, stuck, Heap, copy_list}
use l.Values.Operators.{V}
use l.Bytecode.{BcFunc}
use l.Bytecode.Vm.{Vm, push_value}
use l.Bytecode.Step.{Runtime, go, calls, calls_host, returns, step}

module _ (P : Platform) (run : Runtime P) where
  abbrev pub HostCall : Type 0
  HostCall = Platform.HostFn P → List (V P) → Heap (V P) → Result Fault (V P × Heap (V P))

  abbrev pub Answer : Type 0
  Answer = Option (Result Fault (V P × Vm (V P)))

  -- the frame of the caller, with what the call has left of what all frames share
  abbrev pub back : Vm (V P) → Vm (V P) → Vm (V P)
  back m called = record m {
    stack = called.stack;
    match_value = called.match_value;
    pending = called.pending;
    heap = called.heap;
  }

  -- dict(zip(names, values))
  abbrev zipped : List String → List (V P) → Dict (V P) → Dict (V P)
  zipped (n ∷ ns) (v ∷ vs) d = zipped ns vs (insert n v d)
  zipped _ vs d = d

  -- the frame of a function, with copies of its arguments
  abbrev pub new_frame : BcFunc (V P) → List (V P) → Vm (V P) → Result Fault (Vm (V P))
  new_frame f args m = copy_list run.depth args m.heap >>= λ r.
      ok (record m { code = f.code; ip = 0; scopes = zipped f.param_names r.0 [] ∷ []; heap = r.1 })

  module _ (funcs : Dict (BcFunc (V P))) (host_call : HostCall) where
    -- An instruction and a call spend one unit of fuel each.
    unfoldable mutual
      unfolding step copy_list

      pub loop : ℕ → Vm (V P) → Answer
      loop zero m = none
      loop (suc f) m = elim (step P run m) [
        | err e ↦ some (err e)
        | ok (go m₁) ↦ loop f m₁
        | ok (returns v m₁) ↦ some (ok (v, m₁))
        | ok (calls_host g args m₁) ↦ elim (host_call g args m₁.heap) [
          | err e ↦ some (err e)
          | ok r ↦ loop f (push_value r.0 (record m₁ { heap = r.1 }))
        ]
        | ok (calls n args m₁) ↦ elim (call f n args m₁) [
          | none ↦ none
          | some (err e) ↦ some (err e)
          | some (ok r) ↦ loop f (push_value r.0 (back m₁ r.1))
        ]
      ]

      pub call : ℕ → String → List (V P) → Vm (V P) → Answer
      call zero n args m = none
      call (suc f) n args m = elim (lookup n funcs) [
        | none ↦ some (err stuck)
        | some g ↦ elim (new_frame g args m) [ err e ↦ some (err e) | ok m₁ ↦ loop f m₁ ]
      ]
