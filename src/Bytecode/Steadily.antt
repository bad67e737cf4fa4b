-- ===== src/Bytecode/Steadily.antt =====
-- src/lang/bytecode.py: `BCCompiler.stmt` and `expr` keep the code before them, the loops around them
-- and the depth of scopes.
use mathlib.Core.Path.{subst}
use l.Base.{
  ℕ, ◌≤◌, ◌≡◌, refl, sym, arith, String, Bool, true, false, Option, none, some, List, [], ◌∷◌, ltb,
  ◌==◌, ◌-◌, if◌then◌else◌,
}
use l.Base.Results.{ok, err, ◌>>=◌}
use l.Types.{Ty}
use l.Linker.Holds.{Holds, Holds-skip}
use l.Bytecode.{
  Ins, BcLoop, Compiler, CompileError, Compiled, emit, mark, emit_unwind, break_jump, continue_jump,
  bad_depth, no_loop,
}
use l.Bytecode.Names.{anon_name}
use l.Bytecode.Statements.{Code}
use l.Bytecode.Compile.{emit_fields, start_fn, finish_fn, note_anon}
use l.Bytecode.Kept.{
  same, more, LoopsKeep, LoopsKeep-refl, Kept-trans, Same, Same-mark, Steady, emit-Same, emitted,
}

module _ {V : Type 0} where
  pub Steady-option :
      {A : Type 0} (o : Option A) (n : Code V) (f : A → Code V)
      → Steady n
      → ((a : A) → Steady (f a))
      → Steady (λ c. elim o [ some a ↦ f a c | none ↦ n c ])
  Steady-option none n f hn hf = hn
  Steady-option (some a) n f hn hf = hf a

  pub Steady-if :
      (b : Bool) (x y : Code V) → Steady x → Steady y → Steady (λ c. if b then x c else y c)
  Steady-if true x y hx hy = hx
  Steady-if false x y hx hy = hy

  pub err-Steady : (e : CompileError) → Steady {V = V} (λ c. err e)
  err-Steady e s c le = tt

  emit_fields-Same :
      (op : String → Ins V) (fs : List String) (s : ℕ) (c d : Compiler V)
      → Same s c d
      → s ≤ mark c
      → Same s c (emit_fields op fs d)
  unfolding emit_fields
  emit_fields-Same op [] s c d h le = h
  emit_fields-Same op (f ∷ fs) s c d h le =
      emit_fields-Same op fs s c (emit (op f) d) (emitted (op f) h le) le

  pub fields-Steady :
      (op : String → Ins V) (fs : List String) (i : Ins V)
      → Steady (λ c. ok (emit_fields op fs (emit i c)))
  fields-Steady op fs i s c le = emit_fields-Same op fs s c (emit i c) (emit-Same s i c le) le

  unwound : (s d : ℕ) (c : Compiler V) → s ≤ mark c → Holds (Same s c) (emit_unwind d c)
  unfolding emit_unwind
  unwound s d c le = cases (ltb c.scope_depth d) (c.scope_depth == d)
    where
      cases :
          (a b : Bool)
          → Holds (Same s c) (
              if a
              then err bad_depth
              else (if b then ok c else ok (emit (Ins.unwind (c.scope_depth - d)) c)))
      cases true b = tt
      cases false true = record {
        kept = record {
          code_kept = (omega arith, λ k less. refl);
          loops_kept = LoopsKeep-refl s c.loops;
        };
        depth_kept = refl;
      }
      cases false false = emit-Same s (Ins.unwind (c.scope_depth - d)) c le

  -- a jump that is added to the innermost loop
  jump_added :
      (s : ℕ) (c d : Compiler V) (l m : BcLoop) (ls : List BcLoop)
      → c.loops ≡ l ∷ ls
      → Same s c d
      → s ≤ mark c
      → LoopsKeep s (l ∷ ls) (m ∷ ls)
      → Same s c (emit (Ins.jump none) (record d { loops = m ∷ ls }))
  unfolding emit mark
  jump_added s c d l m ls e h le grown =
      let w = emit-Same s (Ins.jump none) d (Same-mark h le) in
      record {
        kept = record {
          code_kept = (Kept-trans h.kept w.kept).code_kept;
          loops_kept = subst (λ ks. LoopsKeep s ks (m ∷ ls)) (sym e) grown;
        };
        depth_kept = h.depth_kept;
      }

  break_cases :
      (s : ℕ) (c : Compiler V) (ls : List BcLoop)
      → c.loops ≡ ls
      → s ≤ mark c
      → Holds (Same s c) (elim ls [
        | [] ↦ err no_loop
        | l ∷ ms ↦ elim (emit_unwind l.break_depth c) [
          | err e ↦ err e
          | ok d ↦ ok (
              emit
                (Ins.jump none)
                (record d { loops = record l { breaks = mark d ∷ l.breaks } ∷ ms }))
        ]
      ])
  break_cases s c [] e le = tt
  break_cases s c (l ∷ ms) e le = added (emit_unwind l.break_depth c) (unwound s l.break_depth c le)
    where
      added :
          (r : Compiled V)
          → Holds (Same s c) r
          → Holds (Same s c) (elim r [
            | err e' ↦ err e'
            | ok d ↦ ok (
                emit
                  (Ins.jump none)
                  (record d { loops = record l { breaks = mark d ∷ l.breaks } ∷ ms }))
          ])
      added (err e') h = tt
      added (ok d) h =
          jump_added s c d l (record l { breaks = mark d ∷ l.breaks }) ms e h le
            ((refl, refl, more (Same-mark h le) same, same), LoopsKeep-refl s ms)

  pub break_jump-Steady : Steady {V = V} break_jump
  unfolding break_jump
  break_jump-Steady s c le = break_cases s c c.loops refl le

  continue_cases :
      (s : ℕ) (c : Compiler V) (ls : List BcLoop)
      → c.loops ≡ ls
      → s ≤ mark c
      → Holds (Same s c) (elim ls [
        | [] ↦ err no_loop
        | l ∷ ms ↦ elim (emit_unwind l.cont_depth c) [
          | err e ↦ err e
          | ok d ↦ ok (
              emit
                (Ins.jump none)
                (record d { loops = record l { conts = mark d ∷ l.conts } ∷ ms }))
        ]
      ])
  continue_cases s c [] e le = tt
  continue_cases s c (l ∷ ms) e le =
      added (emit_unwind l.cont_depth c) (unwound s l.cont_depth c le)
    where
      added :
          (r : Compiled V)
          → Holds (Same s c) r
          → Holds (Same s c) (elim r [
            | err e' ↦ err e'
            | ok d ↦ ok (
                emit
                  (Ins.jump none)
                  (record d { loops = record l { conts = mark d ∷ l.conts } ∷ ms }))
          ])
      added (err e') h = tt
      added (ok d) h =
          jump_added s c d l (record l { conts = mark d ∷ l.conts }) ms e h le
            ((refl, refl, same, more (Same-mark h le) same), LoopsKeep-refl s ms)

  pub continue_jump-Steady : Steady {V = V} continue_jump
  unfolding continue_jump
  continue_jump-Steady s c le = continue_cases s c c.loops refl le

  -- a function literal: what was saved is put back
  pub anonfn-Steady :
      (k : Code V) (ps : List (String × Ty)) (rt : Ty)
      → Steady (λ c. k (start_fn c) >>= λ d. ok (
          emit
            (Ins.push_func (anon_name c.anon))
            (note_anon (finish_fn (anon_name c.anon) ps rt c d))))
  unfolding emit mark
  anonfn-Steady k ps rt s c le = Holds-skip (Same s c) (k (start_fn c)) _ (λ d.
      let w = emit-Same s (Ins.push_func (anon_name c.anon)) c le in
      record {
        kept = record { code_kept = w.kept.code_kept; loops_kept = w.kept.loops_kept };
        depth_kept = w.depth_kept;
      })
