-- ===== src/Bytecode/Nested.antt =====
-- src/lang/bytecode.py: `BCCompiler.anon_fn` at a function literal inside a function literal.
use mathlib.Core.Path.{subst}
use l.Base.{◌≡◌, refl, sym, ◌∙◌, String, Option, some, List, [], ◌∷◌, map}
use l.Base.Dict.{lookup, lookup-insert_self}
use l.Base.Results.{ok_injective, ok, err, ◌>>=◌}
use l.Types.{Ty}
use l.Syntax.{Expr, node, Form, Stmt, an_expr, Block, end, next}
use l.Bytecode.{Ins, Checked, BcFunc, Compiler, Compiled, emit}
use l.Bytecode.Names.{anon_name}
use l.Bytecode.Compile.{expr, block, start_fn, finish_fn, note_anon}

module _ {V : Type 0} where
  -- the code of a function that returns the function of the name
  abbrev pub returning : String → List (String × Ty) → Ty → BcFunc V
  returning n ps rt = record {
    param_names = map (λ p. p.0) ps;
    code = Ins.push_func n ∷ Ins.ret ∷ Ins.push_unit ∷ Ins.ret ∷ [];
    result = rt;
  }

  -- what is left to do behind the body of the inner function
  abbrev pub around : (ps qs : List (String × Ty)) (rt st : Ty) (c c₁ : Compiler V) → Compiler V
  around ps qs rt st c c₁ =
      let n = anon_name c.anon in
      let inner = emit (Ins.push_func n) (note_anon (finish_fn n qs st (start_fn c) c₁)) in
      emit (Ins.push_func n) (note_anon (finish_fn n ps rt c (emit Ins.ret inner)))

  around-done :
      (ps qs : List (String × Ty)) (rt st : Ty) (c c₁ : Compiler V)
      → lookup (anon_name c.anon) (around ps qs rt st c c₁).done
        ≡ some (returning (anon_name c.anon) ps rt)
  unfolding emit
  around-done ps qs rt st c c₁ = lookup-insert_self (anon_name c.anon) _ _

  module _ (checked : Checked V) (ps qs : List (String × Ty)) (rt st : Ty) (t u v : Option Ty)
      (b : Block) where
    -- fn(ps) rt { return fn(qs) st { b } }
    abbrev pub nested : Expr
    nested =
        node t (Form.anonfn ps rt (next (Stmt.return (an_expr (node u (Form.anonfn qs st b)))) end))

    nested-around :
        (c : Compiler V) (r : Compiled V)
        → ((((r >>= λ c₁. ok (
                  emit
                    (Ins.push_func (anon_name c.anon))
                    (note_anon (finish_fn (anon_name c.anon) qs st (start_fn c) c₁))))
                >>= λ c₂. ok (emit Ins.ret c₂))
              >>= λ c₃. ok c₃)
            >>= λ c₄. ok (
                emit
                  (Ins.push_func (anon_name c.anon))
                  (note_anon (finish_fn (anon_name c.anon) ps rt c c₄))))
          ≡ (r >>= λ c₁. ok (around ps qs rt st c c₁))
    nested-around c (ok c₁) = refl
    nested-around c (err e) = refl

    around_ok :
        (c c' : Compiler V) (r : Compiled V)
        → (r >>= λ c₁. ok (around ps qs rt st c c₁)) ≡ ok c'
        → lookup (anon_name c.anon) c'.done ≡ some (returning (anon_name c.anon) ps rt)
    around_ok c c' (ok c₁) h =
        subst (λ d. lookup (anon_name c.anon) d.done ≡ some (returning (anon_name c.anon) ps rt))
          (ok_injective _ _ h) (around-done ps qs rt st c c₁)
    around_ok c c' (err e) h = cc

    -- Where a function literal whose body returns a function literal compiles, the function that is
    -- entered under the name that its code pushes returns itself.
    pub expr-nested :
        (c c' : Compiler V)
        → expr checked nested c ≡ ok c'
        → lookup (anon_name c.anon) c'.done ≡ some (returning (anon_name c.anon) ps rt)
    unfolding expr
    expr-nested c c' h =
        let r = block checked b (start_fn (start_fn c)) in
        around_ok c c' r (sym (nested-around c r) ∙ h)
