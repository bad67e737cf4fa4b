-- ===== src/Bytecode/ForIn.antt =====
-- src/lang/bytecode.py: the for-in loop of `BCCompiler.stmt` keeps the code before it, the loops around
-- it and the depth of scopes, where its parts do.
use l.Base.{ℕ, suc, ◌≤◌, ◌≡◌, refl, arith, String, false, none, some}
use l.Types.{name_ty}
use l.Bytecode.Names.{array_name, counter_name}
use l.Syntax.{lt}
use l.Linker.Holds.{Holds, Holds-bind}
use l.Bytecode.{Ins, Compiler, emit, mark, patch, enter_scope, exit_scope, push_loop, close_loop}
use l.Bytecode.Statements.{Code, forin_head, forin_stmt}
use l.Bytecode.Kept.{
  Kept, Same-refl, Kept-trans, Kept-mark, enter_scope-Kept, Same, Same-mark, Steady, emitted,
}
use l.Bytecode.Rounds.{close_loop-Same, Kept-push_loop, emit_more, patch_more, exit_more}

module _ {V : Type 0} where
  record Headed (s : ℕ) (c : Compiler V) (r : ℕ × ℕ × Compiler V) : Type 0 where
    pub head_kept : Kept s c r.2
    pub head_depth : r.2.scope_depth ≡ suc c.scope_depth
    pub test_above : s ≤ r.1

  forin_head-Headed :
      (n : String) (seq s : ℕ) (c : Compiler V) → s ≤ mark c → Headed s c (forin_head n seq c)
  unfolding forin_head emit enter_scope
  forin_head-Headed n seq s c le =
      let u64 = some (name_ty "u64") in
      let av = array_name seq in
      let iv = counter_name seq in
      let w₁ =
        emitted (Ins.decl iv)
          (emitted (Ins.push_int 0 u64) (emitted (Ins.decl av) (Same-refl s c) le) le) le in
      let w₂ =
        emitted (Ins.bin lt u64)
          (emitted Ins.len (emitted (Ins.load av) (emitted (Ins.load iv) w₁ le) le) le) le in
      let w₃ = emitted (Ins.jump_if_false none) w₂ le in
      let k = Kept-trans w₃.kept (enter_scope-Kept s false _ (Same-mark w₃ le)) in
      record {
        head_kept =
            emit_more (Ins.decl n)
              (emit_more Ins.index (emit_more (Ins.load iv) (emit_more (Ins.load av) k le) le) le)
              le;
        head_depth = refl;
        test_above = Same-mark w₂ le;
      }

  forin_end :
      (s : ℕ) (c outer c₁ c₂ : Compiler V) (r : ℕ × ℕ × Compiler V) (seq : ℕ)
      → s ≤ mark c
      → Kept s c outer
      → outer.scope_depth ≡ suc c.scope_depth
      → Same s outer c₁
      → Headed s c₁ r
      → Same s (push_loop c.scope_depth outer.scope_depth r.2) c₂
      → Holds (Same s c) (
          let c₃ = exit_scope c₂ in
          let next_item = emit (Ins.local_inc_u64 (counter_name seq)) c₃ in
          let c₄ = emit (Ins.jump (some r.0)) next_item in
          let c₅ = exit_scope (patch r.1 (mark c₄) c₄) in close_loop (mark c₅) (mark c₃) c₅)
  unfolding emit patch push_loop exit_scope
  forin_end s c outer c₁ c₂ r seq le wo eo h₁ hd h₂ =
      let bd = c.scope_depth in
      let cd = outer.scope_depth in
      let inside = r.2 in
      let wi = Kept-trans wo (Kept-trans h₁.kept hd.head_kept) in
      let ls = Kept-push_loop bd cd wi le in
      let c₃ = exit_scope c₂ in
      let c₄ = emit (Ins.jump (some r.0)) (emit (Ins.local_inc_u64 (counter_name seq)) c₃) in
      let c₅ = exit_scope (patch r.1 (mark c₄) c₄) in
      let k₄ =
        emit_more (Ins.jump (some r.0))
          (emit_more (Ins.local_inc_u64 (counter_name seq)) (exit_more h₂.kept ls) ls) ls in
      close_loop-Same s (mark c₅) (mark c₃) bd cd c inside c₅ wi
        (exit_more (patch_more r.1 (mark c₄) k₄ hd.test_above) ls)
        (omega (arith, h₂.depth_kept, hd.head_depth, h₁.depth_kept, eo))

  outer-Kept :
      (s : ℕ) (c : Compiler V) (seq : ℕ)
      → s ≤ mark c
      → Kept s c (enter_scope false (record c { seq = seq }))
  unfolding mark
  outer-Kept s c seq le =
      let w = enter_scope-Kept s false (record c { seq = seq }) le in
      record { code_kept = w.code_kept; loops_kept = w.loops_kept }

  outer-depth :
      (c : Compiler V) (seq : ℕ)
      → (enter_scope false (record c { seq = seq })).scope_depth ≡ suc c.scope_depth
  unfolding enter_scope
  outer-depth c seq = refl

  pub forin_stmt-Steady :
      (n : String) (e b : Code V) → Steady e → Steady b → Steady (forin_stmt n e b)
  unfolding forin_stmt
  forin_stmt-Steady n e b he hb s c le =
      let seq = suc c.seq in
      let outer = enter_scope false (record c { seq = seq }) in
      let wo = outer-Kept s c seq le in
      Holds-bind (Same s outer) (Same s c) (e outer) _ (he s outer (Kept-mark wo le)) (λ c₁ h₁.
        let r = forin_head n seq c₁ in
        let hd = forin_head-Headed n seq s c₁ (Same-mark h₁ (Kept-mark wo le)) in
        let start = push_loop c.scope_depth outer.scope_depth r.2 in
        let wi = Kept-trans wo (Kept-trans h₁.kept hd.head_kept) in
        Holds-bind (Same s start) (Same s c) (b start) _
          (hb s start (Kept-push_loop c.scope_depth outer.scope_depth wi le))
          (λ c₂ h₂. forin_end s c outer c₁ c₂ r seq le wo (outer-depth c seq) h₁ hd h₂))
