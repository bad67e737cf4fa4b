-- ===== src/Bytecode/Blocks.antt =====
-- src/lang/bytecode.py: the statements of `BCCompiler.stmt` keep the code before them, the loops and
-- the depth of scopes, where their parts do.
use l.Base.{ℕ, ◌≡◌, arith, String, Bool, true, false, Option, none}
use l.Base.Results.{ok, ◌>>=◌}
use l.Types.{Ty}
use l.Syntax.{Pattern, Assign, plain, compound}
use l.Linker.Holds.{Holds-bind}
use l.Bytecode.{Ins, Compiler, emit, mark, patch, enter_scope, exit_scope}
use l.Bytecode.Statements.{
  Code, condition, scoped, var_stmt, assign_stmt, lazy_binary, if_stmt, letelse_stmt,
}
use l.Bytecode.Kept.{
  Kept-trans, Kept-mark, enter_scope-Kept, exit_scope-Kept, Same, Same-trans, Same-mark, Steady,
  Steady-then, with-Steady, emitted, patched,
}

module _ {V : Type 0} where
  pub condition-Steady : (b : Bool) (e : Code V) → Steady e → Steady (condition b e)
  unfolding condition
  condition-Steady true e h = h
  condition-Steady false e h = with-Steady e Ins.no_bindings h

  pub var_stmt-Steady : (n : String) (e : Code V) → Steady e → Steady (var_stmt n e)
  unfolding var_stmt
  var_stmt-Steady n e h = with-Steady e (Ins.decl n) h

  pub assign_stmt-Steady :
      (l : Code V) (op : Assign) (ty : Option Ty) (r : Code V)
      → Steady l
      → Steady r
      → Steady (assign_stmt l op ty r)
  unfolding assign_stmt
  assign_stmt-Steady l plain ty r hl hr s c le =
      Steady-then l (λ c'. r c' >>= λ d. ok (emit Ins.store_place d)) hl
        (with-Steady r Ins.store_place hr) s c le
  assign_stmt-Steady l (compound op) ty r hl hr s c le =
      Holds-bind (Same s c) (Same s c) (l c) _ (hl s c le) (λ c₁ h₁.
        let w = emitted Ins.load_place (emitted Ins.dup h₁ le) le in
        let d = emit Ins.load_place (emit Ins.dup c₁) in
        Holds-bind (Same s d) (Same s c) (r d) _ (hr s d (Same-mark w le))
          (λ c₂ h₂. emitted Ins.store_place (emitted (Ins.bin op ty) (Same-trans w h₂) le) le))

  pub lazy_binary-Steady :
      (keep : Option ℕ → Ins V) (l r : Code V) → Steady l → Steady r → Steady (lazy_binary keep l r)
  unfolding lazy_binary
  lazy_binary-Steady keep l r hl hr s c le =
      Holds-bind (Same s c) (Same s c) (l c) _ (hl s c le) (λ c₁ h₁.
        let w = emitted Ins.pop (emitted (keep none) h₁ le) le in
        let d = emit Ins.pop (emit (keep none) c₁) in
        Holds-bind (Same s d) (Same s c) (r d) _ (hr s d (Same-mark w le))
          (λ c₂ h₂. patched (mark c₁) (mark c₂) (Same-trans w h₂) (Same-mark h₁ le)))

  pub exit_scope-enter_scope :
      (b : Bool) (c d : Compiler V)
      → d.scope_depth ≡ (enter_scope b c).scope_depth
      → (exit_scope d).scope_depth ≡ c.scope_depth
  unfolding enter_scope exit_scope
  exit_scope-enter_scope b c d e = omega arith

  pub scoped-Steady : (b : Bool) (k : Code V) → Steady k → Steady (scoped b k)
  unfolding scoped
  scoped-Steady b k h s c le =
      let w = enter_scope-Kept s b c le in
      let d = enter_scope b c in
      Holds-bind (Same s d) (Same s c) (k d) _ (h s d (Kept-mark w le)) (λ c₁ h₁. record {
        kept =
            Kept-trans w
              (Kept-trans h₁.kept (exit_scope-Kept s c₁ (Kept-mark (Kept-trans w h₁.kept) le)));
        depth_kept = exit_scope-enter_scope b c c₁ h₁.depth_kept;
      })

  pub if_stmt-Steady : (e t f : Code V) → Steady e → Steady t → Steady f → Steady (if_stmt e t f)
  unfolding if_stmt
  if_stmt-Steady e t f he ht hf s c le =
      Holds-bind (Same s c) (Same s c) (e c) _ (he s c le) (λ c₁ h₁.
        let w₁ = emitted (Ins.jump_if_false none) h₁ le in
        let d₁ = emit (Ins.jump_if_false none) c₁ in
        Holds-bind (Same s d₁) (Same s c) (scoped true t d₁) _
          (scoped-Steady true t ht s d₁ (Same-mark w₁ le))
          (λ c₂ h₂.
            let w₂ = Same-trans w₁ h₂ in
            let c₃ = emit (Ins.jump none) c₂ in
            let d₃ = emit Ins.drop_bindings (patch (mark c₁) (mark c₃) c₃) in
            let w₃ =
              emitted Ins.drop_bindings
                (patched (mark c₁) (mark c₃) (emitted (Ins.jump none) w₂ le) (Same-mark h₁ le))
                le in
            Holds-bind (Same s d₃) (Same s c) (scoped false f d₃) _
              (scoped-Steady false f hf s d₃ (Same-mark w₃ le))
              (λ c₄ h₄. patched (mark c₂) (mark c₄) (Same-trans w₃ h₄) (Same-mark w₂ le))))

  pub letelse_stmt-Steady :
      (p : Pattern) (ty : Option Ty) (e b : Code V)
      → Steady e
      → Steady b
      → Steady (letelse_stmt p ty e b)
  unfolding letelse_stmt
  letelse_stmt-Steady p ty e b he hb s c le =
      Holds-bind (Same s c) (Same s c) (e c) _ (he s c le) (λ c₁ h₁.
        let w₂ =
          emitted Ins.clear_match_value
            (emitted (Ins.try_pattern p ty)
              (emitted Ins.load_match_value (emitted Ins.save_match_value h₁ le) le) le)
            le in
        let c₂ = emit Ins.clear_match_value (
          emit (Ins.try_pattern p ty) (emit Ins.load_match_value (emit Ins.save_match_value c₁))) in
        let w₃ = emitted Ins.merge_bindings (emitted (Ins.jump_if_no_match none) w₂ le) le in
        let c₃ = emit Ins.merge_bindings (emit (Ins.jump_if_no_match none) c₂) in
        let c₄ = emit (Ins.jump none) c₃ in
        let w₄ = patched (mark c₂) (mark c₄) (emitted (Ins.jump none) w₃ le) (Same-mark w₂ le) in
        let d₄ = patch (mark c₂) (mark c₄) c₄ in
        Holds-bind (Same s d₄) (Same s c) (scoped false b d₄) _
          (scoped-Steady false b hb s d₄ (Same-mark w₄ le))
          (λ c₅ h₅.
            patched (mark c₃) (mark (emit Ins.trap_match c₅))
              (emitted Ins.trap_match (Same-trans w₄ h₅) le) (Same-mark w₃ le)))
