-- ===== src/Bytecode/Arms.antt =====
-- src/lang/bytecode.py: the match statement of `BCCompiler.stmt` keeps the code before it, the loops
-- around it and the depth of scopes, where its parts do.
use l.Base.{ℕ, ◌≤◌, true, Option, none, List, []}
use l.Types.{Ty}
use l.Syntax.{Pattern}
use l.Linker.Holds.{Holds, Holds-bind}
use l.Bytecode.{Ins, Compiler, emit, mark, patch}
use l.Bytecode.Statements.{Code, ArmsCode, scoped, arm_code, match_stmt}
use l.Bytecode.Kept.{
  Adds, same, more, Same-refl, patch_all-Kept, patch_all-depth, Same, Same-trans, Same-mark, Steady,
  emitted, patched,
}
use l.Bytecode.Blocks.{scoped-Steady}

module _ {V : Type 0} where
  -- the arms of a match statement, with the jumps behind them
  pub record Armed (s : ℕ) (c : Compiler V) (r : List ℕ × Compiler V) : Type 0 where
    pub arms_kept : Same s c r.1
    pub jumps_above : Adds s [] r.0

  abbrev pub ArmsSteady : ArmsCode V → Type 0
  ArmsSteady k = (s : ℕ) (c : Compiler V) → s ≤ mark c → Holds (Armed s c) (k c)

  pub no_arms-Armed : (s : ℕ) (c : Compiler V) → Armed s c ([], c)
  no_arms-Armed s c = record { arms_kept = Same-refl s c; jumps_above = same }

  pub arm_code-ArmsSteady :
      (p : Pattern) (ty : Option Ty) (b : Code V) (k : ArmsCode V)
      → Steady b
      → ArmsSteady k
      → ArmsSteady (arm_code p ty b k)
  unfolding arm_code
  arm_code-ArmsSteady p ty b k hb hk s c le =
      let c₁ = emit (Ins.try_pattern p ty) (emit Ins.load_match_value c) in
      let w₁ =
        emitted (Ins.try_pattern p ty) (emitted Ins.load_match_value (Same-refl s c) le) le in
      let d₁ = emit (Ins.jump_if_no_match none) c₁ in
      let v₁ = emitted (Ins.jump_if_no_match none) w₁ le in
      Holds-bind (Same s d₁) (Armed s c) (scoped true b d₁) _
        (scoped-Steady true b hb s d₁ (Same-mark v₁ le))
        (λ c₂ h₂.
          let w₂ = Same-trans v₁ h₂ in
          let c₃ = emit (Ins.jump none) c₂ in
          let d₃ = patch (mark c₁) (mark c₃) c₃ in
          let w₃ = patched (mark c₁) (mark c₃) (emitted (Ins.jump none) w₂ le) (Same-mark w₁ le) in
          Holds-bind (Armed s d₃) (Armed s c) (k d₃) _ (hk s d₃ (Same-mark w₃ le)) (λ r a. record {
            arms_kept = Same-trans w₃ a.arms_kept;
            jumps_above = more (Same-mark w₂ le) a.jumps_above;
          }))

  pub match_stmt-Steady :
      (e : Code V) (k : ArmsCode V) → Steady e → ArmsSteady k → Steady (match_stmt e k)
  unfolding match_stmt
  match_stmt-Steady e k he hk s c le =
      Holds-bind (Same s c) (Same s c) (e c) _ (he s c le) (λ c₁ h₁.
        let w₁ = emitted Ins.save_match_value h₁ le in
        let d₁ = emit Ins.save_match_value c₁ in
        Holds-bind (Armed s d₁) (Same s c) (k d₁) _ (hk s d₁ (Same-mark w₁ le)) (λ r a.
          let c₂ = emit Ins.trap_match r.1 in
          let w₂ = emitted Ins.trap_match (Same-trans w₁ a.arms_kept) le in
          let all = patch_all-Kept (mark c₂) c₂ a.jumps_above in
          emitted Ins.clear_match_value
            (Same-trans w₂ (record { kept = all; depth_kept = patch_all-depth r.0 (mark c₂) c₂ }))
            le))
