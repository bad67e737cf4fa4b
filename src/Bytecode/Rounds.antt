-- ===== src/Bytecode/Rounds.antt =====
-- src/lang/bytecode.py: the while and for loops of `BCCompiler.stmt` keep the code before them, the
-- loops around them and the depth of scopes, where their parts do.
use l.Base.{ℕ, ◌≤◌, ◌≡◌, refl, ◌∙◌, true, false, Option, none, some, List, [], ◌∷◌}
use l.Base.Results.{ok, err}
use l.Linker.Holds.{Holds, Holds-bind}
use l.Bytecode.{
  no_loop, Ins, BcLoop, Compiler, emit, mark, patch, patch_all, enter_scope, exit_scope, push_loop,
  close_loop,
}
use l.Bytecode.Statements.{Code, scoped, while_stmt, for_test, for_exit, for_stmt}
use l.Bytecode.Kept.{
  LoopsKeep, Kept, Same-refl, Kept-trans, Kept-mark, emit-Kept, patch-Kept, patch_all-Kept,
  patch_all-depth, enter_scope-Kept, exit_scope-Kept, Same, Same-trans, Same-mark, Steady,
  Holds-imp, emitted, patched,
}
use l.Bytecode.Blocks.{exit_scope-enter_scope, scoped-Steady}

abbrev IsAbove : ℕ → Option ℕ → Type 0
IsAbove s none = Unit
IsAbove s (some j) = s ≤ j

module _ {V : Type 0} where
  -- a loop that has been opened behind the compiler, and is closed
  record Closed (s : ℕ) (c d e : Compiler V) : Type 0 where
    pub kept : Kept s c e
    pub depth_kept : e.scope_depth ≡ d.scope_depth

  push_loop-mark : (bd cd : ℕ) (c : Compiler V) → mark (push_loop bd cd c) ≡ mark c
  unfolding mark push_loop
  push_loop-mark bd cd c = refl

  close_cases :
      (s end cont : ℕ) (c d : Compiler V) (bd cd : ℕ) (ls : List BcLoop)
      → d.loops ≡ ls
      → Kept s (push_loop bd cd c) d
      → LoopsKeep s (push_loop bd cd c).loops ls
      → Holds (Closed s c d) (elim ls [
        | [] ↦ err no_loop
        | l ∷ ms ↦ ok (patch_all l.conts cont (patch_all l.breaks end (record d { loops = ms })))
      ])
  unfolding push_loop
  close_cases s end cont c d bd cd [] e k h = tt
  close_cases s end cont c d bd cd (l ∷ ms) e k h =
      let d₀ = record d { loops = ms } in
      let d₁ = patch_all l.breaks end d₀ in
      record {
        kept =
            Kept-trans (record { code_kept = k.code_kept; loops_kept = h.1 })
              (Kept-trans (patch_all-Kept end d₀ h.0.2) (patch_all-Kept cont d₁ h.0.3));
        depth_kept = patch_all-depth l.conts cont d₁ ∙ patch_all-depth l.breaks end d₀;
      }

  close_loop-Closed :
      (s end cont : ℕ) (c d : Compiler V) (bd cd : ℕ)
      → Kept s (push_loop bd cd c) d
      → Holds (Closed s c d) (close_loop end cont d)
  unfolding close_loop
  close_loop-Closed s end cont c d bd cd k =
      close_cases s end cont c d bd cd d.loops refl k k.loops_kept

  pub close_loop-Same :
      (s end cont bd cd : ℕ) (c inside d : Compiler V)
      → Kept s c inside
      → Kept s (push_loop bd cd inside) d
      → d.scope_depth ≡ c.scope_depth
      → Holds (Same s c) (close_loop end cont d)
  close_loop-Same s end cont bd cd c inside d w k e =
      Holds-imp (Closed s inside d) (Same s c) (close_loop end cont d)
        (close_loop-Closed s end cont inside d bd cd k)
        (λ x q. record { kept = Kept-trans w q.kept; depth_kept = q.depth_kept ∙ e })

  pub Kept-push_loop :
      {s : ℕ} {c d : Compiler V} (bd cd : ℕ)
      → Kept s c d
      → s ≤ mark c
      → s ≤ mark (push_loop bd cd d)
  Kept-push_loop {s} {c} {d} bd cd w le = rw (push_loop-mark bd cd d) (Kept-mark w le)

  pub emit_more :
      {s : ℕ} {c d : Compiler V} (i : Ins V) → Kept s c d → s ≤ mark c → Kept s c (emit i d)
  emit_more {s} {c} {d} i w le = Kept-trans w (emit-Kept s i d (Kept-mark w le))

  pub patch_more :
      {s : ℕ} {c d : Compiler V} (at t : ℕ) → Kept s c d → s ≤ at → Kept s c (patch at t d)
  patch_more {s} {c} {d} at t w le = Kept-trans w (patch-Kept s at t d le)

  pub exit_more : {s : ℕ} {c d : Compiler V} → Kept s c d → s ≤ mark c → Kept s c (exit_scope d)
  exit_more {s} {c} {d} w le = Kept-trans w (exit_scope-Kept s d (Kept-mark w le))

  pub while_stmt-Steady : (e b : Code V) → Steady e → Steady b → Steady (while_stmt e b)
  unfolding while_stmt emit patch push_loop
  while_stmt-Steady e b he hb s c le =
      Holds-bind (Same s c) (Same s c) (e c) _ (he s c le) (λ c₁ h₁.
        let w₁ = emitted (Ins.jump_if_false none) h₁ le in
        let d₁ = emit (Ins.jump_if_false none) c₁ in
        let inside = enter_scope true d₁ in
        let wi = Kept-trans w₁.kept (enter_scope-Kept s true d₁ (Same-mark w₁ le)) in
        let dc = c.scope_depth in
        let start = push_loop dc dc inside in
        let ls = Kept-push_loop dc dc wi le in
        Holds-bind (Same s start) (Same s c) (b start) _ (hb s start ls) (λ c₂ h₂.
          let c₃ = exit_scope c₂ in
          let c₄ = emit (Ins.jump (some (mark c))) c₃ in
          let c₅ = emit Ins.drop_bindings (patch (mark c₁) (mark c₄) c₄) in
          let k₄ = emit_more (Ins.jump (some (mark c))) (exit_more h₂.kept ls) ls in
          let k₅ =
            emit_more Ins.drop_bindings (patch_more (mark c₁) (mark c₄) k₄ (Same-mark h₁ le)) ls in
          close_loop-Same s (mark c₅) (mark c₃) dc dc c inside c₅ wi k₅
            (exit_scope-enter_scope true d₁ c₂ h₂.depth_kept ∙ w₁.depth_kept)))

  record Tested (s : ℕ) (c : Compiler V) (r : Option ℕ × Compiler V) : Type 0 where
    pub same_kept : Same s c r.1
    pub above : IsAbove s r.0

  -- the parts of a for statement that may be missing
  abbrev pub MaybeSteady : Option (Code V) → Type 0
  MaybeSteady none = Unit
  MaybeSteady (some e) = Steady e

  for_test-Tested :
      (e : Option (Code V))
      → MaybeSteady e
      → (s : ℕ) (c : Compiler V) → s ≤ mark c
      → Holds (Tested s c) (for_test e c)
  unfolding for_test
  for_test-Tested none h s c le = record { same_kept = Same-refl s c; above = tt }
  for_test-Tested (some e) h s c le =
      Holds-bind (Same s c) (Tested s c) (e c) _ (h s c le) (λ c₁ h₁. record {
        same_kept = emitted (Ins.jump_if_false none) h₁ le;
        above = Same-mark h₁ le;
      })

  for_exit-Same :
      (s at : ℕ) (o : Option ℕ) (c : Compiler V)
      → IsAbove s o
      → s ≤ mark c
      → Same s c (for_exit o at c)
  unfolding for_exit
  for_exit-Same s at none c h le = Same-refl s c
  for_exit-Same s at (some j) c h le = emitted Ins.drop_bindings (patched j at (Same-refl s c) h) le

  pub for_stmt-Steady :
      (i : Code V) (e : Option (Code V)) (st b : Code V)
      → Steady i
      → MaybeSteady e
      → Steady st
      → Steady b
      → Steady (for_stmt i e st b)
  unfolding for_stmt emit push_loop
  for_stmt-Steady i e st b hi he hst hb s c le =
      let outer = enter_scope false c in
      let wo = enter_scope-Kept s false c le in
      let bd = c.scope_depth in
      let cd = outer.scope_depth in
      let lo = Kept-mark wo le in
      Holds-bind (Same s outer) (Same s c) (i outer) _ (hi s outer lo) (λ c₁ h₁.
        Holds-bind (Tested s c₁) (Same s c) (for_test e c₁) _
          (for_test-Tested e he s c₁ (Same-mark h₁ lo))
          (λ r t.
            let inside = r.1 in
            let start = push_loop bd cd inside in
            let wi = Kept-trans wo (Same-trans h₁ t.same_kept).kept in
            let ls = Kept-push_loop bd cd wi le in
            Holds-bind (Same s start) (Same s c) (scoped false b start) _
              (scoped-Steady false b hb s start ls)
              (λ c₂ h₂.
                Holds-bind (Same s c₂) (Same s c) (st c₂) _ (hst s c₂ (Same-mark h₂ ls)) (λ c₃ h₃.
                  let c₄ = emit (Ins.jump (some (mark c₁))) c₃ in
                  let w₄ = emitted (Ins.jump (some (mark c₁))) (Same-trans h₂ h₃) ls in
                  let x = for_exit r.0 (mark c₄) c₄ in
                  let wx =
                    Same-trans w₄ (for_exit-Same s (mark c₄) r.0 c₄ t.above (Same-mark w₄ ls)) in
                  let c₅ = exit_scope x in
                  close_loop-Same s (mark c₅) (mark c₂) bd cd c inside c₅ wi (exit_more wx.kept ls)
                    (exit_scope-enter_scope false c x
                      (wx.depth_kept ∙ t.same_kept.depth_kept ∙ h₁.depth_kept))))))
