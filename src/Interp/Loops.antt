-- ===== src/Interp/Loops.antt =====
-- What loops and statements with no block in them can end with.
use l.Base.{ℕ, zero, suc, ◌+◌, String, Option, none, some, get_elem?}
use l.Types.{Ty}
use l.Syntax.{
  Assign, Expr, Clause, OptExpr, Block, var, assign, exprstmt, return, no_clause, var_clause,
  assign_clause, no_expr, an_expr,
}
use l.Interp.{
  Machine, normal, broke, continued, returned, raised, Trap, Outcome, S, Sig, exec, run_clause,
  while_loop, for_loop, for_round, forin_loop, cond, expr_ty, lift_result, assigned,
}
use l.Interp.Signals.{Ends, Unless, Ends-with_answer, Ends-and_then, Ends-after_body, Ends-any}

module _ (m : Machine) where
  abbrev pub NoJump : Sig m → Type 0
  NoJump broke = ⊥
  NoJump continued = ⊥
  NoJump _ = Unit

  abbrev pub NoBreak : Sig m → Type 0
  NoBreak broke = ⊥
  NoBreak _ = Unit

  abbrev pub NoFall : Sig m → Type 0
  NoFall normal = ⊥
  NoFall _ = Unit

  pub Unless-self : (P : Sig m → Type 0) (sg : Sig m) → Unless m P P sg
  Unless-self P normal = tt
  Unless-self P broke = λ h. h
  Unless-self P continued = λ h. h
  Unless-self P (returned v) = λ h. h
  Unless-self P (raised t) = λ h. h

  -- Statements with no block in them fall through or raise.
  pub var-Ends :
      (P : Sig m → Type 0) (f : ℕ) (n : String) (t : Option Ty) (e : Expr) (s : S m)
      → P normal
      → ((x : Trap) → P (raised x))
      → Ends m P (exec m f (var n t e) s)
  unfolding exec
  var-Ends P zero n t e s p r = tt
  var-Ends P (suc f) n t e s p r = Ends-with_answer m P (m.eval e s) _ r λ v s₁. p

  pub assign-Ends :
      (P : Sig m → Type 0) (f : ℕ) (l : Expr) (op : Assign) (e : Expr) (s : S m)
      → P normal
      → ((x : Trap) → P (raised x))
      → Ends m P (exec m f (assign l op e) s)
  unfolding exec
  assign-Ends P zero l op e s p r = tt
  assign-Ends P (suc f) l op e s p r = Ends-with_answer m P (m.place l s) _ r λ q s₁.
      Ends-with_answer m P (m.get q s₁) _ r λ old s₂. Ends-with_answer m P (m.eval e s₂) _ r λ v s₃.
        Ends-with_answer m P (lift_result m (assigned m op old v (expr_ty m l)) s₃) _ r
          λ nv s₄. Ends-with_answer m P (m.set q (m.copy_value nv) s₄) _ r λ _ s₅. p

  pub exprstmt-Ends :
      (P : Sig m → Type 0) (f : ℕ) (e : Expr) (s : S m)
      → P normal
      → ((x : Trap) → P (raised x))
      → Ends m P (exec m f (exprstmt e) s)
  unfolding exec
  exprstmt-Ends P zero e s p r = tt
  exprstmt-Ends P (suc f) e s p r = Ends-with_answer m P (m.eval e s) _ r λ v s₁. p

  pub return-Ends :
      (P : Sig m → Type 0) (f : ℕ) (e : OptExpr) (s : S m)
      → ((v : m.Value) → P (returned v))
      → ((x : Trap) → P (raised x))
      → Ends m P (exec m f (return e) s)
  unfolding exec
  return-Ends P zero e s v r = tt
  return-Ends P (suc f) no_expr s v r = v m.unit_value
  return-Ends P (suc f) (an_expr e) s v r = Ends-with_answer m P (m.eval e s) _ r λ a s₁. v a

  pub run_clause-NoJump : (f : ℕ) (c : Clause) (s : S m) → Ends m NoJump (run_clause m f c s)
  unfolding exec
  run_clause-NoJump zero c s = tt
  run_clause-NoJump (suc f) no_clause s = tt
  run_clause-NoJump (suc f) (var_clause n t e) s = var-Ends NoJump f n t e s tt (λ _. tt)
  run_clause-NoJump (suc f) (assign_clause l op r) s = assign-Ends NoJump f l op r s tt (λ _. tt)

  pub any-Ends : (o : Outcome m) → Ends m (λ _. Unit {0}) o
  any-Ends o = Ends-any m (λ _. Unit) o (λ _. tt)

  -- A loop takes the jumps of its body.
  mutual
    unfolding exec

    pub for_loop-NoJump :
        (f : ℕ) (c : OptExpr) (st : Clause) (b : Block) (s : S m)
        → Ends m NoJump (for_loop m f c st b s)
    for_loop-NoJump zero c st b s = tt
    for_loop-NoJump (suc f) no_expr st b s = for_round-NoJump f no_expr st b s
    for_loop-NoJump (suc f) (an_expr c) st b s =
        Ends-with_answer m NoJump (cond m c s) _ (λ t. tt)
          (elim [ some d ↦ λ s₁. for_round-NoJump f (an_expr c) st b s₁ | none ↦ λ s₁. tt ])

    for_round-NoJump :
        (f : ℕ) (c : OptExpr) (st : Clause) (b : Block) (s : S m)
        → Ends m NoJump (for_round m f c st b s)
    for_round-NoJump zero c st b s = tt
    for_round-NoJump (suc f) c st b s =
        Ends-after_body m NoJump (λ _. Unit) _ _ (any-Ends _) (λ _. tt) (λ _. tt) (λ _. tt)
          λ s₁.
            Ends-and_then m NoJump NoJump (run_clause m f st s₁) _ (run_clause-NoJump f st s₁)
              (Unless-self NoJump) (for_loop-NoJump f c st b)

  pub while_loop-NoJump :
      (f : ℕ) (c : Expr) (b : Block) (s : S m) → Ends m NoJump (while_loop m f c b s)
  unfolding exec
  while_loop-NoJump zero c b s = tt
  while_loop-NoJump (suc f) c b s =
      Ends-with_answer m NoJump (cond m c s) _ (λ t. tt)
        (elim [
          | some d ↦ λ s₁.
              Ends-after_body m NoJump (λ _. Unit) _ _ (any-Ends _) (λ _. tt) (λ _. tt) (λ _. tt)
                (while_loop-NoJump f c b)
          | none ↦ λ s₁. tt
        ])

  pub Ends-option :
      {X : Type 0} (P : Sig m → Type 0) (o : Option X) (k : X → Outcome m) (z : Outcome m)
      → ((x : X) → Ends m P (k x))
      → Ends m P z
      → Ends m P (elim o [ some x ↦ k x | none ↦ z ])
  Ends-option P (some x) k z h e = h x
  Ends-option P none k z h e = e

  pub forin_loop-NoJump :
      (f : ℕ) (n : String) (a : m.Value) (i : ℕ) (b : Block) (s : S m)
      → Ends m NoJump (forin_loop m f n a i b s)
  unfolding exec
  forin_loop-NoJump zero n a i b s = tt
  forin_loop-NoJump (suc f) n a i b s =
      Ends-with_answer m NoJump (lift_result m (m.items a s) s) _ (λ t. tt)
        λ xs s₁.
          Ends-option NoJump (get_elem? xs i) _ _
            (λ x.
              Ends-after_body m NoJump (λ _. Unit) _ _ (any-Ends _) (λ _. tt) (λ _. tt) (λ _. tt)
                (forin_loop-NoJump f n a (i + 1) b))
            tt
