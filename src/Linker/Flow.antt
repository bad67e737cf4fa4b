-- ===== src/Linker/Flow.antt =====
-- The flow tests of the checker on the statements of the linked program.
use l.Base.{String, Bool, true, ◌&&◌, ◌||◌, not, Option, none, List, ◌≡◌, refl, ap}
use l.Base.Results.{ok}
use l.Types.{Ty}
use l.Syntax.{
  Expr, node, Form, unit, none_lit, bool, int, float, byte, string, some_of, new, anonfn, array,
  repeat, qname, unary, binary, is_match, cast, index, field, structlit, call, generic_call, Stmt,
  var, assign, exprstmt, if_else, while, for, forin, match, letelse, return, break, continue, trap,
  Block, end, next, Arms, no_arms, arm,
}
use l.Checker.{
  is_nonempty, is_true_literal, contains_break, breaks, any_breaks, stmt_diverges, block_diverges,
  stmt_returns, block_returns, has_arms, all_return, check_flow, check_block, check_arms,
}
use l.Linker.Names.{Names}
use l.Linker.Rewrite.{
  rewrite_expr, rewrite_form, rewrite_stmt, rewrite_block, rewrite_arms, rewrite_ty, rewrite_opt_ty,
  rewrite_pattern, rewrite_clause, rewrite_opt_expr, rewrite_params, rewrite_exprs, rewrite_inits,
  resolve,
}
use l.Linker.Holds.{Holds, Holds-ok, Holds-bind, Holds-skip}

-- Two blocks on which the flow tests of the checker agree.
abbrev pub SameFlow : Block → Block → Type 0
SameFlow b b' =
    (is_nonempty b' ≡ is_nonempty b)
    × (contains_break b' ≡ contains_break b)
    × (block_diverges b' ≡ block_diverges b)
    × (block_returns b' ≡ block_returns b)
    × ((loop : Bool) → check_block loop b' ≡ check_block loop b)

abbrev SameStmt : Stmt → Stmt → Type 0
SameStmt s s' =
    (breaks s' ≡ breaks s)
    × (stmt_diverges s' ≡ stmt_diverges s)
    × (stmt_returns s' ≡ stmt_returns s)
    × ((loop : Bool) → check_flow loop s' ≡ check_flow loop s)

abbrev SameArms : Arms → Arms → Type 0
SameArms as' as'' =
    (has_arms as'' ≡ has_arms as')
    × (any_breaks as'' ≡ any_breaks as')
    × (all_return as'' ≡ all_return as')
    × ((loop : Bool) → check_arms loop as'' ≡ check_arms loop as')

abbrev SameTest : Expr → Expr → Type 0
SameTest e e' = is_true_literal e' ≡ is_true_literal e

both_and : {a a' b b' : Bool} → a ≡ a' → b ≡ b' → (a && b) ≡ (a' && b')
both_and p q = cc

both_or : {a a' b b' : Bool} → a ≡ a' → b ≡ b' → (a || b) ≡ (a' || b')
both_or p q = cc

module _ (parsed : List String → Option Names) (m : List String) (here : Names)
    (gps : List String) where
  abbrev SameForm : Option Ty → Form → Form → Type 0
  SameForm ty f f' = is_true_literal (node none f') ≡ is_true_literal (node ty f)

  form-Same : (ty : Option Ty) (f : Form) → Holds (SameForm ty f) (rewrite_form parsed m here gps f)
  unfolding rewrite_expr
  form-Same ty (some_of e) = Holds-skip _ (rewrite_expr parsed m here gps e) _ λ x0. refl
  form-Same ty (new e) = Holds-skip _ (rewrite_expr parsed m here gps e) _ λ x0. refl
  form-Same ty (anonfn ps r b) = Holds-skip _ (rewrite_params parsed m here gps ps) _ λ x0.
      Holds-skip _ (rewrite_ty parsed m here gps r) _
        λ x1. Holds-skip _ (rewrite_block parsed m here gps b) _ λ x2. refl
  form-Same ty (array es) = Holds-skip _ (rewrite_exprs parsed m here gps es) _ λ x0. refl
  form-Same ty (repeat e n) =
      Holds-skip _ (rewrite_expr parsed m here gps e) _
        λ x0. Holds-skip _ (rewrite_expr parsed m here gps n) _ λ x1. refl
  form-Same ty (qname q) = Holds-skip _ (resolve parsed m here q) _ λ x0. refl
  form-Same ty (unary op e) = Holds-skip _ (rewrite_expr parsed m here gps e) _ λ x0. refl
  form-Same ty (binary op l r) =
      Holds-skip _ (rewrite_expr parsed m here gps l) _
        λ x0. Holds-skip _ (rewrite_expr parsed m here gps r) _ λ x1. refl
  form-Same ty (is_match e p) =
      Holds-skip _ (rewrite_expr parsed m here gps e) _
        λ x0. Holds-skip _ (rewrite_pattern parsed m here gps p) _ λ x1. refl
  form-Same ty (cast e t) =
      Holds-skip _ (rewrite_expr parsed m here gps e) _
        λ x0. Holds-skip _ (rewrite_ty parsed m here gps t) _ λ x1. refl
  form-Same ty (index e i) =
      Holds-skip _ (rewrite_expr parsed m here gps e) _
        λ x0. Holds-skip _ (rewrite_expr parsed m here gps i) _ λ x1. refl
  form-Same ty (field e n) = Holds-skip _ (rewrite_expr parsed m here gps e) _ λ x0. refl
  form-Same ty (structlit e fs) =
      Holds-skip _ (rewrite_expr parsed m here gps e) _
        λ x0. Holds-skip _ (rewrite_inits parsed m here gps fs) _ λ x1. refl
  form-Same ty (call e es) =
      Holds-skip _ (rewrite_expr parsed m here gps e) _
        λ x0. Holds-skip _ (rewrite_exprs parsed m here gps es) _ λ x1. refl
  form-Same ty (generic_call e ts es) =
      Holds-skip _ (rewrite_expr parsed m here gps e) _
        λ x0. Holds-skip _ (rewrite_exprs parsed m here gps es) _ λ x1. refl
  form-Same ty unit = refl
  form-Same ty none_lit = refl
  form-Same ty (bool b) = refl
  form-Same ty (int n) = refl
  form-Same ty (float n) = refl
  form-Same ty (byte n) = refl
  form-Same ty (string t) = refl

  test-Same : (e : Expr) → Holds (SameTest e) (rewrite_expr parsed m here gps e)
  unfolding rewrite_expr
  test-Same (node ty f) =
      Holds-bind (SameForm ty f) _ (rewrite_form parsed m here gps f) _ (form-Same ty f) λ f' h. h

  mutual
    unfolding rewrite_expr contains_break block_diverges block_returns check_flow

    stmt-Same : (s : Stmt) → Holds (SameStmt s) (rewrite_stmt parsed m here gps s)
    stmt-Same (var n t e) = Holds-skip _ (rewrite_opt_ty parsed m here gps t) _ λ t'.
        Holds-skip _ (rewrite_expr parsed m here gps e) _ λ e'. (refl, refl, refl, λ loop. refl)
    stmt-Same (assign l op r) = Holds-skip _ (rewrite_expr parsed m here gps l) _ λ l'.
        Holds-skip _ (rewrite_expr parsed m here gps r) _ λ r'. (refl, refl, refl, λ loop. refl)
    stmt-Same (exprstmt e) =
        Holds-skip _ (rewrite_expr parsed m here gps e) _ λ e'. (refl, refl, refl, λ loop. refl)
    stmt-Same (if_else c t e) = Holds-skip _ (rewrite_expr parsed m here gps c) _ λ c'.
        Holds-bind (SameFlow t) _ (rewrite_block parsed m here gps t) _ (block-Same t) λ t' ht.
          Holds-bind (SameFlow e) _ (rewrite_block parsed m here gps e) _ (block-Same e) λ e' he. (
            both_or ht.1 he.1,
            both_and he.0 (both_and ht.2 he.2),
            both_and he.0 (both_and ht.3 he.3),
            λ loop. both_and (ht.4 loop) (he.4 loop),
          )
    stmt-Same (while c b) =
        Holds-bind (SameTest c) _ (rewrite_expr parsed m here gps c) _ (test-Same c) λ c' hc.
          Holds-bind (SameFlow b) _ (rewrite_block parsed m here gps b) _ (block-Same b)
            λ b' hb. (refl, refl, both_and hc (ap not hb.1), λ loop. hb.4 true)
    stmt-Same (for i c st b) = Holds-skip _ (rewrite_opt_expr parsed m here gps c) _ λ c'.
        Holds-skip _ (rewrite_clause parsed m here gps i) _ λ i'.
          Holds-skip _ (rewrite_clause parsed m here gps st) _ λ st'.
            Holds-bind (SameFlow b) _ (rewrite_block parsed m here gps b) _ (block-Same b)
              λ b' hb. (refl, refl, refl, λ loop. hb.4 true)
    stmt-Same (forin n e b) = Holds-skip _ (rewrite_expr parsed m here gps e) _ λ e'.
        Holds-bind (SameFlow b) _ (rewrite_block parsed m here gps b) _ (block-Same b)
          λ b' hb. (refl, refl, refl, λ loop. hb.4 true)
    stmt-Same (match e as') = Holds-skip _ (rewrite_expr parsed m here gps e) _ λ e'.
        Holds-bind (SameArms as') _ (rewrite_arms parsed m here gps as') _ (arms-Same as')
          λ as'' ha. (ha.1, refl, both_and ha.0 ha.2, ha.3)
    stmt-Same (letelse p e b) = Holds-skip _ (rewrite_pattern parsed m here gps p) _ λ p'.
        Holds-skip _ (rewrite_expr parsed m here gps e) _ λ e'.
          Holds-bind (SameFlow b) _ (rewrite_block parsed m here gps b) _ (block-Same b)
            λ b' hb. (hb.1, refl, refl, λ loop. both_and hb.0 (both_and hb.2 (hb.4 loop)))
    stmt-Same (return e) =
        Holds-skip _ (rewrite_opt_expr parsed m here gps e) _ λ e'. (refl, refl, refl, λ loop. refl)
    stmt-Same break = (refl, refl, refl, λ loop. refl)
    stmt-Same continue = (refl, refl, refl, λ loop. refl)
    stmt-Same trap = (refl, refl, refl, λ loop. refl)

    block-Same : (b : Block) → Holds (SameFlow b) (rewrite_block parsed m here gps b)
    block-Same end = (refl, refl, refl, refl, λ loop. refl)
    block-Same (next s b) =
        Holds-bind (SameStmt s) _ (rewrite_stmt parsed m here gps s) _ (stmt-Same s) λ s' hs.
          Holds-bind (SameFlow b) _ (rewrite_block parsed m here gps b) _ (block-Same b) λ b' hb. (
            refl,
            both_or hs.0 hb.1,
            both_or hs.1 hb.2,
            both_or hs.2 hb.3,
            λ loop. both_and (hs.3 loop) (hb.4 loop),
          )

    arms-Same : (as' : Arms) → Holds (SameArms as') (rewrite_arms parsed m here gps as')
    arms-Same no_arms = (refl, refl, refl, λ loop. refl)
    arms-Same (arm p b as') = Holds-skip _ (rewrite_pattern parsed m here gps p) _ λ p'.
        Holds-bind (SameFlow b) _ (rewrite_block parsed m here gps b) _ (block-Same b) λ b' hb.
          Holds-bind (SameArms as') _ (rewrite_arms parsed m here gps as') _ (arms-Same as')
            λ as'' ha. (
              refl,
              both_or hb.1 ha.1,
              both_and hb.3 ha.2,
              λ loop. both_and (hb.4 loop) (ha.3 loop),
            )

  -- The flow tests of the checker agree on a block and on the block that the linker makes of it: the
  -- return and divergence tests, the test for a break, and the test on jumps and let-else blocks.
  pub rewrite_block-SameFlow :
      (b b' : Block) → rewrite_block parsed m here gps b ≡ ok b' → SameFlow b b'
  rewrite_block-SameFlow b b' h = Holds-ok (SameFlow b) _ b' h (block-Same b)
