-- ===== src/Checker.antt =====
-- src/lang/core.py, class `Checker`: the flow tests on statements, and the test that a jump stands
-- inside a loop.
pub mod Operators
pub mod Kinds
pub mod Sound
use l.Base.{Bool, true, false, ◌&&◌, ◌||◌, not}
use l.Syntax.{
  Expr, node, bool, Stmt, Block, end, next, Arms, no_arms, arm, if_else, while, for, forin, match,
  letelse, return, break, continue, trap,
}

-- bool(block)
abbrev pub is_nonempty : Block → Bool
is_nonempty end = false
is_nonempty (next _ _) = true

-- s.a[0].kind == "bool" and s.a[0].a[0] is True
abbrev pub is_true_literal : Expr → Bool
is_true_literal (node ty (bool b)) = b
is_true_literal _ = false

-- A `break` that leaves the loop around the block: nested loops are not entered.
unfoldable mutual
  pub contains_break : Block → Bool
  contains_break end = false
  contains_break (next s ss) = breaks s || contains_break ss

  pub breaks : Stmt → Bool
  breaks break = true
  breaks (if_else c t e) = contains_break t || contains_break e
  breaks (match e arms) = any_breaks arms
  breaks (letelse p e b) = contains_break b
  breaks _ = false

  pub any_breaks : Arms → Bool
  any_breaks no_arms = false
  any_breaks (arm p b arms) = contains_break b || any_breaks arms

unfoldable mutual
  pub stmt_diverges : Stmt → Bool
  stmt_diverges (return e) = true
  stmt_diverges break = true
  stmt_diverges continue = true
  stmt_diverges trap = true
  stmt_diverges (if_else c t e) = is_nonempty e && (block_diverges t && block_diverges e)
  stmt_diverges _ = false

  pub block_diverges : Block → Bool
  block_diverges end = false
  block_diverges (next s ss) = stmt_diverges s || block_diverges ss

-- bool(arms)
abbrev pub has_arms : Arms → Bool
has_arms no_arms = false
has_arms (arm _ _ _) = true

unfoldable mutual
  pub stmt_returns : Stmt → Bool
  stmt_returns (return e) = true
  stmt_returns trap = true
  stmt_returns (if_else c t e) = is_nonempty e && (block_returns t && block_returns e)
  stmt_returns (match e arms) = has_arms arms && all_return arms
  stmt_returns (while c b) = is_true_literal c && not (contains_break b)
  stmt_returns _ = false

  pub block_returns : Block → Bool
  block_returns end = false
  block_returns (next s ss) = stmt_returns s || block_returns ss

  pub all_return : Arms → Bool
  all_return no_arms = true
  all_return (arm p b arms) = block_returns b && all_return arms

-- The part of `Checker.stmt` and `Checker.block` that follows `self.loop`: false where the checker
-- raises "break outside loop" or "continue outside loop", or finds a let-else block that does not
-- diverge. The clauses of a for statement hold no jump. The flag is `self.loop != 0`.
unfoldable mutual
  unfolding block_diverges

  pub check_flow : Bool → Stmt → Bool
  check_flow loop (if_else c t e) = check_block loop t && check_block loop e
  check_flow loop (while c b) = check_block true b
  check_flow loop (for i c s b) = check_block true b
  check_flow loop (forin n e b) = check_block true b
  check_flow loop (match e arms) = check_arms loop arms
  check_flow loop (letelse p e b) = is_nonempty b && (block_diverges b && check_block loop b)
  check_flow loop break = loop
  check_flow loop continue = loop
  check_flow loop _ = true

  pub check_block : Bool → Block → Bool
  check_block loop end = true
  check_block loop (next s ss) = check_flow loop s && check_block loop ss

  pub check_arms : Bool → Arms → Bool
  check_arms loop no_arms = true
  check_arms loop (arm p b arms) = check_block loop b && check_arms loop arms
