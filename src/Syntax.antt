-- ===== src/Syntax.antt =====
-- src/lang/core.py: the syntax nodes `N` that `Parser` builds, one constructor for each `kind`.
-- Spans are left out: they serve diagnostics only. The slot `ty`, which the checker fills, is the
-- first argument of an expression.
use l.Base.{ℕ, String, Bool, Option, List}
use l.Types.{Ty, Tys}

-- The operators of `ASSIGN`, `PREC` and the prefix operators, by their spelling.
pub data Binary : Type 0 where
  or_else and_then : Binary
  eq ne lt le gt ge : Binary
  bor bxor band shl shr add sub mul div rem : Binary

pub data Prefix : Type 0 where
  not_op invert negate deref : Prefix

-- "=" and the compound assignments, by the operator that is left when "=" is cut off
pub data Assign : Type 0 where
  plain : Assign
  compound : Binary → Assign

mutual
  pub data Pattern : Type 0 where
    p_wild p_unit p_none : Pattern
    p_bind : String → Pattern
    p_some : Pattern → Pattern
    p_bool : Bool → Pattern
    p_int : String → Pattern
    p_byte : ℕ → Pattern
    p_name : List String → Patterns → Pattern

  pub data Patterns : Type 0 where
    no_patterns : Patterns
    pattern_then : Pattern → Patterns → Patterns

mutual
  pub data Expr : Type 0 where
    node : Option Ty → Form → Expr

  pub data Form : Type 0 where
    unit none_lit : Form
    bool : Bool → Form
    int float : String → Form
    byte : ℕ → Form
    string : List ℕ → Form
    some_of new : Expr → Form
    anonfn : List (String × Ty) → Ty → Block → Form
    array : Exprs → Form
    repeat : Expr → Expr → Form
    qname : List String → Form
    unary : Prefix → Expr → Form
    binary : Binary → Expr → Expr → Form
    is_match : Expr → Pattern → Form
    cast : Expr → Ty → Form
    index : Expr → Expr → Form
    field : Expr → String → Form
    structlit : Expr → Inits → Form
    call : Expr → Exprs → Form
    generic_call : Expr → Tys → Exprs → Form

  pub data Exprs : Type 0 where
    no_exprs : Exprs
    expr_then : Expr → Exprs → Exprs

  pub data Inits : Type 0 where
    no_inits : Inits
    init_then : String → Expr → Inits → Inits

  pub data Stmt : Type 0 where
    var : String → Option Ty → Expr → Stmt
    assign : Expr → Assign → Expr → Stmt
    exprstmt : Expr → Stmt
    if_else : Expr → Block → Block → Stmt
    while : Expr → Block → Stmt
    for : Clause → OptExpr → Clause → Block → Stmt
    forin : String → Expr → Block → Stmt
    match : Expr → Arms → Stmt
    letelse : Pattern → Expr → Block → Stmt
    return : OptExpr → Stmt
    break continue trap : Stmt

  -- `init` and `step` of a for statement: none, or the parts of a `var` or `assign` statement
  pub data Clause : Type 0 where
    no_clause : Clause
    var_clause : String → Option Ty → Expr → Clause
    assign_clause : Expr → Assign → Expr → Clause

  pub data OptExpr : Type 0 where
    no_expr : OptExpr
    an_expr : Expr → OptExpr

  pub data Block : Type 0 where
    end : Block
    next : Stmt → Block → Block

  pub data Arms : Type 0 where
    no_arms : Arms
    arm : Pattern → Block → Arms → Arms

-- the fields of a struct, with `pub`, and the variants of an enum, with their payloads
pub data Decl : Type 0 where
  import : List String → Option String → Decl
  const : Bool → String → Ty → Expr → Decl
  struct : Bool → String → List String → List (Bool × String × Ty) → Decl
  enum : Bool → String → List String → List (String × Tys) → Decl
  fn : Bool → String → List String → List (String × Ty) → Ty → Block → Decl
