-- ===== src/Linker/Rewrite.antt =====
-- `Program._ty`, `_expr`, `_pattern`, `_stmt` and `_decl`: the declarations of a source module under
-- the names of the linked program.
use l.Base.{String, Bool, true, false, Option, none, some, List, [], ◌∷◌, if◌then◌else◌}
use l.Base.Results.{Result, ok, ◌>>=◌}
use l.Types.{Ty, Tys, nil, cons}
use l.Syntax.{
  Pattern, Patterns, no_patterns, pattern_then, Expr, node, Form, some_of, new, anonfn, array,
  repeat, qname, unary, binary, is_match, cast, index, field, structlit, call, generic_call, Exprs,
  no_exprs, expr_then, Inits, no_inits, init_then, Stmt, var, assign, exprstmt, if_else, while, for,
  forin, match, letelse, return, Clause, no_clause, var_clause, assign_clause, OptExpr, no_expr,
  an_expr, Block, end, next, Arms, no_arms, arm,
}
use l.Linker.{contains}
use l.Linker.Names.{LinkError, Names, resolve_source_name}

-- len(q) == 1 and q[0] in names
abbrev pub is_one_of : List String → List String → Bool
is_one_of names (n ∷ []) = contains n names
is_one_of names _ = false

-- len(q) > 1 or (len(q) == 1 and q[0] in self.tops[m])
abbrev pub is_declared : List String → List String → Bool
is_declared tops (n ∷ k ∷ ns) = true
is_declared tops q = is_one_of tops q

module _ (parsed : List String → Option Names) (m : List String) (here : Names) where
  abbrev pub resolve : List String → Result LinkError (List String)
  resolve q = resolve_source_name parsed m here q

  module _ (gps : List String) where
    unfoldable mutual
      pub rewrite_ty : Ty → Result LinkError Ty
      rewrite_ty (Ty.const_array t) = rewrite_ty t >>= λ t'. ok (Ty.const_array t')
      rewrite_ty (Ty.name q args) =
          let rest = rewrite_tys args in
          if is_one_of gps q
          then ok (Ty.name q args)
          else resolve q >>= λ q'. rest >>= λ args'. ok (Ty.name q' args')
      rewrite_ty (Ty.opt t) = rewrite_ty t >>= λ t'. ok (Ty.opt t')
      rewrite_ty (Ty.ref t) = rewrite_ty t >>= λ t'. ok (Ty.ref t')
      rewrite_ty (Ty.array t) = rewrite_ty t >>= λ t'. ok (Ty.array t')
      rewrite_ty (Ty.fn ps r) = rewrite_tys ps >>= λ ps'. rewrite_ty r >>= λ r'. ok (Ty.fn ps' r')
      rewrite_ty t = ok t

      pub rewrite_tys : Tys → Result LinkError Tys
      rewrite_tys nil = ok nil
      rewrite_tys (cons t ts) = rewrite_ty t >>= λ t'. rewrite_tys ts >>= λ ts'. ok (cons t' ts')

    -- self._ty(m, s.a[1], gps) if s.a[1] else None
    unfoldable pub rewrite_opt_ty : Option Ty → Result LinkError (Option Ty)
    rewrite_opt_ty none = ok none
    rewrite_opt_ty (some t) = rewrite_ty t >>= λ t'. ok (some t')

    unfoldable pub rewrite_params : List (String × Ty) → Result LinkError (List (String × Ty))
    rewrite_params [] = ok []
    rewrite_params ((n, t) ∷ ps) =
        rewrite_ty t >>= λ t'. rewrite_params ps >>= λ ps'. ok ((n, t') ∷ ps')

    -- a name in a pattern: a plain binding is kept
    abbrev pub pattern_name : List String → Result LinkError (List String)
    pattern_name q = if is_declared here.tops q then resolve q else ok q

    unfoldable mutual
      pub rewrite_pattern : Pattern → Result LinkError Pattern
      rewrite_pattern (Pattern.p_name q ps) =
          pattern_name q >>= λ q'. rewrite_patterns ps >>= λ ps'. ok (Pattern.p_name q' ps')
      rewrite_pattern (Pattern.p_some p) = rewrite_pattern p >>= λ p'. ok (Pattern.p_some p')
      rewrite_pattern p = ok p

      pub rewrite_patterns : Patterns → Result LinkError Patterns
      rewrite_patterns no_patterns = ok no_patterns
      rewrite_patterns (pattern_then p ps) =
          rewrite_pattern p >>= λ p'. rewrite_patterns ps >>= λ ps'. ok (pattern_then p' ps')

    unfoldable mutual
      pub rewrite_expr : Expr → Result LinkError Expr
      rewrite_expr (node ty e) = rewrite_form e >>= λ e'. ok (node none e')

      -- The type arguments of a generic call are a tuple of types, which the source keeps.
      pub rewrite_form : Form → Result LinkError Form
      rewrite_form (some_of e) = rewrite_expr e >>= λ e'. ok (some_of e')
      rewrite_form (new e) = rewrite_expr e >>= λ e'. ok (new e')
      rewrite_form (anonfn ps r b) = rewrite_params ps >>= λ ps'.
          rewrite_ty r >>= λ r'. rewrite_block b >>= λ b'. ok (anonfn ps' r' b')
      rewrite_form (array es) = rewrite_exprs es >>= λ es'. ok (array es')
      rewrite_form (repeat e n) =
          rewrite_expr e >>= λ e'. rewrite_expr n >>= λ n'. ok (repeat e' n')
      rewrite_form (qname q) = resolve q >>= λ q'. ok (qname q')
      rewrite_form (unary op e) = rewrite_expr e >>= λ e'. ok (unary op e')
      rewrite_form (binary op l r) =
          rewrite_expr l >>= λ l'. rewrite_expr r >>= λ r'. ok (binary op l' r')
      rewrite_form (is_match e p) =
          rewrite_expr e >>= λ e'. rewrite_pattern p >>= λ p'. ok (is_match e' p')
      rewrite_form (cast e t) = rewrite_expr e >>= λ e'. rewrite_ty t >>= λ t'. ok (cast e' t')
      rewrite_form (index e i) = rewrite_expr e >>= λ e'. rewrite_expr i >>= λ i'. ok (index e' i')
      rewrite_form (field e n) = rewrite_expr e >>= λ e'. ok (field e' n)
      rewrite_form (structlit e fs) =
          rewrite_expr e >>= λ e'. rewrite_inits fs >>= λ fs'. ok (structlit e' fs')
      rewrite_form (call e es) =
          rewrite_expr e >>= λ e'. rewrite_exprs es >>= λ es'. ok (call e' es')
      rewrite_form (generic_call e ts es) =
          rewrite_expr e >>= λ e'. rewrite_exprs es >>= λ es'. ok (generic_call e' ts es')
      rewrite_form e = ok e

      pub rewrite_exprs : Exprs → Result LinkError Exprs
      rewrite_exprs no_exprs = ok no_exprs
      rewrite_exprs (expr_then e es) =
          rewrite_expr e >>= λ e'. rewrite_exprs es >>= λ es'. ok (expr_then e' es')

      pub rewrite_inits : Inits → Result LinkError Inits
      rewrite_inits no_inits = ok no_inits
      rewrite_inits (init_then n e fs) =
          rewrite_expr e >>= λ e'. rewrite_inits fs >>= λ fs'. ok (init_then n e' fs')

      pub rewrite_stmt : Stmt → Result LinkError Stmt
      rewrite_stmt (var n t e) =
          rewrite_opt_ty t >>= λ t'. rewrite_expr e >>= λ e'. ok (var n t' e')
      rewrite_stmt (assign l op r) =
          rewrite_expr l >>= λ l'. rewrite_expr r >>= λ r'. ok (assign l' op r')
      rewrite_stmt (exprstmt e) = rewrite_expr e >>= λ e'. ok (exprstmt e')
      rewrite_stmt (if_else c t e) = rewrite_expr c >>= λ c'.
          rewrite_block t >>= λ t'. rewrite_block e >>= λ e'. ok (if_else c' t' e')
      rewrite_stmt (while c b) = rewrite_expr c >>= λ c'. rewrite_block b >>= λ b'. ok (while c' b')
      rewrite_stmt (for i c st b) = rewrite_opt_expr c >>= λ c'. rewrite_clause i >>= λ i'.
          rewrite_clause st >>= λ st'. rewrite_block b >>= λ b'. ok (for i' c' st' b')
      rewrite_stmt (forin n e b) =
          rewrite_expr e >>= λ e'. rewrite_block b >>= λ b'. ok (forin n e' b')
      rewrite_stmt (match e as') =
          rewrite_expr e >>= λ e'. rewrite_arms as' >>= λ as''. ok (match e' as'')
      rewrite_stmt (letelse p e b) = rewrite_pattern p >>= λ p'.
          rewrite_expr e >>= λ e'. rewrite_block b >>= λ b'. ok (letelse p' e' b')
      rewrite_stmt (return e) = rewrite_opt_expr e >>= λ e'. ok (return e')
      rewrite_stmt s = ok s

      pub rewrite_clause : Clause → Result LinkError Clause
      rewrite_clause no_clause = ok no_clause
      rewrite_clause (var_clause n t e) =
          rewrite_opt_ty t >>= λ t'. rewrite_expr e >>= λ e'. ok (var_clause n t' e')
      rewrite_clause (assign_clause l op r) =
          rewrite_expr l >>= λ l'. rewrite_expr r >>= λ r'. ok (assign_clause l' op r')

      pub rewrite_opt_expr : OptExpr → Result LinkError OptExpr
      rewrite_opt_expr no_expr = ok no_expr
      rewrite_opt_expr (an_expr e) = rewrite_expr e >>= λ e'. ok (an_expr e')

      pub rewrite_block : Block → Result LinkError Block
      rewrite_block end = ok end
      rewrite_block (next s b) = rewrite_stmt s >>= λ s'. rewrite_block b >>= λ b'. ok (next s' b')

      pub rewrite_arms : Arms → Result LinkError Arms
      rewrite_arms no_arms = ok no_arms
      rewrite_arms (arm p b as') = rewrite_pattern p >>= λ p'.
          rewrite_block b >>= λ b'. rewrite_arms as' >>= λ as''. ok (arm p' b' as'')
