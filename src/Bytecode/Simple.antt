-- ===== src/Bytecode/Simple.antt =====
-- src/lang/bytecode.py: the expressions whose code the fragments describe, in a function whose
-- scopes have their locals, and the compiler on them.
use l.Base.{
  ℕ, ◌+◌, ◌≡◌, refl, sym, ◌∙◌, ap, arith, String, Bool, Option, none, some, true, false, List, [],
  ◌∷◌, ◌++◌, length,
}
use l.Base.Int.{pos}
use l.Base.Dict.{Dict, lookup}
use l.Base.Results.{ok, ◌>>=◌}
use l.Types.{Ty}
use l.Syntax.{Expr, node, Form, Pattern, Prefix, deref, Binary, or_else, and_then}
use l.Values.{Platform, Heap, Effect, bool_v, int_v}
use l.Values.Operators.{V, literal_value}
use l.Values.Eval.{eval, get_local}
use l.Bytecode.Statements.{lazy_binary}
use l.Bytecode.{set_target, Ins, Checked, Compiler, emit, mark}
use l.Bytecode.Names.{parse_int_text}
use l.Bytecode.Compile.{emit_fields, expr, type_of}
use l.Bytecode.Step.{Runtime}
use l.Bytecode.Fragment.{
  IsStrict, IsOperator, frag, one, two, skip, add, one_lem, two_lem, lazy_lem, at_right, mark-add,
  mark-at_right, add-add,
}

module _ (P : Platform) (run : Runtime P) (rest : Expr → List (Dict (V P)) → Effect (V P) (V P))
    (checked : Checked (V P)) (scopes outer : List (Dict (V P))) where
  abbrev pub eval_here : Expr → Effect (V P) (V P)
  eval_here e h = eval P run.variant run.depth rest e (scopes ++ outer) h

  -- the value of the expression, evaluated from the heap, is a Boolean where it has one
  abbrev pub YieldsBool : Expr → Heap (V P) → Type 0
  YieldsBool e h = (r : V P × Heap (V P)) → eval_here e h ≡ ok r → (b : Bool) × (r.0 ≡ bool_v b)

  -- a local of the running function, and no other name
  abbrev pub IsLocal : Option Ty → String → Type 0
  IsLocal ty n =
      ((v : V P) × (get_local n scopes ≡ some v))
      × (lookup n checked.consts ≡ none)
      × (lookup n checked.funcs ≡ none)
      × (checked.resolved_variant (node ty (Form.qname (n ∷ []))) ≡ none)
      × (lookup n checked.imports ≡ none)

  -- The forms; a byte has a type that holds it.
  pub data Simple : Expr → Type 0 where
    unit_lit : {ty : Option Ty} → Simple (node ty Form.unit)
    none_lit : {ty : Option Ty} → Simple (node ty Form.none_lit)
    bool_lit : {ty : Option Ty} {b : Bool} → Simple (node ty (Form.bool b))
    float_lit : {ty : Option Ty} {s : String} → Simple (node ty (Form.float s))
    string_lit : {ty : Option Ty} {bs : List ℕ} → Simple (node ty (Form.string bs))
    int_lit :
        {ty : Option Ty} {s : String} {n : ℕ}
        → parse_int_text s ≡ some n
        → Simple (node ty (Form.int s))
    byte_lit :
        {ty : Option Ty} {n : ℕ}
        → literal_value P (pos n) ty ≡ ok (int_v (pos n))
        → Simple (node ty (Form.byte n))
    local : {ty : Option Ty} {n : String} → IsLocal ty n → Simple (node ty (Form.qname (n ∷ [])))
    some_of : {ty : Option Ty} {e : Expr} → Simple e → Simple (node ty (Form.some_of e))
    repeat :
        {ty : Option Ty} {e n : Expr} → Simple e → Simple n → Simple (node ty (Form.repeat e n))
    dereference : {ty : Option Ty} {e : Expr} → Simple e → Simple (node ty (Form.unary deref e))
    prefix :
        {ty : Option Ty} {op : Prefix} {e : Expr}
        → IsOperator op
        → Simple e
        → Simple (node ty (Form.unary op e))
    is_test :
        {ty : Option Ty} {e : Expr} {p : Pattern} → Simple e → Simple (node ty (Form.is_match e p))
    both :
        {ty : Option Ty} {l r : Expr}
        → Simple l
        → Simple r
        → Simple (node ty (Form.binary and_then l r))
    either :
        {ty : Option Ty} {l r : Expr}
        → Simple l
        → Simple r
        → Simple (node ty (Form.binary or_else l r))
    strict :
        {ty : Option Ty} {op : Binary} {l r : Expr}
        → IsStrict op
        → Simple l
        → Simple r
        → Simple (node ty (Form.binary op l r))
    cast : {ty : Option Ty} {e : Expr} {u : Ty} → Simple e → Simple (node ty (Form.cast e u))
    new : {ty : Option Ty} {e : Expr} → Simple e → Simple (node ty (Form.new e))
    index : {ty : Option Ty} {a n : Expr} → Simple a → Simple n → Simple (node ty (Form.index a n))

  -- Evaluated from the heap, each operand of && and || that is reached has a Boolean value: the right
  -- one is reached from the heap that the left one leaves, where that is true for &&, or false for ||.
  abbrev pub HasBools : {e : Expr} → Simple e → Heap (V P) → Type 0
  HasBools (some_of s) h = HasBools s h
  HasBools (repeat {e} s t) h =
      HasBools s h × ((q : V P × Heap (V P)) → eval_here e h ≡ ok q → HasBools t q.1)
  HasBools (dereference s) h = HasBools s h
  HasBools (prefix o s) h = HasBools s h
  HasBools (is_test s) h = HasBools s h
  HasBools (both {l} {r} s t) h =
      HasBools s h
      × YieldsBool l h
      × ((g : Heap (V P)) → eval_here l h ≡ ok (bool_v true, g) → HasBools t g × YieldsBool r g)
  HasBools (either {l} {r} s t) h =
      HasBools s h
      × YieldsBool l h
      × ((g : Heap (V P)) → eval_here l h ≡ ok (bool_v false, g) → HasBools t g × YieldsBool r g)
  HasBools (strict {l} o s t) h =
      HasBools s h × ((q : V P × Heap (V P)) → eval_here l h ≡ ok q → HasBools t q.1)
  HasBools (cast s) h = HasBools s h
  HasBools (new s) h = HasBools s h
  HasBools (index {a} s t) h =
      HasBools s h × ((q : V P × Heap (V P)) → eval_here a h ≡ ok q → HasBools t q.1)
  HasBools _ h = Unit

  abbrev C : Type 0
  C = Compiler (V P)

  expr-strict :
      (ty : Option Ty) (op : Binary) (l r : Expr) (c : C)
      → IsStrict op
      → expr checked (node ty (Form.binary op l r)) c ≡ (
          expr checked l c >>= λ c₁.
          expr checked r c₁ >>= λ c₂. ok (emit (Ins.bin op (type_of l)) c₂))
  unfolding expr
  expr-strict ty or_else l r c h = absurd h
  expr-strict ty and_then l r c h = absurd h
  expr-strict ty op l r c h = refl

  pub frag-strict :
      (ty : Option Ty) (op : Binary) (l r : Expr) (i : ℕ)
      → IsStrict op
      → frag {V = V P} (node ty (Form.binary op l r)) i
        ≡ two (frag l i) (frag r (i + length (frag {V = V P} l i))) (Ins.bin op (type_of l))
  unfolding frag
  frag-strict ty or_else l r i h = absurd h
  frag-strict ty and_then l r i h = absurd h
  frag-strict ty op l r i h = refl

  expr-prefix :
      (ty : Option Ty) (op : Prefix) (e : Expr) (c : C)
      → IsOperator op
      → expr checked (node ty (Form.unary op e)) c
        ≡ (expr checked e c >>= λ c₁. ok (emit (Ins.unary op ty) c₁))
  unfolding expr
  expr-prefix ty deref e c h = absurd h
  expr-prefix ty op e c h = refl

  pub frag-prefix :
      (ty : Option Ty) (op : Prefix) (e : Expr) (i : ℕ)
      → IsOperator op
      → frag {V = V P} (node ty (Form.unary op e)) i ≡ one (frag e i) (Ins.unary op ty)
  unfolding frag
  frag-prefix ty deref e i h = absurd h
  frag-prefix ty op e i h = refl

  two_at :
      (l r : Expr) (i : Ins (V P)) (c : C)
      → expr checked l c ≡ ok (add (frag l (mark c)) c)
      → ((c₁ : C) → expr checked r c₁ ≡ ok (add (frag r (mark c₁)) c₁))
      → (expr checked l c >>= λ c₁. expr checked r c₁ >>= λ c₂. ok (emit i c₂))
        ≡ ok
            (add (two (frag l (mark c)) (frag r (mark c + length (frag {V = V P} l (mark c)))) i) c)
  two_at l r i c h g =
      let xs = frag l (mark c) in
      two_lem (expr checked l c) (expr checked r) xs (frag r (mark c + length xs)) i c h
        (rw (← mark-add xs c) (g (add xs c)))

  lazy_at :
      (keep : Option ℕ → Ins (V P)) (l r : Expr) (c : C)
      → ((t : ℕ) → set_target t (keep none) ≡ keep (some t))
      → expr checked l c ≡ ok (add (frag l (mark c)) c)
      → ((c₁ : C) → expr checked r c₁ ≡ ok (add (frag r (mark c₁)) c₁))
      → lazy_binary keep (expr checked l) (expr checked r) c
        ≡ ok (
            add
              (skip keep
                (mark c)
                (frag l (mark c))
                (frag r (mark c + length (frag {V = V P} l (mark c)) + 2)))
              c)
  lazy_at keep l r c turns h g =
      let xs = frag l (mark c) in
      lazy_lem keep (expr checked l) (expr checked r) xs (frag r (mark c + length xs + 2)) c turns h
        (rw (← mark-at_right keep xs c) (g (at_right keep xs c)))

  local_code :
      (ty : Option Ty) (n : String) (c : C)
      → IsLocal ty n
      → expr checked (node ty (Form.qname (n ∷ []))) c ≡ ok (add (Ins.load n ∷ []) c)
  unfolding expr emit emit_fields
  local_code ty n c h = ground (arith, h.1, h.2, h.3, h.4)

  -- The compiler appends the fragment, and changes nothing else.
  pub expr-frag : {e : Expr} → Simple e → (c : C) → expr checked e c ≡ ok (add (frag e (mark c)) c)
  unfolding expr frag emit
  expr-frag unit_lit c = refl
  expr-frag none_lit c = refl
  expr-frag bool_lit c = refl
  expr-frag float_lit c = refl
  expr-frag string_lit c = refl
  expr-frag (int_lit h) c = rw (expr, h) refl
  expr-frag (byte_lit h) c = refl
  expr-frag (local {ty} {n} h) c = local_code ty n c h
  expr-frag (some_of {e} s) c = one_lem _ (frag e (mark c)) Ins.make_some c (expr-frag s c)
  expr-frag (repeat {e} {n} s t) c = two_at e n Ins.make_repeat c (expr-frag s c) (expr-frag t)
  expr-frag (dereference {e} s) c = one_lem _ (frag e (mark c)) Ins.deref c (expr-frag s c)
  expr-frag (prefix {ty} {op} {e} o s) c =
      expr-prefix ty op e c o
      ∙ one_lem _ (frag e (mark c)) (Ins.unary op ty) c (expr-frag s c)
      ∙ ap (λ xs. ok (add xs c)) (sym (frag-prefix ty op e (mark c) o))
  expr-frag (is_test {e} {p} s) c =
      let xs = frag e (mark c) in
      let t = Ins.try_pattern p (type_of e) in
      rw (expr-frag s c) (
        ap ok (
          add-add (t ∷ []) (Ins.pattern_to_bool ∷ []) (add xs c)
          ∙ add-add xs (t ∷ Ins.pattern_to_bool ∷ []) c))
  expr-frag (both {l} {r} s t) c =
      lazy_at Ins.jump_if_false_keep l r c (λ t. refl) (expr-frag s c) (expr-frag t)
  expr-frag (either {l} {r} s t) c =
      lazy_at Ins.jump_if_true_keep l r c (λ t. refl) (expr-frag s c) (expr-frag t)
  expr-frag (strict {ty} {op} {l} {r} o s t) c =
      expr-strict ty op l r c o
      ∙ two_at l r (Ins.bin op (type_of l)) c (expr-frag s c) (expr-frag t)
      ∙ ap (λ xs. ok (add xs c)) (sym (frag-strict ty op l r (mark c) o))
  expr-frag (cast {ty} {e} s) c =
      one_lem _ (frag e (mark c)) (Ins.cast (type_of e) ty) c (expr-frag s c)
  expr-frag (new {e} s) c = one_lem _ (frag e (mark c)) Ins.new c (expr-frag s c)
  expr-frag (index {a} {n} s t) c = two_at a n Ins.index c (expr-frag s c) (expr-frag t)
