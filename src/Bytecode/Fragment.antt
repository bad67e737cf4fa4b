-- ===== src/Bytecode/Fragment.antt =====
-- src/lang/bytecode.py: the code that `BCCompiler.expr` appends for expressions that neither call nor
-- take fields nor build arrays and structs, at the address at which it stands.
use mathlib.Core.List.{append_assoc}
use l.Base.{
  ℕ, ◌+◌, ◌≡◌, refl, ◌∙◌, ap, arith, Option, none, some, List, [], ◌∷◌, ◌++◌, length, length-append,
  get_elem?, set,
}
use l.Base.Results.{ok, ◌>>=◌}
use l.Types.{Ty}
use l.Syntax.{Expr, node, Form, Prefix, deref, Binary, or_else, and_then}
use l.Bytecode.{Ins, Compiler, Compiled, emit, mark, patch, patch_list, set_target}
use l.Bytecode.Names.{parse_int_text}
use l.Bytecode.Statements.{Code, lazy_binary}
use l.Bytecode.Compile.{type_of}

abbrev pub IsStrict : Binary → Type 0
IsStrict or_else = ⊥
IsStrict and_then = ⊥
IsStrict op = Unit

abbrev pub IsOperator : Prefix → Type 0
IsOperator deref = ⊥
IsOperator op = Unit

module _ {V : Type 0} where
  -- an operand, and an instruction behind it
  abbrev pub one : List (Ins V) → Ins V → List (Ins V)
  one xs i = xs ++ (i ∷ [])

  abbrev pub two : List (Ins V) → List (Ins V) → Ins V → List (Ins V)
  two xs ys i = xs ++ (ys ++ (i ∷ []))

  -- the left operand, the jump over the right one, and the right one
  abbrev pub skip : (Option ℕ → Ins V) → ℕ → List (Ins V) → List (Ins V) → List (Ins V)
  skip keep i xs ys = xs ++ (keep (some (i + length xs + 2 + length ys)) ∷ Ins.pop ∷ ys)

  abbrev literal_code : Option ℕ → Option Ty → List (Ins V)
  literal_code none ty = []
  literal_code (some n) ty = Ins.push_int n ty ∷ []

  unfoldable pub frag : Expr → ℕ → List (Ins V)
  unfolding parse_int_text
  frag (node ty Form.unit) i = Ins.push_unit ∷ []
  frag (node ty (Form.bool b)) i = Ins.push_bool b ∷ []
  frag (node ty (Form.byte n)) i = Ins.push_int n ty ∷ []
  frag (node ty (Form.int s)) i = literal_code (parse_int_text s) ty
  frag (node ty (Form.float s)) i = Ins.push_float s ty ∷ []
  frag (node ty (Form.string bs)) i = Ins.make_bytes bs ∷ []
  frag (node ty Form.none_lit) i = Ins.push_none ∷ []
  frag (node ty (Form.some_of e)) i = one (frag e i) Ins.make_some
  frag (node ty (Form.qname (n ∷ []))) i = Ins.load n ∷ []
  frag (node ty (Form.repeat e n)) i =
      let xs = frag e i in two xs (frag n (i + length xs)) Ins.make_repeat
  frag (node ty (Form.unary deref x)) i = one (frag x i) Ins.deref
  frag (node ty (Form.unary op x)) i = one (frag x i) (Ins.unary op ty)
  frag (node ty (Form.is_match e p)) i =
      frag e i ++ (Ins.try_pattern p (type_of e) ∷ Ins.pattern_to_bool ∷ [])
  frag (node ty (Form.binary and_then l r)) i =
      let xs = frag l i in skip Ins.jump_if_false_keep i xs (frag r (i + length xs + 2))
  frag (node ty (Form.binary or_else l r)) i =
      let xs = frag l i in skip Ins.jump_if_true_keep i xs (frag r (i + length xs + 2))
  frag (node ty (Form.binary op l r)) i =
      let xs = frag l i in two xs (frag r (i + length xs)) (Ins.bin op (type_of l))
  frag (node ty (Form.cast e t)) i = one (frag e i) (Ins.cast (type_of e) ty)
  frag (node ty (Form.new e)) i = one (frag e i) Ins.new
  frag (node ty (Form.index a n)) i = let xs = frag a i in two xs (frag n (i + length xs)) Ins.index
  frag e i = []

  -- the compiler with more code
  abbrev pub add : List (Ins V) → Compiler V → Compiler V
  add xs c = record c { code = c.code ++ xs }

  pub mark-add : (xs : List (Ins V)) (c : Compiler V) → mark (add xs c) ≡ mark c + length xs
  unfolding mark
  mark-add xs c = length-append c.code xs

  pub add-add : (xs ys : List (Ins V)) (c : Compiler V) → add ys (add xs c) ≡ add (xs ++ ys) c
  add-add xs ys c = ap (λ zs. record c { code = zs }) (append_assoc c.code xs ys)

  pub one_lem :
      (r : Compiled V) (xs : List (Ins V)) (i : Ins V) (c : Compiler V)
      → r ≡ ok (add xs c)
      → (r >>= λ c₁. ok (emit i c₁)) ≡ ok (add (one xs i) c)
  unfolding emit
  one_lem r xs i c h = rw h (ap ok (add-add xs (i ∷ []) c))

  pub two_lem :
      (r : Compiled V) (k : Code V) (xs ys : List (Ins V)) (i : Ins V) (c : Compiler V)
      → r ≡ ok (add xs c)
      → k (add xs c) ≡ ok (add ys (add xs c))
      → (r >>= λ c₁. k c₁ >>= λ c₂. ok (emit i c₂)) ≡ ok (add (two xs ys i) c)
  two_lem r k xs ys i c h g =
      rw h (one_lem (k (add xs c)) ys i (add xs c) g ∙ ap ok (add-add xs (one ys i) c))

  get_elem?-front :
      (pre : List (Ins V)) (i : Ins V) (ys : List (Ins V))
      → get_elem? (pre ++ (i ∷ ys)) (length pre) ≡ some i
  get_elem?-front [] i ys = refl
  get_elem?-front (x ∷ pre) i ys = get_elem?-front pre i ys

  set-front :
      (pre : List (Ins V)) (i j : Ins V) (ys : List (Ins V))
      → set (pre ++ (i ∷ ys)) (length pre) j ≡ pre ++ (j ∷ ys)
  set-front [] i j ys = refl
  set-front (x ∷ pre) i j ys = ap (λ zs. x ∷ zs) (set-front pre i j ys)

  patch-front :
      (pre : List (Ins V)) (i : Ins V) (ys : List (Ins V)) (t : ℕ)
      → patch_list (pre ++ (i ∷ ys)) (length pre) t ≡ pre ++ (set_target t i ∷ ys)
  patch-front pre i ys t =
      rw (patch_list, get_elem?-front pre i ys) (set-front pre i (set_target t i) ys)

  -- the compiler behind the jump over a right operand
  abbrev pub at_right : (Option ℕ → Ins V) → List (Ins V) → Compiler V → Compiler V
  at_right keep xs c = emit Ins.pop (emit (keep none) (add xs c))

  pub mark-at_right :
      (keep : Option ℕ → Ins V) (xs : List (Ins V)) (c : Compiler V)
      → mark (at_right keep xs c) ≡ mark c + length xs + 2
  unfolding mark emit
  mark-at_right keep xs c = omega (
    arith,
    length-append ((c.code ++ xs) ++ (keep none ∷ [])) (Ins.pop ∷ []),
    length-append (c.code ++ xs) (keep none ∷ []),
    length-append c.code xs,
  )

  code-at_right :
      (keep : Option ℕ → Ins V) (xs ys : List (Ins V)) (c : Compiler V)
      → add ys (at_right keep xs c) ≡ add (keep none ∷ Ins.pop ∷ ys) (add xs c)
  unfolding emit
  code-at_right keep xs ys c =
      add-add (Ins.pop ∷ []) ys (add (keep none ∷ []) (add xs c))
      ∙ add-add (keep none ∷ []) (Ins.pop ∷ ys) (add xs c)

  mark-right :
      (keep : Option ℕ → Ins V) (xs ys : List (Ins V)) (c : Compiler V)
      → mark (add ys (at_right keep xs c)) ≡ mark c + length xs + 2 + length ys
  mark-right keep xs ys c = omega (arith, mark-add ys (at_right keep xs c), mark-at_right keep xs c)

  patch-right :
      (keep : Option ℕ → Ins V) (xs ys : List (Ins V)) (c : Compiler V) (t : ℕ)
      → set_target t (keep none) ≡ keep (some t)
      → patch (mark (add xs c)) t (add ys (at_right keep xs c))
        ≡ add (xs ++ (keep (some t) ∷ Ins.pop ∷ ys)) c
  unfolding patch mark
  patch-right keep xs ys c t turns =
      let pre = c.code ++ xs in
      ap (patch (length pre) t) (code-at_right keep xs ys c)
      ∙ ap (λ zs. record c { code = zs })
          (patch-front pre (keep none) (Ins.pop ∷ ys) t ∙ ap (λ i. pre ++ (i ∷ Ins.pop ∷ ys)) turns)
      ∙ add-add xs (keep (some t) ∷ Ins.pop ∷ ys) c

  pub lazy_lem :
      (keep : Option ℕ → Ins V) (l r : Code V) (xs ys : List (Ins V)) (c : Compiler V)
      → ((t : ℕ) → set_target t (keep none) ≡ keep (some t))
      → l c ≡ ok (add xs c)
      → r (at_right keep xs c) ≡ ok (add ys (at_right keep xs c))
      → lazy_binary keep l r c ≡ ok (add (skip keep (mark c) xs ys) c)
  unfolding lazy_binary
  lazy_lem keep l r xs ys c turns h g =
      let done = patch-right keep xs ys c (mark (add ys (at_right keep xs c))) (turns _) in
      let size = mark-right keep xs ys c in
      rw (h, g) (ap ok (done ∙ ap (λ t. add (xs ++ (keep (some t) ∷ Ins.pop ∷ ys)) c) size))
