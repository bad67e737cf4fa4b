-- ===== src/Bytecode/Runs.antt =====
-- src/lang/bytecode.py: the code of each form of expression runs to the value of the expression.
use mathlib.Core.Path.{subst}
use l.Base.{
  ℕ, suc, ◌+◌, ◌≡◌, refl, sym, ◌∙◌, ap, true, false, arith, String, Option, some, List, [], ◌∷◌,
  ◌++◌, length, length-append,
}
use l.Base.Int.{pos}
use l.Base.Dict.{Dict}
use l.Base.Results.{Result, ok, ◌>>=◌}
use l.Types.{Ty}
use l.Syntax.{Pattern, Expr, node, Form, Prefix, deref, Binary, or_else, and_then}
use l.Values.{Platform, Fault, Heap, Effect, bool_v, int_v, copy_value}
use l.Values.Operators.{V, truthy, prefix_value, scalar_value, literal_value}
use l.Values.Eval.{eval, get_local, is_some, with_heap, lazy_and, lazy_or}
use l.Bytecode.Names.{parse_int_text}
use l.Values.Match.{match}
use l.Bytecode.{Ins, Checked}
use l.Bytecode.Compile.{type_of}
use l.Bytecode.Vm.{Vm, Entry, val}
use l.Bytecode.Step.{Runtime}
use l.Bytecode.Fragment.{IsStrict, IsOperator, frag, one, two, skip}
use l.Bytecode.Simple.{frag-prefix, frag-strict, Simple, eval_here, YieldsBool, HasBools}
use l.Bytecode.Reach.{at, Gives, Gives-lands, Gives-bind, Stands, Stands-front, Stands-back}
use l.Bytecode.Steps
use l.Bytecode.Operands.{moved, run_one, run_two, run_lazy, jump_and, jump_or}

get_local-append :
    {A : Type 0} (n : String) (fs gs : List (Dict A)) (v : A)
    → get_local n fs ≡ some v
    → get_local n (fs ++ gs) ≡ some v
unfolding get_local
get_local-append n (f ∷ fs) gs v h = ground (arith, get_local-append n fs gs v)
get_local-append n [] gs v h = cc

module _ (P : Platform) (run : Runtime P) (rest : Expr → List (Dict (V P)) → Effect (V P) (V P))
    (checked : Checked (V P)) (scopes outer : List (Dict (V P))) (code : List (Ins (V P)))
    (mv : V P) where
  abbrev Stack : Type 0
  Stack = List (Entry (V P))

  abbrev Pending : Type 0
  Pending = Option (Dict (V P))

  abbrev here_at : ℕ → Stack → Pending → Heap (V P) → Vm (V P)
  here_at i st p h = at P run code scopes mv i st p h

  abbrev Comes : Vm (V P) → Stack → ℕ → Result Fault (V P × Heap (V P)) → Type 0
  Comes m st n r = Gives P run code scopes mv m st n r

  abbrev Is : ℕ → List (Ins (V P)) → Type 0
  Is i xs = Stands P run code scopes mv i xs

  abbrev value : Expr → Effect (V P) (V P)
  value e h = eval_here P run rest checked scopes outer e h

  abbrev code_of : Expr → ℕ → List (Ins (V P))
  code_of e i = frag e i

  eval-prefix :
      (ty : Option Ty) (op : Prefix) (e : Expr) (h : Heap (V P))
      → IsOperator op
      → value (node ty (Form.unary op e)) h
        ≡ (value e h >>= λ r. with_heap P (prefix_value P op r.0 ty) r.1)
  unfolding eval
  eval-prefix ty deref e h o = absurd o
  eval-prefix ty op e h o = refl

  eval-strict :
      (ty : Option Ty) (op : Binary) (l r : Expr) (h : Heap (V P))
      → IsStrict op
      → value (node ty (Form.binary op l r)) h ≡ (
          value l h >>= λ a.
          value r a.1 >>= λ b. with_heap P (scalar_value P op a.0 b.0 (type_of l)) b.1)
  unfolding eval
  eval-strict ty or_else l r h o = absurd o
  eval-strict ty and_then l r h o = absurd o
  eval-strict ty op l r h o = refl

  run_push :
      (i : ℕ) (x : Ins (V P)) (f : Effect (V P) (V P)) (st : Stack) (p : Pending) (h : Heap (V P))
      → Steps.Pushes P run code scopes mv x f
      → Is i (x ∷ [])
      → Comes (here_at i st p h) st (i + length (x ∷ [])) (f h)
  run_push i x f st p h pushes is =
      moved P run code scopes mv _ st _ (omega arith)
        (Gives-lands P run code scopes mv _ st (suc i) p (f h) (pushes i st p h is.0))

  abbrev pub Runs : Expr → Heap (V P) → Type 0
  Runs e h =
      (i : ℕ) (st : Stack) (p : Pending)
      → Is i (code_of e i)
      → Comes (here_at i st p h) st (i + length (code_of e i)) (value e h)

  -- the code in front of a one-operand instruction, a two-operand one and a jump
  one-Runs :
      (e : Expr) (x : Ins (V P)) (f : V P → Effect (V P) (V P)) (h : Heap (V P))
      → Steps.Turns P run code scopes mv x f
      → Runs e h
      → (i : ℕ) (st : Stack) (p : Pending) → Is i (one (code_of e i) x)
      → Comes
          (here_at i st p h)
          st
          (i + length (one (code_of e i) x))
          (value e h >>= λ q. f q.0 q.1)
  one-Runs e x f h turns runs i st p is =
      run_one P run code scopes mv i (code_of e i) x f st p h (value e h) turns is
        (runs i st p (Stands-front P run code scopes mv i (code_of e i) (x ∷ []) is))

  -- the second operand, from the heap that the first one leaves
  abbrev After : Expr → Expr → Heap (V P) → Type 0
  After l r h = (q : V P × Heap (V P)) → value l h ≡ ok q → Runs r q.1

  two-Runs :
      (l r : Expr) (x : Ins (V P)) (f : V P → V P → Effect (V P) (V P)) (h : Heap (V P))
      → Steps.Joins P run code scopes mv x f
      → Runs l h
      → After l r h
      → (i : ℕ) (st : Stack) (p : Pending)
      → Is i (two (code_of l i) (code_of r (i + length (code_of l i))) x)
      → Comes
          (here_at i st p h)
          st
          (i + length (two (code_of l i) (code_of r (i + length (code_of l i))) x))
          (value l h >>= λ q. value r q.1 >>= λ s. f q.0 s.0 s.1)
  two-Runs l r x f h joins left right i st p is =
      let xs = code_of l i in
      let j = i + length xs in
      run_two P run code scopes mv i xs (code_of r j) x f st p h (value l h) (value r) joins is
        (left i st p (Stands-front P run code scopes mv i xs (one (code_of r j) x) is))
        (λ q p' e s. right q e j (val q.0 ∷ st) p' s)

  -- the right operand of && and ||, behind the jump and `POP`
  right-Runs :
      (r : Expr) (j : ℕ) (st : Stack) (p : Pending) (h : Heap (V P))
      → Runs r h
      → Is (suc (suc j)) (code_of r (j + 2))
      → Comes (here_at (suc (suc j)) st p h) st (j + 2 + length (code_of r (j + 2))) (value r h)
  right-Runs r j st p h right is =
      let e : j + 2 ≡ suc (suc j) = omega arith in
      let t = j + 2 + length (code_of r (j + 2)) in
      subst (λ n. Comes (here_at n st p h) st t (value r h)) e
        (right (j + 2) st p (subst (λ n. Is n (code_of r (j + 2))) (sym e) is))

  both-Runs :
      (l r : Expr) (h : Heap (V P))
      → YieldsBool P run rest checked scopes outer l h
      → Runs l h
      → ((g : Heap (V P))
          → value l h ≡ ok (bool_v true, g)
          → Runs r g × YieldsBool P run rest checked scopes outer r g)
      → (i : ℕ) (st : Stack) (p : Pending)
      → Is i
          (skip Ins.jump_if_false_keep i (code_of l i) (code_of r (i + length (code_of l i) + 2)))
      → Comes
          (here_at i st p h)
          st
          (i
            + length (
                skip Ins.jump_if_false_keep i
                  (code_of l i)
                  (code_of r (i + length (code_of l i) + 2))))
          (value l h >>= λ a. lazy_and P (truthy P a.0) (value r) a.1)
  both-Runs l r h bl left right i st p is =
      let xs = code_of l i in
      let j = i + length xs in
      let ys = code_of r (j + 2) in
      let tail = Ins.jump_if_false_keep (some (j + 2 + length ys)) ∷ Ins.pop ∷ ys in
      run_lazy P run code scopes mv (lazy_and P) Ins.jump_if_false_keep i xs ys st p h (value l h)
        (value r)
        (λ b p' h' e t.
          jump_and P run code scopes mv j (j + 2 + length ys) b st p' h' (value r) t.0 t.1.0
            (λ eb. (right h' (e ∙ ap (λ x. ok (bool_v x, h')) eb)).1)
            (λ eb. right-Runs r j st p' h' (right h' (e ∙ ap (λ x. ok (bool_v x, h')) eb)).0 t.1.1))
        bl is (left i st p (Stands-front P run code scopes mv i xs tail is))

  either-Runs :
      (l r : Expr) (h : Heap (V P))
      → YieldsBool P run rest checked scopes outer l h
      → Runs l h
      → ((g : Heap (V P))
          → value l h ≡ ok (bool_v false, g)
          → Runs r g × YieldsBool P run rest checked scopes outer r g)
      → (i : ℕ) (st : Stack) (p : Pending)
      → Is i (skip Ins.jump_if_true_keep i (code_of l i) (code_of r (i + length (code_of l i) + 2)))
      → Comes
          (here_at i st p h)
          st
          (i
            + length (
                skip Ins.jump_if_true_keep i
                  (code_of l i)
                  (code_of r (i + length (code_of l i) + 2))))
          (value l h >>= λ a. lazy_or P (truthy P a.0) (value r) a.1)
  either-Runs l r h bl left right i st p is =
      let xs = code_of l i in
      let j = i + length xs in
      let ys = code_of r (j + 2) in
      let tail = Ins.jump_if_true_keep (some (j + 2 + length ys)) ∷ Ins.pop ∷ ys in
      run_lazy P run code scopes mv (lazy_or P) Ins.jump_if_true_keep i xs ys st p h (value l h)
        (value r)
        (λ b p' h' e t.
          jump_or P run code scopes mv j (j + 2 + length ys) b st p' h' (value r) t.0 t.1.0
            (λ eb. (right h' (e ∙ ap (λ x. ok (bool_v x, h')) eb)).1)
            (λ eb. right-Runs r j st p' h' (right h' (e ∙ ap (λ x. ok (bool_v x, h')) eb)).0 t.1.1))
        bl is (left i st p (Stands-front P run code scopes mv i xs tail is))

  -- from the code and the value that an expression has by other names
  runs_by :
      (e : Expr) (i : ℕ) (st : Stack) (p : Pending) (h : Heap (V P)) (xs : List (Ins (V P)))
      (r : Result Fault (V P × Heap (V P)))
      → code_of e i ≡ xs
      → value e h ≡ r
      → (Is i xs → Comes (here_at i st p h) st (i + length xs) r)
      → Is i (code_of e i)
      → Comes (here_at i st p h) st (i + length (code_of e i)) (value e h)
  runs_by e i st p h xs r c v k is =
      subst (λ r'. Comes (here_at i st p h) st (i + length (code_of e i)) r') (sym v)
        (subst (λ ys. Comes (here_at i st p h) st (i + length ys) r) (sym c)
          (k (subst (λ ys. Is i ys) c is)))

  int-Runs :
      (ty : Option Ty) (s : String) (n : ℕ) (h : Heap (V P))
      → parse_int_text s ≡ some n
      → Runs (node ty (Form.int s)) h
  unfolding frag eval
  int-Runs ty s n h k i st p =
      runs_by (node ty (Form.int s)) i st p h (Ins.push_int n ty ∷ [])
        (literal_value P (pos n) ty >>= λ v. ok (v, h)) (rw k refl) (rw (eval, k) refl)
        (run_push i _ _ st p h (Steps.push_int_lem P run code scopes mv n ty))

  byte-Runs :
      (ty : Option Ty) (n : ℕ) (h : Heap (V P))
      → literal_value P (pos n) ty ≡ ok (int_v (pos n))
      → Runs (node ty (Form.byte n)) h
  unfolding frag eval
  byte-Runs ty n h k i st p =
      runs_by (node ty (Form.byte n)) i st p h (Ins.push_int n ty ∷ [])
        (literal_value P (pos n) ty >>= λ v. ok (v, h)) refl (rw k refl)
        (run_push i _ _ st p h (Steps.push_int_lem P run code scopes mv n ty))

  local-Runs :
      (ty : Option Ty) (n : String) (v : V P) (h : Heap (V P))
      → get_local n scopes ≡ some v
      → Runs (node ty (Form.qname (n ∷ []))) h
  unfolding frag eval
  local-Runs ty n v h k i st p =
      runs_by (node ty (Form.qname (n ∷ []))) i st p h (Ins.load n ∷ []) (copy_value run.depth v h)
        refl (rw (eval, get_local-append n scopes outer v k) refl)
        (run_push i _ _ st p h (Steps.load_lem P run code scopes mv n v k))

  prefix-Runs :
      (ty : Option Ty) (op : Prefix) (e : Expr) (h : Heap (V P))
      → IsOperator op
      → Runs e h
      → Runs (node ty (Form.unary op e)) h
  prefix-Runs ty op e h o runs i st p =
      runs_by (node ty (Form.unary op e)) i st p h (one (code_of e i) (Ins.unary op ty))
        (value e h >>= λ r. with_heap P (prefix_value P op r.0 ty) r.1)
        (frag-prefix P run rest checked scopes outer ty op e i o) (eval-prefix ty op e h o)
        (one-Runs e _ _ h (Steps.unary_lem P run code scopes mv op ty) runs i st p)

  strict-Runs :
      (ty : Option Ty) (op : Binary) (l r : Expr) (h : Heap (V P))
      → IsStrict op
      → Runs l h
      → After l r h
      → Runs (node ty (Form.binary op l r)) h
  strict-Runs ty op l r h o left right i st p =
      runs_by (node ty (Form.binary op l r)) i st p h
        (two (code_of l i) (code_of r (i + length (code_of l i))) (Ins.bin op (type_of l)))
        (value l h >>= λ a.
          value r a.1 >>= λ b. with_heap P (scalar_value P op a.0 b.0 (type_of l)) b.1)
        (frag-strict P run rest checked scopes outer ty op l r i o) (eval-strict ty op l r h o)
        (two-Runs l r _ _ h (Steps.bin_lem P run code scopes mv op (type_of l)) left right i st p)

  test-Runs :
      (ty : Option Ty) (e : Expr) (pat : Pattern) (h : Heap (V P))
      → Runs e h
      → Runs (node ty (Form.is_match e pat)) h
  unfolding frag eval
  test-Runs ty e pat h runs i st p is =
      let xs = code_of e i in
      let tail = Ins.try_pattern pat (type_of e) ∷ Ins.pattern_to_bool ∷ [] in
      let j = i + length xs in
      let there = Stands-back P run code scopes mv i xs tail is in
      moved P run code scopes mv _ st _ (omega (arith, length-append xs tail)) (
        Gives-bind P run code scopes mv (here_at i st p h) st st j (suc (suc j)) (value e h)
          (λ q. match run.variant run.depth pat q.0 (type_of e) q.1 >>= λ r.
            ok (bool_v (is_some r.0), r.1))
          (runs i st p (Stands-front P run code scopes mv i xs tail is))
          (λ q p' _.
            Steps.test_lem P run code scopes mv j pat (type_of e) st p' q.0 q.1 there.0 there.1.0))

  pub frag-Runs :
      {e : Expr} (s : Simple P run rest checked scopes outer e) (h : Heap (V P))
      → HasBools P run rest checked scopes outer s h
      → Runs e h
  unfolding eval frag
  frag-Runs (Simple.unit_lit {ty}) h b i st p is =
      run_push i _ (value (node ty Form.unit)) st p h (Steps.push_unit_lem P run code scopes mv) is
  frag-Runs (Simple.none_lit {ty}) h b i st p is =
      run_push i _ (value (node ty Form.none_lit)) st p h (Steps.push_none_lem P run code scopes mv)
        is
  frag-Runs (Simple.bool_lit {ty} {b = x}) h b i st p is =
      run_push i _ (value (node ty (Form.bool x))) st p h
        (Steps.push_bool_lem P run code scopes mv x) is
  frag-Runs (Simple.float_lit {ty} {s}) h b i st p is =
      run_push i _ (value (node ty (Form.float s))) st p h
        (Steps.push_float_lem P run code scopes mv s ty) is
  frag-Runs (Simple.string_lit {ty} {bs}) h b i st p is =
      run_push i _ (value (node ty (Form.string bs))) st p h
        (Steps.make_bytes_lem P run code scopes mv bs) is
  frag-Runs (Simple.int_lit {ty} {s} {n} k) h b i st p is = int-Runs ty s n h k i st p is
  frag-Runs (Simple.byte_lit {ty} {n} k) h b i st p is = byte-Runs ty n h k i st p is
  frag-Runs (Simple.local {ty} {n} k) h b i st p is = local-Runs ty n k.0.0 h k.0.1 i st p is
  frag-Runs (Simple.some_of {e} s) h b i st p is =
      one-Runs e _ _ h (Steps.make_some_lem P run code scopes mv) (frag-Runs s h b) i st p is
  frag-Runs (Simple.repeat {e} {n} s t) h b i st p is =
      two-Runs e n _ _ h (Steps.make_repeat_lem P run code scopes mv) (frag-Runs s h b.0)
        (λ q k. frag-Runs t q.1 (b.1 q k)) i st p is
  frag-Runs (Simple.dereference {e} s) h b i st p is =
      one-Runs e _ _ h (Steps.deref_lem P run code scopes mv) (frag-Runs s h b) i st p is
  frag-Runs (Simple.prefix {ty} {op} {e} o s) h b i st p is =
      prefix-Runs ty op e h o (frag-Runs s h b) i st p is
  frag-Runs (Simple.is_test {ty} {e} {p = pat} s) h b i st p is =
      test-Runs ty e pat h (frag-Runs s h b) i st p is
  frag-Runs (Simple.both {l} {r} s t) h b i st p is =
      both-Runs l r h b.1 (frag-Runs s h b.0) (λ g k. (frag-Runs t g (b.2 g k).0, (b.2 g k).1)) i st
        p is
  frag-Runs (Simple.either {l} {r} s t) h b i st p is =
      either-Runs l r h b.1 (frag-Runs s h b.0) (λ g k. (frag-Runs t g (b.2 g k).0, (b.2 g k).1)) i
        st p is
  frag-Runs (Simple.strict {ty} {op} {l} {r} o s t) h b i st p is =
      strict-Runs ty op l r h o (frag-Runs s h b.0) (λ q k. frag-Runs t q.1 (b.1 q k)) i st p is
  frag-Runs (Simple.cast {ty} {e} s) h b i st p is =
      one-Runs e _ _ h (Steps.cast_lem P run code scopes mv (type_of e) ty) (frag-Runs s h b) i st p
        is
  frag-Runs (Simple.new {e} s) h b i st p is =
      one-Runs e _ _ h (Steps.new_lem P run code scopes mv) (frag-Runs s h b) i st p is
  frag-Runs (Simple.index {a} {n} s t) h b i st p is =
      two-Runs a n _ _ h (Steps.index_lem P run code scopes mv) (frag-Runs s h b.0)
        (λ q k. frag-Runs t q.1 (b.1 q k)) i st p is
