-- ===== src/Bytecode/Refines.antt =====
-- src/lang/bytecode.py against class `Interpreter` of src/lang/core.py: the code of an expression and
-- the evaluation of the expression.
use mathlib.Core.Path.{subst}
use l.Base.{
  ℕ, suc, ◌+◌, ◌<◌, ◌≤◌, ◌≡◌, refl, sym, ◌∙◌, ap, arith, List, [], ◌∷◌, ◌++◌, length, length-append,
  get_elem?,
}
use l.Base.Dict.{Dict}
use l.Base.Results.{ok_injective, ok}
use l.Syntax.{Expr}
use l.Values.{Platform, Effect}
use l.Values.Operators.{V}
use l.Values.Eval.{eval}
use l.Bytecode.{Ins, Checked, Compiler, mark}
use l.Bytecode.Compile.{expr}
use l.Bytecode.Vm.{Vm}
use l.Bytecode.Step.{Runtime}
use l.Bytecode.Fragment.{frag, add, mark-add}
use l.Bytecode.Simple.{Simple, HasBools, expr-frag}
use l.Bytecode.Reach.{Gives, Stands}
use l.Bytecode.Runs.{frag-Runs}

same-Stands :
    (P : Platform) (run : Runtime P) (code : List (Ins (V P))) (scopes : List (Dict (V P)))
    (mv : V P) (i : ℕ) (xs : List (Ins (V P)))
    → ((k : ℕ) → k < length xs → get_elem? code (i + k) ≡ get_elem? xs k)
    → Stands P run code scopes mv i xs
same-Stands P run code scopes mv i [] same = tt
same-Stands P run code scopes mv i (x ∷ xs) same =
    let e : i + 0 ≡ i = omega arith in
    (
      rw (← e) (same 0 (omega arith)),
      same-Stands P run code scopes mv (suc i) xs (λ k less.
          let d : i + suc k ≡ suc i + k = omega arith in rw (← d) (same (suc k) (omega arith))),
    )

get_elem?-append :
    {A : Type 0} (xs ys : List A) (k : ℕ) → get_elem? (xs ++ ys) (length xs + k) ≡ get_elem? ys k
get_elem?-append [] ys k = let e : 0 + k ≡ k = omega arith in rw e refl
get_elem?-append (x ∷ xs) ys k =
    let e : suc (length xs) + k ≡ suc (length xs + k) = omega arith in
    rw e (get_elem?-append xs ys k)

module _ (P : Platform) (run : Runtime P) (rest : Expr → List (Dict (V P)) → Effect (V P) (V P))
    (checked : Checked (V P)) (outer : List (Dict (V P))) (m : Vm (V P)) where
  here_code :
      {e : Expr} (c : Compiler (V P)) (s : Simple P run rest checked m.scopes outer e)
      → HasBools P run rest checked m.scopes outer s m.heap
      → m.ip ≡ mark c
      → Stands P run m.code m.scopes m.match_value (mark c) (frag e (mark c))
      → Gives P run m.code m.scopes m.match_value m m.stack
          (mark c + length (frag {V = V P} e (mark c)))
          (eval P run.variant run.depth rest e (m.scopes ++ outer) m.heap)
  here_code {e} c s bools at_mark is =
      subst
        (λ n.
          Gives P run m.code m.scopes m.match_value (record m { ip = n }) m.stack
            (mark c + length (frag {V = V P} e (mark c)))
            (eval P run.variant run.depth rest e (m.scopes ++ outer) m.heap))
        (sym at_mark)
        (frag-Runs P run rest checked m.scopes outer m.code m.match_value s m.heap bools (mark c)
          m.stack m.pending is)

  there_code :
      (c : Compiler (V P)) (xs : List (Ins (V P)))
      → ((k : ℕ)
          → mark c ≤ k
          → k < mark (add xs c)
          → get_elem? m.code k ≡ get_elem? (add xs c).code k)
      → Stands P run m.code m.scopes m.match_value (mark c) xs
  unfolding mark
  there_code c xs same =
      same-Stands P run m.code m.scopes m.match_value (length c.code) xs (λ k less.
        same (length c.code + k) (omega arith) (omega (arith, length-append c.code xs))
        ∙ get_elem?-append c.code xs k)

  -- Where the compiler has compiled a `Simple` expression, and the running function has this code and
  -- stands in front of it, the machine comes to the end of the code with the value that the
  -- interpreter gives the expression on top of the stack and with the interpreter's heap, or stops with
  -- the fault that the interpreter raises. A `Simple` expression is built only of literals of numbers,
  -- Booleans, strings, `none` and unit, names that are locals of the running function and nothing else,
  -- operators, casts, `is`, `some`, `new`, repeated arrays and indices; the type of a byte holds it. The
  -- operands of && and || that the evaluation from the machine's heap reaches have Boolean values.
  pub expr-Refines :
      {e : Expr} (c c' : Compiler (V P)) (s : Simple P run rest checked m.scopes outer e)
      → HasBools P run rest checked m.scopes outer s m.heap
      → expr checked e c ≡ ok c'
      → m.ip ≡ mark c
      → ((k : ℕ) → mark c ≤ k → k < mark c' → get_elem? m.code k ≡ get_elem? c'.code k)
      → Gives P run m.code m.scopes m.match_value m m.stack
          (mark c')
          (eval P run.variant run.depth rest e (m.scopes ++ outer) m.heap)
  expr-Refines {e} c c' s bools compiled at_mark same =
      let xs = frag e (mark c) in
      let same_compiler =
        ok_injective _ _ (sym (expr-frag P run rest checked m.scopes outer s c) ∙ compiled) in
      let size = sym (mark-add xs c) ∙ ap mark same_compiler in
      subst
        (λ n.
          Gives P run m.code m.scopes m.match_value m m.stack n
            (eval P run.variant run.depth rest e (m.scopes ++ outer) m.heap))
        size
        (here_code c s bools at_mark (
          there_code c xs (
            subst (λ d. (k : ℕ) → mark c ≤ k → k < mark d → get_elem? m.code k ≡ get_elem? d.code k)
              (sym same_compiler) same)))
