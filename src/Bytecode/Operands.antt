-- ===== src/Bytecode/Operands.antt =====
-- src/lang/bytecode.py, class `BCVM`: the code of the operands of an expression, and the instruction or
-- the jump behind it.
use mathlib.Core.Path.{subst}
use l.Base.{
  ℕ, suc, ◌+◌, ◌≡◌, refl, sym, ◌∙◌, ap, arith, Bool, true, false, Option, some, List, [], ◌∷◌,
  length, length-append, get_elem?,
}
use l.Base.Dict.{Dict}
use l.Base.Results.{Result, ok, err, ◌>>=◌}
use l.Values.{Platform, Fault, Heap, Effect, bool_v}
use l.Values.Operators.{V, truthy}
use l.Values.Eval.{lazy_and, lazy_or}
use l.Bytecode.{Ins}
use l.Bytecode.Vm.{Vm, Entry, val}
use l.Bytecode.Step.{Runtime}
use l.Bytecode.Fragment.{one, two, skip}
use l.Bytecode.Reach.{
  here, then_on, ValueHeap, at, Gives, Gives-lands, Gives-after, Gives-bind, Stands, Stands-front,
  Stands-back,
}
use l.Bytecode.Steps

module _ (P : Platform) (run : Runtime P) (code : List (Ins (V P))) (scopes : List (Dict (V P)))
    (mv : V P) where
  abbrev Q : Type 0
  Q = Result Fault (ValueHeap P run)

  abbrev Stack : Type 0
  Stack = List (Entry (V P))

  abbrev Pending : Type 0
  Pending = Option (Dict (V P))

  abbrev here_at : ℕ → Stack → Pending → Heap (V P) → Vm (V P)
  here_at i st p h = at P run code scopes mv i st p h

  abbrev Comes : Vm (V P) → Stack → ℕ → Q → Type 0
  Comes m st n r = Gives P run code scopes mv m st n r

  abbrev Is : ℕ → List (Ins (V P)) → Type 0
  Is i xs = Stands P run code scopes mv i xs

  pub moved :
      (m : Vm (V P)) (st : Stack) {i j : ℕ} (r : Q) → i ≡ j → Comes m st i r → Comes m st j r
  moved m st r e g = subst (λ n. Comes m st n r) e g

  -- one operand, and the instruction behind it
  pub run_one :
      (i : ℕ) (xs : List (Ins (V P))) (x : Ins (V P)) (f : V P → Effect (V P) (V P)) (st : Stack)
      (p : Pending) (h : Heap (V P)) (r : Q)
      → Steps.Turns P run code scopes mv x f
      → Is i (one xs x)
      → Comes (here_at i st p h) st (i + length xs) r
      → Comes (here_at i st p h) st (i + length (one xs x)) (r >>= λ q. f q.0 q.1)
  run_one i xs x f st p h r turns is g = moved _ st _ (omega (arith, length-append xs (x ∷ []))) (
      Gives-bind P run code scopes mv (here_at i st p h) st st (i + length xs) (suc (i + length xs))
        r (λ q. f q.0 q.1) g
        (λ q p' e. Gives-lands P run code scopes mv _ st (suc (i + length xs)) p' (f q.0 q.1) (
          turns (i + length xs) st p' q.0 q.1
            (Stands-back P run code scopes mv i xs (x ∷ []) is).0)))

  -- two operands, and the instruction behind them
  pub run_two :
      (i : ℕ) (xs ys : List (Ins (V P))) (x : Ins (V P)) (f : V P → V P → Effect (V P) (V P))
      (st : Stack) (p : Pending) (h : Heap (V P)) (r : Q) (k : Heap (V P) → Q)
      → Steps.Joins P run code scopes mv x f
      → Is i (two xs ys x)
      → Comes (here_at i st p h) st (i + length xs) r
      → ((q : ValueHeap P run) (p' : Pending)
          → r ≡ ok q
          → Is (i + length xs) ys
          → Comes
              (here_at (i + length xs) (val q.0 ∷ st) p' q.1)
              (val q.0 ∷ st)
              (i + length xs + length ys)
              (k q.1))
      → Comes
          (here_at i st p h)
          st
          (i + length (two xs ys x))
          (r >>= λ q. k q.1 >>= λ s. f q.0 s.0 s.1)
  run_two i xs ys x f st p h r k joins is g next =
      let behind = Stands-back P run code scopes mv i xs (one ys x) is in
      let last = (Stands-back P run code scopes mv (i + length xs) ys (x ∷ []) behind).0 in
      let n = i + length xs + length ys in
      moved _ st _ (omega (arith, length-append xs (one ys x), length-append ys (x ∷ []))) (
        Gives-bind P run code scopes mv (here_at i st p h) st st (i + length xs) (suc n) r
          (λ q. k q.1 >>= λ s. f q.0 s.0 s.1) g
          (λ q p' e.
            Gives-bind P run code scopes mv _ (val q.0 ∷ st) st n (suc n) (k q.1)
              (λ s. f q.0 s.0 s.1)
              (next q p' e (Stands-front P run code scopes mv (i + length xs) ys (x ∷ []) behind))
              (λ s p'' e'.
                Gives-lands P run code scopes mv _ st (suc n) p'' (f q.0 s.0 s.1)
                  (joins n st p'' q.0 s.0 s.1 last))))

  -- a result whose value is a Boolean
  abbrev pub IsBoolean : Q → Type 0
  IsBoolean r = (s : ValueHeap P run) → r ≡ ok s → (b : Bool) × (s.0 ≡ bool_v b)

  truthy-bool : (v : V P) (b : Bool) → v ≡ bool_v b → v ≡ bool_v (truthy P v)
  truthy-bool v b e = e ∙ ap (λ w. bool_v (truthy P w)) (sym e)

  as_bool : (r : Q) → IsBoolean r → r ≡ (r >>= λ s. ok (bool_v (truthy P s.0), s.1))
  as_bool (err f) h = refl
  as_bool (ok s) h = let (b, e) = h s refl in ap (λ v. ok (v, s.1)) (truthy-bool s.0 b e)

  -- the jump of && at a Boolean, and the right operand behind it
  pub jump_and :
      (j t : ℕ) (b : Bool) (st : Stack) (p : Pending) (h : Heap (V P)) (k : Heap (V P) → Q)
      → get_elem? code j ≡ some (Ins.jump_if_false_keep (some t))
      → get_elem? code (suc j) ≡ some Ins.pop
      → (b ≡ true → IsBoolean (k h))
      → (b ≡ true → Comes (here_at (suc (suc j)) st p h) st t (k h))
      → Comes (here_at j (val (bool_v b) ∷ st) p h) st t (lazy_and P b k h)
  jump_and j t false st p h k e e' bools right =
      (p, then_on (Steps.keep_false_lem P run code scopes mv j t false st p h e) here)
  jump_and j t true st p h k e e' bools right =
      Gives-after P run code scopes mv _ (here_at (suc (suc j)) st p h) st t _
        (then_on (Steps.keep_false_lem P run code scopes mv j t true st p h e)
          (then_on (Steps.pop_lem P run code scopes mv (suc j) (val (bool_v true)) st p h e') here))
        (subst (λ r. Comes (here_at (suc (suc j)) st p h) st t r) (as_bool (k h) (bools refl))
          (right refl))

  pub jump_or :
      (j t : ℕ) (b : Bool) (st : Stack) (p : Pending) (h : Heap (V P)) (k : Heap (V P) → Q)
      → get_elem? code j ≡ some (Ins.jump_if_true_keep (some t))
      → get_elem? code (suc j) ≡ some Ins.pop
      → (b ≡ false → IsBoolean (k h))
      → (b ≡ false → Comes (here_at (suc (suc j)) st p h) st t (k h))
      → Comes (here_at j (val (bool_v b) ∷ st) p h) st t (lazy_or P b k h)
  jump_or j t true st p h k e e' bools right =
      (p, then_on (Steps.keep_true_lem P run code scopes mv j t true st p h e) here)
  jump_or j t false st p h k e e' bools right =
      Gives-after P run code scopes mv _ (here_at (suc (suc j)) st p h) st t _
        (then_on (Steps.keep_true_lem P run code scopes mv j t false st p h e) (
          then_on (Steps.pop_lem P run code scopes mv (suc j) (val (bool_v false)) st p h e') here))
        (subst (λ r. Comes (here_at (suc (suc j)) st p h) st t r) (as_bool (k h) (bools refl))
          (right refl))

  -- an operand that is a Boolean, and a jump with the other operand behind it
  pub run_lazy :
      (lazy : Bool → Effect (V P) (V P) → Effect (V P) (V P)) (keep : Option ℕ → Ins (V P)) (i : ℕ)
      (xs ys : List (Ins (V P))) (st : Stack) (p : Pending) (h : Heap (V P)) (r : Q)
      (k : Heap (V P) → Q)
      → ((b : Bool) (p' : Pending) (h' : Heap (V P))
          → r ≡ ok (bool_v b, h')
          → Is (i + length xs) (keep (some (i + length xs + 2 + length ys)) ∷ Ins.pop ∷ ys)
          → Comes
              (here_at (i + length xs) (val (bool_v b) ∷ st) p' h')
              st
              (i + length xs + 2 + length ys)
              (lazy b k h'))
      → IsBoolean r
      → Is i (skip keep i xs ys)
      → Comes (here_at i st p h) st (i + length xs) r
      → Comes
          (here_at i st p h)
          st
          (i + length (skip keep i xs ys))
          (r >>= λ q. lazy (truthy P q.0) k q.1)
  run_lazy lazy keep i xs ys st p h r k at_jump bool is g =
      let t = i + length xs + 2 + length ys in
      let tail = keep (some t) ∷ Ins.pop ∷ ys in
      moved _ st _ (omega (arith, length-append xs tail)) (
        Gives-bind P run code scopes mv (here_at i st p h) st st (i + length xs) t r
          (λ q. lazy (truthy P q.0) k q.1) g
          (λ q p' e.
            let (b, eb) = bool q e in
            subst
              (λ v.
                Comes (here_at (i + length xs) (val v ∷ st) p' q.1) st t (lazy (truthy P v) k q.1))
              (sym eb)
              (at_jump b p' q.1 (e ∙ ap (λ v. ok (v, q.1)) eb)
                (Stands-back P run code scopes mv i xs tail is))))
