-- ===== src/Bytecode/Reach.antt =====
-- src/lang/bytecode.py, class `BCVM`: sequences of instructions of one function, and what they lead
-- to.
use l.Base.{ℕ, suc, ◌+◌, ◌≡◌, refl, arith, Option, some, List, [], ◌∷◌, ◌++◌, length, get_elem?}
use l.Base.Dict.{Dict}
use l.Base.Results.{Result, ok, err, ◌>>=◌}
use l.Values.{Platform, Fault, Heap}
use l.Values.Operators.{V}
use l.Bytecode.{Ins}
use l.Bytecode.Vm.{Vm, Entry, val}
use l.Bytecode.Step.{Runtime, Next, go, effect, step}

module _ (P : Platform) (run : Runtime P) where
  -- some instructions lead to a state, or to a fault
  pub data Reaches : Vm (V P) → Result Fault (Vm (V P)) → Type 0 where
    here : {m : Vm (V P)} → Reaches m (ok m)
    then_on :
        {m m₁ : Vm (V P)} {r : Result Fault (Vm (V P))}
        → step P run m ≡ ok (go m₁)
        → Reaches m₁ r
        → Reaches m r
    fails : {m : Vm (V P)} {f : Fault} → step P run m ≡ err f → Reaches m (err f)

  pub Reaches-trans :
      {m m₁ : Vm (V P)} {r : Result Fault (Vm (V P))}
      → Reaches m (ok m₁)
      → Reaches m₁ r
      → Reaches m r
  Reaches-trans here g = g
  Reaches-trans (then_on e h) g = then_on e (Reaches-trans h g)

  -- what a value and the heap behind it are to an evaluation
  abbrev pub ValueHeap : Type 0
  ValueHeap = V P × Heap (V P)

  module _ (code : List (Ins (V P))) (scopes : List (Dict (V P))) (mv : V P) where
    -- the running function at an address
    abbrev pub at : ℕ → List (Entry (V P)) → Option (Dict (V P)) → Heap (V P) → Vm (V P)
    at i st p h = record {
      code = code;
      ip = i;
      scopes = scopes;
      stack = st;
      match_value = mv;
      pending = p;
      heap = h;
    }

    -- The machine comes to the address with the value on the stack, or stops with the fault.
    abbrev pub Gives : Vm (V P) → List (Entry (V P)) → ℕ → Result Fault ValueHeap → Type 0
    Gives m st n (err f) = Reaches m (err f)
    Gives m st n (ok q) = (p : Option (Dict (V P))) × Reaches m (ok (at n (val q.0 ∷ st) p q.1))

    -- an instruction that ends with the value on the stack
    abbrev pub lands :
        ℕ
        → List (Entry (V P))
        → Option (Dict (V P))
        → Result Fault ValueHeap
        → Result Fault (Next P)
    lands n st p r = r >>= λ q. ok (go (at n (val q.0 ∷ st) p q.1))

    pub Gives-lands :
        (m : Vm (V P)) (st : List (Entry (V P))) (n : ℕ) (p : Option (Dict (V P)))
        (r : Result Fault ValueHeap)
        → step P run m ≡ lands n st p r
        → Gives m st n r
    Gives-lands m st n p (ok q) h = (p, then_on h here)
    Gives-lands m st n p (err f) h = fails h

    pub Gives-after :
        (m m₁ : Vm (V P)) (st : List (Entry (V P))) (n : ℕ) (r : Result Fault ValueHeap)
        → Reaches m (ok m₁)
        → Gives m₁ st n r
        → Gives m st n r
    Gives-after m m₁ st n (ok q) w g = (g.0, Reaches-trans w g.1)
    Gives-after m m₁ st n (err f) w g = Reaches-trans w g

    pub Gives-bind :
        (m : Vm (V P)) (st st' : List (Entry (V P))) (j n : ℕ) (r : Result Fault ValueHeap)
        (k : ValueHeap → Result Fault ValueHeap)
        → Gives m st j r
        → ((q : ValueHeap) (p : Option (Dict (V P)))
            → r ≡ ok q
            → Gives (at j (val q.0 ∷ st) p q.1) st' n (k q))
        → Gives m st' n (r >>= k)
    Gives-bind m st st' j n (ok q) k g next =
        Gives-after m (at j (val q.0 ∷ st) g.0 q.1) st' n (k q) g.1 (next q g.0 refl)
    Gives-bind m st st' j n (err f) k g next = g

    -- the instructions stand at the address
    abbrev pub Stands : ℕ → List (Ins (V P)) → Type 0
    Stands i [] = Unit
    Stands i (x ∷ xs) = (get_elem? code i ≡ some x) × Stands (suc i) xs

    pub Stands-front : (i : ℕ) (xs ys : List (Ins (V P))) → Stands i (xs ++ ys) → Stands i xs
    Stands-front i [] ys h = tt
    Stands-front i (x ∷ xs) ys h = (h.0, Stands-front (suc i) xs ys h.1)

    pub Stands-back :
        (i : ℕ) (xs ys : List (Ins (V P))) → Stands i (xs ++ ys) → Stands (i + length xs) ys
    Stands-back i [] ys h = let e : i + 0 ≡ i = omega arith in rw e h
    Stands-back i (x ∷ xs) ys h =
        let e : i + suc (length xs) ≡ suc i + length xs = omega arith in
        rw e (Stands-back (suc i) xs ys h.1)

    pub step-at :
        (i : ℕ) (x : Ins (V P)) (st : List (Entry (V P))) (p : Option (Dict (V P))) (h : Heap (V P))
        → get_elem? code i ≡ some x
        → step P run (at i st p h) ≡ effect P run x (at (suc i) st p h)
    unfolding step
    step-at i x st p h e = rw e refl
