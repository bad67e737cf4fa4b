-- ===== src/Bytecode/Steps.antt =====
-- src/lang/bytecode.py, `BCVM.loop`: single instructions, as steps of the running function.
use l.Base.{
  ℕ, suc, ◌≡◌, refl, ◌∙◌, ap, String, Bool, true, false, not, Option, none, some, List, [], ◌∷◌,
  map, get_elem?,
}
use l.Base.Int.{pos}
use l.Base.Dict.{Dict, lookup}
use l.Base.Results.{Result, ok, err, ◌>>=◌}
use l.Types.{Ty}
use l.Syntax.{Pattern, Prefix, Binary}
use l.Values.{
  Platform, Fault, Heap, Effect, unit_v, none_v, bool_v, int_v, float_v, some_v, copy_value,
  alloc_ref, alloc_array, alloc_repeat, items, target, index_of, item_at,
}
use l.Values.Operators.{V, fround, scalar_value, cast_value, prefix_value, literal_value}
use l.Values.Match.{match}
use l.Values.Eval.{get_local, is_some}
use l.Bytecode.{Ins}
use l.Bytecode.Vm.{Vm, Entry, val, matched, lookup_local, find_local}
use l.Bytecode.Step.{Runtime, Next, go, make, reach, control, operate, effect, step}
use l.Bytecode.Reach.{here, then_on, fails, ValueHeap, at, Gives, lands, step-at}

lookup_local-get_local :
    {A : Type 0} (n : String) (ss : List (Dict A)) → find_local n ss ≡ get_local n ss
unfolding get_local
lookup_local-get_local n [] = refl
lookup_local-get_local n (s ∷ ss) =
    ap (λ o. elim (lookup n s) [ some v ↦ some v | none ↦ o ]) (lookup_local-get_local n ss)

module _ (P : Platform) (run : Runtime P) (code : List (Ins (V P))) (scopes : List (Dict (V P)))
    (mv : V P) where
  abbrev Q : Type 0
  Q = Result Fault (ValueHeap P run)

  abbrev Stack : Type 0
  Stack = List (Entry (V P))

  abbrev Pending : Type 0
  Pending = Option (Dict (V P))

  abbrev here_at : ℕ → Stack → Pending → Heap (V P) → Vm (V P)
  here_at i st p h = at P run code scopes mv i st p h

  abbrev ends : ℕ → Stack → Pending → Q → Result Fault (Next P)
  ends n st p r = lands P run code scopes mv n st p r

  goes-pushed :
      (i : ℕ) (st : Stack) (p : Pending) (r : Q)
      → ((r >>= λ q. ok (here_at i (val q.0 ∷ st) p q.1)) >>= λ m. ok (go m)) ≡ ends i st p r
  goes-pushed i st p (ok q) = refl
  goes-pushed i st p (err f) = refl

  goes-answer :
      (i : ℕ) (st : Stack) (p : Pending) (h : Heap (V P)) (r : Result Fault (V P))
      → ((r >>= λ v. ok (here_at i (val v ∷ st) p h)) >>= λ m. ok (go m))
        ≡ ends i st p (r >>= λ v. ok (v, h))
  goes-answer i st p h (ok v) = refl
  goes-answer i st p h (err f) = refl

  goes-after :
      {A : Type 0} (i : ℕ) (st : Stack) (p : Pending) (r : Result Fault A) (k : A → Q)
      → ((r >>= λ a. k a >>= λ q. ok (here_at i (val q.0 ∷ st) p q.1)) >>= λ m. ok (go m))
        ≡ ends i st p (r >>= k)
  goes-after i st p (ok a) k = goes-pushed i st p (k a)
  goes-after i st p (err f) k = refl

  goes-after_two :
      {A B : Type 0} (i : ℕ) (st : Stack) (p : Pending) (r : Result Fault A)
      (s : A → Result Fault B) (k : B → Q)
      → ((r >>= λ a. s a >>= λ b. k b >>= λ q. ok (here_at i (val q.0 ∷ st) p q.1)) >>= λ m.
          ok (go m))
        ≡ ends i st p (r >>= λ a. s a >>= k)
  goes-after_two i st p (ok a) s k = goes-after i st p (s a) k
  goes-after_two i st p (err f) s k = refl

  goes-after_three :
      {A B C : Type 0} (i : ℕ) (st : Stack) (p : Pending) (r : Result Fault A) (s : Result Fault B)
      (t : A → B → Result Fault C) (k : C → Q)
      → ((r >>= λ a. s >>= λ b. t a b >>= λ c. k c >>= λ q. ok (here_at i (val q.0 ∷ st) p q.1))
          >>= λ m. ok (go m))
        ≡ ends i st p (r >>= λ a. s >>= λ b. t a b >>= k)
  goes-after_three i st p (ok a) s t k = goes-after_two i st p s (t a) k
  goes-after_three i st p (err f) s t k = refl

  -- what an instruction does with no operand, one operand and two operands
  abbrev pub Pushes : Ins (V P) → Effect (V P) (V P) → Type 0
  Pushes x f =
      (i : ℕ) (st : Stack) (p : Pending) (h : Heap (V P))
      → get_elem? code i ≡ some x
      → step P run (here_at i st p h) ≡ ends (suc i) st p (f h)

  abbrev pub Turns : Ins (V P) → (V P → Effect (V P) (V P)) → Type 0
  Turns x f =
      (i : ℕ) (st : Stack) (p : Pending) (v : V P) (h : Heap (V P))
      → get_elem? code i ≡ some x
      → step P run (here_at i (val v ∷ st) p h) ≡ ends (suc i) st p (f v h)

  abbrev pub Joins : Ins (V P) → (V P → V P → Effect (V P) (V P)) → Type 0
  Joins x f =
      (i : ℕ) (st : Stack) (p : Pending) (a b : V P) (h : Heap (V P))
      → get_elem? code i ≡ some x
      → step P run (here_at i (val b ∷ val a ∷ st) p h) ≡ ends (suc i) st p (f a b h)

  opened :
      (i : ℕ) (x : Ins (V P)) (st : Stack) (p : Pending) (h : Heap (V P))
      → get_elem? code i ≡ some x
      → step P run (here_at i st p h) ≡ effect P run x (here_at (suc i) st p h)
  opened i x st p h e = step-at P run code scopes mv i x st p h e

  pub push_unit_lem : Pushes Ins.push_unit (λ h. ok (unit_v, h))
  unfolding effect make
  push_unit_lem i st p h e = opened i _ st p h e

  pub push_none_lem : Pushes Ins.push_none (λ h. ok (none_v, h))
  unfolding effect make
  push_none_lem i st p h e = opened i _ st p h e

  pub push_bool_lem : (b : Bool) → Pushes (Ins.push_bool b) (λ h. ok (bool_v b, h))
  unfolding effect make
  push_bool_lem b i st p h e = opened i _ st p h e

  pub push_int_lem :
      (n : ℕ) (t : Option Ty)
      → Pushes (Ins.push_int n t) (λ h. literal_value P (pos n) t >>= λ v. ok (v, h))
  unfolding effect make
  push_int_lem n t i st p h e =
      opened i _ st p h e ∙ goes-answer (suc i) st p h (literal_value P (pos n) t)

  pub push_float_lem :
      (s : String) (t : Option Ty)
      → Pushes (Ins.push_float s t) (λ h. ok (float_v (fround P (Platform.float_of_text P s) t), h))
  unfolding effect make
  push_float_lem s t i st p h e = opened i _ st p h e

  pub make_bytes_lem :
      (bs : List ℕ)
      → Pushes (Ins.make_bytes bs) (λ h. alloc_array run.depth (map (λ b. int_v (pos b)) bs) h)
  unfolding effect make
  make_bytes_lem bs i st p h e =
      opened i _ st p h e
      ∙ goes-pushed (suc i) st p (alloc_array run.depth (map (λ b. int_v (pos b)) bs) h)

  pub load_lem :
      (n : String) (v : V P)
      → get_local n scopes ≡ some v
      → Pushes (Ins.load n) (λ h. copy_value run.depth v h)
  unfolding effect make reach lookup_local
  load_lem n v known i st p h e =
      opened i _ st p h e
      ∙ rw (lookup_local-get_local n scopes ∙ known)
          (goes-pushed (suc i) st p (copy_value run.depth v h))

  pub make_some_lem :
      Turns Ins.make_some (λ v h. copy_value run.depth v h >>= λ q. ok (some_v q.0, q.1))
  unfolding effect make
  make_some_lem i st p v h e =
      opened i _ (val v ∷ st) p h e
      ∙ goes-pushed (suc i) st p (copy_value run.depth v h >>= λ q. ok (some_v q.0, q.1))

  pub new_lem : Turns Ins.new (λ v h. alloc_ref run.depth v h)
  unfolding effect make
  new_lem i st p v h e =
      opened i _ (val v ∷ st) p h e ∙ goes-pushed (suc i) st p (alloc_ref run.depth v h)

  pub deref_lem : Turns Ins.deref (λ v h. target v h >>= λ w. copy_value run.depth w h)
  unfolding effect make reach
  deref_lem i st p v h e =
      opened i _ (val v ∷ st) p h e
      ∙ goes-after (suc i) st p (target v h) (λ w. copy_value run.depth w h)

  pub unary_lem :
      (op : Prefix) (t : Option Ty)
      → Turns (Ins.unary op t) (λ v h. prefix_value P op v t >>= λ w. ok (w, h))
  unfolding effect make reach control operate
  unary_lem op t i st p v h e =
      opened i _ (val v ∷ st) p h e ∙ goes-answer (suc i) st p h (prefix_value P op v t)

  pub cast_lem :
      (fr to : Option Ty) → Turns (Ins.cast fr to) (λ v h. cast_value P v to >>= λ w. ok (w, h))
  unfolding effect make reach control operate
  cast_lem fr to i st p v h e =
      opened i _ (val v ∷ st) p h e ∙ goes-answer (suc i) st p h (cast_value P v to)

  pub bin_lem :
      (op : Binary) (t : Option Ty)
      → Joins (Ins.bin op t) (λ a b h. scalar_value P op a b t >>= λ w. ok (w, h))
  unfolding effect make reach control operate
  bin_lem op t i st p a b h e =
      opened i _ (val b ∷ val a ∷ st) p h e ∙ goes-answer (suc i) st p h (scalar_value P op a b t)

  pub make_repeat_lem : Joins Ins.make_repeat (λ v n h. alloc_repeat run.depth v n h)
  unfolding effect make
  make_repeat_lem i st p v n h e =
      opened i _ (val n ∷ val v ∷ st) p h e
      ∙ goes-pushed (suc i) st p (alloc_repeat run.depth v n h)

  pub index_lem : Joins Ins.index (λ a b h.
      index_of b >>= λ n. items a h >>= λ vs. item_at n vs >>= λ v. copy_value run.depth v h)
  unfolding effect make reach
  index_lem i st p a b h e =
      opened i _ (val b ∷ val a ∷ st) p h e
      ∙ goes-after_three (suc i) st p (index_of b) (items a h) (λ n vs. item_at n vs)
          (λ v. copy_value run.depth v h)

  pub pop_lem :
      (i : ℕ) (x : Entry (V P)) (st : Stack) (p : Pending) (h : Heap (V P))
      → get_elem? code i ≡ some Ins.pop
      → step P run (here_at i (x ∷ st) p h) ≡ ok (go (here_at (suc i) st p h))
  unfolding effect make reach
  pop_lem i x st p h e = opened i _ (x ∷ st) p h e

  -- where a conditional jump goes on
  abbrev pub goes_to : Bool → ℕ → ℕ → ℕ
  goes_to true t i = t
  goes_to false t i = suc i

  pub keep_false_lem :
      (i t : ℕ) (b : Bool) (st : Stack) (p : Pending) (h : Heap (V P))
      → get_elem? code i ≡ some (Ins.jump_if_false_keep (some t))
      → step P run (here_at i (val (bool_v b) ∷ st) p h)
        ≡ ok (go (here_at (goes_to (not b) t i) (val (bool_v b) ∷ st) p h))
  unfolding effect make reach control
  keep_false_lem i t true st p h e = opened i _ (val (bool_v true) ∷ st) p h e
  keep_false_lem i t false st p h e = opened i _ (val (bool_v false) ∷ st) p h e

  pub keep_true_lem :
      (i t : ℕ) (b : Bool) (st : Stack) (p : Pending) (h : Heap (V P))
      → get_elem? code i ≡ some (Ins.jump_if_true_keep (some t))
      → step P run (here_at i (val (bool_v b) ∷ st) p h)
        ≡ ok (go (here_at (goes_to b t i) (val (bool_v b) ∷ st) p h))
  unfolding effect make reach control
  keep_true_lem i t true st p h e = opened i _ (val (bool_v true) ∷ st) p h e
  keep_true_lem i t false st p h e = opened i _ (val (bool_v false) ∷ st) p h e

  to_bool_lem :
      (i : ℕ) (o : Option (Dict (V P))) (st : Stack) (p : Pending) (h : Heap (V P))
      → get_elem? code i ≡ some Ins.pattern_to_bool
      → step P run (here_at i (matched o ∷ st) p h)
        ≡ ok (go (here_at (suc i) (val (bool_v (is_some o)) ∷ st) p h))
  unfolding effect make reach control operate
  to_bool_lem i none st p h e = opened i _ (matched none ∷ st) p h e
  to_bool_lem i (some d) st p h e = opened i _ (matched (some d) ∷ st) p h e

  abbrev Matched : Type 0
  Matched = Result Fault (Option (Dict (V P)) × Heap (V P))

  -- the bindings are pending, and stand on the stack
  abbrev tried : ℕ → Stack → Matched → Result Fault (Next P)
  tried n st r = r >>= λ q. ok (go (here_at n (matched q.0 ∷ st) q.0 q.1))

  goes-tried :
      (i : ℕ) (st : Stack) (r : Matched)
      → ((r >>= λ q. ok (here_at i (matched q.0 ∷ st) q.0 q.1)) >>= λ m. ok (go m)) ≡ tried i st r
  goes-tried i st (ok q) = refl
  goes-tried i st (err f) = refl

  try_lem :
      (i : ℕ) (pat : Pattern) (t : Option Ty) (st : Stack) (p : Pending) (v : V P) (h : Heap (V P))
      → get_elem? code i ≡ some (Ins.try_pattern pat t)
      → step P run (here_at i (val v ∷ st) p h)
        ≡ tried (suc i) st (match run.variant run.depth pat v t h)
  unfolding effect make reach control operate
  try_lem i pat t st p v h e =
      opened i _ (val v ∷ st) p h e ∙ goes-tried (suc i) st (match run.variant run.depth pat v t h)

  tried-Gives :
      (i : ℕ) (m : Vm (V P)) (st : Stack) (r : Matched)
      → get_elem? code i ≡ some Ins.pattern_to_bool
      → step P run m ≡ tried i st r
      → Gives P run code scopes mv m st (suc i) (r >>= λ q. ok (bool_v (is_some q.0), q.1))
  tried-Gives i m st (err f) e s = fails s
  tried-Gives i m st (ok q) e s = (q.0, then_on s (then_on (to_bool_lem i q.0 st q.0 q.1 e) here))

  -- an `is` test
  pub test_lem :
      (i : ℕ) (pat : Pattern) (t : Option Ty) (st : Stack) (p : Pending) (v : V P) (h : Heap (V P))
      → get_elem? code i ≡ some (Ins.try_pattern pat t)
      → get_elem? code (suc i) ≡ some Ins.pattern_to_bool
      → Gives P run code scopes mv
          (here_at i (val v ∷ st) p h)
          st
          (suc (suc i))
          (match run.variant run.depth pat v t h >>= λ q. ok (bool_v (is_some q.0), q.1))
  test_lem i pat t st p v h e e' =
      tried-Gives (suc i) (here_at i (val v ∷ st) p h) st (match run.variant run.depth pat v t h) e'
        (try_lem i pat t st p v h e)
