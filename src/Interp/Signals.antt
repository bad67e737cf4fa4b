-- ===== src/Interp/Signals.antt =====
-- Which signals a statement can end with: rules for the combinators of the interpreter.
use l.Base.{Option, none, some}
use l.Base.Results.{Result, ok, err}
use l.Interp.{
  Machine, normal, broke, continued, returned, raised, Trap, Outcome, S, Sig, with_answer, and_then,
  finally_pop, after_body,
}

module _ (m : Machine) where
  -- if the run comes to an end, P holds of its signal
  abbrev pub Ends : (Sig m → Type 0) → Outcome m → Type 0
  Ends P none = Unit
  Ends P (some (sg, s)) = P sg

  -- P holds of every signal but a normal end that Q holds of
  abbrev pub Unless : (Sig m → Type 0) → (Sig m → Type 0) → Sig m → Type 0
  Unless Q P normal = Unit
  Unless Q P sg = Q sg → P sg

  module _ (P : Sig m → Type 0) where
    pub Ends-with_answer :
        {A : Type 0} (a : Option (Result Trap A × S m)) (k : A → S m → Outcome m)
        → ((t : Trap) → P (raised t))
        → ((v : A) (s : S m) → Ends P (k v s))
        → Ends P (with_answer m a k)
    Ends-with_answer none k r h = tt
    Ends-with_answer (some (ok v, s)) k r h = h v s
    Ends-with_answer (some (err t, s)) k r h = r t

    pub Ends-and_then :
        (Q : Sig m → Type 0) (o : Outcome m) (k : S m → Outcome m)
        → Ends Q o
        → ((sg : Sig m) → Unless Q P sg)
        → ((s : S m) → Ends P (k s))
        → Ends P (and_then m o k)
    Ends-and_then Q none k e u h = tt
    Ends-and_then Q (some (normal, s)) k e u h = h s
    Ends-and_then Q (some (broke, s)) k e u h = u broke e
    Ends-and_then Q (some (continued, s)) k e u h = u continued e
    Ends-and_then Q (some (returned v, s)) k e u h = u (returned v) e
    Ends-and_then Q (some (raised t, s)) k e u h = u (raised t) e

    pub Ends-finally_pop : (o : Outcome m) → Ends P o → Ends P (finally_pop m o)
    Ends-finally_pop none h = tt
    Ends-finally_pop (some (sg, s)) h = h

    pub Ends-after_body :
        (Q : Sig m → Type 0) (o : Outcome m) (again : S m → Outcome m)
        → Ends Q o
        → (Q broke → P normal)
        → ((v : m.Value) → P (returned v))
        → ((t : Trap) → P (raised t))
        → ((s : S m) → Ends P (again s))
        → Ends P (after_body m o again)
    Ends-after_body Q none again q b r t h = tt
    Ends-after_body Q (some (normal, s)) again q b r t h = h s
    Ends-after_body Q (some (continued, s)) again q b r t h = h s
    Ends-after_body Q (some (broke, s)) again q b r t h = b q
    Ends-after_body Q (some (returned v, s)) again q b r t h = r v
    Ends-after_body Q (some (raised e, s)) again q b r t h = t e

  pub Ends-map :
      (P Q : Sig m → Type 0) (o : Outcome m) → Ends P o → ((sg : Sig m) → P sg → Q sg) → Ends Q o
  Ends-map P Q none h g = tt
  Ends-map P Q (some (sg, s)) h g = g sg h

  pub Ends-any : (P : Sig m → Type 0) (o : Outcome m) → ((sg : Sig m) → P sg) → Ends P o
  Ends-any P none g = tt
  Ends-any P (some (sg, s)) g = g sg
