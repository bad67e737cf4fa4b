-- ===== src/Lexer/Splits.antt =====
-- The scanners of Lexer.Cuts and Lexer.Scan: what each consumed and left, against its text.
use l.Base.{
  ℕ, ◌<◌, Bool, true, false, Option, none, some, List, [], ◌∷◌, ◌++◌, ◌≡◌, refl, ap, ◌&&◌, ◌||◌,
  ◌==◌, if◌then◌else◌, arith, Bool-cases, inl, inr, length,
}
use mathlib.Core.Path.{subst}
use mathlib.Core.List.{append_assoc}
use l.Base.Results.{Result, ok, err, ◌>>=◌}
use l.Lexer.Chars.{among}
use l.Lexer.Cuts.{
  LexError, Cut, prepend, span_while, head_is, digits, strip_prefix, match_multi, Mode, Move, close,
  fail, go, Literal, literal, literal_move, add_piece,
}
use l.Lexer.Scan.{decimal, fraction, exponent, signed_exponent, is_digit}

abbrev pub Splits : Cut → List ℕ → Type 0
Splits (a, b) cs = a ++ b ≡ cs

prepend-Splits : (c : ℕ) (k : Cut) (cs : List ℕ) → Splits k cs → Splits (prepend c k) (c ∷ cs)
prepend-Splits c k cs h = ap (λ t. c ∷ t) h

if-Splits :
    (b : Bool) (k l : Cut) (cs : List ℕ)
    → Splits k cs
    → Splits l cs
    → Splits (if b then k else l) cs
if-Splits true k l cs h g = h
if-Splits false k l cs h g = g

pub span_while-Splits : (p : ℕ → Bool) (cs : List ℕ) → Splits (span_while p cs) cs
unfolding span_while
span_while-Splits p [] = refl
span_while-Splits p (c ∷ cs) =
    if-Splits (p c) (prepend c (span_while p cs)) ([], c ∷ cs) (c ∷ cs)
      (prepend-Splits c (span_while p cs) cs (span_while-Splits p cs)) refl

pub digits-Splits : (v : ℕ → Bool) (prev : Bool) (cs : List ℕ) → Splits (digits v prev cs) cs
unfolding digits
digits-Splits v prev [] = refl
digits-Splits v prev (c ∷ cs) =
    if-Splits (v c || (c == 95 && (prev && head_is v cs))) (prepend c (digits v (v c) cs))
      ([], c ∷ cs) (c ∷ cs) (prepend-Splits c (digits v (v c) cs) cs (digits-Splits v (v c) cs))
      refl

strip_prefix-Splits : (p cs rest : List ℕ) → strip_prefix p cs ≡ some rest → Splits (p, rest) cs
unfolding strip_prefix
strip_prefix-Splits [] cs rest h = cc
strip_prefix-Splits (p ∷ ps) [] rest h = cc
strip_prefix-Splits (p ∷ ps) (c ∷ cs) rest h = elim (Bool-cases (p == c)) [
  | inl e ↦
      let q : p ≡ c = ground (arith, e) in
      rw q (ap (λ t. c ∷ t) (strip_prefix-Splits ps cs rest (rw e at h)))
  | inr e ↦ let k = rw e at h in cc
]

-- no operator is the empty text
abbrev pub AllSome : List (List ℕ) → Type 0
AllSome [] = Unit
AllSome (op ∷ ops) = (0 < length op) × AllSome ops

-- A piece of the text: it was consumed off the front, and is not empty.
abbrev pub Consumes : Cut → List ℕ → Type 0
Consumes (a, b) cs = (0 < length a) × (a ++ b ≡ cs)

pub match_multi-Consumes :
    (ops : List (List ℕ)) (cs : List ℕ) (k : Cut)
    → AllSome ops
    → match_multi ops cs ≡ some k
    → Consumes k cs
unfolding match_multi
match_multi-Consumes [] cs k all h = cc
match_multi-Consumes (op ∷ ops) cs k all h =
    try (strip_prefix op cs) refl h (match_multi-Consumes ops cs k all.1)
  where
    try :
        (o : Option (List ℕ))
        → strip_prefix op cs ≡ o
        → (let r : Option Cut = elim o [
          | some rest ↦ some (op, rest)
          | none ↦ match_multi ops cs
        ] in
            r)
          ≡ some k
        → (match_multi ops cs ≡ some k → Consumes k cs)
        → Consumes k cs
    try (some rest) e g ih =
        subst (λ x. Consumes x cs) (cc) (all.0, strip_prefix-Splits op cs rest e)
    try none e g ih = ih g

pub literal-Splits :
    (quote : ℕ) (m : Mode) (cs : List ℕ) (l : Literal) → literal quote m cs ≡ ok l → Splits l.1 cs
unfolding literal
literal-Splits quote m [] l h = cc
literal-Splits quote m (c ∷ cs) l h =
    move (literal_move quote m c) h (λ m'. literal-Splits quote m' cs)
  where
    after :
        (r : Result LexError Literal) (bs : List ℕ)
        → (r >>= λ x. ok (add_piece c bs x)) ≡ ok l
        → ((x : Literal) → r ≡ ok x → Splits x.1 cs)
        → Splits l.1 (c ∷ cs)
    after (err e) bs g ih = cc
    after (ok x) bs g ih =
        let same : add_piece c bs x ≡ l = cc in
        subst (λ (z : Literal). Splits z.1 (c ∷ cs)) same (prepend-Splits c x.1 cs (ih x refl))

    move :
        (mv : Move)
        → (let r : Result LexError Literal = elim mv [
          | close ↦ ok ([], (c ∷ [], cs))
          | fail e ↦ err e
          | go m' bs ↦ literal quote m' cs >>= λ x. ok (add_piece c bs x)
        ] in
            r)
          ≡ ok l
        → ((m' : Mode) (x : Literal) → literal quote m' cs ≡ ok x → Splits x.1 cs)
        → Splits l.1 (c ∷ cs)
    move close g ih =
        let same : ([], (c ∷ [], cs)) ≡ l = cc in
        subst (λ (z : Literal). Splits z.1 (c ∷ cs)) same refl
    move (fail e) g ih = cc
    move (go m' bs) g ih = after (literal quote m' cs) bs g (ih m')

pick-Splits :
    (b : Bool) (k l : Bool × Cut) (cs : List ℕ)
    → Splits k.1 cs
    → Splits l.1 cs
    → Splits (if b then k else l).1 cs
pick-Splits true k l cs h g = h
pick-Splits false k l cs h g = g

three_cuts :
    (a x b y c z cs : List ℕ) → a ++ x ≡ cs → b ++ y ≡ x → c ++ z ≡ y → (a ++ (b ++ c)) ++ z ≡ cs
three_cuts a x b y c z cs p q r = simp append_assoc (rw (r, q, p))

module _ (other_digit : ℕ → Bool) where
  fraction-Splits : (cs : List ℕ) → Splits (fraction other_digit cs).1 cs
  unfolding fraction
  fraction-Splits [] = refl
  fraction-Splits (c ∷ cs) = elim (Bool-cases (c == 46 && head_is (is_digit other_digit) cs)) [
    | inl e ↦ rw e (ap (λ t. c ∷ t) (digits-Splits (is_digit other_digit) true cs))
    | inr e ↦ rw e
  ]

  signed-Splits : (e : ℕ) (cs : List ℕ) → Splits (signed_exponent other_digit e cs).1 (e ∷ cs)
  signed-Splits e [] = refl
  signed-Splits e (s ∷ cs) =
      let ds = digits-Splits (is_digit other_digit) true cs in
      let es = digits-Splits (is_digit other_digit) true (s ∷ cs) in
      pick-Splits (among s (43 ∷ 45 ∷ [])) _ _ (e ∷ s ∷ cs)
        (pick-Splits (head_is (is_digit other_digit) cs) _ (false, ([], e ∷ s ∷ cs)) (e ∷ s ∷ cs)
          (ap (λ t. e ∷ s ∷ t) ds) refl)
        (pick-Splits (is_digit other_digit s) _ (false, ([], e ∷ s ∷ cs)) (e ∷ s ∷ cs)
          (ap (λ t. e ∷ t) es) refl)

  exponent-Splits : (cs : List ℕ) → Splits (exponent other_digit cs).1 cs
  unfolding exponent
  exponent-Splits [] = refl
  exponent-Splits (e ∷ cs) = elim (Bool-cases (among e (101 ∷ 69 ∷ []))) [
    | inl t ↦ rw t (signed-Splits e cs)
    | inr t ↦ rw t
  ]

  pub decimal-Consumes : (c : ℕ) (cs : List ℕ) → Consumes (decimal other_digit c cs).cut (c ∷ cs)
  unfolding decimal
  decimal-Consumes c cs =
      let ds = is_digit other_digit in
      let (whole, x) = digits ds true cs in
      let (f, (frac, y)) = fraction other_digit x in
      let (e, (expo, z)) = exponent other_digit y in
      (
        omega arith,
        ap (λ t. c ∷ t)
            (three_cuts whole x frac y expo z cs (digits-Splits ds true cs) (fraction-Splits x)
              (exponent-Splits y)),
      )
