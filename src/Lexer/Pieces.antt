-- ===== src/Lexer/Pieces.antt =====
-- What `scan` consumes of its text, and what its token spells.
use mathlib.Core.Path.{subst}
use l.Base.{
  ℕ, ◌<◌, Bool, true, false, Option, none, some, List, [], ◌∷◌, ◌≡◌, refl, ap, sym, ◌&&◌, ◌||◌,
  ◌==◌, if◌then◌else◌, arith, length,
}
use l.Base.Results.{Result, ok, err, ◌>>=◌}
use l.Lexer.Chars.{among, is_space, starts_name, continues_name, is_hex, is_binary}
use l.Lexer.Cuts.{
  Kind, comment, LexError, Cut, prepend, span_while, head_is, match_multi, multi, single, plain,
  word, Literal, literal, unexpected_character,
}
use l.Lexer.Scan.{Piece, scan, number, after_zero, based, quoted, operator, is_digit, spelled}
use l.Lexer.Splits.{
  Consumes, Splits, AllSome, span_while-Splits, digits-Splits, match_multi-Consumes, literal-Splits,
  decimal-Consumes,
}

-- the spelling of a token: its raw text, or its text where it has none
abbrev pub Spelled : Option (Kind × List ℕ × Option (List ℕ)) → List ℕ → Type 0
Spelled none a = Unit
Spelled (some (k, t, none)) a = t ≡ a
Spelled (some (k, t, some r)) a = r ≡ a

abbrev pub Yields : Result LexError Piece → List ℕ → Type 0
Yields (ok p) cs = Consumes p.cut cs × Spelled p.token p.cut.0
Yields (err e) cs = Unit

if-Yields :
    (b : Bool) (r s : Result LexError Piece) (cs : List ℕ)
    → (b ≡ true → Yields r cs)
    → (b ≡ false → Yields s cs)
    → Yields (if b then r else s) cs
if-Yields true r s cs h g = h refl
if-Yields false r s cs h g = g refl

based-Yields :
    (a b : ℕ) (valid : ℕ → Bool) (cs : List ℕ) → Yields (based (a ∷ b ∷ []) valid cs) (a ∷ b ∷ cs)
based-Yields a b valid cs =
    if-Yields (head_is valid cs) _ _ (a ∷ b ∷ cs)
      (λ _. ((omega arith, ap (λ t. a ∷ b ∷ t) (digits-Splits valid false cs)), refl)) (λ _. tt)

-- the first code point passes the test, so the span is not empty
span-Consumes :
    (p : ℕ → Bool) (c : ℕ) (cs : List ℕ) → p c ≡ true → Consumes (span_while p (c ∷ cs)) (c ∷ cs)
unfolding span_while
span-Consumes p c cs h = (
  let e : (if p c then prepend c (span_while p cs) else ([], c ∷ cs))
          ≡ prepend c (span_while p cs) =
        rw h in
      subst (λ (k : Cut). 0 < length k.0) (sym e) (omega arith),
  span_while-Splits p (c ∷ cs),
)

multi-AllSome : AllSome multi
multi-AllSome = omega arith

module _ (other_digit : ℕ → Bool) where
  number-Yields : (c : ℕ) (cs : List ℕ) → Yields (number other_digit c cs) (c ∷ cs)
  unfolding number
  number-Yields c cs =
      if-Yields (c == 48) _ _ (c ∷ cs) (λ _. zero-Yields cs)
        (λ _. (decimal-Consumes other_digit c cs, refl))
    where
      zero-Yields : (ds : List ℕ) → Yields (after_zero other_digit c ds) (c ∷ ds)
      zero-Yields [] = (decimal-Consumes other_digit c [], refl)
      zero-Yields (b ∷ ds) =
          if-Yields (among b (120 ∷ 88 ∷ [])) _ _ (c ∷ b ∷ ds) (λ _. based-Yields c b is_hex ds)
            (λ _.
              if-Yields (among b (98 ∷ 66 ∷ [])) _ _ (c ∷ b ∷ ds)
                (λ _. based-Yields c b is_binary ds)
                (λ _. (decimal-Consumes other_digit c (b ∷ ds), refl)))

  quoted-Yields :
      (quote : ℕ) (cs : List ℕ) (l : Literal)
      → Splits l.1 cs
      → Yields (quoted other_digit quote l) (quote ∷ cs)
  quoted-Yields quote cs (bytes, (a, rest)) h =
      let fine : Consumes (quote ∷ a, rest) (quote ∷ cs) = (omega arith, ap (λ t. quote ∷ t) h) in
      if-Yields (quote == 39) _ _ (quote ∷ cs)
        (λ _. if-Yields (length bytes == 1) _ _ (quote ∷ cs) (λ _. (fine, refl)) (λ _. tt))
        (λ _. (fine, refl))

  literal-Yields :
      (c : ℕ) (cs : List ℕ) → Yields (literal c plain cs >>= quoted other_digit c) (c ∷ cs)
  literal-Yields c cs = go (literal c plain cs) (literal-Splits c plain cs)
    where
      go :
          (r : Result LexError Literal)
          → ((l : Literal) → r ≡ ok l → Splits l.1 cs)
          → Yields (r >>= quoted other_digit c) (c ∷ cs)
      go (err e) h = tt
      go (ok l) h = quoted-Yields c cs l (h l refl)

  operator-Yields : (c : ℕ) (cs : List ℕ) → Yields (operator other_digit c cs) (c ∷ cs)
  operator-Yields c cs =
      go (match_multi multi (c ∷ cs)) (λ k. match_multi-Consumes multi (c ∷ cs) k multi-AllSome)
    where
      go :
          (o : Option Cut)
          → ((k : Cut) → o ≡ some k → Consumes k (c ∷ cs))
          → Yields
              (let r : Result LexError Piece = elim o [
                | some (op, rest) ↦ ok (spelled (word op) (op, rest))
                | none ↦
                    if among c single
                    then ok (spelled (word (c ∷ [])) (c ∷ [], cs))
                    else err unexpected_character
              ] in
                r)
              (c ∷ cs)
      go (some k) h = (h k refl, refl)
      go none h =
          if-Yields (among c single) _ _ (c ∷ cs) (λ _. ((omega arith, refl), refl)) (λ _. tt)

  kept : (keep : Bool) (t : List ℕ) → Spelled (if keep then some (comment, t, none) else none) t
  kept true t = refl
  kept false t = tt

  pub scan-Yields :
      (keep : Bool) (c : ℕ) (cs : List ℕ) → Yields (scan other_digit keep c cs) (c ∷ cs)
  unfolding scan
  scan-Yields keep c cs =
      if-Yields (is_space c) _ _ (c ∷ cs) (λ h. (span-Consumes is_space c cs h, tt))
        (λ _.
          if-Yields (c == 47 && head_is (λ d. d == 47) cs) _ _ (c ∷ cs)
            (λ h. (
              span-Consumes (λ d. if d == 10 then false else true) c cs (ground (arith, h)),
              kept keep _,
            ))
            (λ _.
              if-Yields (starts_name c) _ _ (c ∷ cs)
                (λ _. ((omega arith, ap (λ t. c ∷ t) (span_while-Splits continues_name cs)), refl))
                (λ _.
                  if-Yields (is_digit other_digit c) _ _ (c ∷ cs) (λ _. number-Yields c cs)
                    (λ _.
                      if-Yields (c == 39 || c == 34) _ _ (c ∷ cs) (λ _. literal-Yields c cs)
                        (λ _. operator-Yields c cs)))))
