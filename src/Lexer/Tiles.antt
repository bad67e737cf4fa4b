-- ===== src/Lexer/Tiles.antt =====
-- The main loop of `Lexer.lex`: its tokens against the text, and its rounds.
use mathlib.Core.Path.{subst}
use l.Base.{
  ℕ, zero, suc, ◌+◌, ◌-◌, ◌<◌, ◌≤◌, Bool, Option, none, some, List, [], ◌∷◌, ◌++◌, ◌≡◌, refl, ap,
  sym, ◌∙◌, arith, length, take, drop, length-append, ◌⊎◌, inl, inr,
}
use mathlib.Core.List.{append_assoc, append-nil}
use l.Base.Results.{Result, ok, err, ◌>>=◌, bind_ok}
use l.Lexer.{
  Position, advance, advance_one, emit, placed, eof_at, LexFailure, out_of_fuel, raise_lexical,
  lex_loop, lex, origin,
}
use l.Lexer.Cuts.{Kind, eof, Tok, LexError}
use l.Lexer.Scan.{Piece, scan}
use l.Lexer.Pieces.{Yields, Spelled, scan-Yields}

pub advance_offset : (a : List ℕ) (p : Position) → (advance a p).offset ≡ p.offset + length a
unfolding advance
advance_offset [] p = omega arith
advance_offset (c ∷ a) p =
    let one : (advance_one c p).offset ≡ p.offset + 1 = ground arith in
    omega (arith, one, advance_offset a (advance_one c p))

-- what a token spells in the program
abbrev pub spelling : Tok → List ℕ
spelling t = elim t.raw [ some r ↦ r | none ↦ t.text ]

-- The text between two offsets.
abbrev pub slice : List ℕ → ℕ → ℕ → List ℕ
slice src i j = take (j - i) (drop i src)

-- From offset i on: each token stands behind the one before, is not empty and spells the text that it
-- spans; the last one is the end of the file, and stands at the end of the text.
abbrev pub Tiles : List ℕ → ℕ → List Tok → Type 0
Tiles src i [] = ⊥
Tiles src i (t ∷ []) = (t.kind ≡ eof) × (t.start ≡ length src) × (t.stop ≡ length src)
Tiles src i (t ∷ ts) =
    (i ≤ t.start)
    × (t.start < t.stop)
    × (t.stop ≤ length src)
    × (spelling t ≡ slice src t.start t.stop)
    × Tiles src t.stop ts

take_front : (a b : List ℕ) → take (length a) (a ++ b) ≡ a
take_front [] b = refl
take_front (x ∷ a) b = ap (λ t. x ∷ t) (take_front a b)

drop_front : (a b : List ℕ) → drop (length a) (a ++ b) ≡ b
drop_front [] b = refl
drop_front (x ∷ a) b = drop_front a b

slice_middle :
    (pre a b : List ℕ) (i j : ℕ)
    → i ≡ length pre
    → j ≡ i + length a
    → slice (pre ++ (a ++ b)) i j ≡ a
slice_middle pre a b i j e f =
    let width : j - i ≡ length a = omega (arith, f) in
    rw (width, e, drop_front pre (a ++ b)) (take_front a b)

Tiles-weaken : (src : List ℕ) (i j : ℕ) (ts : List Tok) → i ≤ j → Tiles src j ts → Tiles src i ts
Tiles-weaken src i j [] le h = h
Tiles-weaken src i j (t ∷ []) le h = h
Tiles-weaken src i j (t ∷ u ∷ ts) le h = (omega (arith, le, h.0), h.1, h.2, h.3, h.4)

emit-Tiles :
    (src a : List ℕ) (p q : Position) (tok : Option (Kind × List ℕ × Option (List ℕ)))
    (us : List Tok)
    → Spelled tok a
    → slice src p.offset q.offset ≡ a
    → p.offset < q.offset
    → q.offset ≤ length src
    → Tiles src q.offset us
    → Tiles src p.offset (emit (placed p q tok) us)
emit-Tiles src a p q none us sp sl lt le h = Tiles-weaken src p.offset q.offset us (omega arith) h
emit-Tiles src a p q (some (k, t, r)) [] sp sl lt le h = absurd h
emit-Tiles src a p q (some (k, t, none)) (u ∷ us) sp sl lt le h =
    (omega arith, lt, le, sp ∙ sym sl, h)
emit-Tiles src a p q (some (k, t, some r)) (u ∷ us) sp sl lt le h =
    (omega arith, lt, le, sp ∙ sym sl, h)

module _ (other_digit : ℕ → Bool) where
  Yields-ok :
      (r : Result LexError Piece) (cs : List ℕ) (p : Piece)
      → Yields r cs
      → raise_lexical r ≡ ok p
      → Yields (ok p) cs
  Yields-ok (ok q) cs p y h = let e : q ≡ p = cc in subst (λ x. Yields (ok x) cs) e y
  Yields-ok (err x) cs p y h = cc

  Yields-fuel : (r : Result LexError Piece) → ¬ (raise_lexical r ≡ err out_of_fuel)
  Yields-fuel (ok q) h = cc
  Yields-fuel (err x) h = cc

  bind_fuel :
      {A B : Type 0} (r : Result LexFailure A) (k : A → Result LexFailure B)
      → (r >>= k) ≡ err out_of_fuel
      → (r ≡ err out_of_fuel) ⊎ ((a : A) × (r ≡ ok a) × (k a ≡ err out_of_fuel))
  bind_fuel (ok a) k h = inr (a, refl, h)
  bind_fuel (err e) k h = inl cc

  abbrev tokens : List Tok → Result LexFailure (List Tok)
  tokens ts = ok ts

  the_tokens : {a b : List Tok} → tokens a ≡ ok b → a ≡ b
  the_tokens h = cc

  loop-Tiles :
      (f : ℕ) (keep : Bool) (p : Position) (pre cs : List ℕ) (ts : List Tok)
      → p.offset ≡ length pre
      → lex_loop other_digit f keep p cs ≡ ok ts
      → Tiles (pre ++ cs) p.offset ts
  unfolding lex_loop
  loop-Tiles f keep p pre [] ts e h =
      let same : eof_at p ∷ [] ≡ ts = cc in
      let n : p.offset ≡ length (pre ++ []) = rw append-nil e in
      subst (Tiles (pre ++ []) p.offset) same (refl, n, n)
  loop-Tiles zero keep p pre (c ∷ cs) ts e h = cc
  loop-Tiles (suc f) keep p pre (c ∷ cs) ts e h =
      let (piece, r, k) = bind_ok (raise_lexical (scan other_digit keep c cs)) _ h in
      let (taken, named) =
        Yields-ok (scan other_digit keep c cs) (c ∷ cs) piece (scan-Yields other_digit keep c cs)
          r in
      let (a, b) = piece.cut in
      let q = advance a p in
      let (us, s, w) = bind_ok (lex_loop other_digit f keep q b) _ k in
      let off : q.offset ≡ length (pre ++ a) =
        omega (arith, advance_offset a p, length-append pre a, e) in
      let rest = loop-Tiles f keep q (pre ++ a) b us off s in
      let src = pre ++ c ∷ cs in
      let same : pre ++ (a ++ b) ≡ src = ap (λ t. pre ++ t) taken.1 in
      let grouped : (pre ++ a) ++ b ≡ src = append_assoc pre a b ∙ same in
      let size = ap length same in
      let spans = slice_middle pre a b p.offset q.offset e (advance_offset a p) in
      let tiled =
        emit-Tiles src a p q piece.token us named
          (subst (λ t. slice t p.offset q.offset ≡ a) same spans)
          (omega (arith, advance_offset a p, taken.0))
          (omega
            (arith, advance_offset a p, size, length-append pre (a ++ b), length-append a b, e))
          (subst (λ t. Tiles t q.offset us) grouped rest) in
      subst (Tiles src p.offset) (the_tokens w) tiled

  -- The main loop never runs out of fuel: each round consumes text.
  loop-total :
      (f : ℕ) (keep : Bool) (p : Position) (cs : List ℕ)
      → length cs ≤ f
      → ¬ (lex_loop other_digit f keep p cs ≡ err out_of_fuel)
  unfolding lex_loop
  loop-total f keep p [] le h = cc
  loop-total zero keep p (c ∷ cs) le h = omega arith
  loop-total (suc f) keep p (c ∷ cs) le h =
      elim (bind_fuel (raise_lexical (scan other_digit keep c cs)) _ h) [
        | inl e ↦ Yields-fuel (scan other_digit keep c cs) e
        | inr (piece, r, k) ↦
            let (taken, named) =
              Yields-ok (scan other_digit keep c cs) (c ∷ cs) piece
                (scan-Yields other_digit keep c cs) r in
            let (a, b) = piece.cut in
            let shorter = length-append a b in
            let whole = ap length taken.1 in
            elim (bind_fuel (lex_loop other_digit f keep (advance a p) b) _ k) [
              | inl e ↦
                  loop-total f keep (advance a p) b (omega (arith, shorter, whole, taken.0, le)) e
              | inr (us, s, w) ↦ cc
            ]
      ]

  -- With offsets counted in code points, the tokens of a text that the lexer accepts stand one behind the
  -- other, none but the end of the file is empty, each spells the text between its two offsets, and the
  -- last is the end of the file, at the end of the text.
  pub lex-Tiles :
      (keep : Bool) (src : List ℕ) (ts : List Tok)
      → lex other_digit keep src ≡ ok ts
      → Tiles src 0 ts
  unfolding lex
  lex-Tiles keep src ts h = loop-Tiles (length src) keep (origin other_digit) [] src ts refl h

  -- The lexer always comes to an end: as many rounds as the text has code points are enough.
  pub lex-total : (keep : Bool) (src : List ℕ) → ¬ (lex other_digit keep src ≡ err out_of_fuel)
  unfolding lex
  lex-total keep src = loop-total (length src) keep (origin other_digit) src (omega arith)
