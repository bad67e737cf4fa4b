-- ===== src/Parser/Types/RoundTrip.antt =====
-- `Parser.type` on the tokens of `str` of a type.
use l.Base.{
  ℕ, zero, suc, ◌+◌, ◌≤◌, String, Bool, true, false, List, [], ◌∷◌, ◌≡◌, refl, arith, ap, ◌∙◌,
}
use l.Base.Results.{ok}
use l.Types.{Ty, Tys, nil, cons}
use l.Parser.Tokens.{Token, word}
use l.Parser.Monad.{Parse, ◌>>=◌, ◌>>◌, ret, fail, look, peek, follow, is_word, maybe, take}
use l.Parser.Types.{qname, type, result_type, types, types_from}
use l.Parser.Types.Printed.{
  print_type, print_more, arrow, IsWritten, AllWritten, Stops, size, size_all, maybe-skip,
  qname_rest-dots,
}

-- the bracket behind a list of types
abbrev closer : Bool → String
closer true = ")"
closer false = "]"

peek-print :
    {A : Type 0} (b : Bool) (t : Ty) (p q : Parse A) (rest : List Token)
    → IsWritten t
    → peek (is_word (closer b)) p q (print_type t rest) ≡ q (print_type t rest)
unfolding peek print_type
peek-print true Ty.unit p q rest w = refl
peek-print true (Ty.name [] ts) p q rest w = absurd w.0
peek-print true (Ty.name (n ∷ ns) nil) p q rest w = refl
peek-print true (Ty.name (n ∷ ns) (cons t ts)) p q rest w = refl
peek-print true (Ty.opt t) p q rest w = refl
peek-print true (Ty.ref t) p q rest w = refl
peek-print true (Ty.array t) p q rest w = refl
peek-print true (Ty.const_array t) p q rest w = refl
peek-print true (Ty.fn nil r) p q rest w = refl
peek-print true (Ty.fn (cons t ts) r) p q rest w = refl
peek-print true (Ty.param n) p q rest w = refl
peek-print false Ty.unit p q rest w = refl
peek-print false (Ty.name [] ts) p q rest w = absurd w.0
peek-print false (Ty.name (n ∷ ns) nil) p q rest w = refl
peek-print false (Ty.name (n ∷ ns) (cons t ts)) p q rest w = refl
peek-print false (Ty.opt t) p q rest w = refl
peek-print false (Ty.ref t) p q rest w = refl
peek-print false (Ty.array t) p q rest w = refl
peek-print false (Ty.const_array t) p q rest w = refl
peek-print false (Ty.fn nil r) p q rest w = refl
peek-print false (Ty.fn (cons t ts) r) p q rest w = refl
peek-print false (Ty.param n) p q rest w = refl

Stops-more :
    (b : Bool) (ts : Tys) (rest : List Token) → Stops (print_more ts (word (closer b) ∷ rest))
unfolding print_type
Stops-more true nil rest = (refl, refl, refl)
Stops-more false nil rest = (refl, refl, refl)
Stops-more b (cons t ts) rest = (refl, refl, refl)

-- what `types_from` does behind a type
abbrev more : ℕ → Bool → Ty → Parse Tys
more f b t = maybe "," (types f (closer b) >>= λ ts. ret (cons t ts)) (ret (cons t nil))

types-print :
    (f : ℕ) (b : Bool) (t : Ty) (ts : Tys) (rest : List Token)
    → IsWritten t
    → (let x = print_more ts (word (closer b) ∷ rest) in type f (print_type t x) ≡ ok (t, x))
    → more f b t (print_more ts (word (closer b) ∷ rest)) ≡ ok (cons t ts, word (closer b) ∷ rest)
    → types (suc (suc f)) (closer b) (print_type t (print_more ts (word (closer b) ∷ rest)))
      ≡ ok (cons t ts, word (closer b) ∷ rest)
unfolding type ◌>>=◌
types-print f b t ts rest w first others =
    let x = print_more ts (word (closer b) ∷ rest) in
    peek-print b t (ret nil) (types_from (suc f) (closer b)) x w
    ∙ ap (λ r. follow r (more f b)) first
    ∙ others

result-print :
    (f : ℕ) (r : Ty) (t : Token) (rest printed : List Token)
    → is_word "->" t ≡ false
    → type f printed ≡ ok (r, t ∷ rest)
    → result_type (suc f) (arrow r (t ∷ rest) printed) ≡ ok (r, t ∷ rest)
unfolding type look ret
result-print f Ty.unit t rest printed a h = maybe-skip "->" (type f) (ret Ty.unit) t rest a
result-print f (Ty.name q ts) t rest printed a h = h
result-print f (Ty.opt r) t rest printed a h = h
result-print f (Ty.ref r) t rest printed a h = h
result-print f (Ty.array r) t rest printed a h = h
result-print f (Ty.const_array r) t rest printed a h = h
result-print f (Ty.fn ps r) t rest printed a h = h
result-print f (Ty.param n) t rest printed a h = h

size_pos : (t : Ty) → 1 ≤ size t
size_pos Ty.unit = omega arith
size_pos (Ty.name q ts) = omega arith
size_pos (Ty.opt t) = omega arith
size_pos (Ty.ref t) = omega arith
size_pos (Ty.array t) = omega arith
size_pos (Ty.const_array t) = omega arith
size_pos (Ty.fn ps r) = omega arith
size_pos (Ty.param n) = omega arith

abbrev type_args : ℕ → List String → Parse Ty
type_args f q =
    maybe "[" (types f "]" >>= λ as'. take "]" >> ret (Ty.name q as')) (ret (Ty.name q nil))

at_head :
    (f : ℕ) (t : Ty) (rest : List Token)
    → Stops rest
    → ((u : Token) (us : List Token)
        → Stops (u ∷ us)
        → type f (print_type t (u ∷ us)) ≡ ok (t, u ∷ us))
    → type f (print_type t rest) ≡ ok (t, rest)
at_head f t [] s h = absurd s
at_head f t (u ∷ us) s h = h u us s

more_prints :
    (t : Ty) (ts : Tys) (f : ℕ) (b : Bool) (rest : List Token)
    → AllWritten ts
    → size_all ts ≤ f
    → ((u : Ty) (us : Tys)
        → IsWritten u × AllWritten us
        → size u + size_all us + 2 ≤ f
        → types f (closer b) (print_type u (print_more us (word (closer b) ∷ rest)))
          ≡ ok (cons u us, word (closer b) ∷ rest))
    → more f b t (print_more ts (word (closer b) ∷ rest)) ≡ ok (cons t ts, word (closer b) ∷ rest)
unfolding ◌>>=◌ ret look print_type
more_prints t nil f true rest w le h = refl
more_prints t nil f false rest w le h = refl
more_prints t (cons u us) f b rest w le h = rw (h u us w (omega arith))

mutual
  unfolding type qname ◌>>=◌ ret look fail peek print_type

  type_prints :
      (f : ℕ) (t : Ty) (u : Token) (rest : List Token)
      → IsWritten t
      → Stops (u ∷ rest)
      → size t ≤ f
      → type f (print_type t (u ∷ rest)) ≡ ok (t, u ∷ rest)
  type_prints zero t u rest w s le = absurd (omega (arith, size_pos t))
  type_prints (suc f) Ty.unit u rest w s le = refl
  type_prints (suc f) (Ty.name [] ts) u rest w s le = absurd w.0
  type_prints (suc f) (Ty.name (n ∷ ns) nil) u rest w s le =
      ap (λ r. follow r (type_args f)) (qname_rest-dots f (n ∷ []) ns u rest s.0 (omega arith))
      ∙ maybe-skip "[" (types f "]" >>= λ as'. take "]" >> ret (Ty.name (n ∷ ns) as'))
          (ret (Ty.name (n ∷ ns) nil)) u rest s.1
  type_prints (suc f) (Ty.name (n ∷ ns) (cons t ts)) u rest w s le =
      ap (λ r. follow r (type_args f))
        (qname_rest-dots f (n ∷ []) ns (word "[")
          (print_type t (print_more ts (word "]" ∷ u ∷ rest))) refl (omega arith))
      ∙ rw (types_prints f t ts false (u ∷ rest) w.1 (omega arith))
  type_prints (suc f) (Ty.opt t) u rest w s le = rw (type_prints f t u rest w s (omega arith))
  type_prints (suc f) (Ty.ref t) u rest w s le = rw (type_prints f t u rest w s (omega arith))
  type_prints (suc f) (Ty.array t) u rest w s le = rw (type_prints f t u rest w s (omega arith))
  type_prints (suc f) (Ty.const_array t) u rest w s le =
      rw (type_prints f t u rest w s (omega arith))
  type_prints (suc zero) (Ty.fn nil r) u rest w s le = absurd (omega arith)
  type_prints (suc (suc f)) (Ty.fn nil r) u rest w s le = rw (
      result-print f r u rest (print_type r (u ∷ rest)) s.2
        (type_prints f r u rest w.1 s (omega arith)))
  type_prints (suc zero) (Ty.fn (cons t ts) r) u rest w s le = absurd (omega arith)
  type_prints (suc (suc f)) (Ty.fn (cons t ts) r) u rest w s le = rw (
    types_prints (suc f) t ts true (arrow r (u ∷ rest) (print_type r (u ∷ rest))) w.0 (omega arith),
    result-print f r u rest (print_type r (u ∷ rest)) s.2
        (type_prints f r u rest w.1 s (omega arith)),
  )
  type_prints (suc f) (Ty.param n) u rest w s le = absurd w

  types_prints :
      (f : ℕ) (t : Ty) (ts : Tys) (b : Bool) (rest : List Token)
      → IsWritten t × AllWritten ts
      → size t + size_all ts + 2 ≤ f
      → types f (closer b) (print_type t (print_more ts (word (closer b) ∷ rest)))
        ≡ ok (cons t ts, word (closer b) ∷ rest)
  types_prints zero t ts b rest w le = absurd (omega arith)
  types_prints (suc zero) t ts b rest w le = absurd (omega arith)
  types_prints (suc (suc f)) t ts b rest w le =
      types-print f b t ts rest w.0
        (at_head f t (print_more ts (word (closer b) ∷ rest)) (Stops-more b ts rest)
          (λ u us s. type_prints f t u us w.0 s (omega arith)))
        (more_prints t ts f b rest w.1 (omega arith)
          (λ u us w' le'. types_prints f u us b rest w' le'))

-- A type that source text can spell, printed as `str` prints it, is read back by the parser as that
-- type, from the front of any text that cannot go on with it, for any fuel from the type's size up.
pub type-print_type :
    (t : Ty) (f : ℕ) (rest : List Token)
    → IsWritten t
    → Stops rest
    → size t ≤ f
    → type f (print_type t rest) ≡ ok (t, rest)
type-print_type t f rest w s le = at_head f t rest s (λ u us s'. type_prints f t u us w s' le)
