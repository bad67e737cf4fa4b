-- ===== src/Parser/Types/Printed.antt =====
-- `Ty.__str__` and `ConstArrayTy.__str__`, in tokens, against `Parser.type`.
use l.Base.{
  ℕ, zero, suc, ◌+◌, ◌≤◌, String, Bool, true, false, Option, some, none, List, [], ◌∷◌, ◌++◌, ◌≡◌,
  refl, arith, length, ap, ◌∙◌,
}
use mathlib.Core.List.{append_assoc, append-nil}
use l.Base.Results.{Result, ok}
use l.Types.{Ty, Tys, nil, cons}
use l.Parser.Tokens.{Token, name, word}
use l.Parser.Monad.{Parse, Failure, ◌>>=◌, ret, fail, look, is_word, maybe, checked, take_name}
use l.Parser.Types.{qname_rest}

-- ".".join(q), and then the rest
abbrev pub dots : List String → List Token → List Token
dots [] rest = rest
dots (n ∷ ns) rest = word "." ∷ name n ∷ dots ns rest

abbrev pub joined : List String → List Token → List Token
joined [] rest = rest
joined (n ∷ ns) rest = name n ∷ dots ns rest

-- "" for unit, and otherwise " -> " with the type
abbrev pub arrow : Ty → List Token → List Token → List Token
arrow Ty.unit rest printed = rest
arrow _ rest printed = word "->" ∷ printed

-- The tokens of str(t), and then the rest.
unfoldable mutual
  pub print_type : Ty → List Token → List Token
  print_type Ty.unit rest = word "(" ∷ word ")" ∷ rest
  print_type (Ty.name q nil) rest = joined q rest
  print_type (Ty.name q (cons t ts)) rest =
      joined q (word "[" ∷ print_type t (print_more ts (word "]" ∷ rest)))
  print_type (Ty.opt t) rest = word "?" ∷ print_type t rest
  print_type (Ty.ref t) rest = word "ref" ∷ print_type t rest
  print_type (Ty.array t) rest = word "[" ∷ word "]" ∷ print_type t rest
  print_type (Ty.const_array t) rest = word "const" ∷ word "[" ∷ word "]" ∷ print_type t rest
  print_type (Ty.fn nil r) rest = word "fn" ∷ word "(" ∷ word ")" ∷ arrow r rest (print_type r rest)
  print_type (Ty.fn (cons t ts) r) rest =
      word "fn"
      ∷ word "("
      ∷ print_type t (print_more ts (word ")" ∷ arrow r rest (print_type r rest)))
  print_type (Ty.param n) rest = name n ∷ rest

  -- ", " and the next type
  pub print_more : Tys → List Token → List Token
  print_more nil rest = rest
  print_more (cons t ts) rest = word "," ∷ print_type t (print_more ts rest)

-- A type that source text can spell: no generic parameter, and no name without a part.
abbrev Named : List String → Type 0
Named [] = ⊥
Named (n ∷ ns) = Unit

abbrev mutual
  pub IsWritten : Ty → Type 0
  IsWritten Ty.unit = Unit
  IsWritten (Ty.name q ts) = Named q × AllWritten ts
  IsWritten (Ty.opt t) = IsWritten t
  IsWritten (Ty.ref t) = IsWritten t
  IsWritten (Ty.array t) = IsWritten t
  IsWritten (Ty.const_array t) = IsWritten t
  IsWritten (Ty.fn ps r) = AllWritten ps × IsWritten r
  IsWritten (Ty.param n) = ⊥

  pub AllWritten : Tys → Type 0
  AllWritten nil = Unit
  AllWritten (cons t ts) = IsWritten t × AllWritten ts

-- What stands behind a type cannot go on with it.
abbrev pub Stops : List Token → Type 0
Stops [] = ⊥
Stops (t ∷ ts) = (is_word "." t ≡ false) × (is_word "[" t ≡ false) × (is_word "->" t ≡ false)

abbrev mutual
  pub size : Ty → ℕ
  size Ty.unit = 1
  size (Ty.name q ts) = length q + size_all ts + 2
  size (Ty.opt t) = size t + 1
  size (Ty.ref t) = size t + 1
  size (Ty.array t) = size t + 1
  size (Ty.const_array t) = size t + 1
  size (Ty.fn ps r) = size_all ps + size r + 3
  size (Ty.param n) = 1

  pub size_all : Tys → ℕ
  size_all nil = 1
  size_all (cons t ts) = size t + size_all ts + 2

pub maybe-skip :
    {A : Type 0} (k : String) (p q : Parse A) (t : Token) (ts : List Token)
    → is_word k t ≡ false
    → maybe k p q (t ∷ ts) ≡ q (t ∷ ts)
unfolding look
maybe-skip {A = A} k p q t ts e = go (is_word k t) e
  where
    go :
        (c : Bool)
        → c ≡ false
        → (let o : Option (Unit {0}) = checked c in
            let r : Result Failure (A × List Token) = elim o [
              | some x ↦ p ts
              | none ↦ q (t ∷ ts)
            ] in
            r)
          ≡ q (t ∷ ts)
    go true e = cc
    go false e = refl

pub qname_rest-dots :
    (f : ℕ) (parts ns : List String) (t : Token) (rest : List Token)
    → is_word "." t ≡ false
    → length ns + 1 ≤ f
    → qname_rest f parts (dots ns (t ∷ rest)) ≡ ok (parts ++ ns, t ∷ rest)
unfolding qname_rest ◌>>=◌ ret look fail
qname_rest-dots zero parts ns t rest d le = absurd (omega arith)
qname_rest-dots (suc f) parts [] t rest d le =
    maybe-skip "." (take_name >>= λ n. qname_rest f (parts ++ n ∷ [])) (ret parts) t rest d
    ∙ ap (λ ps. ok (ps, t ∷ rest)) (l.Base.sym (append-nil parts))
qname_rest-dots (suc f) parts (n ∷ ns) t rest d le =
    qname_rest-dots f (parts ++ n ∷ []) ns t rest d (omega arith)
    ∙ ap (λ ps. ok (ps, t ∷ rest)) (append_assoc parts (n ∷ []) ns)
