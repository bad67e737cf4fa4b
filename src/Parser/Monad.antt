-- ===== src/Parser/Monad.antt =====
-- The steps of `Parser` on its tokens: `t`, `take` and `maybe`. The state `self.i` is the list of the
-- tokens from there on; `self.ts[self.i]` behind the last one is an IndexError.
use l.Base.{String, Bool, true, false, Option, none, some, List, [], ◌∷◌, str_eq, if◌then◌else◌}
use l.Base.Results.{Result, ok, err}
use l.Parser.Tokens.{Token, name, word}

-- the messages of `LangError`, and what the parser does not catch
pub data SyntaxError : Type 0 where
  expected : String → SyntaxError
  expected_name const_needs_array imports_not_pub expected_declaration : SyntaxError
  expected_assignment expected_payload expected_pattern expected_expression : SyntaxError
  comparisons_chain : SyntaxError

pub data Failure : Type 0 where
  lang : SyntaxError → Failure
  index_error out_of_fuel : Failure

abbrev pub Parse : Type 0 → Type 0
Parse A = List Token → Result Failure (A × List Token)

-- the rest of a parse behind a first part
abbrev pub follow :
    {A B : Type 0}
    → Result Failure (A × List Token)
    → (A → Parse B)
    → Result Failure (B × List Token)
follow (ok (a, ts)) k = k a ts
follow (err e) k = err e

infixl 5 ◌>>=◌ ◌>>◌
unfoldable pub ◌>>=◌ : {A B : Type 0} → Parse A → (A → Parse B) → Parse B
◌>>=◌ p k ts = follow (p ts) k

abbrev pub ◌>>◌ : {A B : Type 0} → Parse A → Parse B → Parse B
p >> q = p >>= λ _. q

unfoldable pub ret : {A : Type 0} → A → Parse A
ret a ts = ok (a, ts)

unfoldable pub fail : {A : Type 0} → SyntaxError → Parse A
fail e ts = err (lang e)

unfoldable pub exhausted : {A : Type 0} → Parse A
exhausted ts = err out_of_fuel

-- `yes` reads on behind the next token if `test` knows it, and `no` before it otherwise
unfoldable pub look : {X A : Type 0} → (Token → Option X) → (X → Parse A) → Parse A → Parse A
look test found missing [] = err index_error
look test found missing (t ∷ ts) = elim (test t) [ some x ↦ found x ts | none ↦ missing (t ∷ ts) ]

-- if self.t(k): ... else: ...
unfoldable pub peek : {A : Type 0} → (Token → Bool) → Parse A → Parse A → Parse A
peek test here elsewhere [] = err index_error
peek test here elsewhere (t ∷ ts) = if test t then here (t ∷ ts) else elsewhere (t ∷ ts)

abbrev pub is_word : String → Token → Bool
is_word k (word w) = str_eq w k
is_word k _ = false

abbrev pub checked : Bool → Option (Unit {0})
checked true = some tt
checked false = none

abbrev pub a_word : String → Token → Option (Unit {0})
a_word k t = checked (is_word k t)

abbrev pub a_name : Token → Option String
a_name (name n) = some n
a_name _ = none

-- if self.maybe(k): ... else: ...
abbrev pub maybe : {A : Type 0} → String → Parse A → Parse A → Parse A
maybe k found missing = look (a_word k) (λ _. found) missing

-- self.take(k)
abbrev pub take : String → Parse (Unit {0})
take k = look (a_word k) ret (fail (expected k))

abbrev pub take_name : Parse String
take_name = look a_name ret (fail expected_name)

-- if self.t("NAME") and self.ts[self.i + 1].kind == "in", and both are taken
unfoldable pub look_in : {A : Type 0} → (String → Parse A) → Parse A → Parse A
look_in found missing [] = err index_error
look_in found missing (name n ∷ []) = err index_error
look_in found missing (name n ∷ t ∷ ts) =
    if is_word "in" t then found n ts else missing (name n ∷ t ∷ ts)
look_in found missing (t ∷ ts) = missing (t ∷ ts)

-- A parse in `try`: its LangError, and its answer none, put `self.i` back.
abbrev pub restore :
    {A : Type 0}
    → List Token
    → Result Failure (Option A × List Token)
    → Result Failure (Option A × List Token)
restore ts (ok (some a, rest)) = ok (some a, rest)
restore ts (ok (none, rest)) = ok (none, ts)
restore ts (err (lang e)) = ok (none, ts)
restore ts (err index_error) = err index_error
restore ts (err out_of_fuel) = err out_of_fuel

unfoldable pub attempt : {A : Type 0} → Parse (Option A) → Parse (Option A)
attempt p ts = restore ts (p ts)
