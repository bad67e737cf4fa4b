-- ===== src/Parser/Decls/Total.antt =====
-- `Lexer.lex` and `Parser.program`, one behind the other.
use l.Base.{
  ℕ, Bool, ◌+◌, ◌*◌, ◌≡◌, refl, List, [], ◌∷◌, Option, none, some, length, arith, ◌⊎◌, inl, inr,
}
use l.Base.Results.{Result, ok, err}
use l.Lexer.{lex}
use l.Lexer.Cuts.{Kind, Tok}
use l.Lexer.Tiles.{Tiles, lex-Tiles}
use l.Syntax.{Decl}
use l.Parser.Tokens.{Token, token_of, keep, read_tokens}
use l.Parser.Monad.{Failure, lang, index_error, out_of_fuel, SyntaxError}
use l.Parser.Consumes.{EndsEof, Leaves}
use l.Parser.Decls.{program, parse, answer}
use l.Parser.Decls.Fuel.{program-Consumes}

keep-EndsEof : (o : Option Token) (ts : List Token) → EndsEof ts → EndsEof (keep o ts)
keep-EndsEof none ts h = h
keep-EndsEof (some t) [] h = absurd h
keep-EndsEof (some t) (u ∷ ts) h = h

last-EndsEof : (k : Kind) (t : List ℕ) → k ≡ Kind.eof → EndsEof (keep (token_of k t) [])
last-EndsEof Kind.eof t e = refl
last-EndsEof Kind.name t e = cc
last-EndsEof Kind.int t e = cc
last-EndsEof Kind.float t e = cc
last-EndsEof Kind.byte t e = cc
last-EndsEof Kind.string t e = cc
last-EndsEof Kind.comment t e = cc
last-EndsEof (Kind.word w) t e = cc

read_tokens-EndsEof :
    (src : List ℕ) (i : ℕ) (toks : List Tok) → Tiles src i toks → EndsEof (read_tokens toks)
unfolding read_tokens
read_tokens-EndsEof src i [] h = h
read_tokens-EndsEof src i (t ∷ []) h = last-EndsEof t.kind t.text h.0
read_tokens-EndsEof src i (t ∷ u ∷ toks) h =
    keep-EndsEof (token_of t.kind t.text) (read_tokens (u ∷ toks))
      (read_tokens-EndsEof src t.stop (u ∷ toks) h.4)

-- a tree, or a LangError
abbrev pub Settled : Result Failure (List Decl) → Type 0
Settled r = ((ds : List Decl) × (r ≡ ok ds)) ⊎ ((e : SyntaxError) × (r ≡ err (lang e)))

answer-Settled :
    (b : ℕ) (r : Result Failure (List Decl × List Token)) → Leaves b r → Settled (answer r)
answer-Settled b (ok (ds, ts)) h = inl (ds, refl)
answer-Settled b (err (lang e)) h = inr (e, refl)
answer-Settled b (err index_error) h = absurd h
answer-Settled b (err out_of_fuel) h = absurd h

-- On the tokens of any text that the lexer accepts, the parser comes to an end with a tree or with a
-- LangError: it never runs out of the fuel that the number of tokens gives, and never reads behind
-- the last token.
pub parse-Settled :
    (other_digit : ℕ → Bool) (keep_comments : Bool) (src : List ℕ) (toks : List Tok)
    → lex other_digit keep_comments src ≡ ok toks
    → Settled (parse toks)
unfolding parse
parse-Settled other_digit keep_comments src toks h =
    let ends = read_tokens-EndsEof src 0 toks (lex-Tiles other_digit keep_comments src toks h) in
    let ts = read_tokens toks in
    answer-Settled (length ts) (program (8 * length ts + 4) ts)
      ((program-Consumes (8 * length ts + 4) (omega arith)).at ts (omega arith, ends))
