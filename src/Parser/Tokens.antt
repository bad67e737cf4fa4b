-- ===== src/Parser/Tokens.antt =====
-- The tokens that `Parser` reads: what `Parser.__init__` keeps of the lexer's, less the spans.
use Prim.Native.Char.{Char, char, nul, IsScalar}
use l.Base.{ℕ, ◌<◌, String, Option, none, some, List, [], ◌∷◌, arith, dec_lt}
use l.Lexer.Cuts.{Kind, Tok}

-- A keyword or operator is `word` with its spelling; a byte literal has one byte.
pub data Token : Type 0 where
  name int float word : String → Token
  byte : ℕ → Token
  string : List ℕ → Token
  eof : Token

below-IsScalar : (n : ℕ) → n < 55296 → IsScalar n
below-IsScalar n h = ground arith

above-IsScalar : (n : ℕ) → 57343 < n → n < 1114112 → IsScalar n
above-IsScalar n h k = ground arith

-- chr(n); a surrogate has no character of its own
unfoldable pub chr : ℕ → Char
unfolding below-IsScalar above-IsScalar dec_lt
chr n = elim (dec_lt n 55296) [
  | yes h ↦ char n (below-IsScalar n h)
  | no _ ↦ elim (dec_lt 57343 n) [
    | yes h ↦ elim (dec_lt n 1114112) [ yes k ↦ char n (above-IsScalar n h k) | no _ ↦ nul ]
    | no _ ↦ nul
  ]
]

unfoldable pub text_of : List ℕ → String
unfolding chr
text_of [] = String.[]
text_of (c ∷ cs) = String.◌∷◌ (chr c) (text_of cs)

-- int(x.text) of a byte literal
abbrev byte_of : List ℕ → ℕ
byte_of (b ∷ []) = b
byte_of _ = 0

abbrev pub token_of : Kind → List ℕ → Option Token
token_of Kind.name t = some (name (text_of t))
token_of Kind.int t = some (int (text_of t))
token_of Kind.float t = some (float (text_of t))
token_of Kind.byte t = some (byte (byte_of t))
token_of Kind.string t = some (string t)
token_of Kind.comment t = none
token_of Kind.eof t = some eof
token_of (Kind.word w) t = some (word (text_of w))

abbrev pub keep : Option Token → List Token → List Token
keep none ts = ts
keep (some t) ts = t ∷ ts

-- [t for t in Lexer(src).lex() if t.kind != "COMMENT"]
unfoldable pub read_tokens : List Tok → List Token
unfolding text_of
read_tokens [] = []
read_tokens (t ∷ ts) = keep (token_of t.kind t.text) (read_tokens ts)
