-- ===== src/Lexer/Cuts.antt =====
-- Tokens, and the scanners of `Lexer.lex` that need no table of digits: each returns what it consumed
-- and what it left.
use l.Base.{
  ℕ, ◌+◌, ◌*◌, Bool, true, false, Option, none, some, List, [], ◌∷◌, ◌++◌, map, ◌&&◌, ◌||◌, ◌==◌,
  if◌then◌else◌,
}
use l.Base.Results.{Result, ok, err, ◌>>=◌}
use l.Lexer.Chars.{codes, hex_value, utf8, escape_value}

-- The kind of a keyword or an operator is its own text.
pub data Kind : Type 0 where
  name int float byte string comment eof : Kind
  word : List ℕ → Kind

-- The text of a byte or string literal is the list of its bytes, which the source spells in decimal
-- or hexadecimal; `raw` is its spelling in the program.
pub record Tok : Type 0 where
  pub kind : Kind
  pub text : List ℕ
  pub start : ℕ
  pub stop : ℕ
  pub line : ℕ
  pub col : ℕ
  pub end_line : ℕ
  pub end_col : ℕ
  pub raw : Option (List ℕ)

pub data LexError : Type 0 where
  base_digit_expected crosses_line unfinished_escape bad_hex_escape unknown_escape : LexError
  unterminated_literal byte_literal_length unexpected_character : LexError

abbrev pub keywords : List (List ℕ)
keywords = map codes (
    "import" ∷ "as" ∷ "pub" ∷ "const" ∷ "struct" ∷ "enum" ∷ "fn" ∷ "var" ∷ "if" ∷ "else" ∷ "while"
    ∷ "for" ∷ "in" ∷ "match" ∷ "let" ∷ "return" ∷ "break" ∷ "continue" ∷ "trap" ∷ "true" ∷ "false"
    ∷ "none" ∷ "some" ∷ "ref" ∷ "new" ∷ "is" ∷ [])

-- MULTI, in the order in which it is tried
abbrev pub multi : List (List ℕ)
multi = map codes (
    "<<=" ∷ ">>=" ∷ "==" ∷ "!=" ∷ "<=" ∷ ">=" ∷ "&&" ∷ "||" ∷ "<<" ∷ ">>" ∷ "+=" ∷ "-=" ∷ "*="
    ∷ "/=" ∷ "%=" ∷ "&=" ∷ "|=" ∷ "^=" ∷ "->" ∷ [])

abbrev pub single : List ℕ
single = codes "(){}[],:;.?+-*/%~!<>=&|^"

abbrev pub Cut : Type 0
Cut = List ℕ × List ℕ

abbrev pub prepend : ℕ → Cut → Cut
prepend c (a, b) = (c ∷ a, b)

-- while i < n and p(s[i]): i += 1
unfoldable pub span_while : (ℕ → Bool) → List ℕ → Cut
span_while p [] = ([], [])
span_while p (c ∷ cs) = let rest = span_while p cs in if p c then prepend c rest else ([], c ∷ cs)

abbrev pub head_is : (ℕ → Bool) → List ℕ → Bool
head_is p [] = false
head_is p (c ∷ cs) = p c

-- Digits with single underscores between them; `prev` says that a digit stands before.
unfoldable pub digits : (ℕ → Bool) → Bool → List ℕ → Cut
digits valid prev [] = ([], [])
digits valid prev (c ∷ cs) =
    let rest = digits valid (valid c) cs in
    if valid c || (c == 95 && (prev && head_is valid cs)) then prepend c rest else ([], c ∷ cs)

-- s.startswith(op, i)
unfoldable pub strip_prefix : List ℕ → List ℕ → Option (List ℕ)
strip_prefix [] cs = some cs
strip_prefix (p ∷ ps) [] = none
strip_prefix (p ∷ ps) (c ∷ cs) = if p == c then strip_prefix ps cs else none

unfoldable pub match_multi : List (List ℕ) → List ℕ → Option Cut
unfolding strip_prefix
match_multi [] cs = none
match_multi (op ∷ ops) cs = elim (strip_prefix op cs) [
  | some rest ↦ some (op, rest)
  | none ↦ match_multi ops cs
]

abbrev pub same_text : List ℕ → List ℕ → Bool
same_text [] [] = true
same_text (a ∷ as') (b ∷ bs) = a == b && same_text as' bs
same_text _ _ = false

abbrev pub any_same : List ℕ → List (List ℕ) → Bool
any_same t [] = false
any_same t (w ∷ ws) = same_text t w || any_same t ws

-- txt if txt in KEYWORDS else "NAME"
abbrev pub name_kind : List ℕ → Kind
name_kind t = if any_same t keywords then word t else name

-- A literal is read one code point at a time. `hex_second h` has read the first digit after \x.
pub data Mode : Type 0 where
  plain escaped hex_first : Mode
  hex_second : ℕ → Mode

pub data Move : Type 0 where
  close : Move
  fail : LexError → Move
  go : Mode → List ℕ → Move

unfoldable pub literal_move : ℕ → Mode → ℕ → Move
unfolding hex_value escape_value utf8
literal_move quote plain c =
    if c == quote
    then close
    else if c == 10
    then fail crosses_line
    else if c == 92
    then go escaped []
    else go plain (utf8 c)
literal_move quote escaped c =
    if c == b'x'
    then go hex_first []
    else elim (escape_value c) [ some v ↦ go plain (v ∷ []) | none ↦ fail unknown_escape ]
literal_move quote hex_first c = elim (hex_value c) [
  | some v ↦ go (hex_second v) []
  | none ↦ fail bad_hex_escape
]
literal_move quote (hex_second h) c = elim (hex_value c) [
  | some v ↦ go plain ((16 * h + v) ∷ [])
  | none ↦ fail bad_hex_escape
]

-- the error where the text ends inside a literal
abbrev pub literal_end : Mode → LexError
literal_end plain = unterminated_literal
literal_end escaped = unfinished_escape
literal_end hex_first = bad_hex_escape
literal_end (hex_second h) = bad_hex_escape

-- the bytes of a literal, and its cut with the closing quote
abbrev pub Literal : Type 0
Literal = List ℕ × Cut

abbrev pub add_piece : ℕ → List ℕ → Literal → Literal
add_piece c bs (bytes, cut) = (bs ++ bytes, prepend c cut)

unfoldable pub literal : ℕ → Mode → List ℕ → Result LexError Literal
unfolding literal_move
literal quote m [] = err (literal_end m)
literal quote m (c ∷ cs) = elim (literal_move quote m c) [
  | close ↦ ok ([], (c ∷ [], cs))
  | fail e ↦ err e
  | go m' bs ↦ literal quote m' cs >>= λ l. ok (add_piece c bs l)
]
