-- ===== src/Lexer.antt =====
-- src/lang/core.py, class `Lexer`: the main loop of `lex`, over the code points of the source text.
pub mod Chars
pub mod Cuts
pub mod Scan
pub mod Splits
pub mod Pieces
pub mod Tiles
use l.Base.{ℕ, zero, suc, ◌+◌, Bool, Option, none, some, List, [], ◌∷◌, ◌==◌, if◌then◌else◌, length}
use l.Base.Results.{Result, ok, err, ◌>>=◌}
use l.Lexer.Cuts.{Kind, eof, Tok, LexError}
use l.Lexer.Scan.{Piece, scan}

-- offset, line and column
pub record Position : Type 0 where
  pub offset : ℕ
  pub line : ℕ
  pub col : ℕ

-- i += 1 and `advance`, for one code point: a line feed starts a line
abbrev pub advance_one : ℕ → Position → Position
advance_one c p =
    if c == 10
    then record { offset = p.offset + 1; line = p.line + 1; col = 1 }
    else record { offset = p.offset + 1; line = p.line; col = p.col + 1 }

unfoldable pub advance : List ℕ → Position → Position
advance [] p = p
advance (c ∷ cs) p = advance cs (advance_one c p)

abbrev pub token_at : Position → Position → Kind × List ℕ × Option (List ℕ) → Tok
token_at p q (k, text, raw) = record {
  kind = k;
  text = text;
  start = p.offset;
  stop = q.offset;
  line = p.line;
  col = p.col;
  end_line = q.line;
  end_col = q.col;
  raw = raw;
}

abbrev pub emit : Option Tok → List Tok → List Tok
emit none ts = ts
emit (some t) ts = t ∷ ts

abbrev pub placed : Position → Position → Option (Kind × List ℕ × Option (List ℕ)) → Option Tok
placed p q none = none
placed p q (some t) = some (token_at p q t)

-- Tok("EOF", "", Span(n, n, line, col, line, col))
abbrev pub eof_at : Position → Tok
eof_at p = token_at p p (eof, [], none)

-- `out_of_fuel` has no counterpart in the program.
pub data LexFailure : Type 0 where
  lexical : LexError → LexFailure
  out_of_fuel : LexFailure

abbrev pub raise_lexical : {A : Type 0} → Result LexError A → Result LexFailure A
raise_lexical (ok a) = ok a
raise_lexical (err e) = err (lexical e)

module _ (other_digit : ℕ → Bool) where
  -- Each round consumes text, so the length of the text is enough fuel (Tiles).
  unfoldable pub lex_loop : ℕ → Bool → Position → List ℕ → Result LexFailure (List Tok)
  unfolding advance
  lex_loop f keep p [] = ok (eof_at p ∷ [])
  lex_loop zero keep p (c ∷ cs) = err out_of_fuel
  lex_loop (suc f) keep p (c ∷ cs) = raise_lexical (scan other_digit keep c cs) >>= λ piece.
      let q = advance piece.cut.0 p in
      lex_loop f keep q piece.cut.1 >>= λ ts. ok (emit (placed p q piece.token) ts)

  abbrev pub origin : Position
  origin = record { offset = 0; line = 1; col = 1 }

  unfoldable pub lex : Bool → List ℕ → Result LexFailure (List Tok)
  unfolding lex_loop
  lex keep src = lex_loop (length src) keep origin src
