-- ===== src/Examples/Lexing.antt =====
-- Runs and instances for the lexer of src/lang/core.py.
use l.Base.{Bool, false, ℕ, none, List, [], ◌∷◌, ◌≡◌, refl}
use l.Base.Results.{ok, err}
use l.Lexer.{lex, lexical, out_of_fuel}
use l.Lexer.Cuts.{Tok, name, int, word, eof, byte_literal_length}
use l.Lexer.Scan.{scan}
use l.Lexer.Tiles.{Tiles, lex-Tiles, lex-total}

-- no digits outside ASCII
abbrev no_more : ℕ → Bool
no_more c = false

-- x <<= 0x1F_
abbrev shift_line : List ℕ
shift_line = 120 ∷ 32 ∷ 60 ∷ 60 ∷ 61 ∷ 10 ∷ 48 ∷ 120 ∷ 49 ∷ 70 ∷ []

abbrev shift_tokens : List Tok
shift_tokens =
    record {
      kind = name;
      text = 120 ∷ [];
      start = 0;
      stop = 1;
      line = 1;
      col = 1;
      end_line = 1;
      end_col = 2;
      raw = none;
    }
    ∷ record {
      kind = word (60 ∷ 60 ∷ 61 ∷ []);
      text = 60 ∷ 60 ∷ 61 ∷ [];
      start = 2;
      stop = 5;
      line = 1;
      col = 3;
      end_line = 1;
      end_col = 6;
      raw = none;
    }
    ∷ record {
      kind = int;
      text = 48 ∷ 120 ∷ 49 ∷ 70 ∷ [];
      start = 6;
      stop = 10;
      line = 2;
      col = 1;
      end_line = 2;
      end_col = 5;
      raw = none;
    }
    ∷ record {
      kind = eof;
      text = [];
      start = 10;
      stop = 10;
      line = 2;
      col = 5;
      end_line = 2;
      end_col = 5;
      raw = none;
    }
    ∷ []

lexes : lex no_more false shift_line ≡ ok shift_tokens
unfolding lex scan
lexes = refl

-- '' is no byte
empty_byte : lex no_more false (39 ∷ 39 ∷ []) ≡ err (lexical byte_literal_length)
unfolding lex scan
empty_byte = refl

lex-Tiles_example : Tiles shift_line 0 shift_tokens
lex-Tiles_example = lex-Tiles no_more false shift_line shift_tokens lexes

lex-total_example : ¬ (lex no_more false shift_line ≡ err out_of_fuel)
lex-total_example = lex-total no_more false shift_line
