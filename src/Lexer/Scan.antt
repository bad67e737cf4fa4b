-- ===== src/Lexer/Scan.antt =====
-- One token of `Lexer.lex`. `str.isdigit` is true of digits outside ASCII too; which ones is the
-- parameter `other_digit`, asked of code points from 128 up.
use l.Base.{
  ℕ, Bool, true, false, Option, none, some, List, [], ◌∷◌, ◌++◌, ◌&&◌, ◌||◌, ltb, ◌==◌,
  if◌then◌else◌, length,
}
use l.Base.Results.{Result, ok, err, ◌>>=◌}
use l.Lexer.Chars.{among, is_space, ascii_digit, starts_name, continues_name, is_hex, is_binary}
use l.Lexer.Cuts.{
  Kind, int, float, byte, string, comment, word, LexError, base_digit_expected, byte_literal_length,
  unexpected_character, Cut, prepend, span_while, head_is, digits, strip_prefix, match_multi, multi,
  single, name_kind, plain, Literal, literal,
}

-- One round of the main loop: white space, a comment or a token, with the text it spans.
pub record Piece : Type 0 where
  pub cut : Cut
  pub token : Option (Kind × List ℕ × Option (List ℕ))

-- a token whose text is what it spans
abbrev pub spelled : Kind → Cut → Piece
spelled k (a, b) = record { cut = (a, b); token = some (k, a, none) }

abbrev pub append_cut : List ℕ → Cut → Cut
append_cut a (b, rest) = (a ++ b, rest)

-- The base prefix 0x or 0b was read as `before`; a digit must follow.
abbrev pub based : List ℕ → (ℕ → Bool) → List ℕ → Result LexError Piece
based before valid cs =
    if head_is valid cs
    then ok (spelled int (append_cut before (digits valid false cs)))
    else err base_digit_expected

module _ (other_digit : ℕ → Bool) where
  -- c.isdigit()
  unfoldable pub is_digit : ℕ → Bool
  unfolding ascii_digit
  is_digit c = if ltb c 128 then ascii_digit c else other_digit c

  -- the fraction: a point with a digit behind it, and digits; false where there is none
  unfoldable pub fraction : List ℕ → Bool × Cut
  unfolding is_digit digits
  fraction (c ∷ cs) =
      if c == 46 && head_is is_digit cs
      then (true, prepend c (digits is_digit true cs))
      else (false, ([], c ∷ cs))
  fraction [] = (false, ([], []))

  -- the exponent: e, a sign or none, and digits
  abbrev pub signed_exponent : ℕ → List ℕ → Bool × Cut
  signed_exponent e (s ∷ cs) =
      if among s (43 ∷ 45 ∷ [])
      then (if head_is is_digit cs
          then (true, prepend e (prepend s (digits is_digit true cs)))
          else (false, ([], e ∷ s ∷ cs)))
      else (if is_digit s
          then (true, prepend e (digits is_digit true (s ∷ cs)))
          else (false, ([], e ∷ s ∷ cs)))
  signed_exponent e [] = (false, ([], e ∷ []))

  unfoldable pub exponent : List ℕ → Bool × Cut
  unfolding is_digit digits among
  exponent (e ∷ cs) =
      if among e (101 ∷ 69 ∷ []) then signed_exponent e cs else (false, ([], e ∷ cs))
  exponent [] = (false, ([], []))

  -- a decimal number whose first digit is c
  unfoldable pub decimal : ℕ → List ℕ → Piece
  unfolding fraction exponent digits is_digit
  decimal c cs =
      let (whole, after_whole) = digits is_digit true cs in
      let (has_fraction, (frac, after_frac)) = fraction after_whole in
      let (has_exponent, (expo, rest)) = exponent after_frac in
      spelled (if has_fraction || has_exponent then float else int)
        (c ∷ (whole ++ (frac ++ expo)), rest)

  abbrev pub after_zero : ℕ → List ℕ → Result LexError Piece
  after_zero c (b ∷ cs) =
      if among b (120 ∷ 88 ∷ [])
      then based (c ∷ b ∷ []) is_hex cs
      else if among b (98 ∷ 66 ∷ [])
      then based (c ∷ b ∷ []) is_binary cs
      else ok (decimal c (b ∷ cs))
  after_zero c [] = ok (decimal c [])

  unfoldable pub number : ℕ → List ℕ → Result LexError Piece
  unfolding decimal among is_hex is_binary
  number c cs = if c == 48 then after_zero c cs else ok (decimal c cs)

  abbrev pub quoted : ℕ → Literal → Result LexError Piece
  quoted quote (bytes, (a, rest)) =
      let text = quote ∷ a in
      if quote == 39
      then (if length bytes == 1
          then ok (record { cut = (text, rest); token = some (byte, bytes, some text) })
          else err byte_literal_length)
      else ok (record { cut = (text, rest); token = some (string, bytes, some text) })

  abbrev pub operator : ℕ → List ℕ → Result LexError Piece
  operator c cs = elim (match_multi multi (c ∷ cs)) [
    | some (op, rest) ↦ ok (spelled (word op) (op, rest))
    | none ↦
        if among c single
        then ok (spelled (word (c ∷ [])) (c ∷ [], cs))
        else err unexpected_character
  ]

  -- The body of `while i < n` at the text c ∷ cs.
  unfoldable pub scan : Bool → ℕ → List ℕ → Result LexError Piece
  unfolding is_space span_while strip_prefix starts_name continues_name is_digit number literal
      match_multi among
  scan keep c cs =
      if is_space c
      then ok (record { cut = span_while is_space (c ∷ cs); token = none })
      else if c == 47 && head_is (λ d. d == 47) cs
      then (let (txt, rest) = span_while (λ d. if d == 10 then false else true) (c ∷ cs) in
          ok (record {
            cut = (txt, rest);
            token = if keep then some (comment, txt, none) else none;
          }))
      else if starts_name c
      then (let (txt, rest) = span_while continues_name cs in
          ok (spelled (name_kind (c ∷ txt)) (c ∷ txt, rest)))
      else if is_digit c
      then number c cs
      else if c == 39 || c == 34
      then (literal c plain cs >>= quoted c)
      else operator c cs
