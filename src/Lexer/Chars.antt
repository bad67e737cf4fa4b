-- ===== src/Lexer/Chars.antt =====
-- Code points and the tests that `Lexer.lex` makes on them.
use Prim.Native.Char.{code}
use l.Base.{
  ℕ, ◌+◌, ◌-◌, ◌/◌, ◌%◌, String, Bool, true, false, Option, none, some, List, [], ◌∷◌, ◌&&◌, ◌||◌,
  ltb, leb, ◌==◌, if◌then◌else◌,
}

-- The code points of a text. `String` has its own `[]` and `∷`.
abbrev pub codes : String → List ℕ
codes (String.◌∷◌ first rest) = code first ∷ codes rest
codes String.[] = []

-- ch in text
unfoldable pub among : ℕ → List ℕ → Bool
among c [] = false
among c (x ∷ xs) = c == x || among c xs

-- c in " \t\r\n"
unfoldable pub is_space : ℕ → Bool
is_space c = c == 32 || (c == 9 || (c == 13 || c == 10))

unfoldable pub ascii_digit : ℕ → Bool
ascii_digit c = leb 48 c && leb c 57

-- c.isascii() and (c.isalpha() or c == "_")
unfoldable pub starts_name : ℕ → Bool
starts_name c = (leb 65 c && leb c 90) || ((leb 97 c && leb c 122) || c == 95)

-- c.isascii() and (c.isalnum() or c == "_")
unfoldable pub continues_name : ℕ → Bool
unfolding ascii_digit starts_name
continues_name c = starts_name c || ascii_digit c

-- the digits of "0123456789abcdefABCDEF", with their values
unfoldable pub hex_value : ℕ → Option ℕ
hex_value c =
    if leb 48 c && leb c 57
    then some (c - 48)
    else if leb 97 c && leb c 102
    then some (c - 87)
    else if leb 65 c && leb c 70
    then some (c - 55)
    else none

abbrev given {ℓ} : {A : Type ℓ} → Option A → Bool
given none = false
given (some _) = true

unfoldable pub is_hex : ℕ → Bool
unfolding hex_value
is_hex c = given (hex_value c)

unfoldable pub is_binary : ℕ → Bool
is_binary c = c == 48 || c == 49

-- s[i].encode("utf-8")
unfoldable pub utf8 : ℕ → List ℕ
utf8 c =
    if ltb c 0x80
    then c ∷ []
    else if ltb c 0x800
    then (0xc0 + c / 64) ∷ (0x80 + c % 64) ∷ []
    else if ltb c 0x10000
    then (0xe0 + c / 4096) ∷ (0x80 + c / 64 % 64) ∷ (0x80 + c % 64) ∷ []
    else (0xf0 + c / 262144) ∷ (0x80 + c / 4096 % 64) ∷ (0x80 + c / 64 % 64) ∷ (0x80 + c % 64) ∷ []

-- ESC
unfoldable pub escape_value : ℕ → Option ℕ
escape_value c =
    if c == b'n'
    then some 10
    else if c == b'r'
    then some 13
    else if c == b't'
    then some 9
    else if c == b'0'
    then some 0
    else if c == 39
    then some 39
    else if c == 34
    then some 34
    else if c == 92
    then some 92
    else none
