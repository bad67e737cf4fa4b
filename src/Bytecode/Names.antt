-- ===== src/Bytecode/Names.antt =====
-- src/lang/bytecode.py: the names that `BCCompiler` makes up; src/lang/core.py: `parse_int_text`.
use Prim.Native.String.{◌++◌ as ◌+++◌}
use l.Base.{
  ◌≡◌, refl, ℕ, zero, suc, ◌+◌, ◌-◌, ◌*◌, ◌/◌, ◌%◌, String, Option, none, some, List, [], ◌∷◌, ltb,
  leb, ◌==◌, if◌then◌else◌, ◌&&◌, ◌||◌,
}
use l.Lexer.Chars.{codes}
use l.Parser.Tokens.{text_of}

abbrev decimal_on : ℕ → ℕ → String
decimal_on zero n = ""
decimal_on (suc f) n =
    let front = decimal_on f (n / 10) in
    let last = text_of ((48 + n % 10) ∷ []) in if ltb n 10 then last else front +++ last

-- a number in an f-string; a number has no more digits than its successor says
unfoldable pub decimal : ℕ → String
unfolding text_of
decimal n = decimal_on (suc n) n

-- f"$anon{len(self.anon)}", f"$arr{self.seq}" and f"$i{self.seq}"
unfoldable pub anon_name : ℕ → String
unfolding decimal
anon_name n = "$anon" +++ decimal n

unfoldable pub array_name : ℕ → String
unfolding decimal
array_name n = "$arr" +++ decimal n

unfoldable pub counter_name : ℕ → String
unfolding decimal
counter_name n = "$i" +++ decimal n

-- s.replace("_", "")
abbrev no_separators : List ℕ → List ℕ
no_separators [] = []
no_separators (c ∷ cs) = let rest = no_separators cs in if c == 95 then rest else c ∷ rest

-- the value of an ASCII digit or letter
abbrev digit_value : ℕ → ℕ
digit_value c =
    if leb 48 c && leb c 57
    then c - 48
    else (if leb 65 c && leb c 90 then c - 55 else (if leb 97 c && leb c 122 then c - 87 else 36))

abbrev number_in : ℕ → ℕ → List ℕ → Option ℕ
number_in base n [] = some n
number_in base n (c ∷ cs) =
    let d = digit_value c in
    let rest = number_in base (n * base + d) cs in if ltb d base then rest else none

-- int(q, base) of ASCII digits, behind a prefix that is cut off; ValueError is none
abbrev int_of : ℕ → List ℕ → Option ℕ
int_of base [] = none
int_of base (c ∷ cs) = number_in base 0 (c ∷ cs)

-- the base that the prefix "0x" or "0b", in either case, names, and what stands behind it
abbrev prefix_base : List ℕ → ℕ × List ℕ
prefix_base (z ∷ x ∷ q) =
    if z == 48 && (x == 120 || x == 88)
    then (16, q)
    else (if z == 48 && (x == 98 || x == 66) then (2, q) else (10, z ∷ x ∷ q))
prefix_base q = (10, q)

unfoldable pub parse_int_text : String → Option ℕ
parse_int_text s = let (base, q) = prefix_base (no_separators (codes s)) in int_of base q

number_texts : (parse_int_text "0x_1F" ≡ some 31) × (decimal 120 ≡ "120")
unfolding parse_int_text decimal text_of
number_texts = (refl, refl)
