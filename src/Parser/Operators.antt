-- ===== src/Parser/Operators.antt =====
-- The tables ASSIGN, CMP and PREC, and the tokens with which expressions start.
use l.Base.{ℕ, Bool, true, false, Option, none, some, [], ◌∷◌, str_eq, ltb, if◌then◌else◌}
use l.Base.Dict.{Dict, lookup}
use l.Syntax.{
  Binary, or_else, and_then, eq, ne, lt, le, gt, ge, bor, bxor, band, shl, shr, add, sub, mul, div,
  rem, Prefix, not_op, invert, negate, deref, Assign, plain, compound, Form, bool, int, float, byte,
  string, none_lit,
}
use l.Parser.Tokens.{Token, word}

-- PREC
abbrev pub operators : Dict (Binary × ℕ)
operators =
    ("||", (or_else, 1))
    ∷ ("&&", (and_then, 2))
    ∷ ("==", (eq, 3))
    ∷ ("!=", (ne, 3))
    ∷ ("<", (lt, 3))
    ∷ ("<=", (le, 3))
    ∷ (">", (gt, 3))
    ∷ (">=", (ge, 3))
    ∷ ("|", (bor, 4))
    ∷ ("^", (bxor, 5))
    ∷ ("&", (band, 6))
    ∷ ("<<", (shl, 7))
    ∷ (">>", (shr, 7))
    ∷ ("+", (add, 8))
    ∷ ("-", (sub, 8))
    ∷ ("*", (mul, 9))
    ∷ ("/", (div, 9))
    ∷ ("%", (rem, 9))
    ∷ []

-- ASSIGN
abbrev pub assigns : Dict Assign
assigns =
    ("=", plain)
    ∷ ("+=", compound add)
    ∷ ("-=", compound sub)
    ∷ ("*=", compound mul)
    ∷ ("/=", compound div)
    ∷ ("%=", compound rem)
    ∷ ("<<=", compound shl)
    ∷ (">>=", compound shr)
    ∷ ("&=", compound band)
    ∷ ("|=", compound bor)
    ∷ ("^=", compound bxor)
    ∷ []

-- CMP
abbrev pub is_comparison : Binary → Bool
is_comparison eq = true
is_comparison ne = true
is_comparison lt = true
is_comparison le = true
is_comparison gt = true
is_comparison ge = true
is_comparison _ = false

pub data Infix : Type 0 where
  binary_op : Binary → ℕ → Infix
  is_op : Infix

-- opx in CMP or opx == "is"
abbrev pub compares : Infix → Bool
compares (binary_op b p) = is_comparison b
compares is_op = true

abbrev at_least : ℕ → Option (Binary × ℕ) → Option Infix
at_least minp (some (b, p)) = if ltb p minp then none else some (binary_op b p)
at_least minp none = none

-- the operator at which the loop of `expr` goes on
unfoldable pub infix_from : ℕ → Token → Option Infix
unfolding lookup
infix_from minp (word w) =
    if str_eq w "is"
    then (if ltb 3 minp then none else some is_op)
    else at_least minp (lookup w operators)
infix_from minp _ = none

unfoldable pub assign_of : Token → Option Assign
unfolding lookup
assign_of (word w) = lookup w assigns
assign_of _ = none

unfoldable pub prefix_of : Token → Option Prefix
prefix_of (word w) =
    if str_eq w "!"
    then some not_op
    else if str_eq w "~"
    then some invert
    else if str_eq w "-"
    then some negate
    else if str_eq w "*"
    then some deref
    else none
prefix_of _ = none

-- the literals
unfoldable pub literal_of : Token → Option Form
literal_of (Token.int n) = some (int n)
literal_of (Token.float n) = some (float n)
literal_of (Token.byte b) = some (byte b)
literal_of (Token.string bs) = some (string bs)
literal_of (word w) =
    if str_eq w "true"
    then some (bool true)
    else if str_eq w "false"
    then some (bool false)
    else if str_eq w "none"
    then some none_lit
    else none
literal_of _ = none
