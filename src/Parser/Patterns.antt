-- ===== src/Parser/Patterns.antt =====
-- `Parser.pattern` and `payload_pattern`.
pub mod Fuel
use l.Base.{
  ℕ, zero, suc, String, true, false, Option, none, some, List, [], ◌∷◌, str_eq, if◌then◌else◌,
}
use l.Syntax.{
  Pattern, p_wild, p_unit, p_none, p_bind, p_some, p_bool, p_int, p_byte, p_name, Patterns,
  no_patterns, pattern_then,
}
use l.Parser.Tokens.{Token, name, int, byte}
use l.Parser.Monad.{
  Parse, ◌>>=◌, ◌>>◌, ret, fail, exhausted, look, peek, is_word, a_name, maybe, take,
  expected_payload, expected_pattern,
}
use l.Parser.Types.{qname_rest}

-- a payload: _ or a name
abbrev pub payload_of : Token → Option Pattern
payload_of (name n) = some (if str_eq n "_" then p_wild else p_bind n)
payload_of _ = none

abbrev pub payload_pattern : Parse Pattern
payload_pattern = look payload_of ret (fail expected_payload)

-- "_" where a pattern starts
abbrev pub a_wildcard : Token → Option Pattern
a_wildcard (name n) = if str_eq n "_" then some p_wild else none
a_wildcard _ = none

-- the literals among the patterns
abbrev pub literal_pattern : Token → Option Pattern
literal_pattern (int n) = some (p_int n)
literal_pattern (byte b) = some (p_byte b)
literal_pattern (Token.word w) =
    if str_eq w "true"
    then some (p_bool true)
    else if str_eq w "false"
    then some (p_bool false)
    else none
literal_pattern _ = none

unfoldable mutual
  -- self.comma_list(")", self.payload_pattern)
  pub payloads : ℕ → Parse Patterns
  payloads zero = exhausted
  payloads (suc f) = peek (is_word ")") (ret no_patterns) (payloads_from f)

  pub payloads_from : ℕ → Parse Patterns
  payloads_from zero = exhausted
  payloads_from (suc f) = payload_pattern >>= λ p.
      maybe "," (payloads f >>= λ ps. ret (pattern_then p ps)) (ret (pattern_then p no_patterns))

unfoldable pub pattern_at : ℕ → Parse Pattern
pattern_at f = look a_wildcard ret (
    maybe "none" (ret p_none) (
      maybe "some"
        (maybe "(" (payload_pattern >>= λ p. take ")" >> ret (p_some p)) (ret (p_some p_wild)))
        (maybe "(" (take ")" >> ret p_unit) (
          look literal_pattern ret (
            look a_name
              (λ n. qname_rest f (n ∷ []) >>= λ q.
                maybe "(" (payloads f >>= λ ps. take ")" >> ret (p_name q ps))
                  (ret (p_name q no_patterns)))
              (fail expected_pattern))))))
