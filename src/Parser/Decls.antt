-- ===== src/Parser/Decls.antt =====
-- `Parser.decl`, `type_params`, `program` and `Parser` as a whole.
pub mod Fuel
pub mod Total
use l.Base.{
  ℕ, zero, suc, ◌+◌, ◌*◌, String, Bool, true, false, Option, none, some, List, [], ◌∷◌, length,
  if◌then◌else◌,
}
use l.Base.Results.{Result, ok, err}
use l.Types.{Ty, Tys, nil}
use l.Syntax.{Decl, import, const, struct, enum, fn}
use l.Lexer.Cuts.{Tok}
use l.Parser.Tokens.{Token, eof, read_tokens}
use l.Parser.Monad.{
  Parse, Failure, ◌>>=◌, ◌>>◌, ret, fail, exhausted, look, peek, is_word, maybe, take, take_name,
  imports_not_pub, expected_declaration,
}
use l.Parser.Types.{type, types, result_type, qname}
use l.Parser.Exprs.{expr, params, block}

unfoldable mutual
  -- the names of `type_params`, up to the bracket
  pub names : ℕ → Parse (List String)
  names zero = exhausted
  names (suc f) = peek (is_word "]") (ret []) (names_from f)

  pub names_from : ℕ → Parse (List String)
  names_from zero = exhausted
  names_from (suc f) = take_name >>= λ n. maybe "," (names f >>= λ ns. ret (n ∷ ns)) (ret (n ∷ []))

unfoldable pub type_params : ℕ → Parse (List String)
type_params f = maybe "[" (names f >>= λ ns. take "]" >> ret ns) (ret [])

-- fld, behind its `pub`
unfoldable pub field_parts : ℕ → Bool → Parse (Bool × String × Ty)
field_parts f public = take_name >>= λ n. take ":" >> (type f >>= λ t. ret (public, n, t))

unfoldable pub field_decl : ℕ → Parse (Bool × String × Ty)
field_decl f = maybe "pub" (field_parts f true) (field_parts f false)

unfoldable mutual
  -- self.comma_list("}", fld)
  pub field_list : ℕ → Parse (List (Bool × String × Ty))
  field_list zero = exhausted
  field_list (suc f) = peek (is_word "}") (ret []) (fields_from f)

  pub fields_from : ℕ → Parse (List (Bool × String × Ty))
  fields_from zero = exhausted
  fields_from (suc f) =
      field_decl f >>= λ d. maybe "," (field_list f >>= λ ds. ret (d ∷ ds)) (ret (d ∷ []))

-- var
unfoldable pub variant : ℕ → Parse (String × Tys)
variant f =
    take_name >>= λ n. maybe "(" (types f ")" >>= λ ts. take ")" >> ret (n, ts)) (ret (n, nil))

unfoldable mutual
  -- self.comma_list("}", var)
  pub variants : ℕ → Parse (List (String × Tys))
  variants zero = exhausted
  variants (suc f) = peek (is_word "}") (ret []) (variants_from f)

  pub variants_from : ℕ → Parse (List (String × Tys))
  variants_from zero = exhausted
  variants_from (suc f) =
      variant f >>= λ v. maybe "," (variants f >>= λ vs. ret (v ∷ vs)) (ret (v ∷ []))

unfoldable pub import_parts : ℕ → Parse Decl
import_parts f = qname f >>= λ q.
    maybe "as" (take_name >>= λ n. take ";" >> ret (import q (some n)))
      (take ";" >> ret (import q none))

unfoldable pub decl_body : ℕ → Bool → Parse Decl
decl_body f public = maybe "import" (if public then fail imports_not_pub else import_parts f) (
    maybe "const"
      (take_name >>= λ n.
        take ":"
        >> (type f >>= λ t. take "=" >> (expr f 0 >>= λ e. take ";" >> ret (const public n t e))))
      (maybe "struct"
        (take_name >>= λ n. type_params f >>= λ ps.
          take "{" >> (field_list f >>= λ fs. take "}" >> ret (struct public n ps fs)))
        (maybe "enum"
          (take_name >>= λ n. type_params f >>= λ ps.
            take "{" >> (variants f >>= λ vs. take "}" >> ret (enum public n ps vs)))
          (maybe "fn"
            (take_name >>= λ n. type_params f >>= λ gs. params f >>= λ ps.
              result_type f >>= λ r. block f >>= λ b. ret (fn public n gs ps r b))
            (fail expected_declaration)))))

unfoldable pub decl : ℕ → Parse Decl
decl f = maybe "pub" (decl_body f true) (decl_body f false)

abbrev pub is_eof : Token → Bool
is_eof eof = true
is_eof _ = false

-- while not self.t("EOF")
unfoldable pub program : ℕ → Parse (List Decl)
program zero = exhausted
program (suc f) = peek is_eof (ret []) (decl f >>= λ d. program f >>= λ ds. ret (d ∷ ds))

abbrev pub answer : {A : Type 0} → Result Failure (A × List Token) → Result Failure A
answer (ok (x, ts)) = ok x
answer (err e) = err e

-- Parser(src).program(), from the lexer's tokens
unfoldable pub parse : List Tok → Result Failure (List Decl)
parse toks = let ts = read_tokens toks in answer (program (8 * length ts + 4) ts)
