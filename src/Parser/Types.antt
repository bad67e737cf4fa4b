-- ===== src/Parser/Types.antt =====
-- `Parser.type`, `qname`, `type_params` and `comma_list` at types.
pub mod Fuel
pub mod Printed
pub mod RoundTrip
use l.Base.{ℕ, zero, suc, String, List, [], ◌∷◌, ◌++◌}
use l.Types.{Ty, Tys, nil, cons}
use l.Parser.Monad.{
  Parse, ◌>>=◌, ◌>>◌, ret, fail, exhausted, look, peek, is_word, a_name, maybe, take, take_name,
  const_needs_array,
}

-- while self.maybe("."): the parts read so far
unfoldable pub qname_rest : ℕ → List String → Parse (List String)
qname_rest zero parts = exhausted
qname_rest (suc f) parts = maybe "." (take_name >>= λ n. qname_rest f (parts ++ n ∷ [])) (ret parts)

unfoldable pub qname : ℕ → Parse (List String)
qname f = take_name >>= λ n. qname_rest f (n ∷ [])

unfoldable mutual
  pub type : ℕ → Parse Ty
  type zero = exhausted
  type (suc f) = maybe "?" (type f >>= λ t. ret (Ty.opt t)) (
      maybe "ref" (type f >>= λ t. ret (Ty.ref t)) (
        maybe "const"
          (maybe "[" (take "]" >> (type f >>= λ t. ret (Ty.const_array t)))
            (fail const_needs_array))
          (maybe "[" (take "]" >> (type f >>= λ t. ret (Ty.array t))) (
            maybe "(" (take ")" >> ret Ty.unit) (
              maybe "fn"
                (take "("
                  >> (types f ")" >>= λ ps. take ")" >> (result_type f >>= λ r. ret (Ty.fn ps r))))
                (qname f >>= λ q.
                  maybe "[" (types f "]" >>= λ as'. take "]" >> ret (Ty.name q as'))
                    (ret (Ty.name q nil))))))))

  -- the type behind "->", or unit
  pub result_type : ℕ → Parse Ty
  result_type zero = exhausted
  result_type (suc f) = maybe "->" (type f) (ret Ty.unit)

  -- self.comma_list(end, self.type)
  pub types : ℕ → String → Parse Tys
  types zero end = exhausted
  types (suc f) end = peek (is_word end) (ret nil) (types_from f end)

  -- its `while True`
  pub types_from : ℕ → String → Parse Tys
  types_from zero end = exhausted
  types_from (suc f) end =
      type f >>= λ t. maybe "," (types f end >>= λ ts. ret (cons t ts)) (ret (cons t nil))
