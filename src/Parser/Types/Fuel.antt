-- ===== src/Parser/Types/Fuel.antt =====
-- The fuel of `Parser.type` and of patterns, against the tokens that are left.
use l.Base.{ℕ, zero, suc, ◌+◌, ◌-◌, ◌*◌, ◌≤◌, refl, arith, String, List}
use l.Parser.Monad.{const_needs_array}
use l.Parser.Types.{qname_rest, qname, type, result_type, types, types_from}
use l.Parser.Consumes.{
  Consumes, Consumes-ret, Consumes-fail, Consumes-weaken, Consumes-some, Consumes-look,
  Consumes-peek, Consumes-bind, Consumes-take, Consumes-take_name,
}

pub qname_rest-Consumes :
    (f : ℕ) (parts : List String) {a : ℕ} → 8 * a + 1 ≤ f → Consumes a a (qname_rest f parts)
unfolding qname_rest
qname_rest-Consumes zero parts le = absurd (omega arith)
qname_rest-Consumes (suc f) parts le = Consumes-some λ n e.
    Consumes-look _ refl
      (λ _.
        Consumes-bind Consumes-take_name
          λ m. Consumes-weaken (qname_rest-Consumes f _ (omega arith)) (omega arith))
      (Consumes-ret parts (omega arith))

pub qname-Consumes : (f : ℕ) {a : ℕ} → 8 * a + 1 ≤ f → Consumes a (a - 1) (qname f)
unfolding qname
qname-Consumes f le = Consumes-bind Consumes-take_name λ n. qname_rest-Consumes f _ (omega arith)

mutual
  unfolding type

  pub type-Consumes : (f : ℕ) {a : ℕ} → 8 * a + 2 ≤ f → Consumes a (a - 1) (type f)
  type-Consumes zero le = absurd (omega arith)
  type-Consumes (suc f) {a = a} le = Consumes-some λ n e.
      Consumes-look _ refl
        (λ _. Consumes-bind (type-Consumes f (omega arith)) λ t. Consumes-ret _ (omega arith))
        (Consumes-look _ refl
          (λ _. Consumes-bind (type-Consumes f (omega arith)) λ t. Consumes-ret _ (omega arith))
          (Consumes-look _ refl
            (λ _.
              Consumes-look _ refl
                (λ _. Consumes-bind (Consumes-take "]") λ _.
                  Consumes-bind (type-Consumes f (omega arith)) λ t. Consumes-ret _ (omega arith))
                (Consumes-fail const_needs_array))
            (Consumes-look _ refl
              (λ _. Consumes-bind (Consumes-take "]") λ _.
                Consumes-bind (type-Consumes f (omega arith)) λ t. Consumes-ret _ (omega arith))
              (Consumes-look _ refl
                (λ _. Consumes-bind (Consumes-take ")") λ _. Consumes-ret _ (omega arith))
                (Consumes-look _ refl
                  (λ _. Consumes-bind (Consumes-take "(") λ _.
                    Consumes-bind (types-Consumes f ")" (omega arith)) λ ps.
                      Consumes-bind (Consumes-take ")") λ _.
                        Consumes-bind (result_type-Consumes f (omega arith))
                          λ r. Consumes-ret _ (omega arith))
                  (Consumes-bind (qname-Consumes f (omega arith)) λ q.
                    Consumes-look _ refl
                      (λ _.
                        Consumes-bind (types-Consumes f "]" (omega arith))
                          λ ts. Consumes-bind (Consumes-take "]") λ _. Consumes-ret _ (omega arith))
                      (Consumes-ret _ (omega arith))))))))

  pub result_type-Consumes : (f : ℕ) {a : ℕ} → 8 * a + 1 ≤ f → Consumes a a (result_type f)
  result_type-Consumes zero le = absurd (omega arith)
  result_type-Consumes (suc f) le = Consumes-some λ n e.
      Consumes-look _ refl (λ _. Consumes-weaken (type-Consumes f (omega arith)) (omega arith))
        (Consumes-ret _ (omega arith))

  pub types-Consumes : (f : ℕ) (end : String) {a : ℕ} → 8 * a + 4 ≤ f → Consumes a a (types f end)
  types-Consumes zero end le = absurd (omega arith)
  types-Consumes (suc f) end le =
      Consumes-peek _ (Consumes-ret _ (omega arith))
        (Consumes-weaken (types_from-Consumes f end (omega arith)) (omega arith))

  types_from-Consumes :
      (f : ℕ) (end : String) {a : ℕ} → 8 * a + 3 ≤ f → Consumes a (a - 1) (types_from f end)
  types_from-Consumes zero end le = absurd (omega arith)
  types_from-Consumes (suc f) end le = Consumes-some λ n e.
      Consumes-bind (type-Consumes f (omega arith)) λ t.
        Consumes-look _ refl
          (λ _.
            Consumes-bind (types-Consumes f end (omega arith)) λ ts. Consumes-ret _ (omega arith))
          (Consumes-ret _ (omega arith))
