-- ===== src/Parser/Patterns/Fuel.antt =====
-- The fuel of patterns, against the tokens that are left.
use l.Base.{ℕ, zero, suc, ◌+◌, ◌-◌, ◌*◌, ◌≤◌, refl, arith}
use l.Parser.Patterns.{payloads, payloads_from, pattern_at, payload_pattern}
use l.Parser.Types.Fuel.{qname_rest-Consumes}
use l.Parser.Consumes.{
  Consumes, Consumes-ret, Consumes-fail, Consumes-weaken, Consumes-some, Consumes-look,
  Consumes-peek, Consumes-bind, Consumes-take,
}

payload_pattern-Consumes : {a : ℕ} → Consumes a (a - 1) payload_pattern
payload_pattern-Consumes =
    Consumes-look _ refl (λ p. Consumes-ret p (omega arith)) (Consumes-fail _)

mutual
  unfolding payloads

  pub payloads-Consumes : (f : ℕ) {a : ℕ} → 8 * a + 2 ≤ f → Consumes a a (payloads f)
  payloads-Consumes zero le = absurd (omega arith)
  payloads-Consumes (suc f) le =
      Consumes-peek _ (Consumes-ret _ (omega arith))
        (Consumes-weaken (payloads_from-Consumes f (omega arith)) (omega arith))

  payloads_from-Consumes : (f : ℕ) {a : ℕ} → 8 * a + 1 ≤ f → Consumes a (a - 1) (payloads_from f)
  payloads_from-Consumes zero le = absurd (omega arith)
  payloads_from-Consumes (suc f) le = Consumes-some λ n e.
      Consumes-bind payload_pattern-Consumes λ p.
        Consumes-look _ refl
          (λ _.
            Consumes-bind (payloads-Consumes f (omega arith)) λ ps. Consumes-ret _ (omega arith))
          (Consumes-ret _ (omega arith))

pub pattern_at-Consumes : (f : ℕ) {a : ℕ} → 8 * a + 2 ≤ f → Consumes a (a - 1) (pattern_at f)
unfolding pattern_at
pattern_at-Consumes f le = Consumes-some λ n e.
    Consumes-look _ refl (λ p. Consumes-ret p (omega arith))
      (Consumes-look _ refl (λ _. Consumes-ret _ (omega arith))
        (Consumes-look _ refl
          (λ _.
            Consumes-look _ refl
              (λ _.
                Consumes-bind payload_pattern-Consumes
                  λ p. Consumes-bind (Consumes-take ")") λ _. Consumes-ret _ (omega arith))
              (Consumes-ret _ (omega arith)))
          (Consumes-look _ refl
            (λ _. Consumes-bind (Consumes-take ")") λ _. Consumes-ret _ (omega arith))
            (Consumes-look _ refl (λ p. Consumes-ret p (omega arith))
              (Consumes-look _ refl
                (λ m. Consumes-bind (qname_rest-Consumes f _ (omega arith)) λ q.
                  Consumes-look _ refl
                    (λ _.
                      Consumes-bind (payloads-Consumes f (omega arith))
                        λ ps. Consumes-bind (Consumes-take ")") λ _. Consumes-ret _ (omega arith))
                    (Consumes-ret _ (omega arith)))
                (Consumes-fail _))))))
