-- ===== src/Parser/Decls/Fuel.antt =====
-- The fuel of declarations and programs, against the tokens that are left.
use l.Base.{ℕ, zero, suc, ◌+◌, ◌-◌, ◌*◌, ◌≤◌, refl, arith, Bool, true, false}
use l.Parser.Types.Fuel.{qname-Consumes, type-Consumes, result_type-Consumes, types-Consumes}
use l.Parser.Exprs.Fuel.{expr-Consumes, params-Consumes, block-Consumes}
use l.Parser.Decls.{
  names, names_from, type_params, field_parts, field_decl, field_list, fields_from, variant,
  variants, variants_from, import_parts, decl_body, decl, program,
}
use l.Parser.Consumes.{
  Consumes, Consumes-ret, Consumes-fail, Consumes-weaken, Consumes-some, Consumes-look,
  Consumes-peek, Consumes-bind, Consumes-take, Consumes-take_name, Consumes-if,
}

mutual
  unfolding names

  pub names-Consumes : (f : ℕ) {a : ℕ} → 8 * a + 4 ≤ f → Consumes a (a) (names f)
  names-Consumes zero le = absurd (omega arith)
  names-Consumes (suc f) le = Consumes-some λ n e₁.
      Consumes-peek _ (Consumes-ret _ (omega arith))
        (Consumes-weaken (names_from-Consumes f (omega arith)) (omega arith))

  pub names_from-Consumes : (f : ℕ) {a : ℕ} → 8 * a + 3 ≤ f → Consumes a (a - 1) (names_from f)
  names_from-Consumes zero le = absurd (omega arith)
  names_from-Consumes (suc f) le = Consumes-some λ n e₁. Consumes-bind Consumes-take_name λ x.
      Consumes-look _ refl
        (λ _. Consumes-bind (names-Consumes f (omega arith)) λ xs. Consumes-ret _ (omega arith))
        (Consumes-ret _ (omega arith))

pub type_params-Consumes : (f : ℕ) {a : ℕ} → 8 * a + 4 ≤ f → Consumes a (a) (type_params f)
unfolding type_params
type_params-Consumes f le = Consumes-some λ n e₁.
    Consumes-look _ refl
      (λ _.
        Consumes-bind (names-Consumes f (omega arith))
          λ ns. Consumes-bind (Consumes-take "]") λ _. Consumes-ret _ (omega arith))
      (Consumes-ret _ (omega arith))

pub field_parts-Consumes :
    (f : ℕ) (public : Bool) {a : ℕ} → 8 * a + 1 ≤ f → Consumes a (a - 1) (field_parts f public)
unfolding field_parts
field_parts-Consumes f public le = Consumes-some λ n e₁. Consumes-bind Consumes-take_name λ m.
    Consumes-bind (Consumes-take ":")
      λ _. Consumes-bind (type-Consumes f (omega arith)) λ t. Consumes-ret _ (omega arith)

pub field_decl-Consumes : (f : ℕ) {a : ℕ} → 8 * a + 1 ≤ f → Consumes a (a - 1) (field_decl f)
unfolding field_decl
field_decl-Consumes f le = Consumes-some λ n e₁.
    Consumes-look _ refl
      (λ _. Consumes-weaken (field_parts-Consumes f true (omega arith)) (omega arith))
      (field_parts-Consumes f false (omega arith))

mutual
  unfolding field_list

  pub field_list-Consumes : (f : ℕ) {a : ℕ} → 8 * a + 4 ≤ f → Consumes a (a) (field_list f)
  field_list-Consumes zero le = absurd (omega arith)
  field_list-Consumes (suc f) le = Consumes-some λ n e₁.
      Consumes-peek _ (Consumes-ret _ (omega arith))
        (Consumes-weaken (fields_from-Consumes f (omega arith)) (omega arith))

  pub fields_from-Consumes : (f : ℕ) {a : ℕ} → 8 * a + 3 ≤ f → Consumes a (a - 1) (fields_from f)
  fields_from-Consumes zero le = absurd (omega arith)
  fields_from-Consumes (suc f) le = Consumes-some λ n e₁.
      Consumes-bind (field_decl-Consumes f (omega arith)) λ x.
        Consumes-look _ refl
          (λ _.
            Consumes-bind (field_list-Consumes f (omega arith)) λ xs. Consumes-ret _ (omega arith))
          (Consumes-ret _ (omega arith))

pub variant-Consumes : (f : ℕ) {a : ℕ} → 8 * a + 1 ≤ f → Consumes a (a - 1) (variant f)
unfolding variant
variant-Consumes f le = Consumes-some λ n e₁. Consumes-bind Consumes-take_name λ m.
    Consumes-look _ refl
      (λ _.
        Consumes-bind (types-Consumes f ")" (omega arith))
          λ ts. Consumes-bind (Consumes-take ")") λ _. Consumes-ret _ (omega arith))
      (Consumes-ret _ (omega arith))

mutual
  unfolding variants

  pub variants-Consumes : (f : ℕ) {a : ℕ} → 8 * a + 4 ≤ f → Consumes a (a) (variants f)
  variants-Consumes zero le = absurd (omega arith)
  variants-Consumes (suc f) le = Consumes-some λ n e₁.
      Consumes-peek _ (Consumes-ret _ (omega arith))
        (Consumes-weaken (variants_from-Consumes f (omega arith)) (omega arith))

  pub variants_from-Consumes :
      (f : ℕ) {a : ℕ} → 8 * a + 3 ≤ f → Consumes a (a - 1) (variants_from f)
  variants_from-Consumes zero le = absurd (omega arith)
  variants_from-Consumes (suc f) le = Consumes-some λ n e₁.
      Consumes-bind (variant-Consumes f (omega arith)) λ x.
        Consumes-look _ refl
          (λ _.
            Consumes-bind (variants-Consumes f (omega arith)) λ xs. Consumes-ret _ (omega arith))
          (Consumes-ret _ (omega arith))

pub import_parts-Consumes : (f : ℕ) {a : ℕ} → 8 * a + 1 ≤ f → Consumes a (a - 1) (import_parts f)
unfolding import_parts
import_parts-Consumes f le = Consumes-some λ n e₁.
    Consumes-bind (qname-Consumes f (omega arith)) λ q.
      Consumes-look _ refl
        (λ _.
          Consumes-bind Consumes-take_name
            λ m. Consumes-bind (Consumes-take ";") λ _. Consumes-ret _ (omega arith))
        (Consumes-bind (Consumes-take ";") λ _. Consumes-ret _ (omega arith))

pub decl_body-Consumes :
    (f : ℕ) (public : Bool) {a : ℕ} → 8 * a + 1 ≤ f → Consumes a (a - 1) (decl_body f public)
unfolding decl_body
decl_body-Consumes f public le = Consumes-some λ n e₁.
    Consumes-look _ refl
      (λ _.
        Consumes-if public (Consumes-fail _)
          (Consumes-weaken (import_parts-Consumes f (omega arith)) (omega arith)))
      (Consumes-look _ refl
        (λ _. Consumes-bind Consumes-take_name λ m. Consumes-bind (Consumes-take ":") λ _.
          Consumes-bind (type-Consumes f (omega arith)) λ t. Consumes-bind (Consumes-take "=") λ _.
            Consumes-bind (expr-Consumes f 0 (omega arith))
              λ e. Consumes-bind (Consumes-take ";") λ _. Consumes-ret _ (omega arith))
        (Consumes-look _ refl
          (λ _. Consumes-bind Consumes-take_name λ m.
            Consumes-bind (type_params-Consumes f (omega arith)) λ ps.
              Consumes-bind (Consumes-take "{") λ _.
                Consumes-bind (field_list-Consumes f (omega arith))
                  λ fs. Consumes-bind (Consumes-take "}") λ _. Consumes-ret _ (omega arith))
          (Consumes-look _ refl
            (λ _. Consumes-bind Consumes-take_name λ m.
              Consumes-bind (type_params-Consumes f (omega arith)) λ ps.
                Consumes-bind (Consumes-take "{") λ _.
                  Consumes-bind (variants-Consumes f (omega arith))
                    λ vs. Consumes-bind (Consumes-take "}") λ _. Consumes-ret _ (omega arith))
            (Consumes-look _ refl
              (λ _. Consumes-bind Consumes-take_name λ m.
                Consumes-bind (type_params-Consumes f (omega arith)) λ gs.
                  Consumes-bind (params-Consumes f (omega arith)) λ ps.
                    Consumes-bind (result_type-Consumes f (omega arith)) λ r.
                      Consumes-bind (block-Consumes f (omega arith))
                        λ b. Consumes-ret _ (omega arith))
              (Consumes-fail _)))))

pub decl-Consumes : (f : ℕ) {a : ℕ} → 8 * a + 1 ≤ f → Consumes a (a - 1) (decl f)
unfolding decl
decl-Consumes f le = Consumes-some λ n e₁.
    Consumes-look _ refl
      (λ _. Consumes-weaken (decl_body-Consumes f true (omega arith)) (omega arith))
      (decl_body-Consumes f false (omega arith))

pub program-Consumes : (f : ℕ) {a : ℕ} → 8 * a + 3 ≤ f → Consumes a a (program f)
unfolding program
program-Consumes zero le = absurd (omega arith)
program-Consumes (suc f) le = Consumes-some λ n e₁. Consumes-peek _ (Consumes-ret _ (omega arith)) (
    Consumes-bind (decl-Consumes f (omega arith))
      λ d. Consumes-bind (program-Consumes f (omega arith)) λ ds. Consumes-ret _ (omega arith))
