-- ===== src/Interp/Selection.antt =====
-- The arms of a match statement: the block that is selected is one of them.
use l.Base.{
  Bool, true, false, Option, none, some, ◌≡◌, and_left, and_right, or_false_left, or_false_right,
}
use l.Base.Dict.{Dict}
use l.Types.{Ty}
use l.Syntax.{Block, Arms, no_arms, arm}
use l.Checker.{contains_break, any_breaks, block_returns, all_return, check_block, check_arms}
use l.Interp.{Machine, Outcome, Sig, select}
use l.Interp.Signals.{Ends}

abbrev pub AllArms : (Block → Type 0) → Arms → Type 0
AllArms R no_arms = Unit
AllArms R (arm p b arms) = R b × AllArms R arms

pub AllArms-breaks :
    (arms : Arms) → any_breaks arms ≡ false → AllArms (λ b. contains_break b ≡ false) arms
unfolding contains_break
AllArms-breaks no_arms h = tt
AllArms-breaks (arm p b arms) h = (
  or_false_left (contains_break b) (any_breaks arms) h,
  AllArms-breaks arms (or_false_right (contains_break b) (any_breaks arms) h),
)

pub AllArms-returns :
    (arms : Arms) → all_return arms ≡ true → AllArms (λ b. block_returns b ≡ true) arms
unfolding block_returns
AllArms-returns no_arms h = tt
AllArms-returns (arm p b arms) h = (
  and_left (block_returns b) (all_return arms) h,
  AllArms-returns arms (and_right (block_returns b) (all_return arms) h),
)

pub AllArms-check :
    (loop : Bool) (arms : Arms)
    → check_arms loop arms ≡ true
    → AllArms (λ b. check_block loop b ≡ true) arms
unfolding check_block
AllArms-check loop no_arms h = tt
AllArms-check loop (arm p b arms) h = (
  and_left (check_block loop b) (check_arms loop arms) h,
  AllArms-check loop arms (and_right (check_block loop b) (check_arms loop arms) h),
)

module _ (m : Machine) where
  pub select-Ends :
      (P : Sig m → Type 0) (R : Block → Type 0) (v : m.Value) (ty : Option Ty) (arms : Arms)
      (k : Dict m.Value → Block → Outcome m) (z : Outcome m)
      → AllArms R arms
      → ((d : Dict m.Value) (b : Block) → R b → Ends m P (k d b))
      → Ends m P z
      → Ends m P (elim (select m v ty arms) [ some (d, b) ↦ k d b | none ↦ z ])
  select-Ends P R v ty no_arms k z r h e = e
  select-Ends P R v ty (arm p b arms) k z r h e =
      go (m.match_pattern p v ty) (select-Ends P R v ty arms k z r.1 h e)
    where
      go :
          (o : Option (Dict m.Value))
          → Ends m P (elim (select m v ty arms) [ some (d, b') ↦ k d b' | none ↦ z ])
          → Ends m P
              (elim (let q : Option (Dict m.Value × Block) = elim o [
                | some d ↦ some (d, b)
                | none ↦ select m v ty arms
              ] in
                q) [ some (d, b') ↦ k d b' | none ↦ z ])
      go (some d) i = h d b r.0
      go none i = i
