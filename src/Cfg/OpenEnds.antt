-- ===== src/Cfg/OpenEnds.antt =====
-- Where the builder leaves an open end, and when it marks a loop as left by `break`.
use l.Base.{
  ℕ, ◌+◌, Bool, true, false, ◌||◌, not, Option, none, some, List, [], ◌∷◌, ◌++◌, ◌≡◌, refl, ap, ◌∙◌,
  sym,
}
use mathlib.Core.Bool.{or-false, or-true, or_assoc}
use l.Syntax.{
  Stmt, Block, end, next, Arms, no_arms, arm, OptExpr, no_expr, an_expr, if_else, while, for, forin,
  match, letelse, return, break, continue, trap, var, assign, exprstmt,
}
use l.Checker.{contains_break, breaks, any_breaks}
use l.Cfg.{
  Frontier, Loop, Graph, Built, Label, block, along, stmt, arms, is_empty, join, join_from,
  mark_used, else_built, for_frontier, open_at, context, decide, of_expr, of_pattern, fixed,
  note_dead, nest,
}

-- a loop without a test ends only by a break
abbrev pub for_opens : OptExpr → Bool → Bool
for_opens no_expr b = b
for_opens (an_expr e) b = true

-- Can a statement leave an open end?
unfoldable mutual
  pub opens : Stmt → Bool
  opens (if_else c t e) = block_opens true t || block_opens true e
  opens (for i c st b) = for_opens c (contains_break b)
  opens (match e as') = arms_open as'
  opens (return e) = false
  opens break = false
  opens continue = false
  opens trap = false
  opens _ = true

  -- where the first argument says whether an open end leads to the block
  pub block_opens : Bool → Block → Bool
  block_opens o end = o
  block_opens o (next s b) = block_opens (opens s) b

  pub arms_open : Arms → Bool
  arms_open no_arms = false
  arms_open (arm p b as') = block_opens true b || arms_open as'

-- the mark of a break
abbrev pub mark : Bool → Option Loop → Option Loop
mark b none = none
mark b (some l) = some (record l { break_used = l.break_used || b })

mark-false : (l : Option Loop) → mark false l ≡ l
mark-false none = refl
mark-false (some l) = ap (λ b. some (record l { break_used = b })) (or-false l.break_used)

mark_or : (a b : Bool) (l : Option Loop) → mark b (mark a l) ≡ mark (a || b) l
mark_or a b none = refl
mark_or a b (some l) = ap (λ c. some (record l { break_used = c })) (or_assoc l.break_used a b)

mark-true : (l : Option Loop) → mark true l ≡ mark_used l
mark-true none = refl
mark-true (some l) = ap (λ b. some (record l { break_used = b })) (or-true l.break_used)

-- the open ends and the loop context of an answer
abbrev pub Leaves : Bool → Option Loop → Built → Type 0
Leaves o l r = (not (is_empty r.frontier) ≡ o) × (r.loop ≡ l)

nonempty-append :
    {A : Type 0} (xs ys : List A)
    → not (is_empty (xs ++ ys)) ≡ (not (is_empty xs) || not (is_empty ys))
nonempty-append [] ys = refl
nonempty-append (x ∷ xs) ys = refl

append-open :
    {A : Type 0} (xs ys : List A) (o p : Bool)
    → not (is_empty xs) ≡ o
    → not (is_empty ys) ≡ p
    → not (is_empty (xs ++ ys)) ≡ (o || p)
append-open xs ys o p h k = cc (nonempty-append xs ys, h, k)

join_from-Leaves :
    (t : Label) (fr : Frontier) (l : Option Loop) (g : Graph)
    → Leaves (not (is_empty fr)) l (join_from t fr l g)
join_from-Leaves t [] l g = (refl, refl)
join_from-Leaves t (x ∷ fr) l g = (refl, refl)

join-Leaves :
    (t : Label) (o : Bool) (l : Option Loop) (r : Built) → Leaves o l r → Leaves o l (join t r)
join-Leaves t o l r h =
    let j = join_from-Leaves t r.frontier r.loop r.graph in (j.0 ∙ h.0, j.1 ∙ h.1)

-- two parts, one behind the other, whose loop marks add up
after-mark :
    (a b : Bool) (l l₁ l₂ : Option Loop) → l₁ ≡ mark a l → l₂ ≡ mark b l₁ → l₂ ≡ mark (a || b) l
after-mark a b l l₁ l₂ h k = k ∙ ap (mark b) h ∙ mark_or a b l

else_built-Leaves :
    (e : Block) (d : ℕ) (a b : Built)
    → Leaves (block_opens true e) (mark (contains_break e) a.loop) b
    → Leaves (block_opens true e) (mark (contains_break e) a.loop) (else_built e d a b)
unfolding opens contains_break
else_built-Leaves end d a b h = (refl, sym (mark-false a.loop))
else_built-Leaves (next s e) d a b h = h

for_frontier-open :
    (c : OptExpr) (r : Option Loop) (d : ℕ) (b : Bool) (t n : ℕ)
    → r ≡ mark b (context t n)
    → not (is_empty (for_frontier c r d)) ≡ for_opens c b
for_frontier-open no_expr r d true t n h = ap (λ l. not (is_empty (for_frontier no_expr l d))) h
for_frontier-open no_expr r d false t n h = ap (λ l. not (is_empty (for_frontier no_expr l d))) h
for_frontier-open (an_expr e) r d b t n h = refl

mutual
  unfolding block opens contains_break

  pub stmt-Leaves :
      (s : Stmt) (fr : Frontier) (l : Option Loop) (n : ℕ) (g : Graph)
      → Leaves (opens s) (mark (breaks s) l) (stmt s fr l n g)
  stmt-Leaves (if_else c t e) fr l n g =
      let g₁ = decide (of_expr "if " c) fr g in
      let a = block t (open_at g.serial "yes") l (n + 1) g₁ in
      let b = block e (open_at g.serial "no") a.loop (n + 1) a.graph in
      let ha = block-Leaves t (open_at g.serial "yes") l (n + 1) g₁ in
      let hb =
        else_built-Leaves e g.serial a b
          (block-Leaves e (open_at g.serial "no") a.loop (n + 1) a.graph) in
      join-Leaves (fixed "merge") _ _ _ (
        append-open a.frontier _ _ _ ha.0 hb.0,
        after-mark (contains_break t) (contains_break e) l _ _ ha.1 hb.1,
      )
  stmt-Leaves (while c b) fr l n g = (refl, sym (mark-false l))
  stmt-Leaves (forin x c b) fr l n g = (refl, sym (mark-false l))
  stmt-Leaves (for i c st b) fr l n g =
      (for_frontier-open c _ _ _ _ _ (block-Leaves b _ _ _ _).1, sym (mark-false l))
  stmt-Leaves (match e as') fr l n g =
      join-Leaves (fixed "after match") _ _ _
        (arms-Leaves as' g.serial l (n + 1) (decide (of_expr "match " e) fr g))
  stmt-Leaves (letelse p e b) fr l n g =
      (refl, (block-Leaves b (open_at g.serial "else") l (n + 1) _).1)
  stmt-Leaves (return e) fr l n g = (refl, sym (mark-false l))
  stmt-Leaves trap fr l n g = (refl, sym (mark-false l))
  stmt-Leaves break fr l n g = (refl, sym (mark-true l))
  stmt-Leaves continue fr l n g = (refl, sym (mark-false l))
  stmt-Leaves (var x t e) fr l n g = (refl, sym (mark-false l))
  stmt-Leaves (assign e o e') fr l n g = (refl, sym (mark-false l))
  stmt-Leaves (exprstmt e) fr l n g = (refl, sym (mark-false l))

  pub block-Leaves :
      (b : Block) (fr : Frontier) (l : Option Loop) (n : ℕ) (g : Graph)
      → Leaves (block_opens (not (is_empty fr)) b) (mark (contains_break b) l) (block b fr l n g)
  block-Leaves end fr l n g = (refl, sym (mark-false l))
  block-Leaves (next s b) fr l n g =
      let g₁ = note_dead fr s (nest n g) in
      let r = stmt s fr l n g₁ in
      let hs = stmt-Leaves s fr l n g₁ in
      let hb = along-Leaves b r.frontier r.loop n r.graph in
      (
        hb.0 ∙ ap (λ o. block_opens o b) hs.0,
        after-mark (breaks s) (contains_break b) l _ _ hs.1 hb.1,
      )

  along-Leaves :
      (b : Block) (fr : Frontier) (l : Option Loop) (n : ℕ) (g : Graph)
      → Leaves (block_opens (not (is_empty fr)) b) (mark (contains_break b) l) (along b fr l n g)
  along-Leaves end fr l n g = (refl, sym (mark-false l))
  along-Leaves (next s b) fr l n g =
      let r = stmt s fr l n (note_dead fr s g) in
      let hs = stmt-Leaves s fr l n (note_dead fr s g) in
      let hb = along-Leaves b r.frontier r.loop n r.graph in
      (
        hb.0 ∙ ap (λ o. block_opens o b) hs.0,
        after-mark (breaks s) (contains_break b) l _ _ hs.1 hb.1,
      )

  arms-Leaves :
      (as' : Arms) (d : ℕ) (l : Option Loop) (n : ℕ) (g : Graph)
      → Leaves (arms_open as') (mark (any_breaks as') l) (arms as' d l n g)
  arms-Leaves no_arms d l n g = (refl, sym (mark-false l))
  arms-Leaves (arm p b as') d l n g =
      let fr = (d, some (of_pattern p)) ∷ [] in
      let a = block b fr l n g in
      let ha = block-Leaves b fr l n g in
      let hr = arms-Leaves as' d a.loop n a.graph in
      (
        append-open a.frontier _ _ _ ha.0 hr.0,
        after-mark (contains_break b) (any_breaks as') l _ _ ha.1 hr.1,
      )
