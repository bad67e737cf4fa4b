-- ===== src/Bytecode/Kept.antt =====
-- src/lang/bytecode.py, class `BCCompiler`: what its operations leave as it was below an address.
use l.Base.{
  ℕ, zero, suc, ◌<◌, ◌≤◌, ◌≡◌, refl, ◌∙◌, arith, Bool, Option, none, some, List, [], ◌∷◌, ◌++◌,
  length, length-append, get_elem?, set, length-set, get_elem?-set_ne,
}
use l.Base.Results.{Result, ok, err, ◌>>=◌}
use l.Linker.Holds.{Holds, Holds-bind}
use l.Bytecode.{
  Ins, BcLoop, Compiler, Compiled, emit, mark, patch, patch_all, set_target, enter_scope,
  exit_scope,
}
use l.Bytecode.Statements.{Code}

-- a list of places of jumps with more in front, none below the address
pub data Adds (s : ℕ) (old : List ℕ) : List ℕ → Type 0 where
  same : Adds s old old
  more : {j : ℕ} {js : List ℕ} → s ≤ j → Adds s old js → Adds s old (j ∷ js)

pub Adds-trans : {s : ℕ} {xs ys zs : List ℕ} → Adds s xs ys → Adds s ys zs → Adds s xs zs
Adds-trans a same = a
Adds-trans a (more h b) = more h (Adds-trans a b)

-- the same loops with the same depths, and more jumps
abbrev pub LoopsKeep : ℕ → List BcLoop → List BcLoop → Type 0
LoopsKeep s [] [] = Unit
LoopsKeep s [] (_ ∷ _) = ⊥
LoopsKeep s (_ ∷ _) [] = ⊥
LoopsKeep s (l ∷ ls) (m ∷ ms) =
    ((m.break_depth ≡ l.break_depth)
      × (m.cont_depth ≡ l.cont_depth)
      × Adds s l.breaks m.breaks
      × Adds s l.conts m.conts)
    × LoopsKeep s ls ms

pub LoopsKeep-refl : (s : ℕ) (ls : List BcLoop) → LoopsKeep s ls ls
LoopsKeep-refl s [] = tt
LoopsKeep-refl s (l ∷ ls) = ((refl, refl, same, same), LoopsKeep-refl s ls)

pub LoopsKeep-trans :
    (s : ℕ) (ls ms ns : List BcLoop) → LoopsKeep s ls ms → LoopsKeep s ms ns → LoopsKeep s ls ns
LoopsKeep-trans s [] [] [] h g = tt
LoopsKeep-trans s (l ∷ ls) (m ∷ ms) (n ∷ ns) (h, hs) (g, gs) = (
  (g.0 ∙ h.0, g.1 ∙ h.1, Adds-trans h.2 g.2, Adds-trans h.3 g.3),
  LoopsKeep-trans s ls ms ns hs gs,
)
LoopsKeep-trans s [] [] (_ ∷ _) h g = g
LoopsKeep-trans s (_ ∷ _) (_ ∷ _) [] h g = absurd g
LoopsKeep-trans s [] (_ ∷ _) ns h g = absurd h
LoopsKeep-trans s (_ ∷ _) [] ns h g = absurd h

pub Holds-imp :
    {E A : Type 0} (P R : A → Type 0) (r : Result E A)
    → Holds P r
    → ((x : A) → P x → R x)
    → Holds R r
Holds-imp P R (ok x) h f = f x h
Holds-imp P R (err e) h f = tt

module _ {V : Type 0} where
  -- The code has not become shorter, and is the same below the address.
  abbrev pub CodeKeeps : ℕ → List (Ins V) → List (Ins V) → Type 0
  CodeKeeps s xs ys = (length xs ≤ length ys) × ((k : ℕ) → k < s → get_elem? ys k ≡ get_elem? xs k)

  get_elem?-front :
      (xs ys : List (Ins V)) (k : ℕ) → k < length xs → get_elem? (xs ++ ys) k ≡ get_elem? xs k
  get_elem?-front [] ys k h = elim h [ ]
  get_elem?-front (x ∷ xs) ys zero h = refl
  get_elem?-front (x ∷ xs) ys (suc k) h = get_elem?-front xs ys k (omega arith)

  append-CodeKeeps : (s : ℕ) (xs ys : List (Ins V)) → s ≤ length xs → CodeKeeps s xs (xs ++ ys)
  append-CodeKeeps s xs ys h =
      (omega (arith, length-append xs ys), λ k less. get_elem?-front xs ys k (omega arith))

  patched-CodeKeeps :
      (s at t : ℕ) (xs : List (Ins V)) (o : Option (Ins V))
      → s ≤ at
      → CodeKeeps s xs (elim o [ some i ↦ set xs at (set_target t i) | none ↦ xs ])
  patched-CodeKeeps s at t xs none h = (omega arith, λ k less. refl)
  patched-CodeKeeps s at t xs (some i) h = (
    omega (arith, length-set xs at (set_target t i)),
    λ k less. get_elem?-set_ne xs (set_target t i) λ e. differ k less e,
  )
    where
      differ : (k : ℕ) → k < s → at ≡ k → ⊥
      differ k less e = omega arith

  -- the compiler's code below the address, and its loops
  pub record Kept (s : ℕ) (c c' : Compiler V) : Type 0 where
    pub code_kept : CodeKeeps s c.code c'.code
    pub loops_kept : LoopsKeep s c.loops c'.loops

  pub Kept-refl : (s : ℕ) (c : Compiler V) → Kept s c c
  Kept-refl s c = record {
    code_kept = (omega arith, λ k less. refl);
    loops_kept = LoopsKeep-refl s c.loops;
  }

  pub Kept-trans : {s : ℕ} {c d e : Compiler V} → Kept s c d → Kept s d e → Kept s c e
  Kept-trans {s} {c} {d} {e} h g = record {
    code_kept = (
      omega (arith, h.code_kept.0, g.code_kept.0),
      λ k less. g.code_kept.1 k less ∙ h.code_kept.1 k less,
    );
    loops_kept = LoopsKeep-trans s c.loops d.loops e.loops h.loops_kept g.loops_kept;
  }

  pub Kept-mark : {s : ℕ} {c d : Compiler V} → Kept s c d → s ≤ mark c → s ≤ mark d
  unfolding mark
  Kept-mark h le = omega (arith, h.code_kept.0)

  pub emit-Kept : (s : ℕ) (i : Ins V) (c : Compiler V) → s ≤ mark c → Kept s c (emit i c)
  unfolding emit mark
  emit-Kept s i c h = record {
    code_kept = append-CodeKeeps s c.code (i ∷ []) h;
    loops_kept = LoopsKeep-refl s c.loops;
  }

  pub patch-Kept : (s at t : ℕ) (c : Compiler V) → s ≤ at → Kept s c (patch at t c)
  unfolding patch
  patch-Kept s at t c h = record {
    code_kept = patched-CodeKeeps s at t c.code (get_elem? c.code at) h;
    loops_kept = LoopsKeep-refl s c.loops;
  }

  pub patch_all-Kept :
      {s : ℕ} {js : List ℕ} (t : ℕ) (c : Compiler V) → Adds s [] js → Kept s c (patch_all js t c)
  unfolding patch_all
  patch_all-Kept {s} t c same = Kept-refl s c
  patch_all-Kept {s} t c (more {j} h a) =
      Kept-trans (patch-Kept s j t c h) (patch_all-Kept t (patch j t c) a)

  pub patch_all-depth :
      (js : List ℕ) (t : ℕ) (c : Compiler V) → (patch_all js t c).scope_depth ≡ c.scope_depth
  unfolding patch_all patch
  patch_all-depth [] t c = refl
  patch_all-depth (j ∷ js) t c = patch_all-depth js t (patch j t c)

  pub enter_scope-Kept :
      (s : ℕ) (b : Bool) (c : Compiler V) → s ≤ mark c → Kept s c (enter_scope b c)
  unfolding enter_scope emit mark
  enter_scope-Kept s b c h = record {
    code_kept = append-CodeKeeps s c.code _ h;
    loops_kept = LoopsKeep-refl s c.loops;
  }

  pub exit_scope-Kept : (s : ℕ) (c : Compiler V) → s ≤ mark c → Kept s c (exit_scope c)
  unfolding exit_scope emit mark
  exit_scope-Kept s c h = record {
    code_kept = append-CodeKeeps s c.code _ h;
    loops_kept = LoopsKeep-refl s c.loops;
  }

  -- The code below the address, the loops and the depth of scopes are kept.
  pub record Same (s : ℕ) (c c' : Compiler V) : Type 0 where
    pub kept : Kept s c c'
    pub depth_kept : c'.scope_depth ≡ c.scope_depth

  pub Same-refl : (s : ℕ) (c : Compiler V) → Same s c c
  Same-refl s c = record { kept = Kept-refl s c; depth_kept = refl }

  pub Same-trans : {s : ℕ} {c d e : Compiler V} → Same s c d → Same s d e → Same s c e
  Same-trans h g = record {
    kept = Kept-trans h.kept g.kept;
    depth_kept = g.depth_kept ∙ h.depth_kept;
  }

  -- code that keeps what is below any address before it
  abbrev pub Steady : Code V → Type 0
  Steady k = (s : ℕ) (c : Compiler V) → s ≤ mark c → Holds (Same s c) (k c)

  -- the rest of the code, from a compiler that has kept what is below the address
  pub Same-rest :
      {s : ℕ} {c d : Compiler V} (r : Compiled V)
      → Same s c d
      → Holds (Same s d) r
      → Holds (Same s c) r
  Same-rest {s} {c} {d} r h g = Holds-imp (Same s d) (Same s c) r g (λ e w. Same-trans h w)

  pub Same-mark : {s : ℕ} {c d : Compiler V} → Same s c d → s ≤ mark c → s ≤ mark d
  Same-mark h le = Kept-mark h.kept le

  pub Steady-then : (k g : Code V) → Steady k → Steady g → Steady (λ c. k c >>= g)
  Steady-then k g hk hg s c le =
      Holds-bind (Same s c) (Same s c) (k c) g (hk s c le)
        (λ d h. Same-rest (g d) h (hg s d (Same-mark h le)))

  pub emit-Same : (s : ℕ) (i : Ins V) (c : Compiler V) → s ≤ mark c → Same s c (emit i c)
  unfolding emit
  emit-Same s i c le = record { kept = emit-Kept s i c le; depth_kept = refl }

  pub patch-Same : (s at t : ℕ) (c : Compiler V) → s ≤ at → Same s c (patch at t c)
  unfolding patch
  patch-Same s at t c le = record { kept = patch-Kept s at t c le; depth_kept = refl }

  pub emit-Steady : (i : Ins V) → Steady (λ c. ok (emit i c))
  emit-Steady i s c le = emit-Same s i c le

  -- code with an instruction behind it
  pub with-Steady : (k : Code V) (i : Ins V) → Steady k → Steady (λ c. k c >>= λ d. ok (emit i d))
  with-Steady k i h = Steady-then k (λ d. ok (emit i d)) h (emit-Steady i)

  pub emitted :
      {s : ℕ} {c d : Compiler V} (i : Ins V) → Same s c d → s ≤ mark c → Same s c (emit i d)
  emitted {s} {c} {d} i h le = Same-trans h (emit-Same s i d (Same-mark h le))

  pub patched :
      {s : ℕ} {c d : Compiler V} (at t : ℕ) → Same s c d → s ≤ at → Same s c (patch at t d)
  patched {s} {c} {d} at t h le = Same-trans h (patch-Same s at t d le)
