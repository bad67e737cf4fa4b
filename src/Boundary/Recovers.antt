-- ===== src/Boundary/Recovers.antt =====
-- What a boundary leaves behind a callback that it contains.
use l.Base.{
  ℕ, zero, suc, ◌≤◌, String, true, List, [], ◌∷◌, length, ◌≡◌, refl, arith, ap, take, drop,
}
use mathlib.Core.Path.{subst}
use l.Base.Results.{Result, ok, err}
use l.Boundary.{
  LinuxFd, LinuxChild, contain_fd, contain_child, contain_from, linux_rollback, SystemCall,
  Recoverable, linux, Raised, trap_sig, lang_error, recursion_error, uncaught, trap_message,
  call_trap, cut_stacks, depths, World, rolled_back, settle, boundary_call,
}

module _ {A : Type 0} (f : A → List SystemCall × A) where
  contain_from-take : (n : ℕ) (xs : List A) → take n (contain_from f n xs).1 ≡ take n xs
  unfolding contain_from
  contain_from-take zero [] = refl
  contain_from-take (suc n) [] = refl
  contain_from-take zero (x ∷ xs) = refl
  contain_from-take (suc n) (x ∷ xs) = ap (λ ys. x ∷ ys) (contain_from-take n xs)

-- P holds of everything in a list
abbrev pub All : {A : Type 0} → (A → Type 0) → List A → Type 0
All P [] = Unit
All P (x ∷ xs) = P x × All P xs

contain_from-All :
    {A : Type 0} (P : A → Type 0) (f : A → List SystemCall × A)
    → ((x : A) → P (f x).1)
    → (n : ℕ) (xs : List A) → All P (drop n (contain_from f n xs).1)
unfolding contain_from
contain_from-All P f h zero [] = tt
contain_from-All P f h (suc n) [] = tt
contain_from-All P f h zero (x ∷ xs) = (h x, contain_from-All P f h zero xs)
contain_from-All P f h (suc n) (x ∷ xs) = contain_from-All P f h n xs

pub contain_child-waited : (c : LinuxChild) → (contain_child c).1.waited ≡ true
unfolding contain_child
contain_child-waited c = ground arith

pub contain_fd-closed : (d : LinuxFd) → (contain_fd d).1.closed ≡ true
unfolding contain_fd
contain_fd-closed d = ground arith

-- The stacks are at most as deep as they were.
abbrev pub AtMost : {F : Type 0} → List (List F) → List ℕ → Type 0
AtMost (s ∷ ss) (n ∷ ns) = (length s ≤ n) × AtMost ss ns
AtMost _ _ = Unit

length-take_le : {A : Type 0} (n : ℕ) (xs : List A) → length (take n xs) ≤ n
length-take_le zero [] = omega arith
length-take_le (suc n) [] = omega arith
length-take_le zero (x ∷ xs) = omega arith
length-take_le (suc n) (x ∷ xs) = let h = length-take_le n xs in omega arith

cut_stacks-AtMost : {F : Type 0} (ss : List (List F)) (ns : List ℕ) → AtMost (cut_stacks ss ns) ns
unfolding cut_stacks
cut_stacks-AtMost [] [] = tt
cut_stacks-AtMost [] (n ∷ ns) = tt
cut_stacks-AtMost (s ∷ ss) [] = tt
cut_stacks-AtMost (s ∷ ss) (n ∷ ns) = (length-take_le n s, cut_stacks-AtMost ss ns)

module _ (proc term : Recoverable) (F V : Type 0) where
  -- From the world before the callback, what it left, and what the boundary made of that.
  abbrev pub Recovered :
      World proc term linux F V → World proc term linux F V → World proc term linux F V → Type 0
  Recovered before left after =
      let n = length before.linux_state.fds in
      let k = length before.linux_state.children in
      (take n after.linux_state.fds ≡ take n left.linux_state.fds)
      × All (λ d. d.closed ≡ true) (drop n after.linux_state.fds)
      × (take k after.linux_state.children ≡ take k left.linux_state.children)
      × All (λ c. c.waited ≡ true) (drop k after.linux_state.children)
      × AtMost after.stacks (depths before.stacks)

  rolled_back-Recovered :
      (before left : World proc term linux F V)
      → Recovered before left (rolled_back proc term linux F V before left)
  unfolding linux_rollback
  rolled_back-Recovered before left =
      let n = length before.linux_state.fds in
      let k = length before.linux_state.children in
      (
        contain_from-take contain_fd n left.linux_state.fds,
        contain_from-All (λ d. d.closed ≡ true) contain_fd contain_fd-closed n left.linux_state.fds,
        contain_from-take contain_child k left.linux_state.children,
        contain_from-All (λ c. c.waited ≡ true) contain_child contain_child-waited k
            left.linux_state.children,
        cut_stacks-AtMost left.stacks (depths before.stacks),
      )

  -- the callback raised `e` in the world `left`
  abbrev pub Contained :
      (World proc term linux F V → Result Raised V × World proc term linux F V)
      → String
      → World proc term linux F V
      → World proc term linux F V
      → Type 0
  Contained fn msg before after =
      (left : World proc term linux F V) × (e : Raised) × (fn before ≡ (err e, left))
      × (msg ≡ trap_message e)
      × Recovered before left after

  settled :
      (fn : World proc term linux F V → Result Raised V × World proc term linux F V) (msg : String)
      (before after : World proc term linux F V) (r : Result Raised V × World proc term linux F V)
      → fn before ≡ r
      → settle proc term linux F V before r ≡ (call_trap msg, after)
      → Contained fn msg before after
  settled fn msg before after (ok v, left) h k = cc
  settled fn msg before after (err uncaught, left) h k = cc
  settled fn msg before after (err (trap_sig t), left) h k = (
    left,
    trap_sig t,
    h,
    cc,
    subst (Recovered before left) (ap (λ p. p.1) k) (rolled_back-Recovered before left),
  )
  settled fn msg before after (err (lang_error t), left) h k = (
    left,
    lang_error t,
    h,
    cc,
    subst (Recovered before left) (ap (λ p. p.1) k) (rolled_back-Recovered before left),
  )
  settled fn msg before after (err recursion_error, left) h k = (
    left,
    recursion_error,
    h,
    cc,
    subst (Recovered before left) (ap (λ p. p.1) k) (rolled_back-Recovered before left),
  )

  -- Where a boundary over a LinuxHost answers with a trap, the callback raised an error of that message,
  -- every descriptor and child that it acquired is closed or waited for, those from before the call are
  -- as the callback left them, and no stack is deeper than before the call.
  pub boundary_call-Contained :
      (fn : World proc term linux F V → Result Raised V × World proc term linux F V) (msg : String)
      (before after : World proc term linux F V)
      → boundary_call proc term linux F V fn before ≡ (call_trap msg, after)
      → Contained fn msg before after
  unfolding boundary_call
  boundary_call-Contained fn msg before after h = settled fn msg before after (fn before) refl h
