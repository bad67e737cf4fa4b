-- ===== src/Boundary/Nested.antt =====
-- Rolling back twice: what the host keeps, and the system calls.
use l.Base.{
  ℕ, zero, suc, ◌+◌, ◌≤◌, Bool, true, List, [], ◌∷◌, ◌++◌, ◌≡◌, refl, sym, ◌∙◌, arith, ap, drop,
  if◌then◌else◌,
}
use l.Boundary.Recovers.{contain_fd-closed, contain_child-waited}
use l.Boundary.{
  SystemCall, close, end_child, LinuxFd, LinuxChild, LinuxHost, contain_fd, contain_child,
  contain_from, linux_rollback,
}

-- how many of the system calls pass the test
abbrev pub count_if : (SystemCall → Bool) → List SystemCall → ℕ
count_if p [] = 0
count_if p (c ∷ cs) = (if p c then 1 else 0) + count_if p cs

-- what ends the descriptors that are open, and the children that nobody has waited for
abbrev pub closes : List LinuxFd → List SystemCall
closes [] = []
closes (d ∷ ds) = (if d.closed then [] else close d.fd ∷ []) ++ closes ds

abbrev pub ends : List LinuxChild → List SystemCall
ends [] = []
ends (c ∷ cs) = (if c.waited then [] else end_child c.pidfd c.pid) ++ ends cs

count_if-append :
    (p : SystemCall → Bool) (xs ys : List SystemCall)
    → count_if p (xs ++ ys) ≡ count_if p xs + count_if p ys
count_if-append p [] ys = omega arith
count_if-append p (x ∷ xs) ys = let h = count_if-append p xs ys in omega arith

-- something that is contained is left alone the next time
abbrev IsOnce : {A : Type 0} → (A → List SystemCall × A) → Type 0
IsOnce {A} f = (x : A) → f (f x).1 ≡ ([], (f x).1)

closed_once : (d : LinuxFd) → d.closed ≡ true → contain_fd d ≡ ([], d)
unfolding contain_fd
closed_once d h = rw h refl

contain_fd-IsOnce : IsOnce contain_fd
contain_fd-IsOnce d = closed_once (contain_fd d).1 (contain_fd-closed d)

waited_once : (c : LinuxChild) → c.waited ≡ true → contain_child c ≡ ([], c)
unfolding contain_child
waited_once c h = rw h refl

contain_child-IsOnce : IsOnce contain_child
contain_child-IsOnce c = waited_once (contain_child c).1 (contain_child-waited c)

module _ {A : Type 0} (f : A → List SystemCall × A) (once : IsOnce f) where
  nested-items :
      (n k : ℕ) (xs : List A)
      → n ≤ k
      → (contain_from f n (contain_from f k xs).1).1 ≡ (contain_from f n xs).1
  unfolding contain_from
  nested-items n k [] le = refl
  nested-items zero zero (x ∷ xs) le = cc (once x, nested-items zero zero xs (omega arith))
  nested-items zero (suc k) (x ∷ xs) le =
      ap (λ ys. (f x).1 ∷ ys) (nested-items zero k xs (omega arith))
  nested-items (suc n) zero (x ∷ xs) le = absurd (omega arith)
  nested-items (suc n) (suc k) (x ∷ xs) le = ap (λ ys. x ∷ ys) (nested-items n k xs (omega arith))

  nested-calls :
      (p : SystemCall → Bool) (n k : ℕ) (xs : List A)
      → n ≤ k
      → count_if p (contain_from f n xs).0
        ≡ count_if p (contain_from f n (contain_from f k xs).1).0
          + count_if p (contain_from f k xs).0
  unfolding contain_from
  nested-calls p n k [] le = refl
  nested-calls p zero zero (x ∷ xs) le =
      let h = nested-calls p zero zero xs (omega arith) in
      let e : count_if p (f (f x).1).0 ≡ 0 = ap (λ q. count_if p q.0) (once x) in
      omega (arith, h, e, count_if-append)
  nested-calls p zero (suc k) (x ∷ xs) le =
      let h = nested-calls p zero k xs (omega arith) in omega (arith, h, count_if-append p (f x).0)
  nested-calls p (suc n) zero (x ∷ xs) le = absurd (omega arith)
  nested-calls p (suc n) (suc k) (x ∷ xs) le = nested-calls p n k xs (omega arith)

fd_call : (d : LinuxFd) → (contain_fd d).0 ≡ (if d.closed then [] else close d.fd ∷ [])
unfolding contain_fd
fd_call d = ground arith

fd_calls : (n : ℕ) (ds : List LinuxFd) → (contain_from contain_fd n ds).0 ≡ closes (drop n ds)
unfolding contain_from
fd_calls zero [] = refl
fd_calls (suc n) [] = refl
fd_calls zero (d ∷ ds) = cc (fd_call d, fd_calls zero ds)
fd_calls (suc n) (d ∷ ds) = fd_calls n ds

child_call :
    (c : LinuxChild) → (contain_child c).0 ≡ (if c.waited then [] else end_child c.pidfd c.pid)
unfolding contain_child
child_call c = ground arith

child_calls :
    (n : ℕ) (cs : List LinuxChild) → (contain_from contain_child n cs).0 ≡ ends (drop n cs)
unfolding contain_from
child_calls zero [] = refl
child_calls (suc n) [] = refl
child_calls zero (c ∷ cs) = cc (child_call c, child_calls zero cs)
child_calls (suc n) (c ∷ cs) = child_calls n cs

-- Rolling back to an inner checkpoint and then to an outer one leaves the descriptors and children that
-- rolling back to the outer one leaves, and makes each system call exactly as often as the descriptors
-- still open and the children not waited for behind the outer checkpoint ask for: none is closed or
-- ended twice, and none is left out.
pub rollback_nested :
    (outer inner : ℕ × ℕ) (h : LinuxHost) (p : SystemCall → Bool)
    → outer.0 ≤ inner.0
    → outer.1 ≤ inner.1
    → ((linux_rollback outer (linux_rollback inner h)).fds ≡ (linux_rollback outer h).fds)
      × ((linux_rollback outer (linux_rollback inner h)).children
          ≡ (linux_rollback outer h).children)
      × (count_if p (linux_rollback outer (linux_rollback inner h)).calls
          ≡ count_if p h.calls
            + (count_if p (closes (drop outer.0 h.fds))
                + count_if p (ends (drop outer.1 h.children))))
unfolding linux_rollback
rollback_nested outer inner h p le le' = (
  nested-items contain_fd contain_fd-IsOnce outer.0 inner.0 h.fds le,
  nested-items contain_child contain_child-IsOnce outer.1 inner.1 h.children le',
  total (contain_from contain_fd inner.0 h.fds).0 (contain_from contain_child inner.1 h.children).0
      (contain_from contain_fd outer.0 (contain_from contain_fd inner.0 h.fds).1).0
      (contain_from contain_child outer.1 (contain_from contain_child inner.1 h.children).1).0
      (sym (nested-calls contain_fd contain_fd-IsOnce p outer.0 inner.0 h.fds le)
        ∙ ap (count_if p) (fd_calls outer.0 h.fds))
      (sym (nested-calls contain_child contain_child-IsOnce p outer.1 inner.1 h.children le')
        ∙ ap (count_if p) (child_calls outer.1 h.children)),
)
  where
    total :
        (xs bs cs ds : List SystemCall)
        → count_if p cs + count_if p xs ≡ count_if p (closes (drop outer.0 h.fds))
        → count_if p ds + count_if p bs ≡ count_if p (ends (drop outer.1 h.children))
        → count_if p ((h.calls ++ (xs ++ bs)) ++ (cs ++ ds))
          ≡ count_if p h.calls
            + (count_if p (closes (drop outer.0 h.fds))
                + count_if p (ends (drop outer.1 h.children)))
    total xs bs cs ds e f =
        let x = count_if-append p (h.calls ++ (xs ++ bs)) (cs ++ ds) in
        let y = count_if-append p h.calls (xs ++ bs) in
        let z = count_if-append p xs bs in let w = count_if-append p cs ds in omega arith
