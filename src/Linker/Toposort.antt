-- ===== src/Linker/Toposort.antt =====
-- The order that `_toposort` returns.
use mathlib.Core.Path.{subst}
use l.Base.{
  ℕ, zero, suc, String, true, Option, none, some, List, [], ◌∷◌, ◌≡◌, refl, Bool-cases, inl, inr,
  or_cases, str_eq, eq_iff,
}
use l.Base.Dict.{lookup}
use l.Base.Results.{Result, ok, err, bind_ok}
use l.Linker.{
  Sources, Mark, in_progress, finished, Sorter, SortError, dfs, visit_all, sort_all, toposort,
  fresh, contains, dfs_cases, set_mark, finish, outputs,
}
use l.Linker.Order.{
  OrderedAfter, IsSorting, Extends, Sorted, Visited, finish-Sorted, cons-Visited, skip-Visited,
  Extends-refl, Extends-trans, start-IsSorting,
}

module _ (src : Sources) where
  abbrev sorted_to : Sorter → Result SortError Sorter
  sorted_to st = ok st

  the_sorter : {a b : Sorter} → sorted_to a ≡ ok b → a ≡ b
  the_sorter h = cc

  cases-Sorted :
      (mark : Option Mark) (m : String) (st st' : Sorter) (visit : Result SortError Sorter)
      → lookup m st.state ≡ mark
      → IsSorting src st
      → dfs_cases mark m st visit ≡ ok st'
      → (lookup m st.state ≡ none
          → (st₁ : Sorter) → visit ≡ ok st₁
          → Visited src (src.imports m) (set_mark m in_progress st) st₁)
      → Sorted src m st st'
  cases-Sorted (some in_progress) m st st' visit e v h k = cc
  cases-Sorted (some finished) m st st' visit e v h k =
      subst (Sorted src m st) (the_sorter h)
        (record { sorting = v; extends = Extends-refl src st; done = e })
  cases-Sorted none m st st' visit e v h k =
      let (st₁, p, q) = bind_ok visit (λ st₁. ok (finish m st₁)) h in
      subst (Sorted src m st) (the_sorter q) (finish-Sorted src m st st₁ e (k e st₁ p))

  mutual
    unfolding dfs contains

    dfs-Sorted :
        (f : ℕ) (m : String) (st st' : Sorter)
        → IsSorting src st
        → dfs src f m st ≡ ok st'
        → Sorted src m st st'
    dfs-Sorted zero m st st' v h = cc
    dfs-Sorted (suc f) m st st' v h =
        cases-Sorted (lookup m st.state) m st st'
          (visit_all src f (src.imports m) (set_mark m in_progress st)) refl v h
          (λ n st₁ e.
            visit_all-Visited f (src.imports m) (set_mark m in_progress st) st₁
              (start-IsSorting src m st n v) e)

    visit_all-Visited :
        (f : ℕ) (qs : List String) (st st' : Sorter)
        → IsSorting src st
        → visit_all src f qs st ≡ ok st'
        → Visited src qs st st'
    visit_all-Visited zero qs st st' v h = cc
    visit_all-Visited (suc f) [] st st' v h =
        subst (Visited src [] st) (the_sorter h)
          (record { sorting = v; extends = Extends-refl src st; done = λ q c s. cc })
    visit_all-Visited (suc f) (q ∷ qs) st st' v h = elim (Bool-cases (contains q src.modules)) [
      | inl t ↦
          let (st₁, e, k) = bind_ok (dfs src f q st) (visit_all src f qs) (rw t at h) in
          let a = dfs-Sorted f q st st₁ v e in
          cons-Visited src q qs st st₁ st' a (visit_all-Visited f qs st₁ st' a.sorting k)
      | inr t ↦ elim (Bool-cases (contains q src.hosts)) [
        | inl u ↦ skip-Visited src q qs st st' t (visit_all-Visited f qs st st' v (rw (t, u) at h))
        | inr u ↦ let k = rw (t, u) at h in cc
      ]
    ]

  pub dfs_sorts :
      (f : ℕ) (m : String) (st st' : Sorter)
      → IsSorting src st
      → dfs src f m st ≡ ok st'
      → Sorted src m st st'
  dfs_sorts f m st st' = dfs-Sorted f m st st'

  sort_all-Sorted :
      (f : ℕ) (ms : List String) (st st' : Sorter)
      → IsSorting src st
      → sort_all src f ms st ≡ ok st'
      → IsSorting src st'
        × Extends src st st'
        × ((m : String) → contains m ms ≡ true → contains m st'.out ≡ true)
  unfolding sort_all contains
  sort_all-Sorted f [] st st' v h = (
    subst (IsSorting src) (the_sorter h) v,
    subst (Extends src st) (the_sorter h) (Extends-refl src st),
    λ m c. cc,
  )
  sort_all-Sorted f (m ∷ ms) st st' v h =
      let (st₁, p, q) = bind_ok (dfs src f m st) (sort_all src f ms) h in
      let a = dfs-Sorted f m st st₁ v p in
      let (w, e, c) = sort_all-Sorted f ms st₁ st' a.sorting q in
      (
        w,
        Extends-trans src st st₁ st' a.extends e,
        λ k i. elim (or_cases (str_eq m k) (contains k ms) i) [
          | inl t ↦ rw (← (eq_iff m k).0 t) (w.listed m (e.keeps m a.done))
          | inr t ↦ c k t
        ],
      )

  pub fresh-IsSorting : IsSorting src (fresh src)
  unfolding lookup contains
  fresh-IsSorting = record { ordered = tt; listed = λ k h. cc; marked = λ k h. cc }

  output-eq :
      (r : Result SortError Sorter) (out : List String)
      → outputs src r ≡ ok out
      → (st : Sorter) × (r ≡ ok st) × (st.out ≡ out)
  output-eq (ok st) out h = (st, refl, cc)
  output-eq (err e) out h = cc

  -- Where `toposort` succeeds, every source module is in the result, no module is in it twice, and
  -- each comes after all the source modules that it imports.
  pub toposort-Ordered :
      (f : ℕ) (out : List String)
      → toposort src f ≡ ok out
      → OrderedAfter src [] out
        × ((m : String) → contains m src.modules ≡ true → contains m out ≡ true)
  unfolding toposort
  toposort-Ordered f out h =
      let (st, p, e) = output-eq (sort_all src f src.modules (fresh src)) out h in
      let (v, x, c) = sort_all-Sorted f src.modules (fresh src) st fresh-IsSorting p in
      (subst (OrderedAfter src []) e v.ordered, λ m i. subst (λ o. contains m o ≡ true) e (c m i))
