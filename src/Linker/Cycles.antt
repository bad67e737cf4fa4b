-- ===== src/Linker/Cycles.antt =====
-- The error "import cycle" of `_toposort`.
use l.Base.{
  ℕ, zero, suc, String, true, Option, none, some, List, [], ◌∷◌, ◌≡◌, refl, sym, arith, Bool-cases,
  ◌⊎◌, inl, inr, str_eq, eq_iff,
}
use l.Base.Dict.{lookup, lookup-insert}
use l.Base.Results.{Result, ok, err, ◌>>=◌}
use l.Linker.{
  Sources, Mark, in_progress, finished, Sorter, SortError, dfs, visit_all, sort_all, toposort,
  fresh, contains, dfs_cases, set_mark, outputs, import_cycle,
}
use l.Linker.Order.{IsSorting, start-IsSorting}
use l.Linker.Toposort.{dfs_sorts, fresh-IsSorting}

module _ (src : Sources) where
  -- a source module that m imports
  pub record Imports (m q : String) : Type 0 where
    pub imported : contains q (src.imports m) ≡ true
    pub is_source : contains q src.modules ≡ true

  -- one import after another
  pub data Reaches : String → String → Type 0 where
    one : {m q : String} → Imports m q → Reaches m q
    more : {m p q : String} → Reaches m p → Imports p q → Reaches m q

  abbrev pub Cycle : Type 0
  Cycle = (m : String) × Reaches m m

  -- every module in progress imports its way to m
  abbrev OpenReach : Sorter → String → Type 0
  OpenReach st m = (k : String) → lookup k st.state ≡ some in_progress → Reaches k m

  -- every module in progress is m, or imports its way to m
  abbrev OpenTo : Sorter → String → Type 0
  OpenTo st m = (k : String) → lookup k st.state ≡ some in_progress → (k ≡ m) ⊎ Reaches k m

  pub bind_err :
      (r : Result SortError Sorter) (k : Sorter → Result SortError Sorter) (e : SortError)
      → (r >>= k) ≡ err e
      → (r ≡ err e) ⊎ ((st : Sorter) × (r ≡ ok st) × (k st ≡ err e))
  bind_err (ok st) k e h = inr (st, refl, h)
  bind_err (err x) k e h = inl h

  cases_err :
      (mark : Option Mark) (m : String) (st : Sorter) (visit : Result SortError Sorter)
      → lookup m st.state ≡ mark
      → dfs_cases mark m st visit ≡ err import_cycle
      → (lookup m st.state ≡ some in_progress)
        ⊎ ((lookup m st.state ≡ none) × (visit ≡ err import_cycle))
  cases_err (some in_progress) m st visit p h = inl p
  cases_err (some finished) m st visit p h = cc
  cases_err none m st (ok st₁) p h = cc
  cases_err none m st (err e) p h = inr (p, h)

  marked-OpenTo : (m : String) (st : Sorter) → OpenReach st m → OpenTo (set_mark m in_progress st) m
  marked-OpenTo m st o k h = elim (Bool-cases (str_eq m k)) [
    | inl e ↦ inl (sym ((eq_iff m k).0 e))
    | inr e ↦ inr (o k (ground (arith, lookup-insert m k in_progress st.state, e, h)))
  ]

  step-OpenReach : (m q : String) (st : Sorter) → Imports m q → OpenTo st m → OpenReach st q
  step-OpenReach m q st i o k h = elim (o k h) [ inl e ↦ rw e (one i) | inr r ↦ more r i ]

  mutual
    unfolding dfs contains

    dfs-Cycle :
        (f : ℕ) (m : String) (st : Sorter)
        → IsSorting src st
        → OpenReach st m
        → dfs src f m st ≡ err import_cycle
        → Cycle
    dfs-Cycle zero m st v o h = cc
    dfs-Cycle (suc f) m st v o h =
        elim (cases_err (lookup m st.state) m st
          (visit_all src f (src.imports m) (set_mark m in_progress st)) refl h) [
            | inl p ↦ (m, o m p)
            | inr (n, e) ↦
                visit_all-Cycle f m (src.imports m) (set_mark m in_progress st)
                  (start-IsSorting src m st n v) (marked-OpenTo m st o) (λ q c. c) e
          ]

    visit_all-Cycle :
        (f : ℕ) (m : String) (qs : List String) (st : Sorter)
        → IsSorting src st
        → OpenTo st m
        → ((q : String) → contains q qs ≡ true → contains q (src.imports m) ≡ true)
        → visit_all src f qs st ≡ err import_cycle
        → Cycle
    visit_all-Cycle zero m qs st v o i h = cc
    visit_all-Cycle (suc f) m [] st v o i h = cc
    visit_all-Cycle (suc f) m (q ∷ qs) st v o i h =
        let rest = λ (k : String) (c : contains k qs ≡ true). i k (ground (arith, c)) in
        elim (Bool-cases (contains q src.modules)) [
          | inl t ↦ elim (bind_err (dfs src f q st) (visit_all src f qs) import_cycle (rw t at h)) [
            | inl e ↦
                dfs-Cycle f q st v
                  (step-OpenReach m q st
                    (record { imported = i q (ground (arith, eq_iff q q)); is_source = t }) o)
                  e
            | inr (st₁, p, e) ↦
                let a = dfs_sorts src f q st st₁ v p in
                visit_all-Cycle f m qs st₁ a.sorting (λ k u. o k (a.extends.open_only k u)) rest e
          ]
          | inr t ↦ elim (Bool-cases (contains q src.hosts)) [
            | inl u ↦ visit_all-Cycle f m qs st v o rest (rw (t, u) at h)
            | inr u ↦ let k = rw (t, u) at h in cc
          ]
        ]

  pub outputs_err :
      (r : Result SortError Sorter) (e : SortError) → outputs src r ≡ err e → r ≡ err e
  outputs_err (ok st) e h = cc
  outputs_err (err x) e h = cc

  sort_all-Cycle :
      (f : ℕ) (ms : List String) (st : Sorter)
      → IsSorting src st
      → ((k : String) → ¬ (lookup k st.state ≡ some in_progress))
      → sort_all src f ms st ≡ err import_cycle
      → Cycle
  unfolding sort_all
  sort_all-Cycle f [] st v o h = cc
  sort_all-Cycle f (m ∷ ms) st v o h =
      elim (bind_err (dfs src f m st) (sort_all src f ms) import_cycle h) [
        | inl e ↦ dfs-Cycle f m st v (λ k p. absurd (o k p)) e
        | inr (st₁, p, e) ↦
            let a = dfs_sorts src f m st st₁ v p in
            sort_all-Cycle f ms st₁ a.sorting (λ k q. o k (a.extends.open_only k q)) e
      ]

  fresh_none : (k : String) → ¬ (lookup k (fresh src).state ≡ some in_progress)
  unfolding lookup
  fresh_none k h = cc

  -- Where `toposort` raises "import cycle", a source module imports its way back to itself.
  pub toposort-Cycle : (f : ℕ) → toposort src f ≡ err import_cycle → Cycle
  unfolding toposort
  toposort-Cycle f h =
      sort_all-Cycle f src.modules (fresh src) (fresh-IsSorting src) fresh_none
        (outputs_err (sort_all src f src.modules (fresh src)) import_cycle h)
