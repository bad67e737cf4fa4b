-- ===== src/Linker/Fuel.antt =====
-- The fuel of the search, against unvisited modules and import lines.
use l.Base.{
  ℕ, zero, suc, ◌+◌, ◌*◌, ◌≤◌, ◌<◌, String, true, Option, none, some, List, [], ◌∷◌, ◌≡◌, refl,
  arith, Bool-cases, inl, inr, str_eq, eq_iff, if◌then◌else◌, length,
}
use l.Base.Dict.{Dict, lookup, insert, lookup-insert, lookup-insert_self}
use l.Base.Results.{Result, ok, err}
use l.Linker.{
  Sources, Mark, in_progress, finished, Sorter, SortError, dfs, visit_all, sort_all, toposort,
  fresh, contains, dfs_cases, set_mark, out_of_fuel,
}
use l.Linker.Order.{IsSorting, Extends, start-IsSorting}
use l.Linker.Toposort.{dfs_sorts, fresh-IsSorting}
use l.Linker.Cycles.{bind_err, outputs_err}
use l.Types.Subst.{is_some}

-- how many of the modules carry no mark
abbrev pub unvisited : List String → Dict Mark → ℕ
unvisited [] d = 0
unvisited (m ∷ ms) d = (if is_some (lookup m d) then 0 else 1) + unvisited ms d

-- every mark that d has, d' has in some form
abbrev MarksKept : Dict Mark → Dict Mark → Type 0
MarksKept d d' = (k : String) → is_some (lookup k d) ≡ true → is_some (lookup k d') ≡ true

unvisited_le :
    (ms : List String) (d d' : Dict Mark) → MarksKept d d' → unvisited ms d' ≤ unvisited ms d
unvisited_le [] d d' h = omega arith
unvisited_le (m ∷ ms) d d' h = ground (arith, unvisited_le ms d d' h, h m)

insert-MarksKept : (k : String) (v : Mark) (d : Dict Mark) → MarksKept d (insert k v d)
insert-MarksKept k v d j h = ground (arith, lookup-insert k j v d, h)

unvisited_lt :
    (ms : List String) (m : String) (v : Mark) (d : Dict Mark)
    → contains m ms ≡ true
    → lookup m d ≡ none
    → unvisited ms (insert m v d) < unvisited ms d
unfolding contains
unvisited_lt [] m v d c n = cc
unvisited_lt (x ∷ ms) m v d c n = elim (Bool-cases (str_eq x m)) [
  | inl e ↦
      let le = unvisited_le ms d (insert m v d) (insert-MarksKept m v d) in
      let at_x = (eq_iff x m).0 e in rw (at_x, n, lookup-insert_self m v d) (omega (arith, le))
  | inr e ↦
      let lt = unvisited_lt ms m v d (rw e at c) n in ground (arith, lt, insert-MarksKept m v d x)
]

mark_kept :
    (o o' : Option Mark)
    → (o ≡ some finished → o' ≡ some finished)
    → (o ≡ some in_progress → o' ≡ some in_progress)
    → is_some o ≡ true
    → is_some o' ≡ true
mark_kept none o' f p h = cc
mark_kept (some finished) o' f p h = rw (f refl)
mark_kept (some in_progress) o' f p h = rw (p refl)

-- the fuel that a call needs with u unvisited modules and import lists of length n at most
abbrev pub need : ℕ → ℕ → ℕ
need n u = u * (n + 2) + 1

need_less : (n u v k : ℕ) → v < u → k ≤ n → k + 1 + need n v < need n u
need_less n u v k lt le = let e : suc v * (n + 2) ≤ u * (n + 2) = grind arith in omega (arith, e)

need_mono : (n u v : ℕ) → v ≤ u → need n v ≤ need n u
need_mono n u v le = let e : v * (n + 2) ≤ u * (n + 2) = grind arith in omega (arith, e)

module _ (src : Sources) where
  Extends-MarksKept : (st st' : Sorter) → Extends src st st' → MarksKept st.state st'.state
  Extends-MarksKept st st' e k h =
      mark_kept (lookup k st.state) (lookup k st'.state) (e.keeps k) (e.open_kept k) h

  -- No import list is longer than this.
  abbrev pub ImportsBound : ℕ → Type 0
  ImportsBound n = (m : String) → length (src.imports m) ≤ n

  left : Sorter → ℕ
  left st = unvisited src.modules st.state

  cases-total :
      (mark : Option Mark) (m : String) (st : Sorter) (visit : Result SortError Sorter)
      → lookup m st.state ≡ mark
      → (lookup m st.state ≡ none → ¬ (visit ≡ err out_of_fuel))
      → ¬ (dfs_cases mark m st visit ≡ err out_of_fuel)
  cases-total (some in_progress) m st visit e k h = cc
  cases-total (some finished) m st visit e k h = cc
  cases-total none m st (ok st₁) e k h = cc
  cases-total none m st (err x) e k h = k e h

  module _ (n : ℕ) (bound : ImportsBound n) where
    mutual
      unfolding dfs left

      dfs-total :
          (f : ℕ) (m : String) (st : Sorter)
          → IsSorting src st
          → contains m src.modules ≡ true
          → need n (left st) ≤ f
          → ¬ (dfs src f m st ≡ err out_of_fuel)
      dfs-total zero m st v c le h = omega arith
      dfs-total (suc f) m st v c le h =
          cases-total (lookup m st.state) m st
            (visit_all src f (src.imports m) (set_mark m in_progress st)) refl
            (λ none_yet.
              let lt = unvisited_lt src.modules m in_progress st.state c none_yet in
              let less =
                need_less n (left st) (left (set_mark m in_progress st)) (length (src.imports m)) lt
                  (bound m) in
              visit_all-total f (src.imports m) (set_mark m in_progress st)
                (start-IsSorting src m st none_yet v) (omega (arith, le, less)))
            h

      visit_all-total :
          (f : ℕ) (qs : List String) (st : Sorter)
          → IsSorting src st
          → length qs + 1 + need n (left st) ≤ f
          → ¬ (visit_all src f qs st ≡ err out_of_fuel)
      visit_all-total zero qs st v le h = omega arith
      visit_all-total (suc f) [] st v le h = cc
      visit_all-total (suc f) (q ∷ qs) st v le h = elim (Bool-cases (contains q src.modules)) [
        | inl t ↦
            elim (bind_err src (dfs src f q st) (visit_all src f qs) out_of_fuel (rw t at h)) [
              | inl e ↦ dfs-total f q st v t (omega (arith, le)) e
              | inr (st₁, p, e) ↦
                  let a = dfs_sorts src f q st st₁ v p in
                  let fewer = need_mono n (left st) (left st₁) (
                    unvisited_le src.modules st.state st₁.state
                      (Extends-MarksKept st st₁ a.extends)) in
                  visit_all-total f qs st₁ a.sorting (omega (arith, le, fewer)) e
            ]
        | inr t ↦ elim (Bool-cases (contains q src.hosts)) [
          | inl u ↦ visit_all-total f qs st v (omega (arith, le)) (rw (t, u) at h)
          | inr u ↦ let k = rw (t, u) at h in cc
        ]
      ]

    sort_all-total :
        (f : ℕ) (ms : List String) (st : Sorter)
        → IsSorting src st
        → ((m : String) → contains m ms ≡ true → contains m src.modules ≡ true)
        → need n (left st) ≤ f
        → ¬ (sort_all src f ms st ≡ err out_of_fuel)
    unfolding sort_all contains left
    sort_all-total f [] st v i le h = cc
    sort_all-total f (m ∷ ms) st v i le h =
        elim (bind_err src (dfs src f m st) (sort_all src f ms) out_of_fuel h) [
          | inl e ↦ dfs-total f m st v (i m (ground (arith, eq_iff m m))) le e
          | inr (st₁, p, e) ↦
              let a = dfs_sorts src f m st st₁ v p in
              let fewer = need_mono n (left st) (left st₁) (
                unvisited_le src.modules st.state st₁.state (Extends-MarksKept st st₁ a.extends)) in
              sort_all-total f ms st₁ a.sorting (λ k c. i k (ground (arith, c)))
                (omega (arith, le, fewer)) e
        ]

    fresh_unvisited : (ms : List String) → unvisited ms [] ≤ length ms
    unfolding lookup
    fresh_unvisited [] = omega arith
    fresh_unvisited (m ∷ ms) = omega (arith, fresh_unvisited ms)

    -- Where no module imports more than n modules and the fuel is enough for every module and n import
    -- lines of each, `toposort` comes to an end: it returns an order or raises one of its two errors.
    pub toposort-total :
        (f : ℕ) → need n (length src.modules) ≤ f → ¬ (toposort src f ≡ err out_of_fuel)
    unfolding toposort left
    toposort-total f le h =
        let few =
          need_mono n (length src.modules) (unvisited src.modules [])
            (fresh_unvisited src.modules) in
        sort_all-total f src.modules (fresh src) (fresh-IsSorting src) (λ m c. c)
          (omega (arith, le, few))
          (outputs_err src (sort_all src f src.modules (fresh src)) out_of_fuel h)
