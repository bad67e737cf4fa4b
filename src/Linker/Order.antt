-- ===== src/Linker/Order.antt =====
-- The state of `_toposort` between two calls: what a visit keeps, and what it adds.
use mathlib.Core.Path.{subst}
use l.Base.{
  String, true, false, none, some, List, [], ◌∷◌, ◌++◌, ◌||◌, str_eq, eq_iff, ◌≡◌, refl, arith,
  Bool-cases, inl, inr, true_ne_false, or_cases,
}
use mathlib.Core.List.{append_assoc, append-nil}
use l.Base.Dict.{lookup, lookup-insert, lookup-insert_self}
use l.Linker.{Sources, in_progress, finished, Sorter, contains, set_mark, finish}

contains-append :
    (k : String) (xs ys : List String) → contains k (xs ++ ys) ≡ (contains k xs || contains k ys)
unfolding contains
contains-append k [] ys = refl
contains-append k (x ∷ xs) ys = ground (arith, contains-append k xs ys)

contains-snoc :
    (k j : String) (xs : List String) → contains k (xs ++ j ∷ []) ≡ (contains k xs || str_eq j k)
unfolding contains
contains-snoc k j xs = ground (arith, contains-append k xs (j ∷ []))

module _ (src : Sources) where
  -- the imports of m that are source modules are all in pre
  abbrev pub ImportsIn : String → List String → Type 0
  ImportsIn m pre =
      (q : String)
      → contains q (src.imports m) ≡ true
      → contains q src.modules ≡ true
      → contains q pre ≡ true

  -- Each module of the list comes once, is not in pre, and comes after its imports or has them in pre.
  abbrev pub OrderedAfter : List String → List String → Type 0
  OrderedAfter pre [] = Unit
  OrderedAfter pre (m ∷ ms) =
      ImportsIn m pre × (contains m pre ≡ false) × OrderedAfter (pre ++ m ∷ []) ms

  OrderedAfter-snoc :
      (pre ms : List String) (m : String)
      → OrderedAfter pre ms
      → ImportsIn m (pre ++ ms)
      → contains m (pre ++ ms) ≡ false
      → OrderedAfter pre (ms ++ m ∷ [])
  OrderedAfter-snoc pre [] m o i c = (rw append-nil at i, rw append-nil at c, tt)
  OrderedAfter-snoc pre (x ∷ ms) m o i c =
      (o.0, o.1, OrderedAfter-snoc (pre ++ x ∷ []) ms m o.2 (rw append_assoc i) (rw append_assoc c))

  -- what holds between two calls of `dfs`
  pub record IsSorting (st : Sorter) : Type 0 where
    pub ordered : OrderedAfter [] st.out
    pub listed : (k : String) → lookup k st.state ≡ some finished → contains k st.out ≡ true
    pub marked : (k : String) → contains k st.out ≡ true → lookup k st.state ≡ some finished

  -- From st to st', finished modules stay so, and the modules in progress are the same.
  pub record Extends (st st' : Sorter) : Type 0 where
    pub keeps :
        (k : String) → lookup k st.state ≡ some finished → lookup k st'.state ≡ some finished
    pub open_kept :
        (k : String) → lookup k st.state ≡ some in_progress → lookup k st'.state ≡ some in_progress
    pub open_only :
        (k : String) → lookup k st'.state ≡ some in_progress → lookup k st.state ≡ some in_progress

  pub Extends-refl : (st : Sorter) → Extends st st
  Extends-refl st = record { keeps = λ k h. h; open_kept = λ k h. h; open_only = λ k h. h }

  pub Extends-trans : (a b c : Sorter) → Extends a b → Extends b c → Extends a c
  Extends-trans a b c p q = record {
    keeps = λ k h. q.keeps k (p.keeps k h);
    open_kept = λ k h. q.open_kept k (p.open_kept k h);
    open_only = λ k h. p.open_only k (q.open_only k h);
  }

  -- a fresh module is marked, its imports are visited, and it is listed
  pub start-IsSorting :
      (m : String) (st : Sorter)
      → lookup m st.state ≡ none
      → IsSorting st
      → IsSorting (set_mark m in_progress st)
  start-IsSorting m st n v = record {
    ordered = v.ordered;
    listed = λ k h. v.listed k (ground (arith, lookup-insert m k in_progress st.state, h));
    marked =
        λ k h. ground (arith, lookup-insert m k in_progress st.state, eq_iff m k, v.marked k h, n);
  }

  absent :
      (m : String) (st : Sorter)
      → lookup m st.state ≡ some in_progress
      → IsSorting st
      → contains m st.out ≡ false
  absent m st n v = elim (Bool-cases (contains m st.out)) [
    | inl h ↦ cc (v.marked m h, n)
    | inr h ↦ h
  ]

  finish-IsSorting :
      (m : String) (st : Sorter)
      → lookup m st.state ≡ some in_progress
      → ImportsIn m st.out
      → IsSorting st
      → IsSorting (finish m st)
  finish-IsSorting m st n i v = record {
    ordered = OrderedAfter-snoc [] st.out m v.ordered i (absent m st n v);
    listed = λ k h.
        ground
          (arith, contains-snoc k m st.out, lookup-insert m k finished st.state, v.listed k, h);
    marked = λ k h.
        ground
          (arith, contains-snoc k m st.out, lookup-insert m k finished st.state, v.marked k, h);
  }

  -- From st, with m marked, to st': the modules in progress but m are the same after m is finished.
  finish-Extends :
      (m : String) (st st₁ : Sorter)
      → lookup m st.state ≡ none
      → Extends (set_mark m in_progress st) st₁
      → Extends st (finish m st₁)
  finish-Extends m st st₁ n e = record {
    keeps = λ k h. ground (
      arith,
      lookup-insert m k finished st₁.state,
      eq_iff m k,
      n,
      h,
      lookup-insert m k in_progress st.state,
      e.keeps k,
    );
    open_kept = λ k h. ground (
      arith,
      lookup-insert m k finished st₁.state,
      eq_iff m k,
      n,
      h,
      lookup-insert m k in_progress st.state,
      e.open_kept k,
    );
    open_only = λ k h. ground (
      arith,
      lookup-insert m k finished st₁.state,
      eq_iff m k,
      n,
      h,
      lookup-insert m k in_progress st.state,
      e.open_only k,
    );
  }

  -- what a call of `dfs` at m has done
  pub record Sorted (m : String) (st st' : Sorter) : Type 0 where
    pub sorting : IsSorting st'
    pub extends : Extends st st'
    pub done : lookup m st'.state ≡ some finished

  pub record Visited (qs : List String) (st st' : Sorter) : Type 0 where
    pub sorting : IsSorting st'
    pub extends : Extends st st'
    pub done :
        (q : String)
        → contains q qs ≡ true
        → contains q src.modules ≡ true
        → lookup q st'.state ≡ some finished

  pub finish-Sorted :
      (m : String) (st st₁ : Sorter)
      → lookup m st.state ≡ none
      → Visited (src.imports m) (set_mark m in_progress st) st₁
      → Sorted m st (finish m st₁)
  finish-Sorted m st st₁ n v =
      let opened = v.extends.open_kept m (lookup-insert_self m in_progress st.state) in
      record {
        sorting =
            finish-IsSorting m st₁ opened (λ q h s. v.sorting.listed q (v.done q h s)) v.sorting;
        extends = finish-Extends m st st₁ n v.extends;
        done = lookup-insert_self m finished st₁.state;
      }

  pub cons-Visited :
      (q : String) (qs : List String) (st st₁ st₂ : Sorter)
      → Sorted q st st₁
      → Visited qs st₁ st₂
      → Visited (q ∷ qs) st st₂
  unfolding contains
  cons-Visited q qs st st₁ st₂ a b = record {
    sorting = b.sorting;
    extends = Extends-trans st st₁ st₂ a.extends b.extends;
    done = λ k h s. elim (or_cases (str_eq q k) (contains k qs) h) [
      | inl e ↦ rw (← (eq_iff q k).0 e) (b.extends.keeps q a.done)
      | inr t ↦ b.done k t s
    ];
  }

  pub skip-Visited :
      (q : String) (qs : List String) (st st₂ : Sorter)
      → contains q src.modules ≡ false
      → Visited qs st st₂
      → Visited (q ∷ qs) st st₂
  unfolding contains
  skip-Visited q qs st st₂ n b = record {
    sorting = b.sorting;
    extends = b.extends;
    done = λ k h s. elim (or_cases (str_eq q k) (contains k qs) h) [
      | inl e ↦ true_ne_false s (subst (λ x. contains x src.modules ≡ false) ((eq_iff q k).0 e) n)
      | inr t ↦ b.done k t s
    ];
  }
