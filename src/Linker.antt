-- ===== src/Linker.antt =====
-- src/lang/core.py, class `Program`: `_toposort`, the order in which linked modules are merged.
-- A module path, a tuple of names in the source, is one text here.
pub mod Names
pub mod Rewrite
pub mod Merge
pub mod Holds
pub mod Flow
pub mod Declares
pub mod Visible
pub mod Order
pub mod Toposort
pub mod Cycles
pub mod Fuel
use l.Base.{
  ℕ, zero, suc, String, Bool, true, false, Option, none, some, List, [], ◌∷◌, ◌++◌, ◌||◌, str_eq,
  if◌then◌else◌,
}
use l.Base.Dict.{Dict, lookup, insert}
use l.Base.Results.{Result, ok, err, ◌>>=◌}

-- q in keys
unfoldable pub contains : String → List String → Bool
contains k [] = false
contains k (j ∷ js) = str_eq j k || contains k js

-- The keys of `self.sources` and of `self.host_modules`, and `self.imports[m].values()`.
pub record Sources : Type 0 where
  pub modules : List String
  pub hosts : List String
  pub imports : String → List String

-- the values 1 and 2 of `state`
pub data Mark : Type 0 where
  in_progress finished : Mark

pub record Sorter : Type 0 where
  pub state : Dict Mark
  pub out : List String

pub data SortError : Type 0 where
  import_cycle out_of_fuel : SortError
  unresolved : String → SortError

abbrev pub set_mark : String → Mark → Sorter → Sorter
set_mark m k st = record st { state = insert m k st.state }

-- state[m] = 2; out.append(m)
abbrev pub finish : String → Sorter → Sorter
finish m st = record { state = insert m finished st.state; out = st.out ++ m ∷ [] }

-- the tests of `dfs` on state.get(m), with what the visit of the imports gives
abbrev pub dfs_cases :
    Option Mark → String → Sorter → Result SortError Sorter → Result SortError Sorter
dfs_cases (some in_progress) m st visit = err import_cycle
dfs_cases (some finished) m st visit = ok st
dfs_cases none m st visit = visit >>= λ st₁. ok (finish m st₁)

module _ (src : Sources) where
  unfoldable mutual
    pub dfs : ℕ → String → Sorter → Result SortError Sorter
    dfs zero m st = err out_of_fuel
    dfs (suc f) m st =
        let visit = visit_all f (src.imports m) (set_mark m in_progress st) in
        dfs_cases (lookup m st.state) m st visit

    pub visit_all : ℕ → List String → Sorter → Result SortError Sorter
    visit_all zero qs st = err out_of_fuel
    visit_all (suc f) [] st = ok st
    visit_all (suc f) (q ∷ qs) st =
        let inner = (dfs f q st >>= visit_all f qs) in
        let outer = visit_all f qs st in
        if contains q src.modules
        then inner
        else if contains q src.hosts
        then outer
        else err (unresolved q)

  -- for m in self.sources: dfs(m, [])
  unfoldable pub sort_all : ℕ → List String → Sorter → Result SortError Sorter
  unfolding dfs
  sort_all f [] st = ok st
  sort_all f (m ∷ ms) st = dfs f m st >>= sort_all f ms

  abbrev pub fresh : Sorter
  fresh = record { state = []; out = [] }

  abbrev pub outputs : Result SortError Sorter → Result SortError (List String)
  outputs (ok st) = ok st.out
  outputs (err e) = err e

  unfoldable pub toposort : ℕ → Result SortError (List String)
  unfolding sort_all
  toposort f = outputs (sort_all f src.modules fresh)
