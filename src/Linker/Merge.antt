-- ===== src/Linker/Merge.antt =====
-- `Program._decl` and `_rewrite_merge`: the declarations of the linked program.
use l.Base.{String, Bool, false, Option, none, some, List, [], ◌∷◌, ◌++◌, ◌||◌, map, if◌then◌else◌}
use l.Base.Dict.{Dict}
use l.Base.Results.{Result, ok, err, ◌>>=◌}
use l.Types.{Ty, Tys, qname_eq}
use l.Syntax.{Decl, import, const, struct, enum, fn}
use l.Linker.{contains}
use l.Linker.Names.{LinkError, shadows_module_name, unexpected_decl, Names, internal_name, names_of}
use l.Linker.Rewrite.{rewrite_ty, rewrite_tys, rewrite_params, rewrite_expr, rewrite_block}

-- set(self.tops[m]) | set(self.imports[m])
abbrev pub reserved_names : Names → List String
reserved_names here = here.tops ++ map (λ (e : String × List String). e.0) here.imports

-- bool(set(gps) & reserved)
abbrev pub shadows : List String → List String → Bool
shadows [] names = false
shadows (g ∷ gps) names = contains g names || shadows gps names

-- a declaration with the attributes that the checker reads from it
pub record Merged : Type 0 where
  pub decl : Decl
  pub origin : List String
  pub reserved : Option (List String)

abbrev pub refuse_shadows :
    {A : Type 0} → List String → Names → Result LinkError A → Result LinkError A
refuse_shadows gps here r = if shadows gps (reserved_names here) then err shadows_module_name else r

module _ (parsed : List String → Option Names) (m : List String) (here : Names) where
  unfoldable pub rewrite_fields :
      List String → List (Bool × String × Ty) → Result LinkError (List (Bool × String × Ty))
  rewrite_fields gps [] = ok []
  rewrite_fields gps ((p, n, t) ∷ fs) = rewrite_ty parsed m here gps t >>= λ t'.
      rewrite_fields gps fs >>= λ fs'. ok ((p, n, t') ∷ fs')

  unfoldable pub rewrite_variants :
      List String → List (String × Tys) → Result LinkError (List (String × Tys))
  rewrite_variants gps [] = ok []
  rewrite_variants gps ((n, ts) ∷ vs) = rewrite_tys parsed m here gps ts >>= λ ts'.
      rewrite_variants gps vs >>= λ vs'. ok ((n, ts') ∷ vs')

  unfoldable pub rewrite_decl : Decl → Result LinkError Decl
  rewrite_decl (const public n t e) = rewrite_ty parsed m here [] t >>= λ t'.
      rewrite_expr parsed m here [] e >>= λ e'. ok (const public (internal_name m n) t' e')
  rewrite_decl (struct public n gps fs) =
      refuse_shadows gps here
        (rewrite_fields gps fs >>= λ fs'. ok (struct public (internal_name m n) gps fs'))
  rewrite_decl (enum public n gps vs) =
      refuse_shadows gps here
        (rewrite_variants gps vs >>= λ vs'. ok (enum public (internal_name m n) gps vs'))
  rewrite_decl (fn public n gps ps r b) = refuse_shadows gps here (
      rewrite_params parsed m here gps ps >>= λ ps'. rewrite_ty parsed m here gps r >>= λ r'.
      rewrite_block parsed m here gps b >>= λ b'. ok (fn public (internal_name m n) gps ps' r' b'))
  rewrite_decl (import q alias) = err unexpected_decl

  -- for d in self.parsed[m].a[0], without the imports
  unfoldable pub merge_decls : List Decl → Result LinkError (List Merged)
  merge_decls [] = ok []
  merge_decls (import q alias ∷ ds) = merge_decls ds
  merge_decls (d ∷ ds) = rewrite_decl d >>= λ d'. merge_decls ds >>= λ ms.
      ok (record { decl = d'; origin = m; reserved = some (reserved_names here) } ∷ ms)

abbrev pub is_host : List (List String) → List String → Bool
is_host [] q = false
is_host (h ∷ hs) q = qname_eq h q || is_host hs q

-- an import of a host module
abbrev pub host_import : List String → String → List String → Merged
host_import m alias target = record {
  decl = import target (some (internal_name m alias));
  origin = m;
  reserved = none;
}

-- for alias, target in self.imports[m].items()
unfoldable pub merge_imports : List (List String) → List String → Dict (List String) → List Merged
merge_imports hosts m [] = []
merge_imports hosts m ((alias, target) ∷ is) =
    let rest = merge_imports hosts m is in
    if is_host hosts target then host_import m alias target ∷ rest else rest

-- the module that the order names has been parsed
module _ (hosts : List (List String)) (sources : List String → Option (List Decl)) where
  abbrev pub tables : List String → Option Names
  tables q = elim (sources q) [ some ds ↦ some (names_of ds) | none ↦ none ]

  abbrev pub merge_module : List String → List Decl → Result LinkError (List Merged)
  merge_module m ds =
      let here = names_of ds in
      merge_decls tables m here ds >>= λ ms. ok (merge_imports hosts m here.imports ++ ms)

  -- for m in self.order
  unfoldable pub rewrite_merge : List (List String × List Decl) → Result LinkError (List Merged)
  rewrite_merge [] = ok []
  rewrite_merge ((m, ds) ∷ order) =
      merge_module m ds >>= λ ms. rewrite_merge order >>= λ rest. ok (ms ++ rest)
