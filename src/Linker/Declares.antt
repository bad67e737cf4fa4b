-- ===== src/Linker/Declares.antt =====
-- What the linked program declares, and which names of other modules a module reaches.
use l.Base.{
  String, Bool, true, false, Option, none, some, List, [], ◌∷◌, ◌++◌, map, ◌≡◌, refl, ap, ◌∙◌,
  if◌then◌else◌,
}
use l.Base.Dict.{Dict}
use l.Base.Results.{Result, ok, err, ◌>>=◌}
use l.Syntax.{Decl, import, const, struct, enum, fn}
use l.Linker.Names.{LinkError, Names, internal_name, names_of}
use l.Linker.Rewrite.{rewrite_ty, rewrite_params, rewrite_expr, rewrite_block}
use l.Linker.Merge.{
  Merged, shadows, reserved_names, refuse_shadows, rewrite_fields, rewrite_variants, rewrite_decl,
  merge_decls, is_host, host_import, merge_imports, tables, merge_module, rewrite_merge,
}
use l.Linker.Holds.{Holds, Holds-bind, Holds-skip, Holds-ok}

-- the name that a declaration binds, the alias of an import
abbrev pub bound_name : Decl → String
bound_name (import q (some alias)) = alias
bound_name (import q none) = ""
bound_name (const public n t e) = n
bound_name (struct public n gps fs) = n
bound_name (enum public n gps vs) = n
bound_name (fn public n gps ps r b) = n

abbrev pub merged_names : List Merged → List String
merged_names [] = []
merged_names (d ∷ ds) = bound_name d.decl ∷ merged_names ds

-- the names that a source module declares, in its order
abbrev pub declared : List Decl → List String
declared [] = []
declared (import q alias ∷ ds) = declared ds
declared (d ∷ ds) = bound_name d ∷ declared ds

-- the keys of the imports of host modules
abbrev pub host_keys : List (List String) → Dict (List String) → List String
host_keys hosts [] = []
host_keys hosts ((alias, target) ∷ is) =
    let rest = host_keys hosts is in if is_host hosts target then alias ∷ rest else rest

-- Module by module: its imports of host modules, and its declarations.
abbrev pub linked_names : List (List String) → List (List String × List Decl) → List String
linked_names hosts [] = []
linked_names hosts ((m, ds) ∷ order) =
    (map (internal_name m) (host_keys hosts (names_of ds).imports)
      ++ map (internal_name m) (declared ds))
    ++ linked_names hosts order

merged_names-append :
    (xs ys : List Merged) → merged_names (xs ++ ys) ≡ merged_names xs ++ merged_names ys
merged_names-append [] ys = refl
merged_names-append (x ∷ xs) ys = ap (λ ns. bound_name x.decl ∷ ns) (merged_names-append xs ys)

both_cons : {a b : String} {as' bs : List String} → a ≡ b → as' ≡ bs → (a ∷ as') ≡ (b ∷ bs)
both_cons p q = cc

both_append : {as' bs cs ds : List String} → as' ≡ bs → cs ≡ ds → (as' ++ cs) ≡ (bs ++ ds)
both_append p q = cc

abbrev Renamed : List String → Decl → Decl → Type 0
Renamed m d d' = bound_name d' ≡ internal_name m (bound_name d)

refuse_shadows-Holds :
    {A : Type 0} (P : A → Type 0) (gps : List String) (here : Names) (r : Result LinkError A)
    → Holds P r
    → Holds P (refuse_shadows gps here r)
refuse_shadows-Holds P gps here r h = go (shadows gps (reserved_names here))
  where
    go : (b : Bool) → Holds P (if b then err LinkError.shadows_module_name else r)
    go true = tt
    go false = h

module _ (parsed : List String → Option Names) (m : List String) (here : Names) where
  rewrite_decl-Renamed : (d : Decl) → Holds (Renamed m d) (rewrite_decl parsed m here d)
  unfolding rewrite_decl
  rewrite_decl-Renamed (import q alias) = tt
  rewrite_decl-Renamed (const public n t e) =
      Holds-skip _ (rewrite_ty parsed m here [] t) _
        λ t'. Holds-skip _ (rewrite_expr parsed m here [] e) _ λ e'. refl
  rewrite_decl-Renamed (struct public n gps fs) =
      refuse_shadows-Holds _ gps here _
        (Holds-skip _ (rewrite_fields parsed m here gps fs) _ λ fs'. refl)
  rewrite_decl-Renamed (enum public n gps vs) =
      refuse_shadows-Holds _ gps here _
        (Holds-skip _ (rewrite_variants parsed m here gps vs) _ λ vs'. refl)
  rewrite_decl-Renamed (fn public n gps ps r b) = refuse_shadows-Holds _ gps here _ (
      Holds-skip _ (rewrite_params parsed m here gps ps) _ λ ps'.
        Holds-skip _ (rewrite_ty parsed m here gps r) _
          λ r'. Holds-skip _ (rewrite_block parsed m here gps b) _ λ b'. refl)

  -- a declaration in front of the others
  abbrev with_decl : Decl → List Decl → Result LinkError (List Merged)
  with_decl d ds = rewrite_decl parsed m here d >>= λ d'. merge_decls parsed m here ds >>= λ ms.
      ok (record { decl = d'; origin = m; reserved = some (reserved_names here) } ∷ ms)

  abbrev Lists : List String → Result LinkError (List Merged) → Type 0
  Lists ns r = Holds (λ ms. merged_names ms ≡ map (internal_name m) ns) r

  with_decl-Lists :
      (d : Decl) (ds : List Decl)
      → Lists (declared ds) (merge_decls parsed m here ds)
      → Lists (bound_name d ∷ declared ds) (with_decl d ds)
  with_decl-Lists d ds h =
      Holds-bind (Renamed m d) _ (rewrite_decl parsed m here d) _ (rewrite_decl-Renamed d)
        λ d' hd. Holds-bind _ _ (merge_decls parsed m here ds) _ h λ ms hm. both_cons hd hm

  merge_decls-Lists : (ds : List Decl) → Lists (declared ds) (merge_decls parsed m here ds)
  unfolding merge_decls
  merge_decls-Lists [] = refl
  merge_decls-Lists (import q alias ∷ ds) = merge_decls-Lists ds
  merge_decls-Lists (const public n t e ∷ ds) =
      with_decl-Lists (const public n t e) ds (merge_decls-Lists ds)
  merge_decls-Lists (struct public n gps fs ∷ ds) =
      with_decl-Lists (struct public n gps fs) ds (merge_decls-Lists ds)
  merge_decls-Lists (enum public n gps vs ∷ ds) =
      with_decl-Lists (enum public n gps vs) ds (merge_decls-Lists ds)
  merge_decls-Lists (fn public n gps ps r b ∷ ds) =
      with_decl-Lists (fn public n gps ps r b) ds (merge_decls-Lists ds)

merge_imports-names :
    (hosts : List (List String)) (m : List String) (is : Dict (List String))
    → merged_names (merge_imports hosts m is) ≡ map (internal_name m) (host_keys hosts is)
unfolding merge_imports
merge_imports-names hosts m [] = refl
merge_imports-names hosts m ((alias, target) ∷ is) =
    go (is_host hosts target) (merge_imports-names hosts m is)
  where
    go :
        (b : Bool)
        → merged_names (merge_imports hosts m is) ≡ map (internal_name m) (host_keys hosts is)
        → merged_names (
            if b
            then host_import m alias target ∷ merge_imports hosts m is
            else merge_imports hosts m is)
          ≡ map (internal_name m) (if b then alias ∷ host_keys hosts is else host_keys hosts is)
    go true h = ap (λ ns. internal_name m alias ∷ ns) h
    go false h = h

module _ (hosts : List (List String)) (sources : List String → Option (List Decl)) where
  merge_module-names :
      (m : List String) (ds : List Decl)
      → Holds
          (λ ms.
            merged_names ms
            ≡ map (internal_name m) (host_keys hosts (names_of ds).imports)
              ++ map (internal_name m) (declared ds))
          (merge_module hosts sources m ds)
  merge_module-names m ds =
      let here = names_of ds in
      Holds-bind _ _ (merge_decls (tables hosts sources) m here ds) _
        (merge_decls-Lists (tables hosts sources) m here ds)
        λ ms h.
          merged_names-append (merge_imports hosts m here.imports) ms
          ∙ both_append (merge_imports-names hosts m here.imports) h

  all-names :
      (order : List (List String × List Decl))
      → Holds (λ ms. merged_names ms ≡ linked_names hosts order) (rewrite_merge hosts sources order)
  unfolding rewrite_merge
  all-names [] = refl
  all-names ((m, ds) ∷ order) =
      Holds-bind _ _ (merge_module hosts sources m ds) _ (merge_module-names m ds) λ ms h.
        Holds-bind _ _ (rewrite_merge hosts sources order) _ (all-names order)
          λ rest k. merged_names-append ms rest ∙ both_append h k

  -- Where merging succeeds, the linked program declares, module by module in the order of the sort, the
  -- imports of host modules under their internal names and then every declaration of the module under
  -- its internal name, in the order of the source, and nothing else.
  pub rewrite_merge-names :
      (order : List (List String × List Decl)) (ms : List Merged)
      → rewrite_merge hosts sources order ≡ ok ms
      → merged_names ms ≡ linked_names hosts order
  rewrite_merge-names order ms h = Holds-ok _ _ ms h (all-names order)
