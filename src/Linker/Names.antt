-- ===== src/Linker/Names.antt =====
-- `Program.__init__`, `internal_name` and `_resolve_source_name`: the tables of names of the source
-- modules, and what a qualified name of a module stands for in the linked program.
use l.Base.{String, Bool, Option, none, some, List, [], ◌∷◌, ◌++◌, if◌then◌else◌}
use Prim.Native.String.{◌++◌ as ◌+++◌}
use l.Base.Dict.{Dict, lookup, insert}
use l.Base.Results.{Result, ok, err}
use l.Syntax.{Decl, import, const, struct, enum, fn}
use l.Linker.{contains}

pub data LinkError : Type 0 where
  module_not_value shadows_module_name unexpected_decl : LinkError
  unknown_member private_member : List String → String → LinkError

-- INTERNAL_SEP.join(mod)
abbrev pub joined_path : List String → String
joined_path [] = ""
joined_path (n ∷ []) = n
joined_path (n ∷ k ∷ ns) = n +++ ("$" +++ joined_path (k ∷ ns))

abbrev pub internal_name : List String → String → String
internal_name m n = joined_path m +++ ("$" +++ n)

-- self.imports[m], the keys of self.tops[m], and self.exports[m]
pub record Names : Type 0 where
  pub imports : Dict (List String)
  pub tops : List String
  pub exports : List String

-- alias or q[-1], where the parser leaves no q empty
abbrev pub import_key : List String → Option String → String
import_key q (some alias) = alias
import_key [] none = ""
import_key (n ∷ []) none = n
import_key (n ∷ k ∷ ns) none = import_key (k ∷ ns) none

abbrev pub add_top : Bool → String → Names → Names
add_top public n t = record t {
  tops = t.tops ++ n ∷ [];
  exports = if public then t.exports ++ n ∷ [] else t.exports;
}

abbrev pub add_decl : Decl → Names → Names
add_decl (import q alias) t = record t { imports = insert (import_key q alias) q t.imports }
add_decl (const public n ty e) t = add_top public n t
add_decl (struct public n gps fs) t = add_top public n t
add_decl (enum public n gps vs) t = add_top public n t
add_decl (fn public n gps ps r b) t = add_top public n t

abbrev pub add_decls : List Decl → Names → Names
add_decls [] t = t
add_decls (d ∷ ds) t = add_decls ds (add_decl d t)

abbrev pub names_of : List Decl → Names
names_of ds = add_decls ds (record { imports = []; tops = []; exports = [] })

-- a name of the source module `target`
abbrev pub member_name : List String → Names → List String → Result LinkError (List String)
member_name target t [] = err module_not_value
member_name target t (n ∷ more) =
    if contains n t.tops
    then (if contains n t.exports
        then ok (internal_name target n ∷ more)
        else err (private_member target n))
    else err (unknown_member target n)

-- `parsed` gives the tables of a source module; any other path is a host module's.
module _ (parsed : List String → Option Names) where
  abbrev pub imported_name :
      List String → String → List String → List String → Result LinkError (List String)
  imported_name m first target rest = elim (parsed target) [
    | some t ↦ member_name target t rest
    | none ↦ ok (internal_name m first ∷ rest)
  ]

  abbrev pub own_name : List String → Names → String → List String → List String
  own_name m here first rest =
      if contains first here.tops then internal_name m first ∷ rest else first ∷ rest

  -- for the module m with the tables `here`
  unfoldable pub resolve_source_name :
      List String → Names → List String → Result LinkError (List String)
  resolve_source_name m here [] = ok []
  resolve_source_name m here (first ∷ rest) = elim (lookup first here.imports) [
    | some target ↦ imported_name m first target rest
    | none ↦ ok (own_name m here first rest)
  ]
