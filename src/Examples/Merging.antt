-- ===== src/Examples/Merging.antt =====
-- Runs and instances for the merging of source modules in src/lang/core.py.
use l.Base.{String, true, false, Option, some, none, List, [], ◌∷◌, ◌≡◌, refl, if◌then◌else◌}
use l.Base.Dict.{lookup, insert}
use l.Base.Results.{ok, err}
use l.Types.{Ty, nil, cons, name_ty, qname_eq}
use l.Syntax.{
  Decl, import, const, struct, fn, node, qname, generic_call, no_exprs, bool, Block, end, next,
  while, break, return, no_expr,
}
use l.Linker.{contains}
use l.Linker.Names.{Names, names_of, resolve_source_name, private_member}
use l.Linker.Rewrite.{rewrite_ty, rewrite_params, rewrite_expr, rewrite_block}
use l.Linker.Merge.{
  Merged, rewrite_merge, merge_decls, rewrite_decl, rewrite_fields, merge_imports, tables,
}
use l.Linker.Flow.{SameFlow, rewrite_block-SameFlow}
use l.Linker.Declares.{merged_names, linked_names, rewrite_merge-names}
use l.Linker.Visible.{IsWord}
use l.Lexer.Chars.{continues_name}

abbrev box_path : List String
box_path = "box" ∷ []

abbrev main_path : List String
main_path = "main" ∷ []

-- pub struct Box {} struct Secret {}
abbrev box_decls : List Decl
box_decls = struct true "Box" [] [] ∷ struct false "Secret" [] [] ∷ []

-- while (flag) { break; } return;
abbrev main_body : Block
main_body =
    next (while (node none (qname ("flag" ∷ []))) (next break end)) (next (return no_expr) end)

-- import box; import io; const flag: bool = true; fn main(b: box.Box) { … }
abbrev main_decls : List Decl
main_decls =
    import box_path none
    ∷ import ("io" ∷ []) none
    ∷ const false "flag" (name_ty "bool") (node none (bool true))
    ∷ fn false "main" [] (("b", Ty.name ("box" ∷ "Box" ∷ []) nil) ∷ []) Ty.unit main_body
    ∷ []

abbrev two_sources : List String → Option (List Decl)
two_sources q =
    if qname_eq q box_path
    then some box_decls
    else if qname_eq q main_path
    then some main_decls
    else none

abbrev hosts : List (List String)
hosts = ("io" ∷ []) ∷ []

abbrev main_names : Names
main_names = names_of main_decls

abbrev merged : List Merged
merged =
    record {
      decl = struct true "box$Box" [] [];
      origin = box_path;
      reserved = some ("Box" ∷ "Secret" ∷ []);
    }
    ∷ record {
      decl = struct false "box$Secret" [] [];
      origin = box_path;
      reserved = some ("Box" ∷ "Secret" ∷ []);
    }
    ∷ record { decl = import ("io" ∷ []) (some "main$io"); origin = main_path; reserved = none }
    ∷ record {
      decl = const false "main$flag" (name_ty "bool") (node none (bool true));
      origin = main_path;
      reserved = some ("flag" ∷ "main" ∷ "box" ∷ "io" ∷ []);
    }
    ∷ record {
      decl = fn false "main$main" [] (("b", name_ty "box$Box") ∷ []) Ty.unit (
          next (while (node none (qname ("main$flag" ∷ []))) (next break end))
            (next (return no_expr) end));
      origin = main_path;
      reserved = some ("flag" ∷ "main" ∷ "box" ∷ "io" ∷ []);
    }
    ∷ []

merges :
    rewrite_merge hosts two_sources ((box_path, box_decls) ∷ (main_path, main_decls) ∷ [])
    ≡ ok merged
unfolding rewrite_merge merge_decls rewrite_fields rewrite_params rewrite_decl merge_imports
    rewrite_ty rewrite_expr resolve_source_name lookup insert contains
merges = refl

rewrite_merge-names_example :
    merged_names merged ≡ linked_names hosts ((box_path, box_decls) ∷ (main_path, main_decls) ∷ [])
rewrite_merge-names_example =
    rewrite_merge-names hosts two_sources ((box_path, box_decls) ∷ (main_path, main_decls) ∷ [])
      merged merges

abbrev boxed : Ty
boxed = Ty.opt (Ty.name ("box" ∷ "Box" ∷ []) nil)

private_unread : ¬ IsWord "box$Secret"
unfolding continues_name
private_unread h = cc

refuses_private :
    rewrite_ty
      (tables hosts two_sources)
      main_path
      main_names
      []
      (Ty.name ("box" ∷ "Secret" ∷ []) nil)
    ≡ err (private_member box_path "Secret")
unfolding rewrite_ty resolve_source_name lookup insert contains
refuses_private = refl

abbrev linked_body : Block
linked_body =
    next (while (node none (qname ("main$flag" ∷ []))) (next break end)) (next (return no_expr) end)

links_body :
    rewrite_block (tables hosts two_sources) main_path main_names [] main_body ≡ ok linked_body
unfolding rewrite_expr resolve_source_name lookup insert contains
links_body = refl

rewrite_block-SameFlow_example : SameFlow main_body linked_body
rewrite_block-SameFlow_example =
    rewrite_block-SameFlow (tables hosts two_sources) main_path main_names [] main_body linked_body
      links_body

-- main[box.Box](): the callee is renamed, and the type argument is not
keeps_type_arguments :
    rewrite_expr (tables hosts two_sources) main_path main_names [] (
      node none (
        generic_call
          (node none (qname ("main" ∷ [])))
          (cons (Ty.name ("box" ∷ "Box" ∷ []) nil) nil)
          no_exprs))
    ≡ ok (
        node none (
          generic_call
            (node none (qname ("main$main" ∷ [])))
            (cons (Ty.name ("box" ∷ "Box" ∷ []) nil) nil)
            no_exprs))
unfolding rewrite_expr resolve_source_name lookup insert contains
keeps_type_arguments = refl
