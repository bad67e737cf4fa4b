-- ===== src/Examples/Types.antt =====
-- Runs and instances for types and inference of src/lang/core.py.
use l.Base.{true, false, ◌≡◌, ◌↔◌, refl, [], ◌∷◌}
use l.Base.Dict.{Dict, insert, lookup, ◌⊑◌}
use l.Base.Results.{ok}
use l.Types.{Ty, opt, array, const_array, param, name_ty}
use l.Types.Equality.{same_type, ty_eq, same_type_iff}
use l.Types.Subst.{substitute, is_fully_bound}
use l.Types.Infer.{unify}
use l.Types.Infer.Sound.{erase, unify_sound}

-- [](?T) against const [](?i32)
abbrev wants : Ty
wants = array (opt (param "T"))

abbrev given : Ty
given = const_array (opt (name_ty "i32"))

abbrev found : Dict Ty
found = ("T", name_ty "i32") ∷ []

unifies : unify false wants given [] ≡ ok (true, found)
unfolding unify lookup insert
unifies = refl

unify_sound_example :
    ([] ⊑ found)
    × (is_fully_bound wants found ≡ true)
    × (erase (substitute wants found) ≡ erase given)
unify_sound_example = unify_sound false wants given [] found unifies

same_type_iff_example :
    ((same_type wants given ≡ true) ↔ (wants ≡ given))
    × ((ty_eq wants given ≡ true) ↔ (wants ≡ given))
same_type_iff_example = same_type_iff wants given
