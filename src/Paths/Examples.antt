-- ===== src/Paths/Examples.antt =====
-- The paths of the unit tests.
use lion_fs.Base.{◌≡◌, refl, List, [], ◌∷◌}
use lion_fs.Paths.{Text, normalize, split, normalize_components, is_absolute}
use lion_fs.Paths.Normal.{
  IsNormal, resolve, resolve_back, origin, resolve_back-normalize_components,
}

-- "/a//../../b"
abbrev climbing : Text
climbing = 47 ∷ 97 ∷ 47 ∷ 47 ∷ 46 ∷ 46 ∷ 47 ∷ 46 ∷ 46 ∷ 47 ∷ 98 ∷ []

-- "/b"
absolute_test : normalize climbing ≡ 47 ∷ 98 ∷ []
unfolding normalize
absolute_test = refl

-- "a/../../b" gives "../b"
relative_test : normalize (97 ∷ 47 ∷ 46 ∷ 46 ∷ 47 ∷ 46 ∷ 46 ∷ 47 ∷ 98 ∷ []) ≡ 46 ∷ 46 ∷ 47 ∷ 98 ∷ []
unfolding normalize
relative_test = refl

empty_test : normalize [] ≡ 46 ∷ []
unfolding normalize
empty_test = refl

-- "../..", from the directory "/a/b"
abbrev two_up : Text
two_up = 46 ∷ 46 ∷ 47 ∷ 46 ∷ 46 ∷ []

abbrev nested : List Text
nested = (98 ∷ []) ∷ (97 ∷ []) ∷ []

two_up_test : (resolve nested (split two_up) ≡ []) × (resolve nested [] ≡ nested)
unfolding resolve split
two_up_test = (refl, refl)

resolve_back-normalize_components_example :
    IsNormal (is_absolute two_up) (normalize_components two_up)
    × (resolve_back (origin (is_absolute two_up) nested) (normalize_components two_up)
        ≡ resolve (origin (is_absolute two_up) nested) (split two_up))
resolve_back-normalize_components_example = resolve_back-normalize_components two_up nested
