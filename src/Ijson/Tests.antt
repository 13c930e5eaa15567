-- ===== src/Ijson/Tests.antt =====
-- The theorems on paths at a concrete value.
use testmerge.Base.{◌≡◌, ◌⊎◌, refl, true, false, none, some, List, [], ◌∷◌}
use testmerge.Ijson.{
  Json, undefined, object, array, number, nil, cons, empty, field, PathPart, key, index, get_path,
  set_path, append_command, apply_command,
}
use testmerge.Ijson.Roundtrip.{setting, set_path-reads}
use testmerge.Ijson.Removal.{removing, IsGone, set_path-removes}

abbrev settings : Json
settings = object (field "tabs" (array (cons (number 1) (cons (number 2) nil))) empty)

abbrev second_tab : List PathPart
second_tab = key "tabs" ∷ index 1 ∷ []

appended :
    apply_command settings
      (record { command_type = append_command; path = key "tabs" ∷ []; value = number 3 })
    ≡ some (
        object
          (field "tabs" (array (cons (number 1) (cons (number 2) (cons (number 3) nil)))) empty))
unfolding apply_command
appended = refl

set_path-reads_example :
    ((set_path settings second_tab (number 7) (setting false) ≡ none) × (false ≡ false))
    ⊎ ((obj' : Json) × (set_path settings second_tab (number 7) (setting false) ≡ some obj')
        × (get_path obj' second_tab ≡ some (number 7)))
set_path-reads_example = set_path-reads false settings second_tab (number 7) (tt, (tt, tt))

set_path-removes_example :
    ((set_path settings second_tab undefined (removing true) ≡ none) × (true ≡ false))
    ⊎ ((obj' : Json) × (set_path settings second_tab undefined (removing true) ≡ some obj')
        × IsGone second_tab obj')
set_path-removes_example = set_path-removes true settings second_tab undefined (tt, (tt, tt)) refl
