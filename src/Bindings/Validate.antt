-- ===== src/Bindings/Validate.antt =====
-- `validate_binding` of src/midicrt/engine/bindings.py. Names that the source sorts for its message
-- stand in the order of the dictionaries.
use midicrt.Prelude.{
  ℕ, not, Option, none, some, String, List, [], ◌∷◌, if◌then◌else◌, ◌==◌, text_test, option_test,
  elem, keep, length,
}
use midicrt.Dict.{Dict, get, keys}
use midicrt.Bindings.Defs.{Mode, trigger, continuous, unknown_mode, Binding, Args, fill_keys}

-- What is wrong with a binding.
pub data Fault : Type 0 where
  action_unknown : Fault
  fill_count : ℕ → Fault
  fill_not_float : String → Fault
  none_in_trigger missing extra : List String → Fault

abbrev pub without : Option String → List String → List String
without none names = names
without (some fill) names = keep (λ name. not (name == fill)) names

unfoldable pub check_lists : List String → List String → Option Fault
check_lists [] [] = none
check_lists [] (e ∷ es) = some (extra (e ∷ es))
check_lists (m ∷ ms) _ = some (missing (m ∷ ms))

-- Declared and provided names but for the one to be filled, each way.
unfoldable pub check_names : Option String → Dict String String → Args → Option Fault
check_names fill schema args =
    let declared = without fill (keys schema) in
    let provided = without fill (keys args) in
    check_lists (keep (λ name. not (elem name provided)) declared)
      (keep (λ name. not (elem name declared)) provided)

unfoldable pub check_trigger : List String → Dict String String → Args → Option Fault
check_trigger [] schema args = check_names none schema args
check_trigger (k ∷ ks) schema args = some (none_in_trigger (k ∷ ks))

unfoldable pub check_continuous : List String → Dict String String → Args → Option Fault
check_continuous (fill ∷ []) schema args =
    if get schema fill == some "float"
    then check_names (some fill) schema args
    else some (fill_not_float fill)
check_continuous fills schema args = some (fill_count (length fills))

unfoldable pub check_mode : Mode → Dict String String → Args → Option Fault
check_mode trigger schema args = check_trigger (fill_keys args) schema args
check_mode continuous schema args = check_continuous (fill_keys args) schema args
check_mode unknown_mode schema args = check_names none schema args

-- The actions are given by their names and schemas, as `ActionRegistry.describe` gives them.
unfoldable pub validate_binding : Binding → Dict String (Dict String String) → Option Fault
validate_binding b actions = elim (get actions b.action) [
  | none ↦ some action_unknown
  | some schema ↦ check_mode b.mode schema b.args
]
