-- ===== src/Actions/Defs.antt =====
-- `ActionRegistry` of src/midicrt/engine/actions.py, and the coercion of arguments. A handler is a
-- function on the state of the engine, `S`; it may raise. Parameters are Python's own conversions:
-- `convert` is `int`, `float` or `str` by its name, `lowered` is `str(value).strip().lower()`, and
-- `loads` is `json.loads`, which answers `none` when the text is no JSON.
use midicrt.Prelude.{
  ℕ, Bool, true, false, Option, none, some, String, List, [], ◌∷◌, if◌then◌else◌, ◌==◌, text_test,
  elem,
}
use midicrt.Dict.{Dict, get, put, has, keys}

pub data Value : Type 0 where
  boolean : Bool → Value
  text : String → Value
  object : List (String × String) → Value
  number : ℕ → Value
  another : Value

-- Why a call is refused before its handler runs.
pub data Refusal : Type 0 where
  unknown_action : Refusal
  unknown_args : List String → Refusal
  missing_arg : String → Refusal
  bad_value : String → Refusal

pub data Outcome : Type 0 where
  refused : Refusal → Outcome
  raised : Outcome
  done : Dict String Value → Outcome

-- The keys that the schema does not have (the source names them in sorted order).
unfoldable pub strays : List String → Dict String String → List String
strays [] schema = []
strays (name ∷ rest) schema =
    let later = strays rest schema in if has schema name then later else name ∷ later

pub data Coerced : Type 0 where
  coerced : Dict String Value → Coerced
  failed : Refusal → Coerced

abbrev pub before : String → Value → Coerced → Coerced
before name value (coerced d) = coerced ((name, value) ∷ d)
before name value (failed why) = failed why

module _ (convert : String → Value → Option Value) (lowered : Value → String)
    (loads : String → Option Value) where
  unfoldable pub parse_bool : Value → Option Value
  parse_bool (boolean b) = some (boolean b)
  parse_bool value =
      let word = lowered value in
      if elem word ("true" ∷ "1" ∷ "yes" ∷ "on" ∷ [])
      then some (boolean true)
      else if elem word ("false" ∷ "0" ∷ "no" ∷ "off" ∷ [])
      then some (boolean false)
      else none

  abbrev pub only_object : Option Value → Option Value
  only_object (some (object fields)) = some (object fields)
  only_object _ = none

  unfoldable pub parse_dict : Value → Option Value
  parse_dict (object fields) = some (object fields)
  parse_dict (text t) = only_object (loads t)
  parse_dict _ = none

  -- `_COERCERS[type_name](value)`
  unfoldable pub coerce : String → Value → Option Value
  coerce type_name value =
      if type_name == "bool"
      then parse_bool value
      else if type_name == "dict"
      then parse_dict value
      else convert type_name value

  -- A value that was given is coerced; one that was not is the default, as it stands.
  unfoldable pub argument : String → String → Option Value → Option Value → Coerced → Coerced
  argument name type_name (some given) default rest = elim (coerce type_name given) [
    | none ↦ failed (bad_value name)
    | some value ↦ before name value rest
  ]
  argument name type_name none (some default) rest = before name default rest
  argument name type_name none none rest = failed (missing_arg name)

  unfoldable pub coerce_args : Dict String String → Dict String Value → Dict String Value → Coerced
  coerce_args [] args defaults = coerced []
  coerce_args ((name, type_name) ∷ schema) args defaults =
      argument name type_name (get args name) (get defaults name) (coerce_args schema args defaults)

  module _ (S : Type 0) where
    pub record Action : Type 0 where
      pub handler : Dict String Value → Option String → S → S × Option (Dict String Value)
      pub schema : Dict String String
      pub defaults : Dict String Value
      pub wants_origin : Bool

    abbrev pub Registry : Type 0
    Registry = Dict String Action

    -- Each action's name with its schema. The description, a text for display, is left out.
    unfoldable pub describe : Registry → Dict String (Dict String String)
    describe [] = []
    describe ((name, action) ∷ rest) = (name, action.schema) ∷ describe rest

    -- The argument name "origin" is reserved: the registration raises.
    unfoldable pub register : String → Action → Registry → Option Registry
    register name action registry =
        if has action.schema "origin" then none else some (put registry name action)

    module _ (hook : String → Dict String Value → String → Dict String Value → S → S) where
      -- The hook sees a success only.
      abbrev pub conclude :
          String → Dict String Value → String → S × Option (Dict String Value) → S × Outcome
      conclude name d origin (s, none) = (s, raised)
      conclude name d origin (s, some result) = (hook name d origin result s, done result)

      abbrev pub call : String → String → Action → Coerced → S → S × Outcome
      call name origin action (failed why) s = (s, refused why)
      call name origin action (coerced d) s =
          conclude name d origin
            (action.handler d (if action.wants_origin then some origin else none) s)

      abbrev pub checked :
          String → Dict String Value → String → Action → List String → S → S × Outcome
      checked name args origin action [] s =
          call name origin action (coerce_args action.schema args action.defaults) s
      checked name args origin action (stray ∷ more) s = (s, refused (unknown_args (stray ∷ more)))

      unfoldable pub dispatch : Registry → String → Dict String Value → String → S → S × Outcome
      dispatch registry name args origin s = elim (get registry name) [
        | none ↦ (s, refused unknown_action)
        | some action ↦ checked name args origin action (strays (keys args) action.schema) s
      ]
