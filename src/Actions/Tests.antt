-- ===== src/Actions/Tests.antt =====
-- Concrete calls of actions on a state that is the list of what ran.
use midicrt.Prelude.{
  ◌≡◌, ◌⊎◌, refl, true, false, Option, none, some, String, List, [], ◌∷◌, if◌then◌else◌, ◌==◌,
  text_test,
}
use midicrt.Dict.{Dict, get, put}
use midicrt.Actions.Defs.{
  Value, boolean, text, number, done, refused, unknown_action, missing_arg, Action, Registry,
  register, dispatch, coerce, parse_bool, parse_dict, argument, coerce_args, strays,
}
use midicrt.Actions.Dispatch.{RefusedOrRuns, dispatch_refuses_or_runs, dispatch_runs}

abbrev convert : String → Value → Option Value
convert type_name (number n) = some (number n)
convert type_name (text t) = if type_name == "str" then some (text t) else none
convert type_name _ = none

abbrev lowered : Value → String
lowered (text t) = t
lowered _ = "?"

abbrev loads : String → Option Value
loads _ = none

abbrev hook : String → Dict String Value → String → Dict String Value → List String → List String
hook name d origin result log = origin ∷ log

abbrev enable : Action convert lowered loads (List String)
enable = record {
  handler = λ d origin log. ("ran" ∷ log, some []);
  schema = ("enabled", "bool") ∷ ("channel", "int") ∷ [];
  defaults = ("channel", number 1) ∷ [];
  wants_origin = false;
}

abbrev registry : Registry convert lowered loads (List String)
registry = ("pagecycle.enable", enable) ∷ []

abbrev given : Dict String Value
given = ("enabled", text "on") ∷ []

abbrev filled : Dict String Value
filled = ("enabled", boolean true) ∷ ("channel", number 1) ∷ []

execution : Unit {0}
unfolding get put strays parse_bool parse_dict coerce argument coerce_args register dispatch
execution = tt

enabled :
    dispatch convert lowered loads (List String) hook registry "pagecycle.enable" given "web" []
    ≡ ("web" ∷ "ran" ∷ [], done [])
unfolding execution
enabled = refl

lacking :
    dispatch convert lowered loads (List String) hook registry "pagecycle.enable" [] "web" []
    ≡ ([], refused (missing_arg "enabled"))
unfolding execution
lacking = refl

reserved :
    register convert lowered loads
      (List String)
      "x"
      (record enable { schema = ("origin", "str") ∷ [] })
      registry
    ≡ none
unfolding execution
reserved = refl

dispatch_refuses_or_runs_example :
    let result =
      dispatch convert lowered loads
        (List String)
        hook
        registry
        "pagecycle.enable"
        given
        "web"
        [] in
    (result ≡ ([], refused unknown_action))
    ⊎ ((action : Action convert lowered loads (List String)) × (get registry "pagecycle.enable"
          ≡ some action)
        × RefusedOrRuns convert lowered loads
            (List String)
            hook
            "pagecycle.enable"
            given
            "web"
            action
            []
            result)
dispatch_refuses_or_runs_example =
    dispatch_refuses_or_runs convert lowered loads (List String) hook registry "pagecycle.enable"
      given "web" []

dispatch_runs_example :
    dispatch convert lowered loads (List String) hook registry "pagecycle.enable" given "web" []
    ≡ ("web" ∷ "ran" ∷ [], done [])
unfolding execution
dispatch_runs_example =
    dispatch_runs convert lowered loads (List String) hook registry "pagecycle.enable" given filled
      "web" [] enable refl (refl, tt) (refl, refl, (refl, refl, tt))
