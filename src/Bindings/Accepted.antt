-- ===== src/Bindings/Accepted.antt =====
-- What a validated binding asks of the registry of actions.
use midicrt.Prelude.{
  ℕ, ◌≡◌, refl, ap, subst, ◌∙◌, Bool, true, false, Bool-cases, Option-cases, Option, none, some,
  String, List, [], ◌∷◌, arith, if◌then◌else◌, ◌==◌, ==_iff, ==_refl, text_test, option_test, elem,
  All, inl, inr,
}
use midicrt.Prelude.Int.{ℤ}
use midicrt.Dict.{Dict, get, has, keys, elem-keys}
use midicrt.Event.{MidiEvent}
use midicrt.Actions.Defs.{
  Value, another, Outcome, refused, raised, done, unknown_action, unknown_args, missing_arg,
  bad_value, strays, Coerced, coerced, failed, before, coerce, argument, coerce_args, Action,
  Registry, describe, conclude, call, dispatch,
}
use midicrt.Actions.Dispatch.{none_stray}
use midicrt.Bindings.Defs.{
  Mode, trigger, continuous, unknown_mode, Binding, Args, Memory, fill_keys, matches,
  fire_continuous, evaluate_mode, evaluate, lerp,
}
use midicrt.Bindings.Expected.{intent-fire_trigger}
use midicrt.Bindings.Validate.{
  check_names, check_trigger, check_continuous, check_mode, validate_binding,
}
use midicrt.Bindings.Agree.{Agree, plain-Agree, elem-fill_keys, filled-Agree, put-Agree}

-- Python's None is a value like any other.
abbrev pub passed : Args → Dict String Value
passed [] = []
passed ((k, none) ∷ args) = (k, another) ∷ passed args
passed ((k, some v) ∷ args) = (k, v) ∷ passed args

has-passed : (args : Args) (k : String) → has (passed args) k ≡ has args k
unfolding get
has-passed [] k = refl
has-passed ((j, none) ∷ args) k = ground (arith, has-passed args k)
has-passed ((j, some v) ∷ args) k = ground (arith, has-passed args k)

-- Nothing is wrong with the call but, perhaps, the value of an argument.
abbrev pub Acceptable : Outcome → Type 0
Acceptable (refused (bad_value name)) = Unit
Acceptable (refused unknown_action) = ⊥
Acceptable (refused (unknown_args names)) = ⊥
Acceptable (refused (missing_arg name)) = ⊥
Acceptable raised = Unit
Acceptable (done result) = Unit

abbrev Complete : Coerced → Type 0
Complete (coerced d) = Unit
Complete (failed why) = Acceptable (refused why)

every_in :
    (names : List String) (schema : Dict String String)
    → ((k : String) → elem k names ≡ true → has schema k ≡ true)
    → All (λ name. has schema name ≡ true) names
every_in [] schema h = tt
every_in (n ∷ names) schema h =
    (h n (rw (==_refl n) refl), every_in names schema (λ k e. h k (ground (arith, e))))

pub get-describe :
    (convert : String → Value → Option Value) (lowered : Value → String)
    (loads : String → Option Value) (S : Type 0) (registry : Registry convert lowered loads S)
    (name : String)
    → get (describe convert lowered loads S registry) name
      ≡ elim (get registry name) [ none ↦ none | some action ↦ some action.schema ]
unfolding describe get
get-describe convert lowered loads S [] name = refl
get-describe convert lowered loads S ((j, action) ∷ rest) name =
    ground (arith, get-describe convert lowered loads S rest name)

has-head :
    (name type_name : String) (schema : Dict String String)
    → has ((name, type_name) ∷ schema) name ≡ true
unfolding get
has-head name type_name schema = rw (==_refl name) refl

has-tail :
    (name type_name : String) (schema : Dict String String) (k : String)
    → has schema k ≡ true
    → has ((name, type_name) ∷ schema) k ≡ true
unfolding get
has-tail name type_name schema k h = ground (arith, h)

module _ (convert : String → Value → Option Value) (lowered : Value → String)
    (loads : String → Option Value) where
  before-Complete :
      (name : String) (value : Value) (rest : Coerced)
      → Complete rest
      → Complete (before name value rest)
  before-Complete name value (coerced d) h = tt
  before-Complete name value (failed why) h = h

  coerce_args-Complete :
      (schema : Dict String String) (args defaults : Dict String Value)
      → ((k : String) → has schema k ≡ true → has args k ≡ true)
      → Complete (coerce_args convert lowered loads schema args defaults)
  unfolding coerce_args argument
  coerce_args-Complete [] args defaults h = tt
  coerce_args-Complete ((name, type_name) ∷ schema) args defaults h =
      elim (Option-cases (get args name)) [
        | inl absent ↦ absurd (ground (arith, h name (has-head name type_name schema), absent))
        | inr (given, there) ↦ elim (Option-cases (coerce convert lowered loads type_name given)) [
          | inl bad ↦ rw (there, bad, argument) tt
          | inr (value, good) ↦
              rw (there, good, argument)
                (before-Complete name value _ (
                  coerce_args-Complete schema args defaults
                    (λ k e. h k (has-tail name type_name schema k e))))
        ]
      ]

  module _ (S : Type 0)
      (hook : String → Dict String Value → String → Dict String Value → S → S) where
    conclude-Acceptable :
        (name : String) (d : Dict String Value) (origin : String)
        (result : S × Option (Dict String Value))
        → Acceptable (conclude convert lowered loads S hook name d origin result).1
    conclude-Acceptable name d origin (s, none) = tt
    conclude-Acceptable name d origin (s, some result) = tt

    call-Acceptable :
        (name origin : String) (action : Action convert lowered loads S) (c : Coerced) (s : S)
        → Complete c
        → Acceptable (call convert lowered loads S hook name origin action c s).1
    call-Acceptable name origin action (failed why) s h = h
    call-Acceptable name origin action (coerced d) s h = conclude-Acceptable name d origin _

    pub dispatch-Acceptable :
        (registry : Registry convert lowered loads S) (name : String) (args : Args)
        (origin : String) (s : S) (action : Action convert lowered loads S)
        → get registry name ≡ some action
        → Agree action.schema args
        → Acceptable (dispatch convert lowered loads S hook registry name (passed args) origin s).1
    unfolding dispatch
    dispatch-Acceptable registry name args origin s action known agree =
        let given = passed args in
        let no_stray : strays (keys given) action.schema ≡ [] =
          none_stray convert lowered loads (keys given) action.schema (
            every_in (keys given) action.schema
              (λ k e. ground (arith, e, elem-keys given k, has-passed args k, agree k))) in
        rw (known, no_stray, dispatch)
          (call-Acceptable name origin action
            (coerce_args convert lowered loads action.schema given action.defaults) s
            (coerce_args-Complete action.schema given action.defaults
              (λ k e. ground (arith, e, has-passed args k, agree k))))

    module _ (fnmatch : String → String → Bool) (mix : ℕ → ℤ → ℤ → Value) where
      -- What a valid binding asks for: its own action, with the names of that action's schema.
      Fits : Binding → Dict String String → Option (String × Args) → Type 0
      Fits b schema none = Unit
      Fits b schema (some (name, args)) = (name ≡ b.action) × Agree schema args

      trigger-Agree :
          (fills : List String) (schema : Dict String String) (args : Args)
          → check_trigger fills schema args ≡ none
          → Agree schema args
      unfolding check_trigger
      trigger-Agree [] schema args h = plain-Agree schema args h
      trigger-Agree (k ∷ ks) schema args h = absurd (cc h)

      trigger-Fits :
          (test : Bool) (b : Binding) (schema : Dict String String)
          → Agree schema b.args
          → Fits b schema (if test then some (b.action, b.args) else none)
      unfolding Fits
      trigger-Fits true b schema agree = (refl, agree)
      trigger-Fits false b schema agree = tt

      continuous-Fits :
          (fills : List String) (b : Binding) (schema : Dict String String) (data2 : Option ℕ)
          → ((k : String) → elem k fills ≡ true → has b.args k ≡ true)
          → check_continuous fills schema b.args ≡ none
          → Fits b schema (fire_continuous fnmatch mix fills b data2)
      unfolding fire_continuous check_continuous Fits
      continuous-Fits [] b schema data2 here h = tt
      continuous-Fits (fill ∷ []) b schema none here h = tt
      continuous-Fits (fill ∷ []) b schema (some v) here h =
          let in_args : has b.args fill ≡ true = here fill (rw (==_refl fill) refl) in
          let (typed, names) : ((get schema fill == some "float") ≡ true)
              × (check_names (some fill) schema b.args ≡ none) =
            ground (arith, h) in
          let in_schema : has schema fill ≡ true =
            ground (arith, typed, ==_iff (get schema fill) (some "float")) in
          (
            refl,
            put-Agree fill (lerp fnmatch mix v b.lo b.hi) schema b.args in_args
                (filled-Agree fill schema b.args names in_schema in_args),
          )
      continuous-Fits (f ∷ g ∷ fs) b schema data2 here h = tt

      mode-Fits :
          (mode : Mode) (b : Binding) (schema : Dict String String) (ev : MidiEvent)
          (memory : Memory)
          → check_mode mode schema b.args ≡ none
          → Fits b schema (evaluate_mode fnmatch mix mode b ev memory).1
      unfolding check_mode evaluate_mode
      mode-Fits trigger b schema ev memory h =
          rw (intent-fire_trigger fnmatch mix b.match.type b ev memory)
            (trigger-Fits _ b schema (trigger-Agree (fill_keys b.args) schema b.args h))
      mode-Fits continuous b schema ev memory h =
          continuous-Fits (fill_keys b.args) b schema ev.data2 (elem-fill_keys b.args) h
      mode-Fits unknown_mode b schema ev memory h = unfold Fits in tt

      evaluate-Fits :
          (b : Binding) (schema : Dict String String) (ev : MidiEvent) (memory : Memory)
          → check_mode b.mode schema b.args ≡ none
          → Fits b schema (evaluate fnmatch mix b ev memory).1
      unfolding evaluate
      evaluate-Fits b schema ev memory h = elim (Bool-cases (matches fnmatch mix b.match ev)) [
        | inl applies ↦ rw applies (mode-Fits b.mode b schema ev memory h)
        | inr passes ↦ rw passes (unfold Fits in tt)
      ]

      -- A valid binding names an action, and passed the check against its schema.
      valid_action :
          (registry : Registry convert lowered loads S) (b : Binding)
          (found : Option (Action convert lowered loads S))
          → get registry b.action ≡ found
          → validate_binding b (describe convert lowered loads S registry) ≡ none
          → (action : Action convert lowered loads S) × (get registry b.action ≡ some action)
            × (check_mode b.mode action.schema b.args ≡ none)
      unfolding validate_binding
      valid_action registry b none absent valid =
          let gone : get (describe convert lowered loads S registry) b.action ≡ none =
            rw (get-describe convert lowered loads S registry b.action, absent) refl in
          absurd (ground (arith, valid, gone))
      valid_action registry b (some action) known valid =
          let there : get (describe convert lowered loads S registry) b.action
              ≡ some action.schema =
            rw (get-describe convert lowered loads S registry b.action, known) refl in
          (action, known, ground (arith, valid, there))

      -- Whatever a binding that passed the check asks for is the action that it names, and the registry
      -- that it was checked against does not refuse the call as unknown, for an argument too many or for
      -- one too few: only the value of an argument can still be bad.
      pub valid_binding-Acceptable :
          (registry : Registry convert lowered loads S) (b : Binding) (ev : MidiEvent)
          (memory : Memory) (name : String) (args : Args) (origin : String) (s : S)
          → validate_binding b (describe convert lowered loads S registry) ≡ none
          → (evaluate fnmatch mix b ev memory).1 ≡ some (name, args)
          → (name ≡ b.action)
            × Acceptable
                (dispatch convert lowered loads S hook registry name (passed args) origin s).1
      valid_binding-Acceptable registry b ev memory name args origin s valid asks =
          let (action, known, checks) =
            valid_action registry b (get registry b.action) refl valid in
          let fits : Fits b action.schema (some (name, args)) =
            subst (Fits b action.schema) asks (evaluate-Fits b action.schema ev memory checks) in
          let (same, agree) : (name ≡ b.action) × Agree action.schema args = unfold Fits in fits in
          let here : get registry name ≡ some action = ap (get registry) same ∙ known in
          (same, dispatch-Acceptable registry name args origin s action here agree)
