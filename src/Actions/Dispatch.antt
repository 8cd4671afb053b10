-- ===== src/Actions/Dispatch.antt =====
-- What reaches the handler of an action.
use midicrt.Prelude.{
  ◌≡◌, ◌⊎◌, refl, ap, sym, ◌∙◌, true, Option-cases, Option, none, some, String, List, [], ◌∷◌,
  arith, if◌then◌else◌, text_test, inl, inr, All,
}
use midicrt.Dict.{Dict, get, has, keys}
use midicrt.Actions.Defs.{
  Value, Refusal, Outcome, refused, unknown_action, unknown_args, strays, Coerced, coerced, failed,
  before, coerce, argument, coerce_args, Action, Registry, conclude, call, checked, dispatch,
}

strays_none :
    (names : List String) (schema : Dict String String)
    → strays names schema ≡ []
    → All (λ name. has schema name ≡ true) names
unfolding strays
strays_none [] schema h = tt
strays_none (name ∷ rest) schema h = ground (arith, h, strays_none rest schema)

module _ (convert : String → Value → Option Value) (lowered : Value → String)
    (loads : String → Option Value) where
  -- Where an argument comes from: the caller's value, coerced, or else the default.
  abbrev pub Source : String → Option Value → Option Value → Value → Type 0
  Source type_name (some given) _ value = coerce convert lowered loads type_name given ≡ some value
  Source type_name none (some default) value = default ≡ value
  Source type_name none none value = ⊥

  -- The arguments stand in the order of the schema, each with its source.
  abbrev pub Filled :
      Dict String String → Dict String Value → Dict String Value → Dict String Value → Type 0
  Filled [] args defaults [] = Unit
  Filled [] args defaults (_ ∷ _) = ⊥
  Filled (_ ∷ _) args defaults [] = ⊥
  Filled ((name, type_name) ∷ schema) args defaults ((arg, value) ∷ d) =
      (arg ≡ name)
      × Source type_name (get args name) (get defaults name) value
      × Filled schema args defaults d

  abbrev pub IfCoerced : (Dict String Value → Type 0) → Coerced → Type 0
  IfCoerced P (coerced d) = P d
  IfCoerced P (failed why) = Unit

  before-Filled :
      (name type_name : String) (schema : Dict String String) (args defaults : Dict String Value)
      (value : Value) (rest : Coerced)
      → Source type_name (get args name) (get defaults name) value
      → IfCoerced (Filled schema args defaults) rest
      → IfCoerced (Filled ((name, type_name) ∷ schema) args defaults) (before name value rest)
  before-Filled name type_name schema args defaults value (coerced d) from filled =
      (refl, from, filled)
  before-Filled name type_name schema args defaults value (failed why) from filled = tt

  argument-Filled :
      (name type_name : String) (schema : Dict String String) (args defaults : Dict String Value)
      (rest : Coerced)
      → IfCoerced (Filled schema args defaults) rest
      → IfCoerced
          (Filled ((name, type_name) ∷ schema) args defaults)
          (argument convert lowered loads name type_name (get args name) (get defaults name) rest)
  unfolding argument
  argument-Filled name type_name schema args defaults rest filled =
      let store = before-Filled name type_name schema args defaults in
      elim (Option-cases (get args name)) [
        | inl absent ↦ elim (Option-cases (get defaults name)) [
          | inl no_default ↦ rw (absent, no_default) tt
          | inr (value, there) ↦
              rw (absent, there) (store value rest (rw (absent, there) refl) filled)
        ]
        | inr (given, there) ↦ elim (Option-cases (coerce convert lowered loads type_name given)) [
          | inl bad ↦ rw (there, bad, argument) tt
          | inr (value, good) ↦ rw (there, good, argument) (store value rest (rw there good) filled)
        ]
      ]

  coerce_args-Filled :
      (schema : Dict String String) (args defaults : Dict String Value)
      → IfCoerced
          (Filled schema args defaults)
          (coerce_args convert lowered loads schema args defaults)
  unfolding coerce_args
  coerce_args-Filled [] args defaults = tt
  coerce_args-Filled ((name, type_name) ∷ schema) args defaults =
      argument-Filled name type_name schema args defaults _
        (coerce_args-Filled schema args defaults)

  pub none_stray :
      (names : List String) (schema : Dict String String)
      → All (λ name. has schema name ≡ true) names
      → strays names schema ≡ []
  unfolding strays
  none_stray [] schema h = refl
  none_stray (name ∷ rest) schema h = ground (arith, h.0, none_stray rest schema h.1)

  argument-Source :
      (name type_name : String) (given default : Option Value) (value : Value) (rest : Coerced)
      → Source type_name given default value
      → argument convert lowered loads name type_name given default rest ≡ before name value rest
  unfolding argument
  argument-Source name type_name (some given) default value rest from = rw (from, argument) refl
  argument-Source name type_name none (some default) value rest from =
      ap (λ v. before name v rest) from
  argument-Source name type_name none none value rest from = absurd from

  Filled-coerce_args :
      (schema : Dict String String) (args defaults d : Dict String Value)
      → Filled schema args defaults d
      → coerce_args convert lowered loads schema args defaults ≡ coerced d
  unfolding coerce_args
  Filled-coerce_args [] args defaults [] h = refl
  Filled-coerce_args [] args defaults (_ ∷ _) h = absurd h
  Filled-coerce_args (_ ∷ _) args defaults [] h = absurd h
  Filled-coerce_args ((name, type_name) ∷ schema) args defaults ((arg, value) ∷ d) h =
      argument-Source name type_name (get args name) (get defaults name) value _ h.1
      ∙ ap (before name value) (Filled-coerce_args schema args defaults d h.2)
      ∙ ap (λ a. coerced ((a, value) ∷ d)) (sym h.0)

  module _ (S : Type 0)
      (hook : String → Dict String Value → String → Dict String Value → S → S) where
    -- What running the handler with these arguments makes of the state.
    abbrev pub Runs :
        String
        → Dict String Value
        → String
        → Action convert lowered loads S
        → S
        → S × Outcome
        → Type 0
    Runs name args origin action s result =
        (d : Dict String Value) × Filled action.schema args action.defaults d
        × (result
            ≡ conclude convert lowered loads S hook name d origin
                (action.handler d (if action.wants_origin then some origin else none) s))

    -- A call is refused and changes nothing, or it runs.
    abbrev pub RefusedOrRuns :
        String
        → Dict String Value
        → String
        → Action convert lowered loads S
        → S
        → S × Outcome
        → Type 0
    RefusedOrRuns name args origin action s result =
        ((why : Refusal) × (result ≡ (s, refused why)))
        ⊎ (All (λ arg. has action.schema arg ≡ true) (keys args)
            × Runs name args origin action s result)

    call_cases :
        (name : String) (args : Dict String Value) (origin : String)
        (action : Action convert lowered loads S) (s : S) (c : Coerced)
        → All (λ arg. has action.schema arg ≡ true) (keys args)
        → IfCoerced (Filled action.schema args action.defaults) c
        → RefusedOrRuns name args origin action s
            (call convert lowered loads S hook name origin action c s)
    call_cases name args origin action s (failed why) inside filled = inl (why, refl)
    call_cases name args origin action s (coerced d) inside filled = inr (inside, (d, filled, refl))

    checked_cases :
        (name : String) (args : Dict String Value) (origin : String)
        (action : Action convert lowered loads S) (s : S) (found : List String)
        → strays (keys args) action.schema ≡ found
        → RefusedOrRuns name args origin action s
            (checked convert lowered loads S hook name args origin action found s)
    checked_cases name args origin action s [] none_found =
        call_cases name args origin action s
          (coerce_args convert lowered loads action.schema args action.defaults)
          (strays_none (keys args) action.schema none_found)
          (coerce_args-Filled action.schema args action.defaults)
    checked_cases name args origin action s (stray ∷ more) some_found =
        inl (unknown_args (stray ∷ more), refl)

    -- A dispatch is either refused, with the state untouched, or the action is known, no argument is
    -- outside its schema, and its handler has run once, with the arguments of the schema in its order,
    -- each coerced from the caller's value or taken from the defaults.
    pub dispatch_refuses_or_runs :
        (registry : Registry convert lowered loads S) (name : String) (args : Dict String Value)
        (origin : String) (s : S)
        → let result = dispatch convert lowered loads S hook registry name args origin s in
          (result ≡ (s, refused unknown_action))
          ⊎ ((action : Action convert lowered loads S) × (get registry name ≡ some action)
              × RefusedOrRuns name args origin action s result)
    unfolding dispatch
    dispatch_refuses_or_runs registry name args origin s = elim (Option-cases (get registry name)) [
      | inl absent ↦ inl (rw (absent, dispatch) refl)
      | inr (action, there) ↦ inr (
        action,
        there,
        rw (there, dispatch)
            (checked_cases name args origin action s (strays (keys args) action.schema) refl),
      )
    ]

    -- A call of a known action is not refused when no argument is outside its schema and every argument
    -- of the schema is given with a value that can be coerced or has a default: its handler runs with
    -- these values.
    pub dispatch_runs :
        (registry : Registry convert lowered loads S) (name : String) (args d : Dict String Value)
        (origin : String) (s : S) (action : Action convert lowered loads S)
        → get registry name ≡ some action
        → All (λ arg. has action.schema arg ≡ true) (keys args)
        → Filled action.schema args action.defaults d
        → dispatch convert lowered loads S hook registry name args origin s
          ≡ conclude convert lowered loads S hook name d origin
              (action.handler d (if action.wants_origin then some origin else none) s)
    unfolding dispatch
    dispatch_runs registry name args d origin s action known inside filled =
        let no_stray = none_stray (keys args) action.schema inside in
        let ready = Filled-coerce_args action.schema args action.defaults d filled in
        rw (known, no_stray, ready, dispatch) refl
