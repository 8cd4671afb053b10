-- ===== src/Keymap/Usable.antt =====
-- That the keys which are left do what they say.
use midicrt.Prelude.{
  ◌≡◌, ◌⊎◌, refl, sym, ap, ◌∙◌, subst, Bool, true, Option, none, some, String, List, [], ◌∷◌, arith,
  ◌==◌, ==_iff, text_test, elem, Bool-cases, Option-cases, inl, inr,
}
use midicrt.Dict.{Dict, get, put, has, keys, elem-keys}
use midicrt.Actions.Defs.{Value, Action, Registry, describe, dispatch}
use midicrt.Bindings.Defs.{Args}
use midicrt.Bindings.Agree.{Agree}
use midicrt.Bindings.Accepted.{passed, Acceptable, get-describe, dispatch-Acceptable}
use midicrt.Keymap.{
  KeyEntry, bare, table, malformed, Schemas, is_client, all_in, args_match_schema, bare_usable,
  table_usable, entry_usable, filter_known_actions, overlay, or_empty, recompute_keymap,
}

-- Values as the arguments of a call in which none waits to be filled.
given : Dict String Value → Args
given [] = []
given ((k, v) ∷ args) = (k, some v) ∷ given args

passed-given : (args : Dict String Value) → passed (given args) ≡ args
unfolding given
passed-given [] = refl
passed-given ((k, v) ∷ args) = ap (λ rest. (k, v) ∷ rest) (passed-given args)

has-given : (args : Dict String Value) (k : String) → has (given args) k ≡ has args k
unfolding given get
has-given [] k = refl
has-given ((j, v) ∷ args) k = ground (arith, has-given args k)

all_in_each :
    (names : List String) (known : String → Bool) (k : String)
    → all_in names known ≡ true
    → elem k names ≡ true
    → known k ≡ true
unfolding all_in
all_in_each [] known k h there = absurd (cc there)
all_in_each (n ∷ names) known k h there = elim (Bool-cases (n == k)) [
  | inl same ↦
      let this : n ≡ k = ground (arith, same, ==_iff n k) in
      subst (λ x. known x ≡ true) this (ground (arith, h))
  | inr other ↦ all_in_each names known k (ground (arith, h)) (ground (arith, there, other))
]

match-Agree :
    (args : Dict String Value) (schema : Dict String String)
    → args_match_schema args schema ≡ true
    → Agree schema (given args)
unfolding args_match_schema
match-Agree args schema h k =
    let of_args = all_in_each (keys args) (λ name. has schema name) k (ground (arith, h)) in
    let of_schema = all_in_each (keys schema) (λ name. has args name) k (ground (arith, h)) in
    ground (arith, has-given args k, elem-keys args k, elem-keys schema k, of_args, of_schema)

bare_empty : (o : Option (Dict String String)) → bare_usable o ≡ true → o ≡ some []
bare_empty none h = absurd (cc h)
bare_empty (some []) h = refl
bare_empty (some (arg ∷ schema)) h = absurd (cc h)

table_known :
    (args : Dict String Value) (o : Option (Dict String String))
    → table_usable args o ≡ true
    → (schema : Dict String String) × (o ≡ some schema) × (args_match_schema args schema ≡ true)
table_known args none h = absurd (cc h)
table_known args (some schema) h = (schema, refl, h)

-- Every entry of the table may be used.
abbrev AllUsable : Schemas → Dict String KeyEntry → Type 0
AllUsable actions [] = Unit
AllUsable actions ((k, e) ∷ keymap) = (entry_usable actions e ≡ true) × AllUsable actions keymap

filter_known_actions-AllUsable :
    (actions : Schemas) (keymap : Dict String KeyEntry)
    → AllUsable actions (filter_known_actions actions keymap)
unfolding filter_known_actions
filter_known_actions-AllUsable actions [] = tt
filter_known_actions-AllUsable actions ((k, e) ∷ keymap) =
    elim (Bool-cases (entry_usable actions e)) [
      | inl usable ↦ rw usable (usable, filter_known_actions-AllUsable actions keymap)
      | inr useless ↦ rw useless (filter_known_actions-AllUsable actions keymap)
    ]

put-AllUsable :
    (actions : Schemas) (keymap : Dict String KeyEntry) (key : String) (e : KeyEntry)
    → entry_usable actions e ≡ true
    → AllUsable actions keymap
    → AllUsable actions (put keymap key e)
unfolding put
put-AllUsable actions [] key e h all = (h, tt)
put-AllUsable actions ((k, d) ∷ keymap) key e h all = elim (Bool-cases (k == key)) [
  | inl mine ↦ rw mine (h, all.1)
  | inr other ↦ rw other (all.0, put-AllUsable actions keymap key e h all.1)
]

overlay-AllUsable :
    (actions : Schemas) (under over : Dict String KeyEntry)
    → AllUsable actions under
    → AllUsable actions over
    → AllUsable actions (overlay under over)
unfolding overlay
overlay-AllUsable actions under [] h k = h
overlay-AllUsable actions under ((key, e) ∷ over) h k =
    overlay-AllUsable actions (put under key e) over (put-AllUsable actions under key e k.0 h) k.1

at-AllUsable :
    (actions : Schemas) (keymap : Dict String KeyEntry) (key : String) (e : KeyEntry)
    → AllUsable actions keymap
    → get keymap key ≡ some e
    → entry_usable actions e ≡ true
unfolding get
at-AllUsable actions [] key e all at = absurd (cc at)
at-AllUsable actions ((k, d) ∷ keymap) key e all at = elim (Bool-cases (k == key)) [
  | inl mine ↦
      let this : d ≡ e = ground (arith, at, mine) in
      subst (λ x. entry_usable actions x ≡ true) this all.0
  | inr other ↦ at-AllUsable actions keymap key e all.1 (ground (arith, at, other))
]

module _ (convert : String → Value → Option Value) (lowered : Value → String)
    (loads : String → Option Value) (S : Type 0)
    (hook : String → Dict String Value → String → Dict String Value → S → S)
    (registry : Registry convert lowered loads S) where
  -- A pseudo-action of the client, or a call with which nothing is wrong but, perhaps, a value.
  abbrev pub Works : String → S → KeyEntry → Type 0
  Works origin s (bare name) =
      (is_client name ≡ true)
      ⊎ Acceptable (dispatch convert lowered loads S hook registry name [] origin s).1
  Works origin s (table name args) =
      Acceptable (dispatch convert lowered loads S hook registry name args origin s).1
  Works origin s malformed = ⊥

  -- An action that is described is registered, with this schema.
  registered :
      (name : String) (schema : Dict String String)
      → get (describe convert lowered loads S registry) name ≡ some schema
      → (action : Action convert lowered loads S) × (get registry name ≡ some action)
        × (action.schema ≡ schema)
  registered name schema h = elim (Option-cases (get registry name)) [
    | inl absent ↦ absurd (
        cc (
          h,
          get-describe convert lowered loads S registry name,
          ap
              (λ o. elim o as (λ _. Option (Dict String String)) [
                | none ↦ none
                | some a ↦ some a.schema
              ])
              absent,
        ))
    | inr (action, there) ↦
        let known : some schema ≡ some action.schema =
          sym h
          ∙ get-describe convert lowered loads S registry name
          ∙ ap
              (λ o. elim o as (λ _. Option (Dict String String)) [
                | none ↦ none
                | some a ↦ some a.schema
              ])
              there in
        (action, there, cc known)
  ]

  agreed_dispatch :
      (name origin : String) (args : Dict String Value) (schema : Dict String String) (s : S)
      → get (describe convert lowered loads S registry) name ≡ some schema
      → Agree schema (given args)
      → Acceptable (dispatch convert lowered loads S hook registry name args origin s).1
  agreed_dispatch name origin args schema s known agree =
      let (action, there, same) = registered name schema known in
      subst (λ a. Acceptable (dispatch convert lowered loads S hook registry name a origin s).1)
        (passed-given args)
        (dispatch-Acceptable convert lowered loads S hook registry name (given args) origin s action
          there (subst (λ x. Agree x (given args)) (sym same) agree))

  usable-Works :
      (entry : KeyEntry) (origin : String) (s : S)
      → entry_usable (describe convert lowered loads S registry) entry ≡ true
      → Works origin s entry
  unfolding entry_usable given get
  usable-Works (bare name) origin s h = elim (Bool-cases (is_client name)) [
    | inl client ↦ inl client
    | inr action ↦
        let known =
          bare_empty (get (describe convert lowered loads S registry) name)
            (ground (arith, h, action)) in
        inr (agreed_dispatch name origin [] [] s known (λ k. refl))
  ]
  usable-Works (table name args) origin s h = elim (Bool-cases (is_client name)) [
    | inl client ↦ absurd (ground (arith, h, client))
    | inr action ↦
        let (schema, known, same) =
          table_known args (get (describe convert lowered loads S registry) name)
            (ground (arith, h, action)) in
        agreed_dispatch name origin args schema s known (match-Agree args schema same)
  ]
  usable-Works malformed origin s h = absurd (cc h)

  -- Whatever the tables of keys hold, and whatever page is shown, a key of the effective keymap stands for
  -- one of the client's own actions, or calls a registered action with the arguments that it declares:
  -- the registry refuses the call for no reason but an argument's value.
  pub left_keys_work :
      (raw_global : Dict String KeyEntry) (raw_pages : Dict String (Dict String KeyEntry))
      (page key : String) (entry : KeyEntry) (origin : String) (s : S)
      → get
          (recompute_keymap
            (describe convert lowered loads S registry)
            raw_global
            raw_pages
            page).keymap
          key
        ≡ some entry
      → Works origin s entry
  unfolding recompute_keymap
  left_keys_work raw_global raw_pages page key entry origin s at =
      let actions = describe convert lowered loads S registry in
      let global = filter_known_actions actions raw_global in
      let local = filter_known_actions actions (or_empty (get raw_pages page)) in
      usable-Works entry origin s (
        at-AllUsable actions (overlay global local) key entry
          (overlay-AllUsable actions global local
            (filter_known_actions-AllUsable actions raw_global)
            (filter_known_actions-AllUsable actions (or_empty (get raw_pages page))))
          at)
