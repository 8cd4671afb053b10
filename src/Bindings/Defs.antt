-- ===== src/Bindings/Defs.antt =====
-- `Binding`, `BindingMatch` and `BindingDispatcher` of src/midicrt/engine/bindings.py. The arguments
-- of a binding are a dictionary in which `none` (the source's None) marks the one to be filled from
-- the controller's value. The ends of a range are thousandths. Parameters are Python's `fnmatch` and
-- its arithmetic on floats: `mix n lo hi` is `lo + n / 127.0 * (hi - lo)`.
use midicrt.Prelude.{
  ℕ, Bool, true, false, ◌&&◌, ◌||◌, Option, none, some, String, List, [], ◌∷◌, if◌then◌else◌, leb,
  ltb, ◌==◌, text_test, number_test, option_test, pair_test, min,
}
use midicrt.Prelude.Int.{ℤ}
use midicrt.Dict.{Dict, get, put}
use midicrt.Event.{Kind, MidiEvent, note_on, control_change}
use midicrt.Actions.Defs.{Value}

-- `_MATCH_TYPES`: loading and learning make no other.
pub data MatchType : Type 0 where
  note_type control_type : MatchType

pub data Mode : Type 0 where
  trigger continuous unknown_mode : Mode

pub record BindingMatch : Type 0 where
  pub type : MatchType
  pub number : ℕ
  pub channel : Option ℕ
  pub port_pattern : Option String
  pub device : Option String

abbrev pub Args : Type 0
Args = Dict String (Option Value)

pub record Binding : Type 0 where
  pub id : String
  pub match : BindingMatch
  pub action : String
  pub args : Args
  pub mode : Mode
  pub threshold : ℕ
  pub lo : ℤ
  pub hi : ℤ

-- A control of a port on a channel, as one binding sees it.
abbrev pub Control : Type 0
Control = String × (String × Option ℕ)

abbrev pub Memory : Type 0
Memory = Dict Control ℕ

pub record Dispatcher : Type 0 where
  pub bindings : List Binding
  pub last_cc_value : Memory

-- The binding's id, its action and the action's arguments.
abbrev pub Intent : Type 0
Intent = String × (String × Args)

unfoldable pub set_bindings : List Binding → Dispatcher
set_bindings bindings = record { bindings = bindings; last_cc_value = [] }

unfoldable pub is_type : MatchType → Kind → Bool
is_type note_type note_on = true
is_type control_type control_change = true
is_type _ _ = false

abbrev pub is_positive : Option ℕ → Bool
is_positive none = false
is_positive (some v) = ltb 0 v

unfoldable pub is_learnable_event : MidiEvent → Bool
is_learnable_event ev = elim ev.kind [
  | control_change ↦ true
  | note_on ↦ is_positive ev.data2
  | _ ↦ false
]

-- The keys that wait to be filled.
unfoldable pub fill_keys : Args → List String
fill_keys [] = []
fill_keys ((k, none) ∷ args) = k ∷ fill_keys args
fill_keys ((k, some v) ∷ args) = fill_keys args

abbrev pub control_of : Binding → MidiEvent → Control
control_of b ev = (b.id, (ev.source, ev.channel))

-- The value rises through the threshold; the first value seen never fires.
unfoldable pub rises : Option ℕ → ℕ → ℕ → Bool
rises none threshold value = false
rises (some prev) threshold value = ltb prev threshold && leb threshold value

module _ (fnmatch : String → String → Bool) (mix : ℕ → ℤ → ℤ → Value) where
  unfoldable pub port_matches : Option String → Option String → MidiEvent → Bool
  port_matches device port_pattern ev = elim port_pattern [
    | none ↦ true
    | some pattern ↦ fnmatch ev.source pattern
  ]

  -- Both devices known: they decide alone. Otherwise the pattern does.
  unfoldable pub origin_matches : Option String → Option String → Option String → MidiEvent → Bool
  origin_matches (some device) (some came_from) port_pattern ev = came_from == device
  origin_matches device _ port_pattern ev = port_matches device port_pattern ev

  unfoldable pub matches : BindingMatch → MidiEvent → Bool
  matches m ev =
      is_type m.type ev.kind
      && (ev.data1 == some m.number
          && ((m.channel == none || ev.channel == m.channel)
              && origin_matches m.device ev.device_id m.port_pattern ev))

  -- A controller event without its value is not built by the input.
  unfoldable pub cc_trigger : Binding → MidiEvent → Memory → Memory × Option (String × Args)
  cc_trigger b ev memory = elim ev.data2 [
    | none ↦ (memory, none)
    | some value ↦
        let prev = get memory (control_of b ev) in
        (
          put memory (control_of b ev) value,
          if rises prev b.threshold value then some (b.action, b.args) else none,
        )
  ]

  unfoldable pub fire_trigger :
      MatchType → Binding → MidiEvent → Memory → Memory × Option (String × Args)
  fire_trigger note_type b ev memory =
      (memory, if is_positive ev.data2 then some (b.action, b.args) else none)
  fire_trigger control_type b ev memory = cc_trigger b ev memory

  -- `max(0, min(127, value))`
  unfoldable pub lerp : ℕ → ℤ → ℤ → Value
  lerp value lo hi = mix (min 127 value) lo hi

  unfoldable pub fire_continuous : List String → Binding → Option ℕ → Option (String × Args)
  fire_continuous (fill ∷ []) b (some value) =
      some (b.action, put b.args fill (some (lerp value b.lo b.hi)))
  fire_continuous _ b _ = none

  unfoldable pub evaluate_mode :
      Mode → Binding → MidiEvent → Memory → Memory × Option (String × Args)
  evaluate_mode trigger b ev memory = fire_trigger b.match.type b ev memory
  evaluate_mode continuous b ev memory = (memory, fire_continuous (fill_keys b.args) b ev.data2)
  evaluate_mode unknown_mode b ev memory = (memory, none)

  unfoldable pub evaluate : Binding → MidiEvent → Memory → Memory × Option (String × Args)
  evaluate b ev memory =
      if matches b.match ev then evaluate_mode b.mode b ev memory else (memory, none)

  abbrev pub tagged : String → Option (String × Args) → List Intent → List Intent
  tagged id none rest = rest
  tagged id (some intent) rest = (id, intent) ∷ rest

  -- Every binding sees the event, in their order.
  unfoldable pub evaluate_all : List Binding → MidiEvent → Memory → Memory × List Intent
  evaluate_all [] ev memory = (memory, [])
  evaluate_all (b ∷ bs) ev memory =
      let (memory', intent) = evaluate b ev memory in
      let (memory'', rest) = evaluate_all bs ev memory' in (memory'', tagged b.id intent rest)

  unfoldable pub handle_with_origin : Dispatcher → MidiEvent → Dispatcher × List Intent
  handle_with_origin d ev =
      let (memory, intents) = evaluate_all d.bindings ev d.last_cc_value in
      (record d { last_cc_value = memory }, intents)
