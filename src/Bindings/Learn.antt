-- ===== src/Bindings/Learn.antt =====
-- Learning a binding: `bind.learn`, `bind.cancel`, `bind.remove`, `_capture_learn` and `_tick_learn` of
-- `Engine` (src/midicrt/engine/core.py), and `BindingsFile` of src/midicrt/engine/bindings.py. `saved` is
-- what the bindings file holds. A text of two floats is `some` of their thousandths if it is well
-- formed. Parameters are Python's: `escape` is `glob.escape`, `before_suffix` is the text before a match
-- of the port's number, and `digits` prints a number.
pub mod Fresh
pub mod Relearn
pub mod Valid
use Prim.Native.String.{◌++◌ as ◌+++◌}
use midicrt.Prelude.{
  ℕ, zero, suc, ◌+◌, Bool, true, false, ◌&&◌, ◌||◌, not, Option, none, some, String, List, [], ◌∷◌,
  ◌++◌, if◌then◌else◌, eqb, leb, ◌==◌, text_test, number_test, option_test, elem, keep, map, length,
}
use midicrt.Prelude.Int.{ℤ, pos}
use midicrt.Dict.{Dict, get, has, put}
use midicrt.Event.{Kind, MidiEvent, note_on, control_change}
use midicrt.Bindings.Defs.{
  MatchType, note_type, control_type, Mode, trigger, continuous, unknown_mode, BindingMatch,
  Binding, Args, Dispatcher, set_bindings,
}
use midicrt.Bindings.Validate.{Fault, validate_binding}

-- `LEARN_TIMEOUT_S`, in milliseconds.
abbrev pub learn_timeout : ℕ
learn_timeout = 30000

pub record Arm : Type 0 where
  pub action : String
  pub mode : Mode
  pub args : Args
  pub lo : ℤ
  pub hi : ℤ
  pub armed_at : ℕ

pub data Notice : Type 0 where
  learn_armed : String → Mode → Args → Notice
  learn_cancelled learn_timed_out : Notice
  learn_bound : Binding → List Binding → Notice

pub record Learn : Type 0 where
  pub file : List Binding
  pub saved : List Binding
  pub dispatcher : Dispatcher
  pub armed : Option Arm
  pub notices : List Notice

unfoldable pub same_type : MatchType → MatchType → Bool
same_type note_type note_type = true
same_type control_type control_type = true
same_type _ _ = false

unfoldable pub should_replace_on_relearn : BindingMatch → BindingMatch → Bool
should_replace_on_relearn existing fresh =
    (same_type existing.type fresh.type
      && (eqb existing.number fresh.number && (existing.channel == fresh.channel)))
    && (((existing.port_pattern == fresh.port_pattern) && (existing.device == fresh.device))
        || ((existing.device == none) && (existing.port_pattern == fresh.port_pattern)))

-- `BindingsFile.remove`
unfoldable pub remove_id : String → List Binding → List Binding
remove_id id bs = keep (λ b. not (b.id == id)) bs

unfoldable pub remove_all : List Binding → List Binding → List Binding
remove_all [] bs = bs
remove_all (b ∷ gone) bs = remove_all gone (remove_id b.id bs)

unfoldable pub replaced_by : BindingMatch → List Binding → List Binding
replaced_by fresh bs = keep (λ b. should_replace_on_relearn b.match fresh) bs

abbrev pub ids : List Binding → List String
ids bs = map (λ (b : Binding). b.id) bs

-- The file is written and the dispatcher starts anew with what is in it.
unfoldable pub save_bindings : Learn → Learn
save_bindings s = record s { saved = s.file; dispatcher = set_bindings s.file }

unfoldable pub bind_remove : String → Learn → Option Learn
bind_remove id s =
    if elem id (ids s.file)
    then some (save_bindings (record s { file = remove_id id s.file }))
    else none

unfoldable pub bind_cancel : Learn → Learn
bind_cancel s = elim s.armed [
  | none ↦ s
  | some arm ↦ record s { armed = none; notices = s.notices ++ learn_cancelled ∷ [] }
]

unfoldable pub tick_learn : ℕ → Learn → Learn
tick_learn now s = elim s.armed [
  | none ↦ s
  | some arm ↦
      if leb (arm.armed_at + learn_timeout) now
      then record s { armed = none; notices = s.notices ++ learn_timed_out ∷ [] }
      else s
]

-- The arguments of a schema that are floats.
unfoldable pub float_args : Dict String String → List String
float_args [] = []
float_args ((name, type_name) ∷ schema) =
    let rest = float_args schema in if type_name == "float" then name ∷ rest else rest

-- The template of the arguments, and the range: `none` is an `ActionError`.
unfoldable pub template :
    Mode → Args → Option (Option (ℤ × ℤ)) → List String → Option (Args × (ℤ × ℤ))
template trigger args range floats = some (args, (pos 0, pos 1000))
template continuous args none (fill ∷ []) =
    if has args fill then none else some (put args fill none, (pos 0, pos 1000))
template continuous args (some (some ends)) (fill ∷ []) =
    if has args fill then none else some (put args fill none, ends)
template _ args range floats = none

-- A binding that matches nothing in particular: only what it asks for is checked.
abbrev pub probe : String → Args → Mode → ℤ × ℤ → Binding
probe action args mode (lo, hi) = record {
  id = "_probe";
  match = record {
    type = note_type;
    number = 0;
    channel = none;
    port_pattern = none;
    device = none;
  };
  action = action;
  args = args;
  mode = mode;
  threshold = 64;
  lo = lo;
  hi = hi;
}

unfoldable pub arm_valid :
    String → Mode → ℕ → Args × (ℤ × ℤ) → Dict String (Dict String String) → Learn → Option Learn
arm_valid action mode now (args, ends) actions s =
    elim (validate_binding (probe action args mode ends) actions) [
      | some fault ↦ none
      | none ↦ some (record s {
        armed = some (record {
          action = action;
          mode = mode;
          args = args;
          lo = ends.0;
          hi = ends.1;
          armed_at = now;
        });
        notices = s.notices ++ learn_armed action mode args ∷ [];
      })
    ]

-- A slot that is armed already is armed anew.
unfoldable pub bind_learn :
    String
    → Mode
    → Args
    → Option (Option (ℤ × ℤ))
    → ℕ
    → Dict String (Dict String String)
    → Learn
    → Option Learn
bind_learn action mode args range now actions s = elim (get actions action) [
  | none ↦ none
  | some schema ↦ elim (template mode args range (float_args schema)) [
    | none ↦ none
    | some filled ↦ arm_valid action mode now filled actions s
  ]
]

module _ (escape : String → String) (before_suffix : String → Option String)
    (digits : ℕ → String) where
  unfoldable pub glob_port_pattern : String → String
  glob_port_pattern source = elim (before_suffix source) [
    | none ↦ escape source
    | some name ↦ escape name +++ "*"
  ]

  -- The candidates for a new id: the base, and the base with a number.
  unfoldable pub candidate : String → ℕ → String
  candidate base zero = base
  candidate base (suc n) = base +++ ("_" +++ digits (suc n))

  unfoldable pub free_id : ℕ → ℕ → String → List String → String
  free_id zero n base existing = candidate base n
  free_id (suc fuel) n base existing =
      let later = free_id fuel (n + 1) base existing in
      if elem (candidate base n) existing then later else candidate base n

  -- `_new_binding_id`; the loop ends after at most one round more than there are ids.
  unfoldable pub new_binding_id : ℕ → List Binding → String
  new_binding_id now bs = free_id (length (ids bs) + 1) 0 ("learn_" +++ digits now) (ids bs)

  unfoldable pub learn_match : MatchType → ℕ → MidiEvent → BindingMatch
  learn_match type number ev = record {
    type = type;
    number = number;
    channel = ev.channel;
    port_pattern = some (glob_port_pattern ev.source);
    device = ev.device_id;
  }

  unfoldable pub learned : Arm → BindingMatch → String → Binding
  learned arm match id = record {
    id = id;
    match = match;
    action = arm.action;
    args = arm.args;
    mode = arm.mode;
    threshold = 64;
    lo = arm.lo;
    hi = arm.hi;
  }

  unfoldable pub bind_match : ℕ → Arm → BindingMatch → Learn → Learn
  bind_match now arm match s =
      let replaced = replaced_by match s.file in
      let left = remove_all replaced s.file in
      let binding = learned arm match (new_binding_id now left) in
      let s' = save_bindings (record s { file = left ++ binding ∷ []; armed = none }) in
      record s' { notices = s'.notices ++ learn_bound binding replaced ∷ [] }

  -- Called for a learnable event only, which has a number.
  unfoldable pub capture_learn : ℕ → Arm → MidiEvent → Learn → Learn
  capture_learn now arm ev s = elim ev.data1 [
    | none ↦ s
    | some number ↦ elim ev.kind [
      | note_on ↦ bind_match now arm (learn_match note_type number ev) s
      | control_change ↦ bind_match now arm (learn_match control_type number ev) s
      | _ ↦ s
    ]
  ]
