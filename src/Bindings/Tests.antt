-- ===== src/Bindings/Tests.antt =====
-- Concrete bindings: a controller that turns the page, and a fader.
use midicrt.Prelude.{
  ℕ, zero, suc, ◌+◌, ◌≡◌, refl, ap, Bool, true, false, not, Option, none, some, String, List, [],
  ◌∷◌, ◌++◌, elem, keep, text_test, option_test, number_test, pair_test,
}
use midicrt.Prelude.Int.{ℤ, pos}
use midicrt.Dict.{Dict, get, put}
use midicrt.Event.{MidiEvent, control_change}
use midicrt.Event.Samples.{voiced}
use midicrt.Actions.Defs.{Value, number, Action, Registry, describe, dispatch}
use midicrt.Bindings.Defs.{
  control_type, trigger, continuous, BindingMatch, Binding, set_bindings, is_type, fill_keys,
  port_matches, origin_matches, matches, rises, cc_trigger, fire_trigger, lerp, fire_continuous,
  evaluate_mode, evaluate, evaluate_all, handle_with_origin, control_of,
}
use midicrt.Bindings.Validate.{
  validate_binding, check_mode, check_trigger, check_continuous, check_names, check_lists,
}
use midicrt.Bindings.History.{Apart, last_value, value_for, kept_value}
use midicrt.Bindings.Expected.{expected_all, expected, expected_mode, triggered}
use midicrt.Bindings.Crossings.{feed, intents_after}
use midicrt.Bindings.Accepted.{Acceptable, passed, valid_binding-Acceptable}
use midicrt.Bindings.Learn.{
  Arm, Learn, float_args, template, arm_valid, bind_learn, learned, new_binding_id, ids,
  should_replace_on_relearn, bind_match, candidate, free_id, same_type, remove_all, remove_id,
  replaced_by, save_bindings,
}
use midicrt.Bindings.Learn.Fresh.{new_binding_id_fresh}
use midicrt.Bindings.Learn.Relearn.{captured}

abbrev any : String → String → Bool
any source pattern = true

abbrev mixed : ℕ → ℤ → ℤ → Value
mixed n lo hi = number n

abbrev of_control : ℕ → BindingMatch
of_control n = record {
  type = control_type;
  number = n;
  channel = none;
  port_pattern = some "keys*";
  device = none;
}

abbrev turner : Binding
turner = record {
  id = "turner";
  match = of_control 7;
  action = "page.next";
  args = [];
  mode = trigger;
  threshold = 64;
  lo = pos 0;
  hi = pos 1000;
}

abbrev fader : Binding
fader = record turner {
  id = "fader";
  action = "marquee.speed";
  args = ("speed", none) ∷ [];
  mode = continuous;
}

abbrev both : List Binding
both = turner ∷ fader ∷ []

abbrev moved : ℕ → MidiEvent
moved value = voiced control_change 1000 0 7 value

execution : Unit {0}
unfolding get put set_bindings is_type fill_keys port_matches origin_matches matches rises
    cc_trigger fire_trigger lerp fire_continuous evaluate_mode evaluate evaluate_all
    handle_with_origin feed validate_binding check_mode check_trigger check_continuous check_names
    check_lists describe last_value value_for kept_value expected_all expected expected_mode
    triggered float_args template arm_valid bind_learn learned new_binding_id candidate free_id
    same_type should_replace_on_relearn bind_match remove_all remove_id replaced_by save_bindings
execution = tt

abbrev history : List MidiEvent
history = moved 10 ∷ moved 50 ∷ []

crossing :
    (handle_with_origin any mixed (feed any mixed (set_bindings both) history) (moved 90)).1
    ≡ ("turner", ("page.next", []))
      ∷ ("fader", ("marquee.speed", ("speed", some (number 90)) ∷ []))
      ∷ []
unfolding execution
crossing = refl

intents_after_example :
    (handle_with_origin any mixed (feed any mixed (set_bindings both) history) (moved 90)).1
    ≡ expected_all any mixed both
        (moved 90)
        (λ b. last_value any mixed b (control_of b (moved 90)) history none)
intents_after_example = intents_after any mixed both history (moved 90) (refl, (refl, tt))

abbrev convert : String → Value → Option Value
convert type_name value = some value

abbrev shown : Value → String
shown value = "?"

abbrev no_json : String → Option Value
no_json t = none

abbrev action : Dict String String → Action convert shown no_json ℕ
action schema = record {
  handler = λ d origin s. (s + 1, some []);
  schema = schema;
  defaults = [];
  wants_origin = false;
}

abbrev registry : Registry convert shown no_json ℕ
registry = ("page.next", action []) ∷ ("marquee.speed", action (("speed", "float") ∷ [])) ∷ []

abbrev no_hook : String → Dict String Value → String → Dict String Value → ℕ → ℕ
no_hook name d origin result s = s

fader_valid : validate_binding fader (describe convert shown no_json ℕ registry) ≡ none
unfolding execution
fader_valid = refl

fader_asks :
    (evaluate any mixed fader (moved 90) []).1
    ≡ some ("marquee.speed", ("speed", some (number 90)) ∷ [])
unfolding execution
fader_asks = refl

valid_binding-Acceptable_example :
    (◌≡◌ {A = String} "marquee.speed" "marquee.speed")
    × Acceptable
        (dispatch convert shown no_json ℕ no_hook registry "marquee.speed"
          (passed (("speed", some (number 90)) ∷ []))
          "binding:fader"
          0).1
valid_binding-Acceptable_example =
    valid_binding-Acceptable convert shown no_json ℕ no_hook any mixed registry fader (moved 90) []
      "marquee.speed" (("speed", some (number 90)) ∷ []) "binding:fader" 0 fader_valid fader_asks

-- A number as that many strokes.
abbrev strokes : ℕ → String
strokes zero = String.[]
strokes (suc n) = String.◌∷◌ "i" (strokes n)

strokes_differ : (m n : ℕ) → strokes m ≡ strokes n → m ≡ n
strokes_differ zero zero h = refl
strokes_differ zero (suc n) h = cc
strokes_differ (suc m) zero h = cc
strokes_differ (suc m) (suc n) h = ap suc (strokes_differ m n (cc))

abbrev same : String → String
same t = t

abbrev no_suffix : String → Option String
no_suffix t = none

abbrev taken : Binding
taken = record turner { id = "learn_ii" }

new_binding_id_fresh_example :
    elem (new_binding_id same no_suffix strokes 2 (taken ∷ [])) (ids (taken ∷ [])) ≡ false
new_binding_id_fresh_example =
    new_binding_id_fresh same no_suffix strokes strokes_differ 2 (taken ∷ [])

renamed : new_binding_id same no_suffix strokes 2 (taken ∷ []) ≡ "learn_ii_i"
unfolding execution
renamed = refl

abbrev armed : Arm
armed = record {
  action = "page.prev";
  mode = trigger;
  args = [];
  lo = pos 0;
  hi = pos 1000;
  armed_at = 0;
}

abbrev learning : Learn
learning = record {
  file = both;
  saved = both;
  dispatcher = set_bindings both;
  armed = some armed;
  notices = [];
}

captured_example :
    let s' = bind_match same no_suffix strokes 2 armed (of_control 7) learning in
    let left =
      keep (λ (b : Binding). not (should_replace_on_relearn b.match (of_control 7))) both in
    let new =
      learned same no_suffix strokes armed
        (of_control 7)
        (new_binding_id same no_suffix strokes 2 left) in
    (s'.file ≡ left ++ new ∷ [])
    × Apart s'.file
    × (s'.dispatcher.bindings ≡ s'.file)
    × (s'.saved ≡ s'.file)
captured_example =
    captured same no_suffix strokes strokes_differ 2 armed (of_control 7) learning
      (refl, (refl, tt))

abbrev actions : Dict String (Dict String String)
actions = ("marquee.speed", ("speed", "float") ∷ []) ∷ []

abbrev armed_fader : Arm
armed_fader = record {
  action = "marquee.speed";
  mode = continuous;
  args = ("speed", none) ∷ [];
  lo = pos 0;
  hi = pos 1000;
  armed_at = 5;
}

abbrev arming : Option Learn
arming = bind_learn "marquee.speed" continuous [] none 5 actions learning

abbrev now_armed : Learn
now_armed = elim arming [ none ↦ learning | some s ↦ s ]

arming_works : arming ≡ some now_armed
unfolding execution
arming_works = refl

arm_of : now_armed.armed ≡ some armed_fader
unfolding execution
arm_of = refl
