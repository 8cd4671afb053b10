-- ===== src/Bindings/Expected.antt =====
-- What a binding does with an event, given the last value that it saw.
use midicrt.Prelude.{
  ℕ, ◌≡◌, refl, ap, Bool, false, Bool-cases, Option-cases, Option, none, some, String, List, [],
  ◌∷◌, arith, if◌then◌else◌, ◌==◌, ==_iff, text_test, leb, ltb, not, sym, number_test, option_test,
  pair_test, inl, inr,
}
use midicrt.Prelude.Int.{ℤ}
use midicrt.Dict.{get, put}
use midicrt.Event.{MidiEvent}
use midicrt.Actions.Defs.{Value}
use midicrt.Bindings.Defs.{
  MatchType, note_type, control_type, Mode, trigger, continuous, unknown_mode, Binding, Args,
  Memory, Intent, is_positive, fill_keys, matches, control_of, rises, lerp, cc_trigger,
  fire_trigger, fire_continuous, evaluate_mode, evaluate, tagged,
}

-- Whether a trigger fires, given the last value before the event: on a note, if it has a velocity
-- above 0; on a controller, if the last value is below the threshold and the new one is not.
unfoldable pub triggered : MatchType → Option ℕ → ℕ → Option ℕ → Bool
triggered note_type prev threshold none = false
triggered note_type prev threshold (some velocity) = not (velocity == 0)
triggered control_type none threshold value = false
triggered control_type (some last) threshold none = false
triggered control_type (some last) threshold (some value) =
    if leb threshold last then false else not (ltb value threshold)

note-triggered :
    (prev : Option ℕ) (threshold : ℕ) (data2 : Option ℕ)
    → is_positive data2 ≡ triggered note_type prev threshold data2
unfolding triggered
note-triggered prev threshold none = refl
note-triggered prev threshold (some v) = ground (arith, ==_iff v 0)

rises-triggered :
    (prev : Option ℕ) (threshold value : ℕ)
    → rises prev threshold value ≡ triggered control_type prev threshold (some value)
unfolding triggered rises
rises-triggered none threshold value = refl
rises-triggered (some last) threshold value = ground arith

silent-triggered :
    (prev : Option ℕ) (threshold : ℕ) → triggered control_type prev threshold none ≡ false
unfolding triggered
silent-triggered none threshold = refl
silent-triggered (some last) threshold = refl

module _ (fnmatch : String → String → Bool) (mix : ℕ → ℤ → ℤ → Value) where
  -- The intent of a continuous binding with these open arguments.
  unfoldable pub filled : List String → Binding → Option ℕ → Option (String × Args)
  filled [] b data2 = none
  filled (fill ∷ []) b none = none
  filled (fill ∷ []) b (some value) =
      some (b.action, put b.args fill (some (mix (if leb 127 value then 127 else value) b.lo b.hi)))
  filled (fill ∷ next ∷ more) b data2 = none

  fire_continuous-filled :
      (waiting : List String) (b : Binding) (data2 : Option ℕ)
      → fire_continuous fnmatch mix waiting b data2 ≡ filled waiting b data2
  unfolding fire_continuous filled lerp
  fire_continuous-filled [] b data2 = refl
  fire_continuous-filled (fill ∷ []) b none = refl
  fire_continuous-filled (fill ∷ []) b (some value) =
      ap (λ (n : ℕ). some (b.action, put b.args fill (some (mix n b.lo b.hi)))) (ground arith)
  fire_continuous-filled (fill ∷ next ∷ more) b data2 = refl

  unfoldable pub expected_mode : Mode → Binding → MidiEvent → Option ℕ → Option (String × Args)
  expected_mode trigger b ev prev =
      if triggered b.match.type prev b.threshold ev.data2 then some (b.action, b.args) else none
  expected_mode continuous b ev prev = filled (fill_keys b.args) b ev.data2
  expected_mode unknown_mode b ev prev = none

  unfoldable pub expected : Binding → MidiEvent → Option ℕ → Option (String × Args)
  expected b ev prev =
      if matches fnmatch mix b.match ev then expected_mode b.mode b ev prev else none

  unfoldable pub expected_all : List Binding → MidiEvent → (Binding → Option ℕ) → List Intent
  expected_all [] ev prev = []
  expected_all (b ∷ bs) ev prev =
      tagged fnmatch mix b.id (expected b ev (prev b)) (expected_all bs ev prev)

  pub intent-fire_trigger :
      (type : MatchType) (b : Binding) (ev : MidiEvent) (memory : Memory)
      → (fire_trigger fnmatch mix type b ev memory).1 ≡ (
          if triggered type (get memory (control_of b ev)) b.threshold ev.data2
          then some (b.action, b.args)
          else none)
  unfolding fire_trigger cc_trigger
  intent-fire_trigger note_type b ev memory =
      rw (note-triggered (get memory (control_of b ev)) b.threshold ev.data2) refl
  intent-fire_trigger control_type b ev memory = elim (Option-cases ev.data2) [
    | inl absent ↦
        rw (absent, silent-triggered (get memory (control_of b ev)) b.threshold, cc_trigger) refl
    | inr (v, there) ↦
        rw (there, sym (rises-triggered (get memory (control_of b ev)) b.threshold v), cc_trigger)
          refl
  ]

  pub intent-evaluate_mode :
      (mode : Mode) (b : Binding) (ev : MidiEvent) (memory : Memory)
      → (evaluate_mode fnmatch mix mode b ev memory).1
        ≡ expected_mode mode b ev (get memory (control_of b ev))
  unfolding evaluate_mode expected_mode
  intent-evaluate_mode trigger b ev memory = intent-fire_trigger b.match.type b ev memory
  intent-evaluate_mode continuous b ev memory = fire_continuous-filled (fill_keys b.args) b ev.data2
  intent-evaluate_mode unknown_mode b ev memory = refl

  pub intent-evaluate :
      (b : Binding) (ev : MidiEvent) (memory : Memory)
      → (evaluate fnmatch mix b ev memory).1 ≡ expected b ev (get memory (control_of b ev))
  unfolding evaluate expected
  intent-evaluate b ev memory = elim (Bool-cases (matches fnmatch mix b.match ev)) [
    | inl applies ↦ rw applies (intent-evaluate_mode b.mode b ev memory)
    | inr passes ↦ rw passes refl
  ]
