-- ===== src/Bindings/History.antt =====
-- What the dispatcher remembers, and when a controller fires.
use midicrt.Prelude.{
  ℕ, ◌≡◌, refl, Bool, true, false, Bool-cases, Option-cases, Option, none, some, String, List, [],
  ◌∷◌, arith, if◌then◌else◌, ◌==◌, ==_iff, text_test, number_test, option_test, pair_test, inl, inr,
}
use midicrt.Prelude.Int.{ℤ}
use midicrt.Dict.{get, get-put}
use midicrt.Event.{MidiEvent}
use midicrt.Actions.Defs.{Value}
use midicrt.Bindings.Defs.{
  MatchType, note_type, control_type, Mode, trigger, continuous, unknown_mode, Binding, Control,
  Memory, matches, control_of, cc_trigger, fire_trigger, evaluate_mode, evaluate, evaluate_all,
}

-- No two bindings have the same id.
abbrev pub has_id : String → List Binding → Bool
has_id id [] = false
has_id id (b ∷ bs) = if b.id == id then true else has_id id bs

abbrev pub Apart : List Binding → Type 0
Apart [] = Unit
Apart (b ∷ bs) = (has_id b.id bs ≡ false) × Apart bs

-- The value that an event leaves with a binding that it matches: a trigger on a controller keeps it.
unfoldable pub kept_value : Mode → MatchType → Option ℕ → Option ℕ
kept_value trigger control_type data2 = data2
kept_value _ _ data2 = none

abbrev pub or_before : Option ℕ → Option ℕ → Option ℕ
or_before none before = before
or_before (some v) before = some v

either_way {ℓ} : {A : Type ℓ} (test : Bool) (a : A) → a ≡ (if test then a else a)
either_way true a = refl
either_way false a = refl

module _ (fnmatch : String → String → Bool) (mix : ℕ → ℤ → ℤ → Value) where
  unfoldable pub value_for : Binding → MidiEvent → Option ℕ
  value_for b ev =
      if matches fnmatch mix b.match ev then kept_value b.mode b.match.type ev.data2 else none

  -- The last of these events, oldest first, that left a value from this port and channel.
  unfoldable pub last_value : Binding → Control → List MidiEvent → Option ℕ → Option ℕ
  last_value b control [] before = before
  last_value b control (ev ∷ evs) before =
      last_value b control evs
        (if control_of b ev == control then or_before (value_for b ev) before else before)

  get-cc_trigger :
      (b : Binding) (ev : MidiEvent) (memory : Memory) (k : Control)
      → get (cc_trigger fnmatch mix b ev memory).0 k
        ≡ (if control_of b ev == k then or_before ev.data2 (get memory k) else get memory k)
  unfolding cc_trigger
  get-cc_trigger b ev memory k = elim (Option-cases ev.data2) [
    | inl absent ↦ rw (absent, cc_trigger) (either_way (control_of b ev == k) (get memory k))
    | inr (v, there) ↦ rw (there, cc_trigger) (get-put memory (control_of b ev) k v)
  ]

  get-fire_trigger :
      (type : MatchType) (b : Binding) (ev : MidiEvent) (memory : Memory) (k : Control)
      → get (fire_trigger fnmatch mix type b ev memory).0 k ≡ (
          if control_of b ev == k
          then or_before (kept_value trigger type ev.data2) (get memory k)
          else get memory k)
  unfolding fire_trigger kept_value
  get-fire_trigger note_type b ev memory k = either_way (control_of b ev == k) (get memory k)
  get-fire_trigger control_type b ev memory k = get-cc_trigger b ev memory k

  get-evaluate_mode :
      (mode : Mode) (b : Binding) (ev : MidiEvent) (memory : Memory) (k : Control)
      → get (evaluate_mode fnmatch mix mode b ev memory).0 k ≡ (
          if control_of b ev == k
          then or_before (kept_value mode b.match.type ev.data2) (get memory k)
          else get memory k)
  unfolding evaluate_mode kept_value
  get-evaluate_mode trigger b ev memory k = get-fire_trigger b.match.type b ev memory k
  get-evaluate_mode continuous b ev memory k = either_way (control_of b ev == k) (get memory k)
  get-evaluate_mode unknown_mode b ev memory k = either_way (control_of b ev == k) (get memory k)

  -- A binding changes what is remembered of its own control only.
  pub get-evaluate :
      (b : Binding) (ev : MidiEvent) (memory : Memory) (k : Control)
      → get (evaluate fnmatch mix b ev memory).0 k
        ≡ (if control_of b ev == k then or_before (value_for b ev) (get memory k) else get memory k)
  unfolding evaluate value_for
  get-evaluate b ev memory k = elim (Bool-cases (matches fnmatch mix b.match ev)) [
    | inl applies ↦ rw applies (get-evaluate_mode b.mode b ev memory k)
    | inr passes ↦ rw passes (either_way (control_of b ev == k) (get memory k))
  ]

  pub get-evaluate_other :
      (b : Binding) (ev : MidiEvent) (memory : Memory) (id source : String) (channel : Option ℕ)
      → (b.id == id) ≡ false
      → get (evaluate fnmatch mix b ev memory).0 (id, (source, channel))
        ≡ get memory (id, (source, channel))
  get-evaluate_other b ev memory id source channel other = ground (
    arith,
    other,
    get-evaluate b ev memory (id, (source, channel)),
    ==_iff (control_of b ev) (id, (source, channel)),
  )

  -- The bindings after it have other ids.
  pub get-evaluate_all :
      (bs : List Binding) (ev : MidiEvent) (memory : Memory) (id source : String)
      (channel : Option ℕ)
      → has_id id bs ≡ false
      → get (evaluate_all fnmatch mix bs ev memory).0 (id, (source, channel))
        ≡ get memory (id, (source, channel))
  unfolding evaluate_all
  get-evaluate_all [] ev memory id source channel absent = refl
  get-evaluate_all (b ∷ bs) ev memory id source channel absent = ground (
    arith,
    absent,
    get-evaluate_other b ev memory id source channel,
    get-evaluate_all bs ev (evaluate fnmatch mix b ev memory).0 id source channel,
  )
