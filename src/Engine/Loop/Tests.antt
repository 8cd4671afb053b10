-- ===== src/Engine/Loop/Tests.antt =====
-- Concrete rounds: a controller that is learned, and an event of the engine's own output.
use midicrt.Prelude.{
  ℕ, ◌+◌, ◌-◌, ◌*◌, ◌≤◌, ◌≡◌, refl, true, false, none, List, [], ◌∷◌, ◌++◌, keep, length, text_test,
  occurs_in, starts_with,
}
use midicrt.Event.{MidiEvent, note_on, control_change}
use midicrt.Event.Samples.{voiced}
use midicrt.Bindings.Defs.{set_bindings, handle_with_origin, is_learnable_event}
use midicrt.Engine.Samples.{any, mixed, same, no_suffix, one_stroke, exact, all, arm, engine}
use midicrt.Engine.Loop.{is_own, handle}
use midicrt.Engine.Loop.Queue.{foreign, arrivals, rounds, none_lost}
use midicrt.Engine.Loop.Learning.{taught_asks_nothing}

abbrev turned : ℕ → MidiEvent
turned value = voiced control_change 1000 0 7 value

abbrev echo : MidiEvent
echo = record (turned 90) { source = "midicrt out 128:0" }

execution : Unit {0}
unfolding is_own occurs_in starts_with is_learnable_event
execution = tt

own_and_foreign : (is_own "midicrt" echo ≡ true) × (is_own "midicrt" (turned 90) ≡ false)
unfolding execution
own_and_foreign = (refl, refl)

abbrev todo : List (ℕ × List MidiEvent)
todo = (1000, turned 10 ∷ echo ∷ []) ∷ (1020, []) ∷ (1040, turned 90 ∷ []) ∷ []

abbrev waiting : List MidiEvent
waiting = voiced note_on 900 0 60 100 ∷ []

none_lost_example :
    let (queue', e') =
      rounds any mixed same no_suffix one_stroke all true exact todo waiting engine in
    (e'.heard ++ keep (foreign "midicrt") queue'
      ≡ [] ++ keep (foreign "midicrt") (waiting ++ arrivals todo))
    × (length queue' ≤ (length waiting - 500 * length todo) + length (arrivals todo))
none_lost_example = none_lost any mixed same no_suffix one_stroke all true exact todo waiting engine

taught_asks_nothing_example :
    let e' = handle any mixed same no_suffix one_stroke all 1000 (turned 90) engine in
    (e'.pending ≡ [])
    × (e'.learn.armed ≡ none)
    × ((handle any mixed same no_suffix one_stroke all 1010 (turned 20) e').pending
        ≡ [] ++ (handle_with_origin any mixed (set_bindings e'.learn.file) (turned 20)).1)
unfolding execution
taught_asks_nothing_example =
    taught_asks_nothing any mixed same no_suffix one_stroke all 1000 1010 7 (turned 90) (turned 20)
      arm engine refl refl refl refl refl refl
