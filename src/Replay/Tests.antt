-- ===== src/Replay/Tests.antt =====
-- A session with a panic, recorded and replayed.
use mathlib.Core.Option
use midicrt.Prelude.{
  ℕ, text_test, number_test, pair_test, occurs_in, starts_with, ◌≡◌, refl, true, false, none, some,
  List, [], ◌∷◌,
}
use midicrt.Event.{note_on}
use midicrt.Event.Samples.{voiced}
use midicrt.Capture.{Sink, init, lines_of}
use midicrt.Capture.Sessions.{no_faults, start, stop}
use midicrt.Capture.Log.{note_all}
use midicrt.Dict.{get, put, remove}
use midicrt.StuckNotes.Defs.{
  init as init_held, handle as handle_held, on_note_on, on_note_off, struck, release, forget,
  held_notes, keys_on, sort_notes, insert_note, drain_alerts,
}
use midicrt.StuckNotes.Tick.{
  tick, tick_linger, tick_notes, tick_note, settle, classify, change_level,
}
use midicrt.Bindings.Learn.{tick_learn}
use midicrt.Engine.Panic.{
  dispatch_to_state, tick_analyzers, tick_alerts, report, report_all, maybe_panic, cooling,
  note_panic, release_for_panic, release_notes, mark_released,
}
use midicrt.Engine.Loop.{
  Engine, is_own, after_burst, handle, take_in, show_event, count_event, receive_as, bind,
  learn_or_offer, offer,
}
use midicrt.Engine.Samples.{any, mixed, same, no_suffix, one_stroke, exact, all, learning, engine}
use midicrt.Replay.{Replayed, stream_session}
use midicrt.Replay.Held.{
  Happening, heard, ticked, held_by, live, live_step, mark_notes, mark_note, Foreign, same_held,
}

-- What the tests compute with.
execution : Unit {0}
unfolding Foreign live live_step is_own occurs_in starts_with mark_notes mark_note after_burst
    handle take_in show_event count_event receive_as bind learn_or_offer offer dispatch_to_state
    tick_analyzers tick_alerts report report_all maybe_panic cooling note_panic release_for_panic
    release_notes mark_released handle_held tick init_held get put remove on_note_on on_note_off
    struck release forget held_notes keys_on sort_notes insert_note drain_alerts tick_linger
    tick_notes tick_note settle classify change_level tick_learn
execution = tt

abbrev sink : Sink
sink = init 2 1 "v" [] [] (some [])

abbrev playing : Engine
playing = record engine { learn = record learning { armed = none } }

abbrev offline : Engine
offline = record playing { port_name = "midicrt2 Replay"; replay = true }

-- Two notes, the first of them held until a panic releases it.
abbrev evening : List Happening
evening =
    heard 1000 (voiced note_on 1000 0 60 100)
    ∷ ticked 12000
    ∷ heard 13000 (voiced note_on 13000 0 64 90)
    ∷ []

abbrev per_span : ℕ → ℕ
per_span span = span

-- What is told of the evening: two events and a panic.
evening-Foreign :
    Foreign offline.port_name
      (live any mixed same no_suffix one_stroke all true exact evening playing).1
unfolding execution
evening-Foreign = (refl, (refl, tt))

-- The panic has released the first note.
evening_held :
    held_by (live any mixed same no_suffix one_stroke all true exact evening playing).0
    ≡ ((1, 64), record { count = 1; last_on = 13000 }) ∷ []
unfolding execution
evening_held = refl

same_held_example :
    let (e, told) = live any mixed same no_suffix one_stroke all true exact evening playing in
    let recorded = note_all per_span told (start no_faults "e" 5 sink).0 in
    let file = lines_of (get (stop none false 20000 recorded).0.files "e") in
    Option.map
      (λ (r : Replayed). held_by r.engine)
      (stream_session any mixed same no_suffix one_stroke all true 30000 1 file offline)
    ≡ some (held_by e)
unfolding get
same_held_example =
    same_held any mixed same no_suffix one_stroke all true exact evening playing offline per_span
      "e" 5 20000 false sink true 30000 0 refl refl refl refl evening-Foreign
