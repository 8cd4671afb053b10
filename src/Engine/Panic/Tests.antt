-- ===== src/Engine/Panic/Tests.antt =====
-- Concrete panics: a note that was struck twice and one that was struck once.
use midicrt.Prelude.{
  ◌≡◌, refl, true, some, List, [], ◌∷◌, arith, pair_test, number_test, if◌then◌else◌, eqb,
}
use midicrt.Prelude.Int.{ℤ}
use midicrt.Event.{note_on, drive}
use midicrt.Event.{Input, event, wall}
use midicrt.Event.Samples.{voiced}
use midicrt.Dict.{get, put, remove}
use midicrt.StuckNotes.Defs.{
  Key, Entry, StuckNotes, init, handle, on_note_on, on_note_off, struck, release, forget,
  held_notes, keys_on, sort_notes,
}
use midicrt.StuckNotes.Tick.{
  tick, tick_linger, tick_notes, tick_note, settle, classify, change_level,
}
use midicrt.StuckNotes.Invariant.{drive-IsValid}
use midicrt.Voices.Defs.{init as init_voices}
use midicrt.Engine.Panic.{Watch, release_for_panic}
use midicrt.Engine.Panic.Release.{lowered, panic_takes_one_strike, struck_twice_stays}
use midicrt.Engine.Panic.Cooldown.{Act, event as seen, wall as at, Spaced, run, start, panics_apart}

abbrev exact : ℤ → ℤ
exact age = age

-- What the tests compute with.
execution : Unit {0}
unfolding drive handle tick init get put remove on_note_on on_note_off struck release forget
    held_notes keys_on sort_notes tick_linger tick_notes tick_note settle classify change_level
execution = tt

abbrev played : List Input
played =
    event (voiced note_on 1000 0 60 100)
    ∷ event (voiced note_on 2000 0 60 90)
    ∷ event (voiced note_on 2000 0 64 90)
    ∷ wall 20000
    ∷ []

abbrev alerting : StuckNotes
alerting = drive handle (tick exact) (init 15000) played

abbrev watch : Watch
watch = start true exact alerting (init_voices 16 8)

abbrev twice : Key
twice = (1, 60)

panic_takes_one_strike_example : get (release_for_panic 1 20000 watch).alerts.active twice ≡ (
    if eqb 1 twice.0
    then lowered (get watch.alerts.active twice)
    else get watch.alerts.active twice)
panic_takes_one_strike_example =
    panic_takes_one_strike 1 20000 watch twice (drive-IsValid exact 15000 played) (omega arith)

abbrev struck_twice : Entry
struck_twice = record { count = 2; last_on = 2000 }

held_twice : get watch.alerts.active twice ≡ some struck_twice
unfolding execution
held_twice = refl

struck_twice_stays_example :
    let s' = release_for_panic 1 20000 watch in
    (get s'.alerts.active (1, 60) ≡ some (record struck_twice { count = 1 }))
    × (get s'.alerts.levels (1, 60) ≡ get watch.alerts.levels (1, 60))
struck_twice_stays_example =
    struck_twice_stays 1 60 20000 watch struck_twice (drive-IsValid exact 15000 played)
      (omega arith) held_twice (omega arith)

abbrev todo : List Act
todo = seen (voiced note_on 1000 0 60 100) ∷ at 20000 ∷ at 20010 ∷ at 23000 ∷ []

panics_apart_example :
    Spaced (run true exact todo (start true exact alerting (init_voices 16 8))).sent
panics_apart_example = panics_apart true exact todo alerting (init_voices 16 8)
