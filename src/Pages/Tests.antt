-- ===== src/Pages/Tests.antt =====
-- Keys on the page that sends notes.
use midicrt.Prelude.{◌≡◌, refl, String, List, [], ◌∷◌, text_test}
use midicrt.Dict.{get}
use midicrt.Event.{note_on as note_on_event, clock_tick, control_change}
use midicrt.Event.Samples.{voiced, plain}
use midicrt.Pages.Logs
use midicrt.Pages.SendNotes.{
  Desk, init, note_on, note_off, drain_expired, offs, apply_key, sendnotes_key, tick, stop,
}
use midicrt.Pages.SendNotes.Released.{
  Act, pressed, passed, act, run, notes_on, notes_off, all_released,
}

abbrev same : String → String
same key = key

-- A note, a shorter gate, a note on another channel, a tick between the ends of the two gates, and a high note.
abbrev acts : List Act
acts =
    pressed "z" 1000
    ∷ pressed "h" 1005
    ∷ pressed "." 1008
    ∷ pressed "m" 1010
    ∷ passed 1125
    ∷ pressed "]" 1130
    ∷ pressed "/" 1140
    ∷ []

abbrev fresh : Desk
fresh = record { page = init; sent = [] }

-- What the tests compute with.
execution : Unit {0}
unfolding get drain_expired offs apply_key sendnotes_key tick stop act run notes_on notes_off
execution = tt

-- Only the first note is over at the tick.
after_tick :
    (run same acts fresh).sent
    ≡ note_on 60 96 1 ∷ note_on 71 96 2 ∷ note_off 60 1 ∷ note_on 88 96 2 ∷ []
unfolding execution
after_tick = refl

all_released_example :
    notes_on (stop (run same acts fresh)).sent ≡ notes_off (stop (run same acts fresh)).sent
all_released_example = all_released same acts

-- Room for two lines; the clock is not shown, and the first note has gone.
abbrev traffic : List Logs.Tail.Act
traffic =
    Logs.Tail.seen (voiced note_on_event 1 0 60 90)
    ∷ Logs.Tail.cleared
    ∷ Logs.Tail.seen (voiced note_on_event 2 0 60 90)
    ∷ Logs.Tail.seen (plain clock_tick 3)
    ∷ Logs.Tail.seen (voiced note_on_event 4 0 62 90)
    ∷ Logs.Tail.seen (voiced control_change 5 0 7 90)
    ∷ []
