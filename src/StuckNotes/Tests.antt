-- ===== src/StuckNotes/Tests.antt =====
-- Concrete runs of `StuckNotesAnalyzer`. Ages are shown unrounded.
use midicrt.Prelude.{◌≡◌, ◌≢◌, refl, some, List, [], ◌∷◌, ◌++◌, arith, pair_test, number_test}
use midicrt.Prelude.Int.{ℤ, pos}
use midicrt.Event.{note_on, control_change, Input, event, wall, drive}
use midicrt.Event.Samples.{voiced}
use midicrt.Dict.{get, put, remove}
use midicrt.StuckNotes.Defs.{
  Key, StuckNotes, warn, crit, init, handle, held_notes, on_note_on, on_note_off, clear_channel,
  keys_on, forget_all, forget, sort_notes,
}
use midicrt.StuckNotes.Tick.{
  tick, view_model, alerts_list, sort_alerts, alerts_of, tick_linger, tick_notes, tick_note, settle,
  classify, change_level,
}
use midicrt.StuckNotes.Invariant.{IsValid, drive-IsValid}
use midicrt.StuckNotes.Counting.{times_held, count_of, count-drive}
use midicrt.StuckNotes.Escalation.{due, levels-tick}

abbrev exact : ℤ → ℤ
exact age = age

-- What a test of the analyzer computes with.
execution : Unit {0}
unfolding view_model drive handle tick init get put remove alerts_list sort_alerts alerts_of
    tick_linger tick_notes tick_note settle classify change_level on_note_on on_note_off
    clear_channel keys_on forget_all forget held_notes sort_notes due
execution = tt

abbrev held_long : List Input
held_long =
    event (voiced note_on 1000 0 60 100)
    ∷ event (voiced note_on 2000 0 64 90)
    ∷ event (voiced note_on 2500 0 60 80)
    ∷ wall 5000
    ∷ []

abbrev stuck : StuckNotes
stuck = drive handle (tick exact) (init 15000) held_long

abbrev key60 : Key
key60 = (1, 60)

stuck-IsValid : IsValid stuck
stuck-IsValid = drive-IsValid exact 15000 held_long

stuck_alerts :
    (view_model exact stuck).alerts
    ≡ record { ch = 1; note = 64; level = warn; held_s = pos 3000 }
      ∷ record { ch = 1; note = 60; level = warn; held_s = pos 2500 }
      ∷ []
unfolding execution
stuck_alerts = refl

held_of_stuck : held_notes stuck 1 ≡ 60 ∷ 64 ∷ []
unfolding execution
held_of_stuck = refl

count-drive_example : count_of (get stuck.active key60) ≡ times_held key60 held_long 0
count-drive_example = count-drive exact 15000 held_long key60

twice_held : times_held key60 held_long 0 ≡ 2
unfolding times_held
twice_held = refl

levels-tick_example :
    get (tick exact stuck 12500).0.levels key60 ≡ due stuck 12500 key60 (get stuck.active key60)
levels-tick_example = levels-tick exact stuck 12500 key60 stuck-IsValid

due_crit : due stuck 12500 key60 (get stuck.active key60) ≡ some crit
unfolding execution
due_crit = refl

abbrev before : StuckNotes
before =
    drive handle (tick exact) (init 15000)
      (event (voiced note_on 1000 0 60 100) ∷ event (voiced note_on 2000 0 64 90) ∷ [])

some_level : (tick exact before 5000).0.levels ≢ []
unfolding execution
some_level e = ground (arith, e)

-- The same notes, then All Notes Off.
abbrev silenced : List Input
silenced = held_long ++ event (voiced control_change 6000 0 123 0) ∷ []

abbrev released : StuckNotes
released = drive handle (tick exact) (init 15000) silenced
