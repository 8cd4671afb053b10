-- ===== src/CcMonitor/Tests.antt =====
-- A fader that moves, and rests.
use midicrt.Prelude.{◌≡◌, refl, true, false, some, List, [], ◌∷◌, pair_test, number_test}
use midicrt.Event.{control_change, Input, event, wall, drive}
use midicrt.Event.Samples.{voiced}
use midicrt.Dict.{get, put}
use midicrt.CcMonitor.{
  CcMonitor, init, append_recent, make_room, updated, on_control, dispatch, handle, tick_entries,
  tick,
}
use midicrt.CcMonitor.Bounds.{IsSound, drive_bounded}

execution : Unit {0}
unfolding drive init append_recent make_room updated on_control dispatch handle tick_entries tick
    get put
execution = tt

abbrev moves : List Input
moves =
    event (voiced control_change 1000 0 7 90)
    ∷ event (voiced control_change 1100 0 7 20)
    ∷ wall 2000
    ∷ []

abbrev moved : CcMonitor
moved = drive handle tick init moves

tracked_after : moved.tracked ≡ ((1, 7), record { value = 20; ts = 1100; fresh = some true }) ∷ []
unfolding execution
tracked_after = refl

-- A tick reports the view as changed when the value grows old, and not again.
grows_old : ((tick moved 3100).1 ≡ true) × ((tick (tick moved 3100).0 3200).1 ≡ false)
unfolding execution
grows_old = (refl, refl)

drive_bounded_example : IsSound (drive handle tick init moves)
drive_bounded_example = drive_bounded moves
