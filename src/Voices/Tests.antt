-- ===== src/Voices/Tests.antt =====
-- Concrete runs of the voice monitor.
use midicrt.Prelude.{◌≡◌, refl, true, some, List, [], ◌∷◌, number_test, option_test, map}
use midicrt.Event.{note_on, start}
use midicrt.Event.Samples.{plain, voiced}
use midicrt.Dict.{get, put, remove, total}
use midicrt.Voices.Defs.{
  Channel, Voices, Passed, silent_channels, init, check_poly_limit, struck, released, on_note_on,
  on_note_off, clear_channel, cleared_channels, clear_all, on_channel, on_voice, clears_all,
  handle_uncached, handle, tick,
}
use midicrt.Voices.Counts.{IsValid, Call, given, wall, calls, calls-IsValid}

abbrev chord : List Call
chord =
    given 1 (voiced note_on 1000 0 60 100)
    ∷ given 1 (voiced note_on 1000 0 60 100)
    ∷ given 2 (voiced note_on 1100 0 64 100)
    ∷ given 3 (voiced note_on 1200 1 60 100)
    ∷ wall 1300
    ∷ []

abbrev playing : Voices
playing = calls chord (init 2 0)

execution : Unit {0}
unfolding get put remove total silent_channels init check_poly_limit struck released on_note_on
    on_note_off clear_channel cleared_channels clear_all on_channel on_voice clears_all
    handle_uncached handle tick calls
execution = tt

three_held : playing.total ≡ 3
unfolding execution
three_held = refl

passed_once : map (λ (p : Passed). p.total) playing.events ≡ 3 ∷ []
unfolding execution
passed_once = refl

flashing : playing.flash_active ≡ true
unfolding execution
flashing = refl

calls-IsValid_example : IsValid playing
calls-IsValid_example = calls-IsValid chord 2 0

abbrev stopped : Voices
stopped = (handle_uncached playing (plain start 2000)).0

abbrev first_channel : Channel
first_channel = record { notes = []; active = 0; peak = 2 }

first_at : get stopped.channels 1 ≡ some first_channel
unfolding execution
first_at = refl
