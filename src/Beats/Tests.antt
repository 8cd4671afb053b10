-- ===== src/Beats/Tests.antt =====
-- Concrete runs of the beat analyzers.
use midicrt.Prelude.{
  ℕ, ◌+◌, ◌*◌, ◌-◌, ◌/◌, ◌<◌, ◌≤◌, ◌↔◌, arith, ◌≡◌, refl, List, [], ◌∷◌, true, false,
}
use midicrt.Event.{MidiEvent, clock_tick, start, run, Input, event, wall}
use midicrt.Event.Samples.{plain}
use midicrt.Beats.Transport
use midicrt.Beats.Transport.{bar, beat}
use midicrt.Beats.BeatFlash
use midicrt.Beats.BeatFlash.{BeatFlash, flash_duration, view_model}
use midicrt.Beats.Fade.{faded_bar_unseen, flash_window}

abbrev five_beats : List MidiEvent
five_beats =
    plain start 0
    ∷ plain clock_tick 500
    ∷ plain clock_tick 1000
    ∷ plain clock_tick 1500
    ∷ plain clock_tick 2000
    ∷ plain clock_tick 2500
    ∷ []

bar_of_five : bar (run Transport.handle Transport.init five_beats) ≡ 1
unfolding bar run Transport.handle
bar_of_five = refl

beat_of_five : beat (run Transport.handle Transport.init five_beats) ≡ 2
unfolding beat run Transport.handle
beat_of_five = refl

abbrev two_ticks : List MidiEvent
two_ticks = plain clock_tick 4000 ∷ plain clock_tick 4500 ∷ []

-- The fourth beat is a bar: it is lit at once.
abbrev fourth_beat : List Input
fourth_beat =
    event (plain start 0)
    ∷ event (plain clock_tick 500)
    ∷ event (plain clock_tick 1000)
    ∷ wall 1010
    ∷ event (plain clock_tick 1500)
    ∷ event (plain clock_tick 2000)
    ∷ wall 2010
    ∷ []

abbrev playing : BeatFlash
playing = record BeatFlash.init { running = true; beats = 2 }

abbrev rounded : ℕ → ℕ
rounded n = (n + 50) / 100 * 100

abbrev before_bar : BeatFlash
before_bar = record playing { beats = 3 }

faded_bar_unseen_example :
    let faded = (BeatFlash.tick (BeatFlash.handle before_bar (plain clock_tick 2000)).0 2150).0 in
    let (begun, dirty) = BeatFlash.handle faded (plain start 2200) in
    (view_model rounded faded ≡ (0, true))
    × (view_model rounded begun ≡ (0, false))
    × (dirty ≡ false)
faded_bar_unseen_example =
    faded_bar_unseen rounded before_bar (plain clock_tick 2000) (plain start 2200) 2150 refl refl
      refl (omega arith) refl

flash_window_example :
    let lit = (BeatFlash.handle playing (plain clock_tick 1000)).0 in
    let faded = (BeatFlash.tick lit 1040).0 in
    (faded.last_intensity * flash_duration ≡ lit.flash_peak * (flash_duration - (1040 - 1000)))
    × ((0 < faded.last_intensity) ↔ (1040 < 1000 + flash_duration))
    × (1000 + flash_duration ≤ 1040 → BeatFlash.tick faded 1200 ≡ (faded, false))
flash_window_example =
    flash_window playing (plain clock_tick 1000) 1040 1200 refl refl (omega arith)
