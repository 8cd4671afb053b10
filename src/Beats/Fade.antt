-- ===== src/Beats/Fade.antt =====
-- How the beat flash of `BeatFlashAnalyzer` fades.
use midicrt.Prelude.{
  ℕ, ◌+◌, ◌-◌, ◌*◌, ◌%◌, ◌≤◌, ◌<◌, ◌≡◌, ◌↔◌, ◌⊎◌, true, false, Option, none, some, arith, List, [],
  ◌∷◌,
}
use midicrt.Event.{MidiEvent, clock_tick, start, Input, event, wall, drive}
use midicrt.Beats.BeatFlash
use midicrt.Beats.BeatFlash.{
  BeatFlash, handle, tick, decay, view_model, on_beat, beat_peak, bar_peak, flash_duration,
}

-- The peak is none, that of a beat or that of a bar, and the light never passes it.
pub record IsLit (s : BeatFlash) : Type 0 where
  pub peaks : (s.flash_peak ≡ 0) ⊎ (s.flash_peak ≡ 100000) ⊎ (s.flash_peak ≡ 140000)
  pub bar_only : s.is_bar ≡ false → s.flash_peak ≤ 100000
  pub below_peak : s.last_intensity ≤ s.flash_peak

abbrev pub NotBefore : Option ℕ → ℕ → Type 0
NotBefore none now = Unit
NotBefore (some begin) now = begin ≤ now

pub handle-IsLit : (s : BeatFlash) (ev : MidiEvent) → IsLit s → IsLit (handle s ev).0
unfolding handle
handle-IsLit s ev h = ground arith

pub tick-IsLit :
    (s : BeatFlash) (now : ℕ) → NotBefore s.flash_start now → IsLit s → IsLit (tick s now).0
unfolding tick
tick-IsLit s now t h = ground arith

-- No wall clock tick runs behind the beat that lit the flash.
abbrev pub Timely : BeatFlash → List Input → Type 0
Timely s [] = Unit
Timely s (event ev ∷ is) = Timely (handle s ev).0 is
Timely s (wall now ∷ is) = NotBefore s.flash_start now × Timely (tick s now).0 is

drive-IsLit :
    (s : BeatFlash) (is : List Input) → Timely s is → IsLit s → IsLit (drive handle tick s is)
unfolding drive
drive-IsLit s [] t h = h
drive-IsLit s (event ev ∷ is) t h = drive-IsLit (handle s ev).0 is t (handle-IsLit s ev h)
drive-IsLit s (wall now ∷ is) t h = drive-IsLit (tick s now).0 is t.1 (tick-IsLit s now t.0 h)

-- From the initial state, whatever events and wall clock ticks follow, with no wall clock tick
-- earlier than the beat that lit the flash: an intensity above the peak of a beat is shown only
-- for a bar.
pub bright_only_on_bar :
    (is : List Input)
    → Timely BeatFlash.init is
    → beat_peak < (drive handle tick BeatFlash.init is).last_intensity
    → (drive handle tick BeatFlash.init is).is_bar ≡ true
bright_only_on_bar is t h = ground (arith, drive-IsLit BeatFlash.init is t (omega arith))

-- While the transport runs, the wall clock tick at `now`, at or after a clock tick's time `ts`,
-- shows that beat's peak lessened in proportion to the time since; the flash is lit exactly until
-- `flash_duration` has passed, and from then on further ticks change nothing and report nothing.
pub flash_window :
    (s : BeatFlash) (ev : MidiEvent) (now later : ℕ)
    → s.running ≡ true
    → ev.kind ≡ clock_tick
    → ev.ts ≤ now
    → let lit = (handle s ev).0 in
      let faded = (tick lit now).0 in
      (faded.last_intensity * flash_duration ≡ lit.flash_peak * (flash_duration - (now - ev.ts)))
      × ((0 < faded.last_intensity) ↔ (now < ev.ts + flash_duration))
      × (ev.ts + flash_duration ≤ now → tick faded later ≡ (faded, false))
unfolding handle tick
flash_window s ev now later r e h = ground arith

-- While the transport runs, every fourth beat since the start marks its flash as a bar's, and the view
-- keeps the mark when a tick 100 milliseconds later or more has faded the flash out; a start that comes
-- then takes the mark out of the view, and yet reports no change.
pub faded_bar_unseen :
    (round3 : ℕ → ℕ) (s : BeatFlash) (pulse begin : MidiEvent) (now : ℕ)
    → s.running ≡ true
    → (s.beats + 1) % 4 ≡ 0
    → pulse.kind ≡ clock_tick
    → pulse.ts + 100 ≤ now
    → begin.kind ≡ start
    → let faded = (tick (handle s pulse).0 now).0 in
      let (begun, dirty) = handle faded begin in
      (view_model round3 faded ≡ (round3 0, true))
      × (view_model round3 begun ≡ (round3 0, false))
      × (dirty ≡ false)
unfolding handle tick view_model
faded_bar_unseen round3 s pulse begin now on bar beat late first = ground arith
