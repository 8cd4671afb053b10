-- ===== src/Beats/BeatFlash.antt =====
-- src/midicrt/analyzers/beatflash.py, `BeatFlashAnalyzer`. Peaks and intensities are exact
-- fractions of 1000 * flash_duration: the source's peaks 1.0 and 1.4 are 100000 and 140000, and
-- `peak * (1 - elapsed / 0.1)` at an elapsed number of milliseconds is a whole number of them.
use midicrt.Prelude.{
  ℕ, ◌+◌, ◌-◌, ◌*◌, ◌/◌, ◌%◌, Option, none, some, Bool, true, false, not, if◌then◌else◌, eqb, leb,
}
use midicrt.Event.{Kind, MidiEvent, clock_tick, start, stop, continue}
use midicrt.Beats.Transport.{beats_per_bar}

abbrev pub flash_duration : ℕ
flash_duration = 100

abbrev pub beat_peak : ℕ
beat_peak = 100000

abbrev pub bar_peak : ℕ
bar_peak = 140000

pub record BeatFlash : Type 0 where
  pub beats : ℕ
  pub running : Bool
  pub flash_start : Option ℕ
  pub flash_peak : ℕ
  pub is_bar : Bool
  pub last_intensity : ℕ

abbrev pub init : BeatFlash
init = record {
  beats = 0;
  running = false;
  flash_start = none;
  flash_peak = 0;
  is_bar = false;
  last_intensity = 0;
}

unfoldable pub on_beat : BeatFlash → ℕ → BeatFlash
on_beat s ts =
    let bar = eqb ((s.beats + 1) % beats_per_bar) 0 in
    let peak = if bar then bar_peak else beat_peak in
    record s {
      beats = s.beats + 1;
      is_bar = bar;
      flash_peak = peak;
      flash_start = some ts;
      last_intensity = peak;
    }

dispatch : Kind → BeatFlash → MidiEvent → BeatFlash × Bool
unfolding on_beat
dispatch start s ev = (
  record {
    beats = 0;
    running = true;
    flash_start = none;
    flash_peak = 0;
    is_bar = false;
    last_intensity = 0;
  },
  not (eqb s.last_intensity 0),
)
dispatch stop s ev = (record s { running = false }, false)
dispatch continue s ev = (record s { running = true }, false)
dispatch clock_tick s ev = if s.running then (on_beat s ev.ts, true) else (s, false)
dispatch _ s ev = (s, false)

unfoldable pub handle : BeatFlash → MidiEvent → BeatFlash × Bool
unfolding dispatch
handle s ev = dispatch ev.kind s ev

-- `max(0, peak * (1 - elapsed / flash_duration))`. Before the flash began the elapsed time is
-- negative and the product exceeds the peak.
unfoldable pub decay : ℕ → ℕ → ℕ → ℕ
decay peak begin now =
    if leb begin now
    then peak / flash_duration * (flash_duration - (now - begin))
    else peak / flash_duration * (flash_duration + (begin - now))

tick_from : Option ℕ → BeatFlash → ℕ → BeatFlash × Bool
unfolding decay
tick_from none s now = (s, false)
tick_from (some begin) s now =
    let intensity = decay s.flash_peak begin now in
    (
      record s {
        flash_start = if eqb intensity 0 then none else some begin;
        last_intensity = intensity;
      },
      not (eqb intensity s.last_intensity),
    )

unfoldable pub tick : BeatFlash → ℕ → BeatFlash × Bool
unfolding tick_from
tick s now = tick_from s.flash_start s now

-- The intensity and whether the flash is a bar's; `round3` is Python's `round` to three places.
unfoldable pub view_model : (ℕ → ℕ) → BeatFlash → ℕ × Bool
view_model round3 s = (round3 s.last_intensity, s.is_bar)
