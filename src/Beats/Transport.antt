-- ===== src/Beats/Transport.antt =====
-- src/midicrt/analyzers/transport.py, `TransportAnalyzer`. `handle` returns the new state and the
-- dirty flag. The source's `bpm` is the float 60.0 / (ts - clock_batch_start); the model keeps
-- that quotient as a pair, 60000 milliseconds over the span, so nothing is rounded.
use midicrt.Prelude.{
  ℕ, ◌+◌, ◌/◌, ◌%◌, Option, none, some, String, Bool, true, false, if◌then◌else◌, ◌==◌, text_test,
  option_test,
}
use midicrt.Prelude.Int.{ℤ, sub_ℕ}
use midicrt.Event.{Kind, MidiEvent, clock_tick, start, stop, continue, songpos}

abbrev pub beats_per_bar : ℕ
beats_per_bar = 4

-- A tempo: milliseconds in a minute over the milliseconds of one beat.
pub record Bpm : Type 0 where
  pub minute : ℕ
  pub span : ℤ

pub record Transport : Type 0 where
  pub bpm : Option Bpm
  pub beats : ℕ
  pub running : Bool
  pub source : Option String
  pub rec : Bool

abbrev pub init : Transport
init = record { bpm = none; beats = 0; running = false; source = none; rec = false }

abbrev tempo : ℕ → Option ℕ → Option Bpm
tempo ts none = none
tempo ts (some begin) = some (record { minute = 60000; span = sub_ℕ ts begin })

unfoldable pub advance_beat : Transport → MidiEvent → Transport × Bool
advance_beat s ev =
    if s.running
    then (
      record s {
        beats = s.beats + 1;
        source = some ev.source;
        bpm = tempo ev.ts ev.clock_batch_start;
      },
      true,
    )
    else (s, false)

dispatch : Kind → Transport → MidiEvent → Transport × Bool
unfolding advance_beat
dispatch clock_tick s ev = advance_beat s ev
dispatch start s ev =
    (record s { beats = 0; bpm = none; running = true; source = some ev.source }, true)
dispatch continue s ev =
    if s.running
    then (record s { running = true }, false)
    else (record s { running = true; source = some ev.source }, true)
dispatch stop s ev =
    if s.running
    then (record s { running = false; source = some ev.source }, true)
    else (record s { running = false }, false)
dispatch songpos s ev =
    if some ev.source == s.source then (s, false) else (record s { source = some ev.source }, true)
dispatch _ s ev = (s, false)

unfoldable pub handle : Transport → MidiEvent → Transport × Bool
unfolding dispatch
handle s ev = dispatch ev.kind s ev

unfoldable pub bar : Transport → ℕ
bar s = s.beats / beats_per_bar

unfoldable pub beat : Transport → ℕ
beat s = s.beats % beats_per_bar + 1

unfoldable pub set_rec : Bool → Transport → Transport
set_rec rec s = record s { rec = rec }
