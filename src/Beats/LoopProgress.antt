-- ===== src/Beats/LoopProgress.antt =====
-- src/midicrt/analyzers/loopprogress.py, `LoopProgressAnalyzer`. The source's `fraction` is
-- (beats % total_beats) / total_beats; the model keeps its numerator, `position`.
use midicrt.Prelude.{ℕ, ◌+◌, ◌*◌, ◌%◌, Bool, true, false, not, if◌then◌else◌}
use midicrt.Event.{Kind, MidiEvent, clock_tick, start, stop, continue}
use midicrt.Beats.Transport.{beats_per_bar}

abbrev pub total_bars : ℕ
total_bars = 8

abbrev pub total_beats : ℕ
total_beats = total_bars * beats_per_bar

pub record LoopProgress : Type 0 where
  pub beats : ℕ
  pub running : Bool

abbrev pub init : LoopProgress
init = record { beats = 0; running = false }

dispatch : Kind → LoopProgress → LoopProgress × Bool
dispatch start s = (record { beats = 0; running = true }, true)
dispatch stop s = (record s { running = false }, s.running)
dispatch continue s = (record s { running = true }, not s.running)
dispatch clock_tick s = if s.running then (record s { beats = s.beats + 1 }, true) else (s, false)
dispatch _ s = (s, false)

unfoldable pub handle : LoopProgress → MidiEvent → LoopProgress × Bool
unfolding dispatch
handle s ev = dispatch ev.kind s

unfoldable pub position : LoopProgress → ℕ
position s = s.beats % total_beats
