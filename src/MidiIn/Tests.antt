-- ===== src/MidiIn/Tests.antt =====
-- Concrete messages and pulses.
use midicrt.Prelude.{
  ℕ, suc, ◌+◌, ◌/◌, ◌%◌, ◌≡◌, refl, none, some, List, [], ◌∷◌, arith, length, zero,
}
use midicrt.Event.{MidiEvent, control_change}
use midicrt.MidiIn.Defs.{Input, init, control_msg, translate, event_of, on_clock, enqueue}
use midicrt.MidiIn.Clock.{pulses, pulses_make_beats}

abbrev moved : MidiEvent
moved = event_of "desk" 5 none control_change (some 0) (some 7) (some 100) none

translated : translate "desk" 5 none (control_msg 0 7 100) ≡ some moved
unfolding translate
translated = refl

-- One pulse every 20 milliseconds.
abbrev from : ℕ → ℕ → List ℕ
from zero t = []
from (suc n) t = t ∷ from n (t + 20)

abbrev later : Input
later = pulses "desk" none (from 30 0) init

count_later : later.clock_count ≡ 6
unfolding pulses enqueue on_clock
count_later = refl

pulses_make_beats_example :
    ((pulses "desk" none (from 30 0) init).clock_count
      ≡ (init.clock_count + length (from 30 0)) % 24)
    × (length (pulses "desk" none (from 30 0) init).queue
        ≡ 0 + (init.clock_count + length (from 30 0)) / 24)
pulses_make_beats_example = pulses_make_beats "desk" none (from 30 0) init (omega arith)
