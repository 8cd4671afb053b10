-- ===== src/MidiIn/Translate.antt =====
-- What the events that `translate` builds carry.
use midicrt.Prelude.{ℕ, ◌≡◌, refl, subst, Option, none, some, String, List}
use midicrt.Event.{
  Kind, MidiEvent, note_on, note_off, control_change, program_change, sysex, clock_tick,
}
use midicrt.MidiIn.Defs.{
  Message, translate, clock, active_sensing, start_msg, stop_msg, continue_msg, songpos_msg,
  note_on_msg, note_off_msg, control_msg, program_msg, sysex_msg, other_msg,
}

-- What a handler reads of an event of a kind is there.
abbrev pub Complete : Kind → MidiEvent → Type 0
Complete note_on ev =
    (c : ℕ) × (n : ℕ) × (v : ℕ) × (ev.channel ≡ some c) × (ev.data1 ≡ some n) × (ev.data2 ≡ some v)
Complete note_off ev =
    (c : ℕ) × (n : ℕ) × (v : ℕ) × (ev.channel ≡ some c) × (ev.data1 ≡ some n) × (ev.data2 ≡ some v)
Complete control_change ev =
    (c : ℕ) × (n : ℕ) × (v : ℕ) × (ev.channel ≡ some c) × (ev.data1 ≡ some n) × (ev.data2 ≡ some v)
Complete program_change ev = (c : ℕ) × (n : ℕ) × (ev.channel ≡ some c) × (ev.data1 ≡ some n)
Complete sysex ev = (payload : List ℕ) × (ev.sysex_data ≡ some payload)
Complete clock_tick ev = ⊥
Complete _ ev = Unit

abbrev Whole : Option MidiEvent → Type 0
Whole none = Unit
Whole (some ev) = Complete ev.kind ev

translate-Whole :
    (source : String) (ts : ℕ) (device_id : Option String) (msg : Message)
    → Whole (translate source ts device_id msg)
unfolding translate
translate-Whole source ts device_id (note_on_msg c n v) = (c, n, v, refl, refl, refl)
translate-Whole source ts device_id (note_off_msg c n v) = (c, n, v, refl, refl, refl)
translate-Whole source ts device_id (control_msg c n v) = (c, n, v, refl, refl, refl)
translate-Whole source ts device_id (program_msg c n) = (c, n, refl, refl)
translate-Whole source ts device_id (sysex_msg payload) = (payload, refl)
translate-Whole source ts device_id clock = tt
translate-Whole source ts device_id active_sensing = tt
translate-Whole source ts device_id start_msg = tt
translate-Whole source ts device_id stop_msg = tt
translate-Whole source ts device_id continue_msg = tt
translate-Whole source ts device_id songpos_msg = tt
translate-Whole source ts device_id (other_msg name channel) = tt

-- Every note and controller event that the input builds has a channel and both data bytes, every
-- program change a channel and its program, every SysEx event its payload; and no message becomes a
-- clock tick.
pub translate-Complete :
    (source : String) (ts : ℕ) (device_id : Option String) (msg : Message) (ev : MidiEvent)
    → translate source ts device_id msg ≡ some ev
    → Complete ev.kind ev
translate-Complete source ts device_id msg ev h =
    subst Whole h (translate-Whole source ts device_id msg)
