-- ===== src/MidiIn/Defs.antt =====
-- src/midicrt/engine/midi_in.py: `translate`, and the clock batches of `MidiInput`.
-- A message is what the MIDI library hands over: by its documentation note, controller and program
-- messages have the fields of their constructors; of any other message the type and, for a channel
-- message, the channel are read. Ports, threads and the watching of ports are input and output.
use midicrt.Prelude.{
  ℕ, ◌+◌, Option, none, some, String, List, [], ◌∷◌, ◌++◌, if◌then◌else◌, ltb, text_test,
}
use midicrt.Event.{
  Kind, MidiEvent, note_on, note_off, control_change, program_change, sysex, clock_tick, start,
  stop, continue, songpos, other,
}

pub data Message : Type 0 where
  clock active_sensing start_msg stop_msg continue_msg songpos_msg : Message
  note_on_msg note_off_msg control_msg : ℕ → ℕ → ℕ → Message
  program_msg : ℕ → ℕ → Message
  sysex_msg : List ℕ → Message
  other_msg : String → Option ℕ → Message

module _ (source : String) (ts : ℕ) (device_id : Option String) where
  abbrev pub event_of : Kind → Option ℕ → Option ℕ → Option ℕ → Option (List ℕ) → MidiEvent
  event_of kind channel data1 data2 payload = record {
    ts = ts;
    source = source;
    kind = kind;
    channel = channel;
    data1 = data1;
    data2 = data2;
    clock_batch_start = none;
    sysex_data = payload;
    device_id = device_id;
  }

  -- `_IGNORED_TYPES` are the clock and active sensing.
  unfoldable pub translate : Message → Option MidiEvent
  translate clock = none
  translate active_sensing = none
  translate (note_on_msg channel note velocity) =
      some (event_of note_on (some channel) (some note) (some velocity) none)
  translate (note_off_msg channel note velocity) =
      some (event_of note_off (some channel) (some note) (some velocity) none)
  translate (control_msg channel control value) =
      some (event_of control_change (some channel) (some control) (some value) none)
  translate (program_msg channel program) =
      some (event_of program_change (some channel) (some program) none none)
  translate (sysex_msg payload) = some (event_of sysex none none none (some payload))
  translate start_msg = some (event_of start none none none none)
  translate stop_msg = some (event_of stop none none none none)
  translate continue_msg = some (event_of continue none none none none)
  translate songpos_msg = some (event_of songpos none none none none)
  translate (other_msg name channel) = some (event_of (other name) channel none none none)

-- What `MidiInput` keeps of the clock, and the engine's queue, oldest first.
pub record Input : Type 0 where
  pub clock_count : ℕ
  pub clock_batch_start : Option ℕ
  pub queue : List MidiEvent

abbrev pub init : Input
init = record { clock_count = 0; clock_batch_start = none; queue = [] }

abbrev pub clock_batch_size : ℕ
clock_batch_size = 24

abbrev pub tick_event : String → ℕ → Option String → Option ℕ → MidiEvent
tick_event source now device_id batch_start = record {
  ts = now;
  source = source;
  kind = clock_tick;
  channel = none;
  data1 = some clock_batch_size;
  data2 = none;
  clock_batch_start = batch_start;
  sysex_data = none;
  device_id = device_id;
}

unfoldable pub on_clock : String → ℕ → Option String → Input → Input
on_clock source now device_id s =
    if ltb (s.clock_count + 1) clock_batch_size
    then record s { clock_count = s.clock_count + 1 }
    else record {
      clock_count = 0;
      clock_batch_start = some now;
      queue = s.queue ++ tick_event source now device_id s.clock_batch_start ∷ [];
    }

-- A start clears the count and the boundary, a stop or a continue only the boundary.
unfoldable pub reset : Message → Input → Input
reset start_msg s = record s { clock_count = 0; clock_batch_start = none }
reset stop_msg s = record s { clock_batch_start = none }
reset continue_msg s = record s { clock_batch_start = none }
reset _ s = s

abbrev pub pushed : Option MidiEvent → Input → Input
pushed none s = s
pushed (some ev) s = record s { queue = s.queue ++ ev ∷ [] }

unfoldable pub enqueue : String → ℕ → Option String → Message → Input → Input
enqueue source now device_id clock s = on_clock source now device_id s
enqueue source now device_id msg s = pushed (translate source now device_id msg) (reset msg s)
