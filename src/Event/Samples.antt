-- ===== src/Event/Samples.antt =====
-- Events for the tests of all parts.
use midicrt.Prelude.{ℕ, List, none, some}
use midicrt.Event.{Kind, MidiEvent, sysex}

-- An event of a kind at a time, with no channel and no data bytes.
abbrev pub plain : Kind → ℕ → MidiEvent
plain kind ts = record {
  ts = ts;
  source = "keys";
  kind = kind;
  channel = none;
  data1 = none;
  data2 = none;
  clock_batch_start = none;
  sysex_data = none;
  device_id = none;
}

-- An event of a kind at a time, on a channel counted from 0, with two data bytes.
abbrev pub voiced : Kind → ℕ → ℕ → ℕ → ℕ → MidiEvent
voiced kind ts channel data1 data2 = record {
  ts = ts;
  source = "keys";
  kind = kind;
  channel = some channel;
  data1 = some data1;
  data2 = some data2;
  clock_batch_start = none;
  sysex_data = none;
  device_id = none;
}

-- A SysEx event with a payload.
abbrev pub exclusive : ℕ → List ℕ → MidiEvent
exclusive ts bytes = record {
  ts = ts;
  source = "cirklon";
  kind = sysex;
  channel = none;
  data1 = none;
  data2 = none;
  clock_batch_start = none;
  sysex_data = some bytes;
  device_id = none;
}
