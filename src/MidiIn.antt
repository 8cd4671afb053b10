-- ===== src/MidiIn.antt =====
-- src/midicrt/engine/midi_in.py: from MIDI messages to the engine's events.
pub mod Defs
pub mod Translate
pub mod Clock
mod Tests
