-- ===== src/Bindings.antt =====
-- src/midicrt/engine/bindings.py: what a MIDI event makes the engine do. `Defs` is the dispatcher and
-- `Validate` the check of a binding against the actions; `Learn` adds the learning of bindings in
-- src/midicrt/engine/core.py.
pub mod Defs
pub mod Validate
pub mod History
pub mod Expected
pub mod Crossings
pub mod Agree
pub mod Accepted
pub mod Learn
mod Tests
