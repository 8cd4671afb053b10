-- ===== src/StuckNotes.antt =====
-- src/midicrt/analyzers/stucknotes.py, `StuckNotesAnalyzer`: `Defs` has the state and the handling
-- of events, `Tick` the wall clock hook and the view, the other children the proofs.
pub mod Defs
pub mod Tick
pub mod Invariant
pub mod Counting
pub mod Escalation
pub mod Linger
mod Tests
