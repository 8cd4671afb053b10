-- ===== src/Behaviors.antt =====
-- The behaviors that turn the wall clock into page changes: src/midicrt/behaviors. `Screensaver` and
-- `PageCycle` are the two modules there; their proofs are in their children.
pub mod Intent
pub mod Screensaver
pub mod PageCycle
mod Tests
