-- ===== src/Beats.antt =====
-- The three analyzers that count beats: src/midicrt/analyzers/transport.py, beatflash.py and
-- loopprogress.py. Their models are the children; `Lockstep` proves what holds of all three.
pub mod Transport
pub mod BeatFlash
pub mod LoopProgress
pub mod Lockstep
pub mod Fade
mod Tests
