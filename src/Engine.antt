-- ===== src/Engine.antt =====
-- src/midicrt/engine/core.py, `Engine`: what its loop does around the analyzers, pages and clients.
pub mod Panic
pub mod Loop
pub mod AudioGate
pub mod Samples
