-- ===== src/Voices.antt =====
-- src/midicrt/analyzers/voices.py, `VoiceMonitorAnalyzer`.
pub mod Defs
pub mod Fits
pub mod Counts
pub mod Repeats
mod Tests
