-- ===== src/Pages.antt =====
-- Pages of src/midicrt/pages that keep a state of their own.
pub mod Logs
pub mod SendNotes
mod Tests
