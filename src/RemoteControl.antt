-- ===== src/RemoteControl.antt =====
-- The pages of the engine and its SysEx remote control: src/midicrt/engine/sysex.py (`Frames`) and
-- the page actions and SysEx handlers of src/midicrt/engine/core.py, `Engine` (`Desk`, `Receiver`).
pub mod Frames
pub mod Desk
pub mod Receiver
pub mod Turning
pub mod Roster
pub mod Replies
pub mod Silence
mod Tests
