-- ===== src/Actions.antt =====
-- src/midicrt/engine/actions.py: the registry of the actions that clients, keys and bindings call.
pub mod Defs
pub mod Dispatch
mod Tests
