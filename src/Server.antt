-- ===== src/Server.antt =====
-- src/midicrt/engine/server.py, `ProtocolServer`: `Defs` has the connections and the command handler,
-- `Topics` and `Refcount` are about the counts of subscribers, `Leaks` about commands after a drop,
-- `Push` about the way of a view from the engine to a client, `Tests` runs them.
pub mod Defs
pub mod Topics
pub mod Refcount
pub mod Leaks
pub mod Push
mod Tests
