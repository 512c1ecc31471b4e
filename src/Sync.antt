-- ===== src/Sync.antt =====
-- crates/sync: the state that peers exchange (src/state.rs), the messages (src/protocol.rs) and
-- the session (src/session.rs).
pub mod State
pub mod Protocol
pub mod Session
mod Tests
