-- ===== src/Automerge.antt =====
-- crates/btree-automerge: documents as sequences of change records in an ordered store.
pub mod Key
pub mod Document
pub mod Reconstruct
pub mod Compaction
pub mod Records
pub mod Store
pub mod Documents
mod Tests
