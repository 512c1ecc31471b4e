-- ===== src/BTree/InMemory.antt =====
-- crates/btree/src/in_memory_btree.rs. The tree is one `BTreeMap` behind a lock that every method
-- takes once, so a method is one step on the map, which its `base` argument is. A transaction
-- holds a patch of its own, and reads the shared map as it is at each call.
pub mod Patch
pub mod Laws
pub mod Range
pub mod Session
pub mod Instance
