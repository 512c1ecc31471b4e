-- ===== src/Lib.antt =====
-- The storage and synchronization core of the converge database.
--
-- The program keeps rows in ordered key-value stores and merges them between peers:
-- * crates/btree gives ordered maps with transactions. BTree.antt has its errors, BTree/Interface
--   what a transaction promises, as a record of operations and laws, and BTree/InMemory the
--   in-memory transaction of crates/btree/src/in_memory_btree.rs: Patch its operations on the
--   buffer (`get`, `insert`, `remove`, `commit`, `range`, `update`, `remove_range`), Session
--   whole transactions, Instance the record of the interface that it fills.
-- * crates/btree-automerge keeps documents as records in such a store. Automerge/Key is
--   `DocumentChangeKey` with its order, its byte codec and its ranges; Automerge/Reconstruct is
--   `reconstruct_documents`; Automerge/Compaction is the policy and `run_compaction`, and
--   Automerge/Records the documents of crates/btree-automerge/src/util.rs (`tx_get_document`,
--   `tx_update`, `tx_insert_snapshot`, `tx_remove_document`), over any transaction that satisfies
--   the interface. Automerge/Store is the change store of
--   crates/btree-automerge/src/change_store.rs, and Automerge/Documents the trees and
--   transactions of documents in crates/btree-automerge/src/automerge_tree.rs and
--   crates/btree-automerge/src/transaction.rs, with `reconstruct_document_values`. The automerge
--   library, sha2 and uuid are the parameters of Automerge/Document.
-- * crates/value gives the values of rows. Value.antt is `Value`, `ValueType` and `Row` with
--   their equality and order, Value/Json is `JsonValue` and `JsonNumber`. A float is its 64 bits,
--   and what core does with floats is a record of parameters, `Floats`. Value/Text is the
--   equality of texts, Value/Convert the conversions to numbers, which read the bits of a float,
--   and Value/Range the range of what they give.
-- * Schema.antt is crates/schema/src/schema.rs with the check of a UUID primary key, and
--   Query.antt the statements of crates/query/src/query.rs as data.
-- * crates/engine stores rows and executes statements. Engine/RowKey is `encode_key` and
--   `decode_key` of crates/engine/src/row_table.rs, Engine/RowTable is `RowTable`,
--   Engine/BytesTable is crates/engine/src/bytes_table.rs, a table seen as an ordered map, and
--   Engine/Kernel is the in-memory kernel of crates/engine/src/in_memory.rs.
--   Engine/Kernel/Session lets any number of clients work on one kernel: a history is a list of
--   steps. postcard at rows is a record of parameters, `Postcard`.
-- * Above the kernel, crates/engine works on a transaction. Engine/Action is a call that takes
--   and gives the state and returns, fails or panics. Engine/Schema with Engine/Catalog is
--   crates/engine/src/schema.rs with crates/engine/src/catalog.rs, Engine/Index is
--   crates/engine/src/index.rs, Engine/Codec the record `RowCodec` of what the engine asks of a
--   codec of rows, and Engine/Change crates/engine/src/change.rs. Engine/Rows and Engine/Executor
--   are crates/engine/src/executor.rs: Expr evaluates expressions, Select, Insert, Update, Table
--   and Index are the statements, Slots the rows between them, Conflict the conflicts, and
--   Statement a whole statement in a transaction. Engine/Keeps says which calls leave a
--   transaction open, Engine/Transfer is crates/engine/src/state_transfer.rs, and Engine/Api the
--   calls of `Engine` in crates/engine/src/engine.rs. The timestamp provider and `Uuid::new_v7`
--   are the parameter `Clock`.
-- * crates/sync exchanges state between two peers. Sync/State is crates/sync/src/state.rs,
--   Sync/Protocol the messages, and Sync/Session the functions of crates/sync/src/session.rs:
--   Transfer sends, Receive applies, Plan decides what to send, Exchange swaps one message for
--   one, Run is `synchronize`. `Host` holds what a session calls: the engine with its codec,
--   postcard, sha2 and the texts of errors.
--
-- Prelude passes on the libraries' names and has Boolean tests and measured lists. Order has the
-- total orders, lexicographic order, and the byte encodings that keep it. BTreeMap is the
-- standard library's map as a list of entries in the order of keys. Int has signed integers.
--
-- State is passed explicitly. A stream is the list of its items, an asynchronous function runs to
-- its end, and a panic is `none`, or `panicked` where the engine executes statements. A statement
-- takes the store as it is when its transaction begins and as it is when it ends, since others
-- may commit in between. A number is a natural number; the casts of integers to 64 bits and the
-- revision of the kernel wrap as the release build does. Loops are structural: the receiving
-- loops of a session run over the frames that the transport will give, and end with the
-- transport's error where these end. Three loops have fuel: `decode_key` has the length of the
-- key, and every round takes a byte or more; `chunks` has the length of the list, and every chunk
-- takes an item where `n` is not 0, which `synchronize` refuses; `show_nat` has 20 digits, which
-- are enough for 64 bits. What Rust leaves open of `sort_unstable_by` and `binary_search_by`, the
-- order of equal keys and the search in a slice that is not in order, is open here too:
-- BTreeMap/Slices is a record of the two with what Rust promises, which `Host` holds.
--
-- Not modelled: the locks and handles around the maps, `update` and `remove_range` of the change
-- store; the translator of SQL, whose input is the syntax tree of another package; the codec of
-- engine-automerge and the redb stores, which mostly call other packages; the export of an engine
-- to units of state, the conversion of query results, and the bindings, macros, protocol buffers
-- and test code.
pub mod Prelude
pub mod Order
pub mod BTreeMap
pub mod Int
pub mod Value
pub mod BTree
pub mod Automerge
pub mod Schema
pub mod Query
pub mod Engine
pub mod Sync
