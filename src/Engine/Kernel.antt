-- ===== src/Engine/Kernel.antt =====
-- crates/engine/src/in_memory.rs: the in-memory kernel of crates/engine/src/kernel.rs. A store
-- keeps its tables and a revision; a transaction works on a copy and commits it if the revision
-- of the store is still the one it began at.
pub mod Session
pub mod Isolation
pub mod Serializable
pub mod Tables
use rs_converge.Prelude.{ℕ, Bool, Option, none, some, List, [], ◌+◌, ◌%◌, ◌^◌, ◌==◌, if◌then◌else◌}
use rs_converge.Order.Lex.{Bytes, bytes_ord}
use rs_converge.BTreeMap
use rs_converge.BTreeMap.{Map}
use rs_converge.Value.Json.{ascii}
use rs_converge.Engine.{EngineResult, ok, err, custom}

abbrev pub Table : Type 0
Table = Map Bytes Bytes

abbrev pub Tables : Type 0
Tables = Map Bytes Table

pub record State : Type 0 where
  pub revision : ℕ
  pub tables : Tables

-- `InMemoryKernelTransaction` without its handle on the shared state, which `commit` takes here.
pub record Transaction : Type 0 where
  pub revision : ℕ
  pub tables : Tables

-- `InMemoryKernel::new`
abbrev pub new : State
new = record { revision = 0; tables = [] }

-- `Kernel::transaction`
abbrev pub transaction : State → Transaction
transaction s = record { revision = s.revision; tables = s.tables }

abbrev pub table_not_found {ℓ} : {A : Type ℓ} → EngineResult A
table_not_found = err (custom (ascii "Table not found"))

-- `table` and `table_mut`
unfoldable pub table : Bytes → Transaction → EngineResult Table
table name t = elim (BTreeMap.get name t.tables) [ none ↦ table_not_found | some rows ↦ ok rows ]

-- What the reference of `table_mut` writes through.
abbrev pub set_table : Bytes → Table → Transaction → Transaction
set_table name rows t = record {
  revision = t.revision;
  tables = BTreeMap.insert name rows t.tables;
}

unfoldable pub ensure_table : Bytes → Transaction → EngineResult {0} Unit × Transaction
ensure_table name t = elim (BTreeMap.get name t.tables) [
  | none ↦ (ok tt, set_table name [] t)
  | some _ ↦ (ok tt, t)
]

unfoldable pub drop_table : Bytes → Transaction → EngineResult {0} Unit × Transaction
drop_table name t = elim (BTreeMap.get name t.tables) [
  | none ↦ (table_not_found, t)
  | some _ ↦ (ok tt, record { revision = t.revision; tables = BTreeMap.remove name t.tables })
]

unfoldable pub get_bytes : Bytes → Bytes → Transaction → EngineResult (Option Bytes)
unfolding table
get_bytes name key t = elim (table name t) [ ok rows ↦ ok (BTreeMap.get key rows) | err e ↦ err e ]

-- `scan`: the items of the stream, or its one error
unfoldable pub scan_bytes : Bytes → Transaction → EngineResult Table
unfolding table
scan_bytes name t = table name t

unfoldable pub put_bytes : Bytes → Bytes → Bytes → Transaction → EngineResult {0} Unit × Transaction
unfolding table
put_bytes name key value t = elim (table name t) [
  | ok rows ↦ (ok tt, set_table name (BTreeMap.insert key value rows) t)
  | err e ↦ (err e, t)
]

unfoldable pub remove_bytes :
    Bytes → Bytes → Transaction → EngineResult (Option Bytes) × Transaction
unfolding table
remove_bytes name key t = elim (table name t) [
  | ok rows ↦ (ok (BTreeMap.get key rows), set_table name (BTreeMap.remove key rows) t)
  | err e ↦ (err e, t)
]

-- `commit`; the addition wraps, as the release build has it.
unfoldable pub commit : State → Transaction → EngineResult {0} Unit × State
commit s t =
    if s.revision == t.revision
    then (ok tt, record { revision = (s.revision + 1) % 2 ^ 64; tables = t.tables })
    else (err (custom (ascii "Transaction conflict")), s)

-- `rollback`
abbrev pub rollback : State → Transaction → EngineResult {0} Unit × State
rollback s t = (ok tt, s)
