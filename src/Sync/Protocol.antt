-- ===== src/Sync/Protocol.antt =====
-- crates/sync/src/protocol.rs: the messages.
use rs_converge.Prelude.{ℕ, List}
use rs_converge.Order.Lex.{Bytes}
use rs_converge.Sync.State.{SyncChangeId, SyncKey, SyncStateUnit, row}
use rs_converge.Sync.State.Manifest.{SyncManifest}

abbrev pub protocol_version : ℕ
protocol_version = 3

pub record SyncHello : Type 0 where
  pub version : ℕ
  pub manifest : SyncManifest

pub record SyncRowInventory : Type 0 where
  pub table : Bytes
  pub row : Bytes
  pub changes : List SyncChangeId

pub record SyncIncrementalChange : Type 0 where
  pub table : Bytes
  pub row : Bytes
  pub id : SyncChangeId
  pub payload : Bytes

-- `SyncSnapshotRequest`: the table and the row
abbrev pub SyncSnapshotRequest : Type 0
SyncSnapshotRequest = Bytes × Bytes

pub data SyncMessage : Type 0 where
  hello : SyncHello → SyncMessage
  manifest : SyncManifest → SyncMessage
  inventory : List SyncRowInventory → SyncMessage
  state : List SyncStateUnit → SyncMessage
  changes : List SyncIncrementalChange → SyncMessage
  request_snapshots : List SyncSnapshotRequest → SyncMessage
  abort : Bytes → SyncMessage
  done : SyncMessage

-- `SyncRowInventory::key`
abbrev pub inventory_key : SyncRowInventory → SyncKey
inventory_key i = row i.table i.row
