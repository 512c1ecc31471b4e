-- ===== src/Sync/Session/Exchange.antt =====
-- crates/sync/src/session.rs: the exchanges of one message for one.
use rs_converge.Prelude.{List, ◌==◌, if◌then◌else◌}
use rs_converge.Engine.{EngineResult}
use rs_converge.Engine
use rs_converge.Sync.State.Manifest.{SyncManifest}
use rs_converge.Sync.Protocol.{
  SyncMessage, SyncRowInventory, SyncSnapshotRequest, hello, manifest, inventory, request_snapshots,
  protocol_version,
}
use rs_converge.Sync.Session.{
  Host, Session, SyncError, SyncRole, Result, ok, err, engine, incompatible_protocol,
  unexpected_message, initiator, responder, and_then, send_message, receive_message,
}
use rs_converge.Sync.Session.Plan.{sync_manifest}

module _ {E : Type 0} where
  -- `validate_hello`
  abbrev pub validate_hello : SyncMessage → Result (SyncError E) (Unit {0})
  validate_hello (hello h) =
      if h.version == protocol_version then ok tt else err (incompatible_protocol h.version)
  validate_hello _ = err unexpected_message

  abbrev pub as_manifest : SyncMessage → Result (SyncError E) SyncManifest
  as_manifest (manifest m) = ok m
  as_manifest _ = err unexpected_message

  abbrev pub as_inventory : SyncMessage → Result (SyncError E) (List SyncRowInventory)
  as_inventory (inventory is) = ok is
  as_inventory _ = err unexpected_message

  abbrev pub as_requests : SyncMessage → Result (SyncError E) (List SyncSnapshotRequest)
  as_requests (request_snapshots rs) = ok rs
  as_requests _ = err unexpected_message

module _ {E : Type 0} (host : Host E) where
  -- An error of the engine ends the session.
  abbrev pub lift : {A : Type 0} → EngineResult A → Session host A
  lift (Engine.ok a) w = (ok a, w)
  lift (Engine.err e) w = (err (engine e), w)

  unfoldable pub receive : {A : Type 0} → (SyncMessage → Result (SyncError E) A) → Session host A
  unfolding receive_message
  receive check w = and_then host (receive_message host w) (λ m v. (check m, v))

  -- The initiator sends first, and the responder answers once it has what it expects.
  unfoldable pub exchange :
      {A : Type 0}
      → SyncRole
      → SyncMessage
      → (SyncMessage → Result (SyncError E) A)
      → Session host A
  unfolding send_message receive
  exchange initiator m check w = and_then host (send_message host m w) (λ _ v. receive check v)
  exchange responder m check w =
      and_then host (receive check w)
        (λ a v. and_then host (send_message host m v) (λ _ u. (ok a, u)))

  unfoldable pub exchange_hello : SyncRole → Session host (Unit {0})
  unfolding exchange sync_manifest
  exchange_hello role w = and_then host (lift (sync_manifest host w.db) w) (λ m v.
      exchange role (hello (record { version = protocol_version; manifest = m })) validate_hello v)

  unfoldable pub exchange_manifest : SyncRole → Session host SyncManifest
  unfolding exchange sync_manifest
  exchange_manifest role w =
      and_then host (lift (sync_manifest host w.db) w)
        (λ m v. exchange role (manifest m) as_manifest v)

  unfoldable pub exchange_inventories :
      SyncRole → List SyncRowInventory → Session host (List SyncRowInventory)
  unfolding exchange
  exchange_inventories role local w = exchange role (inventory local) as_inventory w

  unfoldable pub exchange_snapshot_requests :
      SyncRole → List SyncSnapshotRequest → Session host (List SyncSnapshotRequest)
  unfolding exchange
  exchange_snapshot_requests role local w = exchange role (request_snapshots local) as_requests w
