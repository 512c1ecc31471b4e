-- ===== src/Sync/Session/Receive.antt =====
-- crates/sync/src/session.rs: applying what the peer sends.
use rs_converge.Prelude.{
  ℕ, Bool, true, false, List, [], ◌∷◌, ◌++◌, map, length, ◌+◌, ◌||◌, if◌then◌else◌,
}
use rs_converge.Order.Lex.{Bytes, bytes_ord, list_ord}
use rs_converge.Engine.{EngineResult, EngineError, custom}
use rs_converge.Engine
use rs_converge.Value.Json.{ascii}
use rs_converge.Sync.State.{SyncStateUnit, verify_digest}
use rs_converge.Sync.Protocol.{SyncMessage, SyncIncrementalChange, SyncSnapshotRequest, abort}
use rs_converge.Sync.Protocol
use rs_converge.Sync.State.Manifest.{dedup_by_key}
use rs_converge.BTreeMap.Sort.{sort_by_key}
use rs_converge.Sync.Session.{
  Host, Session, SyncError, Result, ok, err, engine, transport, remote_abort, unexpected_message,
  and_then, set_db, set_inbox, send_message, decode_frame,
}

pub record Received : Type 0 where
  pub snapshots : ℕ
  pub changes : ℕ
  pub requests : List SyncSnapshotRequest
  pub pending : List SyncIncrementalChange

abbrev pub nothing : Received
nothing = record { snapshots = 0; changes = 0; requests = []; pending = [] }

abbrev pub is_empty : Bytes → Bool
is_empty [] = true
is_empty (_ ∷ _) = false

-- `validate_change_batch`
unfoldable pub validate_change_batch : List SyncIncrementalChange → EngineResult {0} Unit
validate_change_batch [] = Engine.ok tt
validate_change_batch (c ∷ cs) =
    let rest = validate_change_batch cs in
    if is_empty c.id || is_empty c.payload
    then Engine.err (custom (ascii "Invalid incremental change frame"))
    else rest

abbrev pub invalid_digest {ℓ} : {A : Type ℓ} → EngineResult A
invalid_digest = Engine.err (custom (ascii "Invalid sync state digest"))

abbrev pub count_snapshot : Received → Received
count_snapshot c = record {
  snapshots = c.snapshots + 1;
  changes = c.changes;
  requests = c.requests;
  pending = c.pending;
}

abbrev pub count_changes : ℕ → Received → Received
count_changes n c = record {
  snapshots = c.snapshots;
  changes = c.changes + n;
  requests = c.requests;
  pending = c.pending;
}

abbrev pub request : SyncIncrementalChange → SyncSnapshotRequest
request change = (change.table, change.row)

-- the loop over a batch that depends on changes that are not here
abbrev pub request_all : List SyncIncrementalChange → Received → Received
request_all batch c = record {
  snapshots = c.snapshots;
  changes = c.changes;
  requests = c.requests ++ map request batch;
  pending = c.pending ++ batch;
}

-- `sort_unstable` and `dedup` of requests; equal requests are the same.
abbrev pub as_list : SyncSnapshotRequest → List Bytes
as_list (t, r) = t ∷ r ∷ []

unfoldable pub tidy : List SyncSnapshotRequest → List SyncSnapshotRequest
tidy rs = map (λ e. e.1) (dedup_by_key (sort_by_key (map (λ r. (as_list r, r)) rs)))

abbrev pub finish : Received → Received
finish c = record {
  snapshots = c.snapshots;
  changes = c.changes;
  requests = tidy c.requests;
  pending = c.pending;
}

module _ {E : Type 0} (host : Host E) where
  -- `validate_state_batch`
  unfoldable pub validate_state_batch : List SyncStateUnit → EngineResult {0} Unit
  validate_state_batch [] = Engine.ok tt
  validate_state_batch (u ∷ us) =
      let rest = validate_state_batch us in
      if verify_digest host.sha256 u then rest else invalid_digest

  -- `apply_sync_state_for`
  unfoldable pub apply_sync_state :
      SyncStateUnit → host.Engine → EngineResult {0} Unit × host.Engine
  apply_sync_state unit s =
      if verify_digest host.sha256 unit then host.merge_unit unit s else (invalid_digest, s)

  -- `apply_incremental_changes_for`
  unfoldable pub apply_incremental_changes :
      List SyncIncrementalChange → host.Engine → EngineResult {0} Unit × host.Engine
  unfolding validate_change_batch
  apply_incremental_changes batch s = elim (validate_change_batch batch) [
    | Engine.ok _ ↦ host.apply_changes batch s
    | Engine.err e ↦ (Engine.err e, s)
  ]

  -- `abort`: the failure to send it is not reported.
  unfoldable pub abort_with : EngineError → Bytes → Session host Received
  unfolding send_message
  abort_with error context w =
      let reason = host.show_error error ++ (ascii " (" ++ (context ++ ascii ")")) in
      (err (engine error), (send_message host (abort reason) w).1)

  -- The loop over the units of a batch. `label` is what the reason of an abort says of a unit.
  unfoldable pub apply_units : Bytes → List SyncStateUnit → Received → Session host Received
  unfolding apply_sync_state abort_with
  apply_units label [] count w = (ok count, w)
  apply_units label (u ∷ us) count w = elim (apply_sync_state u w.db).0 [
    | Engine.ok _ ↦
        apply_units label us (count_snapshot count) (set_db host (apply_sync_state u w.db).1 w)
    | Engine.err e ↦
        abort_with e (label ++ host.debug_key u.key) (set_db host (apply_sync_state u w.db).1 w)
  ]

  unfoldable pub take_state : Bytes → List SyncStateUnit → Received → Session host Received
  unfolding validate_state_batch apply_units abort_with
  take_state label batch count w = elim (validate_state_batch batch) [
    | Engine.ok _ ↦ apply_units label batch count w
    | Engine.err e ↦ abort_with e (label ++ ascii "batch") w
  ]

  -- What follows `apply_incremental_changes_for` on a batch.
  unfoldable pub after_changes :
      List SyncIncrementalChange → Received → EngineResult {0} Unit → Session host Received
  unfolding abort_with
  after_changes batch count (Engine.ok _) w = (ok (count_changes (length batch) count), w)
  after_changes batch count (Engine.err Engine.sync_dependency_unavailable) w =
      (ok (request_all batch count), w)
  after_changes batch count (Engine.err e) w = abort_with e (ascii "incremental batch") w

  unfoldable pub take_changes : List SyncIncrementalChange → Received → Session host Received
  unfolding validate_change_batch apply_incremental_changes after_changes
  take_changes batch count w = elim (validate_change_batch batch) [
    | Engine.ok _ ↦
        after_changes batch count (apply_incremental_changes batch w.db).0
          (set_db host (apply_incremental_changes batch w.db).1 w)
    | Engine.err e ↦ abort_with e (ascii "incremental batch") w
  ]

  -- One round of the loop of `receive_outbound`, which goes on with `next`.
  unfoldable pub handle :
      (Received → Session host Received)
      → Received
      → Result (SyncError E) SyncMessage
      → Session host Received
  unfolding take_state take_changes
  handle next count (err e) w = (err e, w)
  handle next count (ok (Protocol.state batch)) w =
      and_then host (take_state (ascii "snapshot ") batch count w) next
  handle next count (ok (Protocol.changes batch)) w =
      and_then host (take_changes batch count w) next
  handle next count (ok Protocol.done) w = (ok (finish count), w)
  handle next count (ok (abort reason)) w = (err (remote_abort reason), w)
  handle next count (ok _) w = (err unexpected_message, w)

  -- `receive_outbound`, on the frames that are to come.
  unfoldable pub receive_from : List (Result E Bytes) → Received → Session host Received
  unfolding decode_frame handle
  receive_from [] count w = (err (transport host.closed), set_inbox host [] w)
  receive_from (f ∷ fs) count w =
      handle (receive_from fs) count (decode_frame host f) (set_inbox host fs w)

  unfoldable pub receive_outbound : Session host Received
  unfolding receive_from
  receive_outbound w = receive_from w.inbox nothing w

  -- One round of the loop of `receive_recovery`; `count` counts the snapshots.
  unfoldable pub handle_recovery :
      (Received → Session host ℕ) → Received → Result (SyncError E) SyncMessage → Session host ℕ
  unfolding take_state
  handle_recovery next count (err e) w = (err e, w)
  handle_recovery next count (ok (Protocol.state batch)) w =
      and_then host (take_state (ascii "recovery snapshot ") batch count w) next
  handle_recovery next count (ok Protocol.done) w = (ok count.snapshots, w)
  handle_recovery next count (ok (abort reason)) w = (err (remote_abort reason), w)
  handle_recovery next count (ok _) w = (err unexpected_message, w)

  -- `receive_recovery`, on the frames that are to come.
  unfoldable pub recover_from : List (Result E Bytes) → Received → Session host ℕ
  unfolding decode_frame handle_recovery
  recover_from [] count w = (err (transport host.closed), set_inbox host [] w)
  recover_from (f ∷ fs) count w =
      handle_recovery (recover_from fs) count (decode_frame host f) (set_inbox host fs w)

  unfoldable pub receive_recovery : Session host ℕ
  unfolding recover_from
  receive_recovery w = recover_from w.inbox nothing w
