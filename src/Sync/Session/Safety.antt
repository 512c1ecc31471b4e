-- ===== src/Sync/Session/Safety.antt =====
-- What a peer can do to the engine, whatever it sends.
use rs_converge.Prelude.{ℕ, ◌≡◌, true, List, [], ◌∷◌, ◌++◌, arith, Bool-cases, inl, inr}
use rs_converge.Order.Lex.{Bytes}
use rs_converge.Engine.{EngineResult, EngineError, engine_cases}
use rs_converge.Engine
use rs_converge.Value.Json.{ascii}
use rs_converge.Sync.State.{SyncStateUnit, verify_digest}
use rs_converge.Sync.Protocol.{SyncMessage, SyncIncrementalChange}
use rs_converge.Sync.Protocol
use rs_converge.Sync.Session.{
  Host, World, Session, SyncError, Result, ok, err, and_then, set_db, set_inbox, send_message,
  decode_frame,
}
use rs_converge.Sync.Session.Receive.{
  Received, validate_change_batch, apply_sync_state, apply_incremental_changes, abort_with,
  apply_units, take_state, take_changes, after_changes, receive_from, receive_outbound,
  validate_state_batch, count_snapshot, handle, nothing, handle_recovery, recover_from,
  receive_recovery,
}

module _ {E : Type 0} (host : Host E) where
  send_message-db : (m : SyncMessage) (w : World host) → (send_message host m w).1.db ≡ w.db
  unfolding send_message
  send_message-db m w = ground arith

  abort_with-db :
      (e : EngineError) (context : Bytes) (w : World host)
      → (abort_with host e context w).1.db ≡ w.db
  unfolding abort_with
  abort_with-db e context w = send_message-db _ w

module _ {E : Type 0} (host : Host E) (P : host.Engine → Type 0)
    (merges : (u : SyncStateUnit) (s : host.Engine)
      → verify_digest host.sha256 u ≡ true
      → P s
      → P (host.merge_unit u s).1)
    (applies : (cs : List SyncIncrementalChange) (s : host.Engine)
      → validate_change_batch cs ≡ Engine.ok tt
      → P s
      → P (host.apply_changes cs s).1) where
  apply_sync_state-keeps :
      (u : SyncStateUnit) (s : host.Engine) → P s → P (apply_sync_state host u s).1
  unfolding apply_sync_state
  apply_sync_state-keeps u s p = elim (Bool-cases (verify_digest host.sha256 u)) [
    | inl q ↦ rw (apply_sync_state, q) (merges u s q p)
    | inr q ↦ rw (apply_sync_state, q) p
  ]

  apply_incremental_changes-keeps :
      (cs : List SyncIncrementalChange) (s : host.Engine)
      → P s
      → P (apply_incremental_changes host cs s).1
  unfolding apply_incremental_changes
  apply_incremental_changes-keeps cs s p = elim (engine_cases (validate_change_batch cs)) [
    | inl (tt, q) ↦ rw (apply_incremental_changes, q) (applies cs s q p)
    | inr (e, q) ↦ rw (apply_incremental_changes, q) p
  ]

  abort_with-keeps :
      (e : EngineError) (context : Bytes) (w : World host)
      → P w.db
      → P (abort_with host e context w).1.db
  abort_with-keeps e context w p = rw (abort_with-db host e context w) p

  apply_units-keeps :
      (label : Bytes) (us : List SyncStateUnit) (count : Received) (w : World host)
      → P w.db
      → P (apply_units host label us count w).1.db
  unfolding apply_units
  apply_units-keeps label [] count w p = p
  apply_units-keeps label (u ∷ us) count w p =
      let s = (apply_sync_state host u w.db).1 in
      let kept : P s = apply_sync_state-keeps u w.db p in
      elim (engine_cases (apply_sync_state host u w.db).0) [
        | inl (_, q) ↦
            rw (apply_units, q)
              (apply_units-keeps label us (count_snapshot count) (set_db host s w) kept)
        | inr (e, q) ↦
            rw (apply_units, q)
              (abort_with-keeps e (label ++ host.debug_key u.key) (set_db host s w) kept)
      ]

  take_state-keeps :
      (label : Bytes) (us : List SyncStateUnit) (count : Received) (w : World host)
      → P w.db
      → P (take_state host label us count w).1.db
  unfolding take_state
  take_state-keeps label us count w p = elim (engine_cases (validate_state_batch host us)) [
    | inl (_, q) ↦ rw (take_state, q) (apply_units-keeps label us count w p)
    | inr (e, q) ↦ rw (take_state, q) (abort_with-keeps e (label ++ ascii "batch") w p)
  ]

  after_changes-keeps :
      (cs : List SyncIncrementalChange) (count : Received) (r : EngineResult {0} Unit)
      (w : World host)
      → P w.db
      → P (after_changes host cs count r w).1.db
  unfolding after_changes
  after_changes-keeps cs count (Engine.ok _) w p = p
  after_changes-keeps cs count (Engine.err Engine.sync_dependency_unavailable) w p = p
  after_changes-keeps cs count (Engine.err e) w p =
      abort_with-keeps e (ascii "incremental batch") w p

  take_changes-keeps :
      (cs : List SyncIncrementalChange) (count : Received) (w : World host)
      → P w.db
      → P (take_changes host cs count w).1.db
  unfolding take_changes
  take_changes-keeps cs count w p =
      let (r, s) = apply_incremental_changes host cs w.db in
      elim (engine_cases (validate_change_batch cs)) [
        | inl (_, q) ↦
            rw (take_changes, q)
              (after_changes-keeps cs count r (set_db host s w)
                (apply_incremental_changes-keeps cs w.db p))
        | inr (e, q) ↦ rw (take_changes, q) (abort_with-keeps e (ascii "incremental batch") w p)
      ]

  and_then-keeps :
      {A B : Type 0} (r : Result (SyncError E) A × World host) (f : A → Session host B)
      → P r.1.db
      → ((a : A) (w : World host) → P w.db → P (f a w).1.db)
      → P (and_then host r f).1.db
  and_then-keeps (ok a, w) f p g = g a w p
  and_then-keeps (err e, w) f p g = p

  handle-keeps :
      (next : Received → Session host Received) (count : Received)
      (m : Result (SyncError E) SyncMessage) (w : World host)
      → ((c : Received) (v : World host) → P v.db → P (next c v).1.db)
      → P w.db
      → P (handle host next count m w).1.db
  unfolding handle
  handle-keeps next count (err e) w g p = p
  handle-keeps next count (ok (Protocol.state batch)) w g p =
      let r = take_state host (ascii "snapshot ") batch count w in
      and_then-keeps r next (take_state-keeps (ascii "snapshot ") batch count w p) g
  handle-keeps next count (ok (Protocol.changes batch)) w g p =
      and_then-keeps (take_changes host batch count w) next (take_changes-keeps batch count w p) g
  handle-keeps next count (ok Protocol.done) w g p = p
  handle-keeps next count (ok (Protocol.abort reason)) w g p = p
  handle-keeps next count (ok _) w g p = p

  receive_from-keeps :
      (fs : List (Result E Bytes)) (count : Received) (w : World host)
      → P w.db
      → P (receive_from host fs count w).1.db
  unfolding receive_from
  receive_from-keeps [] count w p = p
  receive_from-keeps (f ∷ fs) count w p =
      handle-keeps (receive_from host fs) count (decode_frame host f) (set_inbox host fs w)
        (receive_from-keeps fs) p

  -- A property of the engine that merging a unit with the right digest keeps, and applying a
  -- batch of changes with ids and payloads, holds after `receive_outbound`, whatever the peer
  -- sends and whether the transfer succeeds or not.
  pub receive_outbound-keeps : (w : World host) → P w.db → P (receive_outbound host w).1.db
  unfolding receive_outbound
  receive_outbound-keeps w p = receive_from-keeps w.inbox nothing w p

  handle_recovery-keeps :
      (next : Received → Session host ℕ) (count : Received) (m : Result (SyncError E) SyncMessage)
      (w : World host)
      → ((c : Received) (v : World host) → P v.db → P (next c v).1.db)
      → P w.db
      → P (handle_recovery host next count m w).1.db
  unfolding handle_recovery
  handle_recovery-keeps next count (err e) w g p = p
  handle_recovery-keeps next count (ok (Protocol.state batch)) w g p =
      let r = take_state host (ascii "recovery snapshot ") batch count w in
      and_then-keeps r next (take_state-keeps (ascii "recovery snapshot ") batch count w p) g
  handle_recovery-keeps next count (ok Protocol.done) w g p = p
  handle_recovery-keeps next count (ok (Protocol.abort reason)) w g p = p
  handle_recovery-keeps next count (ok _) w g p = p

  recover_from-keeps :
      (fs : List (Result E Bytes)) (count : Received) (w : World host)
      → P w.db
      → P (recover_from host fs count w).1.db
  unfolding recover_from
  recover_from-keeps [] count w p = p
  recover_from-keeps (f ∷ fs) count w p =
      handle_recovery-keeps (recover_from host fs) count (decode_frame host f) (set_inbox host fs w)
        (recover_from-keeps fs) p

  -- The same holds of `receive_recovery`.
  pub receive_recovery-keeps : (w : World host) → P w.db → P (receive_recovery host w).1.db
  unfolding receive_recovery
  receive_recovery-keeps w p = recover_from-keeps w.inbox nothing w p
