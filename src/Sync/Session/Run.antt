-- ===== src/Sync/Session/Run.antt =====
-- crates/sync/src/session.rs: `synchronize`, the whole session.
use rs_converge.Prelude.{ℕ, [], ◌+◌, ◌==◌, if◌then◌else◌}
use rs_converge.Sync.Session.{
  Host, Session, SyncRole, ok, err, invalid_configuration, initiator, responder, and_then,
}
use rs_converge.Sync.Session.Transfer.{Outbound, TransferCount, send_outbound, send_snapshots}
use rs_converge.Sync.Session.Receive.{Received, receive_outbound, receive_recovery}
use rs_converge.Sync.Session.Plan.{
  inventories_for, collect_inventories, build_outbound, recovery_snapshots,
}
use rs_converge.Sync.Session.Exchange.{
  lift, exchange_hello, exchange_manifest, exchange_inventories, exchange_snapshot_requests,
}

pub record SyncResult : Type 0 where
  pub received_units : ℕ
  pub sent_units : ℕ
  pub received_changes : ℕ
  pub sent_changes : ℕ
  pub received_snapshots : ℕ
  pub sent_snapshots : ℕ

-- The first count is of what was sent, the second of what came.
abbrev pub result_of : TransferCount → Received → ℕ → ℕ → SyncResult
result_of sent received sent_recovery received_recovery = record {
  received_units = received.snapshots + received_recovery;
  sent_units = sent.snapshots + sent_recovery;
  received_changes = received.changes + 0;
  sent_changes = sent.changes;
  received_snapshots = received.snapshots + received_recovery;
  sent_snapshots = sent.snapshots + sent_recovery;
}

module _ {E : Type 0} (host : Host E) where
  -- The initiator sends before it receives, and the responder after.
  abbrev pub in_turn :
      {A B : Type 0} → SyncRole → Session host A → Session host B → Session host (A × B)
  in_turn initiator send receive w =
      and_then host (send w) (λ a v. and_then host (receive v) (λ b u. (ok (a, b), u)))
  in_turn responder send receive w =
      and_then host (receive w) (λ b v. and_then host (send v) (λ a u. (ok (a, b), u)))

  -- the part after the plan of what to send
  unfoldable pub transfer : SyncRole → ℕ → Outbound → Session host SyncResult
  unfolding send_outbound receive_outbound exchange_snapshot_requests recovery_snapshots
      send_snapshots receive_recovery
  transfer role n outbound w =
      and_then host (in_turn role (send_outbound host outbound n) (receive_outbound host) w)
        (λ first w1.
          and_then host (exchange_snapshot_requests host role first.1.requests w1) (λ requests w2.
            and_then host (lift host (recovery_snapshots host requests w2.db) w2) (λ recovery w3.
              and_then host
                (in_turn role (send_snapshots host recovery n) (receive_recovery host) w3)
                (λ second w4. (ok (result_of first.0 first.1 second.0 second.1), w4)))))

  -- `synchronize`, with `max_units_per_frame` of its configuration
  unfoldable pub synchronize : ℕ → SyncRole → Session host SyncResult
  unfolding exchange_hello exchange_manifest inventories_for exchange_inventories
      collect_inventories build_outbound transfer
  synchronize n role w =
      if n == 0
      then (err invalid_configuration, w)
      else and_then host (exchange_hello host role w) (λ _ w1.
        and_then host (exchange_manifest host role w1) (λ manifest w2.
          and_then host (lift host (host.export_sync_state w2.db) w2) (λ units w3.
            and_then host (lift host (inventories_for host units w3.db) w3) (λ local w4.
              and_then host (exchange_inventories host role local w4) (λ remote w5.
                and_then host
                  (lift host
                    (build_outbound host units manifest (collect_inventories remote []) w5.db) w5)
                  (λ outbound w6. transfer role n outbound w6))))))
