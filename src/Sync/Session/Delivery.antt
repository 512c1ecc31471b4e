-- ===== src/Sync/Session/Delivery.antt =====
-- A transfer between peers that succeed: what `send_outbound` sends, `receive_outbound` applies.
use rs_converge.Prelude.{
  ℕ, suc, ◌≡◌, refl, ◌∙◌, true, List, [], ◌∷◌, ◌++◌, ◌+◌, ◌<◌, map, arith, length, length-append,
  All, All-split,
}
use rs_converge.Order.Lex.{Bytes}
use rs_converge.Engine
use rs_converge.Value.Json.{ascii}
use rs_converge.Sync.State.{SyncStateUnit, verify_digest}
use rs_converge.Sync.Protocol.{SyncMessage, SyncIncrementalChange}
use rs_converge.Sync.Protocol
use rs_converge.Sync.Session.{Host, World, Result, ok, set_db, set_inbox, decode_frame}
use rs_converge.Sync.Session.Transfer.{Outbound, chunks, outbound_messages}
use rs_converge.Sync.Session.Chunks.{concat, concat-chunks}
use rs_converge.Sync.State.Manifest.{dedup_by_key}
use rs_converge.BTreeMap.Sort.{sort_by_key}
use rs_converge.Sync.Session.Receive.{
  Received, nothing, tidy, validate_change_batch, apply_sync_state, apply_incremental_changes,
  apply_units, take_state, take_changes, after_changes, receive_from, handle, receive_outbound,
  validate_state_batch,
}

validate-split :
    (cs ds : List SyncIncrementalChange)
    → validate_change_batch (cs ++ ds) ≡ Engine.ok tt
    → (validate_change_batch cs ≡ Engine.ok tt) × (validate_change_batch ds ≡ Engine.ok tt)
unfolding validate_change_batch
validate-split [] ds h = (refl, h)
validate-split (c ∷ cs) ds h = ground (arith, validate-split cs ds)

abbrev pub received : ℕ → ℕ → Received
received m n = record { snapshots = m; changes = n; requests = []; pending = [] }

module _ {E : Type 0} (host : Host E) where
  -- The engine after the units, one by one, and after the batches of changes.
  abbrev pub merge_all : List SyncStateUnit → host.Engine → host.Engine
  merge_all [] s = s
  merge_all (u ∷ us) s = merge_all us (host.merge_unit u s).1

  abbrev pub apply_all : List (List SyncIncrementalChange) → host.Engine → host.Engine
  apply_all [] s = s
  apply_all (cs ∷ css) s = apply_all css (host.apply_changes cs s).1

  -- The engine takes the units one after the other, and so the batches of changes.
  abbrev pub Merges : List SyncStateUnit → host.Engine → Type 0
  Merges [] s = Unit
  Merges (u ∷ us) s = ((host.merge_unit u s).0 ≡ Engine.ok tt) × Merges us (host.merge_unit u s).1

  abbrev pub Applies : List (List SyncIncrementalChange) → host.Engine → Type 0
  Applies [] s = Unit
  Applies (cs ∷ css) s =
      ((host.apply_changes cs s).0 ≡ Engine.ok tt) × Applies css (host.apply_changes cs s).1

  Merges-split :
      (us vs : List SyncStateUnit) (s : host.Engine)
      → Merges (us ++ vs) s
      → Merges us s × Merges vs (merge_all us s)
  Merges-split [] vs s h = (tt, h)
  Merges-split (u ∷ us) vs s (h, hs) =
      let (a, b) = Merges-split us vs (host.merge_unit u s).1 hs in ((h, a), b)

  merge_all-append :
      (us vs : List SyncStateUnit) (s : host.Engine)
      → merge_all (us ++ vs) s ≡ merge_all vs (merge_all us s)
  merge_all-append [] vs s = refl
  merge_all-append (u ∷ us) vs s = merge_all-append us vs (host.merge_unit u s).1

  -- What stands in the inbox is overwritten at once.
  receive_from-set_inbox :
      (fs gs : List (Result E Bytes)) (count : Received) (w : World host)
      → receive_from host fs count (set_inbox host gs w) ≡ receive_from host fs count w
  unfolding receive_from
  receive_from-set_inbox [] gs count w = refl
  receive_from-set_inbox (f ∷ fs) gs count w = refl

  abbrev Good : SyncStateUnit → Type 0
  Good u = verify_digest host.sha256 u ≡ true

  validate_state_batch-Good :
      (us : List SyncStateUnit) → All Good us → validate_state_batch host us ≡ Engine.ok tt
  unfolding validate_state_batch
  validate_state_batch-Good [] g = refl
  validate_state_batch-Good (u ∷ us) (g, gs) =
      rw (validate_state_batch, g) (validate_state_batch-Good us gs)

  apply_sync_state-Good :
      (u : SyncStateUnit) (s : host.Engine)
      → Good u
      → apply_sync_state host u s ≡ host.merge_unit u s
  unfolding apply_sync_state
  apply_sync_state-Good u s g = rw (apply_sync_state, g) refl

  apply_units-All :
      (label : Bytes) (us : List SyncStateUnit) (m n : ℕ) (w : World host)
      → Merges us w.db
      → All Good us
      → apply_units host label us (received m n) w
        ≡ (ok (received (m + length us) n), set_db host (merge_all us w.db) w)
  unfolding apply_units
  apply_units-All label [] m n w h g = let e : m + 0 ≡ m = omega arith in rw e refl
  apply_units-All label (u ∷ us) m n w (h, hs) (g, gs) =
      let e : m + suc (length us) ≡ m + 1 + length us = omega arith in
      rw (apply_units, apply_sync_state-Good u w.db g, h, apply_sync_state-Good u w.db g, e)
        (apply_units-All label us (m + 1) n (set_db host (host.merge_unit u w.db).1 w) hs gs)

  take_state-All :
      (label : Bytes) (us : List SyncStateUnit) (m n : ℕ) (w : World host)
      → Merges us w.db
      → All Good us
      → take_state host label us (received m n) w
        ≡ (ok (received (m + length us) n), set_db host (merge_all us w.db) w)
  unfolding take_state
  take_state-All label us m n w h g =
      rw (take_state, validate_state_batch-Good us g) (apply_units-All label us m n w h g)

  take_changes-All :
      (cs : List SyncIncrementalChange) (m n : ℕ) (w : World host)
      → (host.apply_changes cs w.db).0 ≡ Engine.ok tt
      → validate_change_batch cs ≡ Engine.ok tt
      → take_changes host cs (received m n) w
        ≡ (ok (received m (n + length cs)), set_db host (host.apply_changes cs w.db).1 w)
  unfolding take_changes apply_incremental_changes after_changes
  take_changes-All cs m n w h g =
      let e : apply_incremental_changes host cs w.db ≡ host.apply_changes cs w.db =
        rw (apply_incremental_changes, g) refl in
      rw (take_changes, g, e, h) refl

  module _ (frame : SyncMessage → Bytes) where
    abbrev Reads : SyncMessage → Type 0
    Reads m = host.from_frame (frame m) ≡ ok m

    abbrev frames : List SyncMessage → List (Result E Bytes)
    frames ms = map (λ m. ok (frame m)) ms

    decode-frame : (m : SyncMessage) → Reads m → decode_frame host (ok (frame m)) ≡ ok m
    unfolding decode_frame
    decode-frame m r = rw (decode_frame, r) refl

    receive_states :
        (css : List (List SyncStateUnit)) (ms : List SyncMessage) (m n : ℕ) (w : World host)
        → Merges (concat css) w.db
        → All Good (concat css)
        → All Reads (map Protocol.state css)
        → receive_from host (frames (map Protocol.state css ++ ms)) (received m n) w
          ≡ receive_from host
              (frames ms)
              (received (m + length (concat css)) n)
              (set_db host (merge_all (concat css) w.db) w)
    unfolding receive_from concat decode_frame handle
    receive_states [] ms m n w h g r = let e : m + 0 ≡ m = omega arith in rw e refl
    receive_states (us ∷ css) ms m n w h g (r, rs) =
        let (g0, gs) = All-split Good us (concat css) g in
        let (h0, hs) = Merges-split us (concat css) w.db h in
        let fs = frames (map Protocol.state css ++ ms) in
        let e : m + length (us ++ concat css) ≡ m + length us + length (concat css) =
          omega (arith, length-append us (concat css)) in
        rw
          (
            decode-frame (Protocol.state us) r,
            handle,
            take_state-All (ascii "snapshot ") us m n (set_inbox host fs w) h0 g0,
            receive_from-set_inbox fs fs (received (m + length us) n)
                (set_db host (merge_all us w.db) w),
            receive_states css ms (m + length us) n (set_db host (merge_all us w.db) w) hs gs rs,
            e,
            merge_all-append us (concat css) w.db,
          )
          refl

    receive_changes :
        (css : List (List SyncIncrementalChange)) (ms : List SyncMessage) (m n : ℕ) (w : World host)
        → Applies css w.db
        → validate_change_batch (concat css) ≡ Engine.ok tt
        → All Reads (map Protocol.changes css)
        → receive_from host (frames (map Protocol.changes css ++ ms)) (received m n) w
          ≡ receive_from host
              (frames ms)
              (received m (n + length (concat css)))
              (set_db host (apply_all css w.db) w)
    unfolding receive_from concat decode_frame handle
    receive_changes [] ms m n w h g r = let e : n + 0 ≡ n = omega arith in rw e refl
    receive_changes (cs ∷ css) ms m n w (h, hs) g (r, rs) =
        let (g0, gs) = validate-split cs (concat css) g in
        let fs = frames (map Protocol.changes css ++ ms) in
        let s = (host.apply_changes cs w.db).1 in
        let e : n + length (cs ++ concat css) ≡ n + length cs + length (concat css) =
          omega (arith, length-append cs (concat css)) in
        rw
          (
            decode-frame (Protocol.changes cs) r,
            handle,
            take_changes-All cs m n (set_inbox host fs w) h g0,
            receive_from-set_inbox fs fs (received m (n + length cs)) (set_db host s w),
            receive_changes css ms m (n + length cs) (set_db host s w) hs gs rs,
            e,
          )
          refl

    receive_done :
        (m n : ℕ) (w : World host)
        → Reads Protocol.done
        → receive_from host (frames (Protocol.done ∷ [])) (received m n) w
          ≡ (ok (received m n), set_inbox host [] w)
    unfolding receive_from handle tidy sort_by_key dedup_by_key
    receive_done m n w r = rw (decode-frame Protocol.done r, handle) refl

    -- The frames of a transfer are applied in full.
    pub receive_outbound-frames :
        (o : Outbound) (n : ℕ) (w : World host)
        → 0 < n
        → Merges o.snapshots w.db
        → Applies (chunks n o.changes) (merge_all o.snapshots w.db)
        → All Good o.snapshots
        → validate_change_batch o.changes ≡ Engine.ok tt
        → All Reads (outbound_messages n o)
        → receive_outbound host (set_inbox host (frames (outbound_messages n o)) w) ≡ (
          ok (received (length o.snapshots) (length o.changes)),
          set_inbox host []
              (set_db host (apply_all (chunks n o.changes) (merge_all o.snapshots w.db)) w),
        )
    unfolding receive_outbound
    receive_outbound-frames o n w z h k g v r =
        let us = chunks n o.snapshots in
        let cs = chunks n o.changes in
        let tail = map Protocol.changes cs ++ (Protocol.done ∷ []) in
        let eu = (concat-chunks n o.snapshots z).0 in
        let ec = (concat-chunks n o.changes z).0 in
        let (ru, rest) = All-split Reads (map Protocol.state us) tail r in
        let (rc, (rd, _)) = All-split Reads (map Protocol.changes cs) (Protocol.done ∷ []) rest in
        let fs = frames (outbound_messages n o) in
        let w1 = set_db host (merge_all (concat us) w.db) w in
        let w2 = set_db host (apply_all cs (merge_all (concat us) w.db)) w in
        let first = receive_states us tail 0 0 w (rw eu h) (rw eu g) ru in
        let second =
          receive_changes cs (Protocol.done ∷ []) (0 + length (concat us)) 0 w1 (rw eu k) (rw ec v)
            rc in
        let third = receive_done (0 + length (concat us)) (0 + length (concat cs)) w2 rd in
        let counts : (0 + length (concat us) ≡ length o.snapshots)
            × (0 + length (concat cs) ≡ length o.changes) =
          (rw eu (omega arith), rw ec (omega arith)) in
        let all = receive_from-set_inbox fs fs nothing w ∙ first ∙ second ∙ third in
        rw (counts.0, counts.1, eu) at all
