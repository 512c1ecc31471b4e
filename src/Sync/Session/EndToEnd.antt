-- ===== src/Sync/Session/EndToEnd.antt =====
-- One direction of a session from end to end: what one peer sends, the other applies.
use rs_converge.Prelude.{
  ℕ, ◌≡◌, refl, sym, ap, true, List, [], ◌∷◌, ◌++◌, ◌<◌, map, length, All, append_assoc, append-nil,
  Option,
}
use rs_converge.Order.Lex.{Bytes}
use rs_converge.Engine
use rs_converge.Sync.State.{verify_digest}
use rs_converge.Sync.Protocol.{SyncMessage}
use rs_converge.Sync.Session.{Host, World, Result, ok, set_db, set_inbox, send_message, push}
use rs_converge.Sync.Session.Transfer.{Outbound, chunks, outbound_messages, send_all, send_outbound}
use rs_converge.Sync.Session.Receive.{validate_change_batch, receive_outbound}
use rs_converge.Sync.Session.Delivery.{
  received, Merges, Applies, merge_all, apply_all, receive_outbound-frames,
}

module _ {E : Type 0} (host : Host E) (frame : SyncMessage → Bytes) where
  abbrev Writes : SyncMessage → Type 0
  Writes m = host.to_frame m ≡ ok (frame m)

  -- The world with frames sent, by a transport that does not fail.
  abbrev sent : World host → List Bytes → World host
  sent w fs = record { db = w.db; inbox = w.inbox; outcomes = []; outbox = w.outbox ++ fs }

  push-sent :
      (f : Bytes) (w : World host) (os : List (Option E))
      → os ≡ []
      → push host f w os ≡ (ok tt, sent w (f ∷ []))
  push-sent f w os h = rw h refl

  send_message-sent :
      (m : SyncMessage) (w : World host)
      → w.outcomes ≡ []
      → Writes m
      → send_message host m w ≡ (ok tt, sent w (frame m ∷ []))
  unfolding send_message
  send_message-sent m w h r = rw (send_message, r) (push-sent (frame m) w w.outcomes h)

  send_all-sent :
      (ms : List SyncMessage) (w : World host)
      → w.outcomes ≡ []
      → All Writes ms
      → send_all host ms w ≡ (ok tt, sent w (map frame ms))
  unfolding send_all
  send_all-sent [] w h r =
      let e : w.outbox ≡ w.outbox ++ [] = sym (append-nil w.outbox) in
      λ i. (ok tt, record { db = w.db; inbox = w.inbox; outcomes = h i; outbox = e i })
  send_all-sent (m ∷ ms) w h (r, rs) =
      rw
        (
          send_all,
          send_message-sent m w h r,
          send_all-sent ms (sent w (frame m ∷ [])) refl rs,
          append_assoc w.outbox,
        )
        refl

  send_outbound-sent :
      (o : Outbound) (n : ℕ) (w : World host)
      → w.outcomes ≡ []
      → All Writes (outbound_messages n o)
      → send_outbound host o n w ≡ (
        ok (record { snapshots = length o.snapshots; changes = length o.changes }),
        sent w (map frame (outbound_messages n o)),
      )
  unfolding send_outbound
  send_outbound-sent o n w h r =
      rw (send_outbound, send_all-sent (outbound_messages n o) w h r) refl

map-map :
    {A : Type 0} (f : Bytes → A) (frame : SyncMessage → Bytes) (ms : List SyncMessage)
    → map f (map frame ms) ≡ map (λ m. f (frame m)) ms
map-map f frame [] = refl
map-map f frame (m ∷ ms) = ap (λ fs. f (frame m) ∷ fs) (map-map f frame ms)

-- Over a transport that does not fail, between peers that read the frames they write, when the
-- units have the digests they should and the changes an id and a payload, and when the engine
-- that receives takes each sent unit, and then each sent batch, in the state that the ones before
-- have left: `send_outbound` reports all that it was given, and `receive_outbound` on its frames
-- merges every unit in order, applies every batch of changes, counts both in full and asks for no
-- snapshot.
pub receive_outbound-send_outbound :
    {E : Type 0} (here there : Host E) (frame : SyncMessage → Bytes) (o : Outbound) (n : ℕ)
    (v : World here) (w : World there)
    → 0 < n
    → v.outcomes ≡ []
    → v.outbox ≡ []
    → All (λ m. here.to_frame m ≡ ok (frame m)) (outbound_messages n o)
    → All (λ m. there.from_frame (frame m) ≡ ok m) (outbound_messages n o)
    → Merges there o.snapshots w.db
    → Applies there (chunks n o.changes) (merge_all there o.snapshots w.db)
    → All (λ u. verify_digest there.sha256 u ≡ true) o.snapshots
    → validate_change_batch o.changes ≡ Engine.ok tt
    → let (reply, v1) = send_outbound here o n v in
      (reply ≡ ok (record { snapshots = length o.snapshots; changes = length o.changes }))
      × (receive_outbound there (set_inbox there (map (λ f. ok f) v1.outbox) w) ≡ (
        ok (received (length o.snapshots) (length o.changes)),
        set_inbox there [] (
            set_db there
              (apply_all there (chunks n o.changes) (merge_all there o.snapshots w.db))
              w),
      ))
receive_outbound-send_outbound {E = E} here there frame o n v w z h b writes reads merges applies g
      k =
    rw
      (
        send_outbound-sent here frame o n v h writes,
        b,
        map-map {A = Result E Bytes} (λ f. ok f) frame (outbound_messages n o),
      )
      (refl, receive_outbound-frames there frame o n w z merges applies g k reads)
