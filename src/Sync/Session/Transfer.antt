-- ===== src/Sync/Session/Transfer.antt =====
-- crates/sync/src/session.rs: sending in frames of a bounded number of units.
use rs_converge.Prelude.{ℕ, zero, suc, List, [], ◌∷◌, ◌++◌, map, length, take, drop}
use rs_converge.Sync.State.{SyncStateUnit}
use rs_converge.Sync.Protocol.{SyncMessage, SyncIncrementalChange, state, changes, done}
use rs_converge.Sync.Session.{Host, Session, ok, and_then, send_message}

-- the rounds of `chunks`, one to a unit of fuel
unfoldable pub chunk {ℓ} : {A : Type ℓ} → ℕ → ℕ → List A → List (List A)
chunk zero n xs = []
chunk (suc fuel) n [] = []
chunk (suc fuel) n (x ∷ xs) = take n (x ∷ xs) ∷ chunk fuel n (drop n (x ∷ xs))

-- `chunks(n)` of a slice, which panics at 0; each chunk takes an item or more.
unfoldable pub chunks {ℓ} : {A : Type ℓ} → ℕ → List A → List (List A)
chunks n xs = chunk (length xs) n xs

pub record Outbound : Type 0 where
  pub snapshots : List SyncStateUnit
  pub changes : List SyncIncrementalChange

pub record TransferCount : Type 0 where
  pub snapshots : ℕ
  pub changes : ℕ

-- The messages that `send_outbound` sends, in order.
abbrev pub outbound_messages : ℕ → Outbound → List SyncMessage
outbound_messages n o =
    map state (chunks n o.snapshots) ++ (map changes (chunks n o.changes) ++ (done ∷ []))

module _ {E : Type 0} (host : Host E) where
  -- Sends one message after the other and stops at the first failure.
  unfoldable pub send_all : List SyncMessage → Session host (Unit {0})
  unfolding send_message
  send_all [] w = (ok tt, w)
  send_all (m ∷ ms) w = and_then host (send_message host m w) (λ _ v. send_all ms v)

  unfoldable pub send_outbound : Outbound → ℕ → Session host TransferCount
  unfolding send_all
  send_outbound o n w =
      and_then host (send_all (outbound_messages n o) w)
        (λ _ v. (ok (record { snapshots = length o.snapshots; changes = length o.changes }), v))

  unfoldable pub send_snapshots : List SyncStateUnit → ℕ → Session host ℕ
  unfolding send_all
  send_snapshots snapshots n w =
      and_then host (send_all (map state (chunks n snapshots) ++ (done ∷ [])) w)
        (λ _ v. (ok (length snapshots), v))
