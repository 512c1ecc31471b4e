-- ===== src/Sync/Session.antt =====
-- crates/sync/src/session.rs: a session over a transport. A session reads and writes a `World`:
-- the engine, what the transport will give to `receive` and how it will answer `send`, and the
-- frames that were sent.
pub mod Transfer
pub mod Receive
pub mod Exchange
pub mod Plan
pub mod Run
pub mod Chunks
pub mod Delivery
pub mod EndToEnd
pub mod Safety
use rs_converge.Prelude.{ℕ, Bool, Option, none, some, List, [], ◌∷◌, ◌++◌}
use rs_converge.Order.Lex.{Bytes}
use rs_converge.BTreeMap.Slices.{Slices}
use rs_converge.Engine.{EngineResult, EngineError}
use rs_converge.Sync.State.{SyncChangeId, SyncKey, SyncStateUnit}
use rs_converge.Sync.Protocol.{SyncMessage, SyncIncrementalChange}

pub data Result {ℓ} (E A : Type ℓ) : Type ℓ where
  ok : A → Result E A
  err : E → Result E A

-- `SyncError`
pub data SyncError (E : Type 0) : Type 0 where
  engine : EngineError → SyncError E
  transport : E → SyncError E
  invalid_configuration : SyncError E
  protocol : Bytes → SyncError E
  incompatible_protocol : ℕ → SyncError E
  unexpected_message : SyncError E
  remote_abort : Bytes → SyncError E

-- What a session calls: the transport's error at its end, `postcard` at messages, `sha2`, what
-- Rust leaves open of slices, the texts of errors and keys, and the engine with its codec. `merge_unit` is the transaction that
-- `apply_sync_state_for` runs, and `apply_changes` the one of `apply_incremental_changes_for`.
pub record Host (E : Type 0) : Type 1 where
  pub Engine : Type 0
  pub closed : E
  pub to_frame : SyncMessage → Result Bytes Bytes
  pub from_frame : Bytes → Result Bytes SyncMessage
  pub sha256 : Bytes → Bytes
  pub slices : Slices
  pub show_error : EngineError → Bytes
  pub debug_key : SyncKey → Bytes
  pub export_sync_state : Engine → EngineResult (List SyncStateUnit)
  pub change_inventory : Bytes → Bytes → Engine → EngineResult (List SyncChangeId)
  pub export_change : Bytes → Bytes → SyncChangeId → Engine → EngineResult (Option Bytes)
  pub export_state : Bytes → Bytes → Engine → EngineResult (Option Bytes)
  pub export_metadata : Bytes → Bytes → Engine → EngineResult Bytes
  pub merge_unit : SyncStateUnit → Engine → EngineResult {0} Unit × Engine
  pub apply_changes : List SyncIncrementalChange → Engine → EngineResult {0} Unit × Engine

pub data SyncRole : Type 0 where
  initiator responder : SyncRole

module _ {E : Type 0} (host : Host E) where
  pub record World : Type 0 where
    pub db : host.Engine
    pub inbox : List (Result E Bytes)
    pub outcomes : List (Option E)
    pub outbox : List Bytes

  abbrev pub Session : Type 0 → Type 0
  Session A = World → Result (SyncError E) A × World

  abbrev pub set_db : host.Engine → World → World
  set_db s w = record { db = s; inbox = w.inbox; outcomes = w.outcomes; outbox = w.outbox }

  abbrev pub set_inbox : List (Result E Bytes) → World → World
  set_inbox fs w = record { db = w.db; inbox = fs; outcomes = w.outcomes; outbox = w.outbox }

  -- the `?` of the source
  abbrev pub and_then :
      {A B : Type 0}
      → Result (SyncError E) A × World
      → (A → Session B)
      → Result (SyncError E) B × World
  and_then (ok a, w) f = f a w
  and_then (err e, w) f = (err e, w)

  -- A transport that runs out of answers succeeds.
  abbrev pub push : Bytes → World → List (Option E) → Result (SyncError E) (Unit {0}) × World
  push frame w [] = (
    ok tt,
    record { db = w.db; inbox = w.inbox; outcomes = []; outbox = w.outbox ++ (frame ∷ []) },
  )
  push frame w (none ∷ os) = (
    ok tt,
    record { db = w.db; inbox = w.inbox; outcomes = os; outbox = w.outbox ++ (frame ∷ []) },
  )
  push frame w (some e ∷ os) =
      (err (transport e), record { db = w.db; inbox = w.inbox; outcomes = os; outbox = w.outbox })

  -- `send_message`
  unfoldable pub send_message : SyncMessage → Session (Unit {0})
  send_message message w = elim (host.to_frame message) [
    | ok frame ↦ push frame w w.outcomes
    | err text ↦ (err (protocol text), w)
  ]

  -- What a received frame says.
  unfoldable pub decode_frame : Result E Bytes → Result (SyncError E) SyncMessage
  decode_frame (err e) = err (transport e)
  decode_frame (ok frame) = elim (host.from_frame frame) [
    | ok message ↦ ok message
    | err text ↦ err (protocol text)
  ]

  -- `receive_message`
  unfoldable pub receive_message : Session SyncMessage
  unfolding decode_frame
  receive_message w = elim w.inbox [
    | [] ↦ (err (transport host.closed), w)
    | f ∷ fs ↦ (decode_frame f, set_inbox fs w)
  ]
