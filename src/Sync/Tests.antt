-- ===== src/Sync/Tests.antt =====
-- Sessions at concrete inputs: a toy host whose engine counts what it is given.
mod Linear
use rs_converge.Prelude.{
  ℕ, ◌≡◌, refl, sym, ap, ◌∙◌, inl, inr, Has, none, some, List, [], ◌∷◌, ◌+◌, ◌==◌, ◌≤◌, ◌↔◌, true,
  arith, length, map, All, if◌then◌else◌,
}
use rs_converge.Order.Lex.{Bytes, cmp_list}
use rs_converge.BTreeMap
use rs_converge.BTreeMap.{IsSorted}
use rs_converge.Engine
use rs_converge.Sync.State.{
  SyncKey, SyncStateUnit, row, table, new_unit, verify_digest, cmp_sync_key,
}
use rs_converge.Sync.State.Key.{sync_key_ord}
use rs_converge.BTreeMap.Sort.{place, sort_by_key}
use rs_converge.Sync.State.Manifest.{SyncManifest, new_manifest, contains, new_manifest-IsSorted}
use rs_converge.Sync.State.Manifest.Lookup.{contains-new_manifest}
use rs_converge.Sync.Tests.Linear.{linear, first_with}
use rs_converge.Sync.Protocol.{SyncMessage, SyncIncrementalChange, SyncRowInventory}
use rs_converge.Sync.Protocol
use rs_converge.Sync.Session.{Host, World, Result, ok, err, set_db, set_inbox}
use rs_converge.Sync.Session.Transfer.{Outbound, chunk, chunks, outbound_messages, send_outbound}
use rs_converge.Sync.Session.Receive.{validate_change_batch, receive_outbound}
use rs_converge.Sync.Session.Delivery.{received, Applies, merge_all, apply_all}
use rs_converge.Sync.Session.EndToEnd.{receive_outbound-send_outbound}
use rs_converge.Sync.Session.Safety.{receive_outbound-keeps}
use rs_converge.Sync.Session.Plan.{
  build_outbound, plan_all, plan_unit, plan_key, plan_row, export_missing, has_change,
}
use rs_converge.Sync.Session.Plan.Coverage.{IsPlan, build_outbound-IsPlan}

abbrev unit_one : SyncStateUnit
unit_one = new_unit (λ b. 7 ∷ []) (table (3 ∷ [])) (1 ∷ 2 ∷ []) []

abbrev change_one : SyncIncrementalChange
change_one = record { table = 3 ∷ []; row = 4 ∷ []; id = 5 ∷ []; payload = 6 ∷ [] }

abbrev offered : Outbound
offered = record { snapshots = unit_one ∷ []; changes = change_one ∷ [] }

-- A frame is the kind of its message.
abbrev frame : SyncMessage → Bytes
frame (Protocol.state _) = 1 ∷ []
frame (Protocol.changes _) = 2 ∷ []
frame _ = 3 ∷ []

abbrev read_kind : Bytes → Result Bytes SyncMessage
read_kind [] = err []
read_kind (k ∷ _) =
    if k == 1
    then ok (Protocol.state (unit_one ∷ []))
    else if k == 2
    then ok (Protocol.changes (change_one ∷ []))
    else ok Protocol.done

-- A unit with no state cannot be merged.
abbrev merge : Bytes → ℕ → Engine.EngineResult {0} Unit × ℕ
merge [] s = (Engine.err (Engine.invalid_query []), s)
merge (b ∷ bs) s = (Engine.ok tt, s + 1)

-- Nor a batch without a change applied.
abbrev apply : List SyncIncrementalChange → ℕ → Engine.EngineResult {0} Unit × ℕ
apply [] s = (Engine.err (Engine.invalid_query []), s)
apply (c ∷ cs) s = (Engine.ok tt, s + 10)

abbrev toy : Host Unit
toy = record {
  Engine = ℕ;
  closed = tt;
  to_frame = λ m. ok (frame m);
  from_frame = read_kind;
  sha256 = λ b. 7 ∷ [];
  slices = linear;
  show_error = λ e. [];
  debug_key = λ k. [];
  export_sync_state = λ s. Engine.ok (unit_one ∷ []);
  change_inventory = λ t r s. Engine.ok ((5 ∷ []) ∷ []);
  export_change = λ t r c s. Engine.ok (some (6 ∷ []));
  export_state = λ t r s. Engine.ok none;
  export_metadata = λ t r s. Engine.ok [];
  merge_unit = λ u s. merge u.state s;
  apply_changes = apply;
}

abbrev idle : World toy
idle = record { db = 0; inbox = []; outcomes = []; outbox = [] }

writes : All (λ m. toy.to_frame m ≡ ok (frame m)) (outbound_messages 2 offered)
unfolding chunks chunk
writes = (refl, (refl, (refl, tt)))

reads : All (λ m. toy.from_frame (frame m) ≡ ok m) (outbound_messages 2 offered)
unfolding chunks chunk
reads = (refl, (refl, (refl, tt)))

digests : All (λ u. verify_digest toy.sha256 u ≡ true) offered.snapshots
unfolding verify_digest cmp_list
digests = (refl, tt)

valid : validate_change_batch offered.changes ≡ Engine.ok tt
unfolding validate_change_batch
valid = refl

takes : Applies toy (chunks 2 offered.changes) (merge_all toy offered.snapshots idle.db)
unfolding chunks chunk
takes = (refl, tt)

receive_outbound-send_outbound_example :
    let (reply, v1) = send_outbound toy offered 2 idle in
    (reply ≡ ok (record { snapshots = 1; changes = 1 }))
    × (receive_outbound toy (set_inbox toy (map (λ f. ok f) v1.outbox) idle) ≡ (
      ok (received 1 1),
      set_inbox toy [] (
          set_db toy
            (apply_all toy (chunks 2 offered.changes) (merge_all toy offered.snapshots idle.db))
            idle),
    ))
receive_outbound-send_outbound_example =
    receive_outbound-send_outbound toy toy frame offered 2 idle idle (omega arith) refl refl writes
      reads (refl, tt) takes digests valid

abbrev inbound : World toy
inbound = record {
  db = 4;
  inbox = ok (1 ∷ []) ∷ ok (2 ∷ []) ∷ ok (3 ∷ []) ∷ [];
  outcomes = [];
  outbox = [];
}

merge_le : (state : Bytes) (s : ℕ) → 4 ≤ s → 4 ≤ (merge state s).1
merge_le [] s h = h
merge_le (b ∷ bs) s h = omega arith

apply_le : (cs : List SyncIncrementalChange) (s : ℕ) → 4 ≤ s → 4 ≤ (apply cs s).1
apply_le [] s h = h
apply_le (c ∷ cs) s h = omega arith

-- The count never falls below where it was.
receive_outbound-keeps_example : 4 ≤ (receive_outbound toy inbound).1.db
receive_outbound-keeps_example =
    receive_outbound-keeps toy (λ s. 4 ≤ s) (λ u s q p. merge_le u.state s p)
      (λ cs s q p. apply_le cs s p) inbound (omega arith)

abbrev entries : List (SyncKey × Bytes)
entries = (table (3 ∷ []), 1 ∷ []) ∷ (row (1 ∷ []) (2 ∷ []), 2 ∷ []) ∷ (table (2 ∷ []), 3 ∷ []) ∷ []

new_manifest-IsSorted_example : IsSorted (new_manifest linear entries)
new_manifest-IsSorted_example = new_manifest-IsSorted linear entries

only_digest : (a : Bytes) → Has (table (2 ∷ []), a) entries → a ≡ 3 ∷ []
only_digest a (inl p) = absurd (ground (arith, ap (λ e. e.0) p))
only_digest a (inr (inl p)) = absurd (ground (arith, ap (λ e. e.0) p))
only_digest a (inr (inr (inl p))) = ap (λ e. e.1) p
only_digest a (inr (inr (inr m))) = absurd m

contains-new_manifest_example :
    (contains linear (new_manifest linear entries) (table (2 ∷ [])) (3 ∷ []) ≡ true)
    ↔ Has (table (2 ∷ []), 3 ∷ []) entries
contains-new_manifest_example =
    contains-new_manifest linear entries (table (2 ∷ [])) (3 ∷ [])
      (λ a b m n. only_digest a m ∙ sym (only_digest b n))

-- The peer has the row with another change than the one that is here.
abbrev row_unit : SyncStateUnit
row_unit = new_unit (λ b. 7 ∷ []) (row (3 ∷ []) (4 ∷ [])) (1 ∷ []) []

abbrev their_row : SyncRowInventory
their_row = record { table = 3 ∷ []; row = 4 ∷ []; changes = (9 ∷ []) ∷ [] }

abbrev planned : Outbound
planned = record { snapshots = unit_one ∷ []; changes = change_one ∷ [] }

-- Its manifest has another digest for the table.
abbrev theirs : SyncManifest
theirs = (table (3 ∷ []), 8 ∷ []) ∷ []

builds :
    build_outbound toy (unit_one ∷ row_unit ∷ []) theirs ((row (3 ∷ []) (4 ∷ []), their_row) ∷ []) 0
    ≡ Engine.ok planned
unfolding build_outbound plan_all plan_unit plan_key plan_row export_missing has_change contains
    BTreeMap.get cmp_sync_key cmp_list sort_by_key place first_with
builds = refl

build_outbound-IsPlan_example : IsPlan theirs ((row (3 ∷ []) (4 ∷ []), their_row) ∷ []) planned
build_outbound-IsPlan_example =
    build_outbound-IsPlan toy (unit_one ∷ row_unit ∷ []) theirs
      ((row (3 ∷ []) (4 ∷ []), their_row) ∷ []) planned 0 (tt, tt) builds
