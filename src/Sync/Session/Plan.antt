-- ===== src/Sync/Session/Plan.antt =====
-- crates/sync/src/session.rs: what is offered to the peer, and what is sent to it.
pub mod Coverage
use rs_converge.Prelude.{
  ℕ, Bool, true, false, Option, none, some, List, [], ◌∷◌, ◌++◌, map, ◌&&◌, ◌||◌, if◌then◌else◌,
}
use rs_converge.Order.{Ord}
use rs_converge.Order.Lex.{Bytes, bytes_ord, cmp_bytes}
use rs_converge.BTreeMap
use rs_converge.BTreeMap.{Map}
use rs_converge.BTreeMap.Slices.{Slices}
use rs_converge.Value.{is_eq}
use rs_converge.Engine.{EngineResult, ok, err, ◌>>=◌}
use rs_converge.Sync.State.{SyncKey, SyncChangeId, SyncStateUnit, row, new_unit}
use rs_converge.Sync.State.Key.{sync_key_ord}
use rs_converge.BTreeMap.Sort.{sort_by_key}
use rs_converge.Sync.State.Manifest.{SyncManifest, new_manifest, contains, dedup_by_key}
use rs_converge.Sync.Protocol.{
  SyncRowInventory, SyncIncrementalChange, SyncSnapshotRequest, inventory_key,
}
use rs_converge.Sync.Session.{Host}
use rs_converge.Sync.Session.Transfer.{Outbound}
use rs_converge.Sync.Session.Receive.{is_empty}

-- `sort_unstable_by` on a key of the items
abbrev pub sort_by : Slices → {K : Type 0} → ⦃o : Ord K⦄ → {A : Type 0} → (A → K) → List A → List A
sort_by slices key xs = map (λ e. e.1) (slices.sort_unstable (map (λ x. (key x, x)) xs))

-- `changes.iter().any(|candidate| candidate == &key)`
unfoldable pub has_change : SyncChangeId → List SyncChangeId → Bool
has_change id [] = false
has_change id (c ∷ cs) = is_eq (cmp_bytes c id) || has_change id cs

-- `collect` into a `BTreeMap`: a later inventory of a row replaces an earlier one.
unfoldable pub collect_inventories :
    List SyncRowInventory → Map SyncKey SyncRowInventory → Map SyncKey SyncRowInventory
collect_inventories [] m = m
collect_inventories (i ∷ is) m = collect_inventories is (BTreeMap.insert (inventory_key i) i m)

abbrev pub add_snapshot : SyncStateUnit → Outbound → Outbound
add_snapshot unit o = record { snapshots = o.snapshots ++ (unit ∷ []); changes = o.changes }

abbrev pub add_changes : List SyncIncrementalChange → Outbound → Outbound
add_changes cs o = record { snapshots = o.snapshots; changes = o.changes ++ cs }

-- What is left of the plan for a row whose changes were exported: a snapshot if there are none.
abbrev pub add_exported : SyncStateUnit → List SyncIncrementalChange → Outbound → Outbound
add_exported unit [] o = add_snapshot unit o
add_exported unit (c ∷ cs) o = add_changes (c ∷ cs) o

-- `Outbound::default`
abbrev pub empty : Outbound
empty = record { snapshots = []; changes = [] }

-- The two sorts at the end of `build_outbound`.
abbrev pub tidy_outbound : Slices → Outbound → Outbound
tidy_outbound slices o = record {
  snapshots = sort_by slices (λ u. u.key) o.snapshots;
  changes = sort_by slices (λ c. c.id) o.changes;
}

-- The change in front of the others, if its payload could be exported.
abbrev pub add_payload :
    Bytes
    → Bytes
    → SyncChangeId
    → Option Bytes
    → EngineResult (List SyncIncrementalChange)
    → EngineResult (List SyncIncrementalChange)
add_payload table r id none rest = rest
add_payload table r id (some bytes) rest =
    rest >>= λ cs. ok (record { table = table; row = r; id = id; payload = bytes } ∷ cs)

-- `unwrap_or_default`
abbrev pub or_empty : Option Bytes → Bytes
or_empty none = []
or_empty (some bytes) = bytes

module _ {E : Type 0} (host : Host E) where
  -- `sync_manifest_for`
  unfoldable pub sync_manifest : host.Engine → EngineResult SyncManifest
  sync_manifest s = host.export_sync_state s >>= λ units.
      ok (new_manifest host.slices (map (λ u. (u.key, u.digest)) units))

  -- the loop of `inventories_for`
  unfoldable pub inventories :
      List SyncStateUnit → host.Engine → EngineResult (List SyncRowInventory)
  inventories [] s = ok []
  inventories (u ∷ us) s =
      let rest = inventories us s in
      elim u.key [
        | row table r ↦ host.change_inventory table r s >>= (λ changes.
            rest >>= (λ is. ok (record { table = table; row = r; changes = changes } ∷ is)))
        | _ ↦ rest
      ]

  unfoldable pub inventories_for :
      List SyncStateUnit → host.Engine → EngineResult (List SyncRowInventory)
  unfolding inventories
  inventories_for units s = inventories units s >>= λ is.
      ok (map (λ e. e.1) (dedup_by_key (sort_by_key (map (λ i. (inventory_key i, i)) is))))

  -- The loop of `build_outbound` over the changes of a row that are here, with those that the
  -- peer has.
  unfoldable pub export_missing :
      Bytes
      → Bytes
      → List SyncChangeId
      → List SyncChangeId
      → host.Engine
      → EngineResult (List SyncIncrementalChange)
  unfolding has_change
  export_missing table r remote [] s = ok []
  export_missing table r remote (id ∷ ids) s =
      let rest = export_missing table r remote ids s in
      elim (has_change id remote) [
        | true ↦ rest
        | false ↦
            host.export_change table r id s >>= (λ payload. add_payload table r id payload rest)
      ]

  -- A row that the peer has in another state.
  unfoldable pub plan_row :
      Bytes
      → Bytes
      → SyncStateUnit
      → Map SyncKey SyncRowInventory
      → Outbound
      → host.Engine
      → EngineResult Outbound
  unfolding export_missing
  plan_row table r unit remote o s = elim (BTreeMap.get unit.key remote) [
    | none ↦ ok (add_snapshot unit o)
    | some i ↦
        host.change_inventory table r s
        >>= (λ ids. export_missing table r i.changes ids s >>= (λ cs. ok (add_exported unit cs o)))
  ]

  -- A unit that the peer does not have, by its key.
  unfoldable pub plan_key :
      SyncKey
      → SyncStateUnit
      → Map SyncKey SyncRowInventory
      → Outbound
      → host.Engine
      → EngineResult Outbound
  unfolding plan_row
  plan_key (row table r) unit remote o s = plan_row table r unit remote o s
  plan_key _ unit remote o s = ok (add_snapshot unit o)

  -- one round of the loop of `build_outbound`
  unfoldable pub plan_unit :
      SyncStateUnit
      → SyncManifest
      → Map SyncKey SyncRowInventory
      → Outbound
      → host.Engine
      → EngineResult Outbound
  unfolding plan_key contains
  plan_unit unit manifest remote o s =
      if contains host.slices manifest unit.key unit.digest
      then ok o
      else plan_key unit.key unit remote o s

  unfoldable pub plan_all :
      List SyncStateUnit
      → SyncManifest
      → Map SyncKey SyncRowInventory
      → Outbound
      → host.Engine
      → EngineResult Outbound
  unfolding plan_unit
  plan_all [] manifest remote o s = ok o
  plan_all (u ∷ us) manifest remote o s =
      plan_unit u manifest remote o s >>= λ p. plan_all us manifest remote p s

  unfoldable pub build_outbound :
      List SyncStateUnit
      → SyncManifest
      → Map SyncKey SyncRowInventory
      → host.Engine
      → EngineResult Outbound
  unfolding plan_all
  build_outbound units manifest remote s =
      plan_all units manifest remote empty s >>= λ o. ok (tidy_outbound host.slices o)

  -- `recovery_snapshots`
  unfoldable pub recovery_snapshots :
      List SyncSnapshotRequest → host.Engine → EngineResult (List SyncStateUnit)
  recovery_snapshots [] s = ok []
  recovery_snapshots ((table, r) ∷ rs) s =
      let rest = recovery_snapshots rs s in
      host.export_state table r s >>= λ exported. host.export_metadata table r s >>= λ metadata.
      let state = or_empty exported in
      if is_empty state && is_empty metadata
      then rest
      else rest >>= (λ us. ok (new_unit host.sha256 (row table r) state metadata ∷ us))
