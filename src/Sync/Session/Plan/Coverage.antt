-- ===== src/Sync/Session/Plan/Coverage.antt =====
-- The plan of a session sends what the peer does not have, and nothing else.
use rs_converge.Prelude.{
  ◌≡◌, refl, Option, false, inl, inr, List, [], ◌∷◌, All, All-append, All-imp, map, Bool-cases,
  some, none, Option-cases, Has, All-Has, Has-All,
}
use mathlib.Core.Path.{subst}
use rs_converge.Order.{Ord}
use rs_converge.Order.Lex.{Bytes, bytes_ord}
use rs_converge.BTreeMap
use rs_converge.BTreeMap.{Map, IsSorted}
use rs_converge.BTreeMap.Slices.{Slices}
use rs_converge.Engine.{EngineResult, ok, ◌>>=◌, step_ok}
use rs_converge.Sync.State.{SyncKey, SyncChangeId, SyncStateUnit, row}
use rs_converge.Sync.State.Key.{sync_key_ord}
use rs_converge.Sync.State.Manifest.{SyncManifest, contains}
use rs_converge.Sync.State.Manifest.Lookup.{contains-Has}
use rs_converge.Sync.Protocol.{SyncRowInventory, SyncIncrementalChange}
use rs_converge.Sync.Session.{Host}
use rs_converge.Sync.Session.Transfer.{Outbound}
use rs_converge.Sync.Session.Plan.{
  sort_by, has_change, add_payload, add_snapshot, add_exported, export_missing, plan_row, plan_key,
  plan_unit, plan_all, build_outbound, empty, tidy_outbound,
}

All-map {μ} :
    {A B : Type 0} (P : B → Type μ) (f : A → B) (xs : List A)
    → All (λ x. P (f x)) xs
    → All P (map f xs)
All-map P f [] ps = tt
All-map P f (x ∷ xs) (p, ps) = (p, All-map P f xs ps)

All-sort_by {μ} :
    (slices : Slices) {K : Type 0} ⦃o : Ord K⦄ {A : Type 0} (P : A → Type μ) (key : A → K)
    (xs : List A)
    → All P xs
    → All P (sort_by slices key xs)
All-sort_by slices P key xs ps =
    let pairs = map (λ x. (key x, x)) xs in
    let given = All-map (λ e. P e.1) (λ x. (key x, x)) xs ps in
    All-map P (λ e. e.1) (slices.sort_unstable pairs)
      (All-Has (slices.sort_unstable pairs)
        (λ e m. Has-All (λ e. P e.1) e pairs given ((slices.kept pairs e).0 m)))

-- A change of this row that is not in the peer's inventory.
abbrev IsMissing : Bytes → Bytes → List SyncChangeId → SyncIncrementalChange → Type 0
IsMissing t r remote c = (c.table ≡ t) × (c.row ≡ r) × (has_change c.id remote ≡ false)

add_payload-IsMissing :
    (t r : Bytes) (remote : List SyncChangeId) (id : SyncChangeId) (payload : Option Bytes)
    (rest : EngineResult (List SyncIncrementalChange)) (cs : List SyncIncrementalChange)
    → has_change id remote ≡ false
    → ((ds : List SyncIncrementalChange) → rest ≡ ok ds → All (IsMissing t r remote) ds)
    → add_payload t r id payload rest ≡ ok cs
    → All (IsMissing t r remote) cs
add_payload-IsMissing t r remote id none rest cs q g h = g cs h
add_payload-IsMissing t r remote id (some bytes) rest cs q g h =
    let (ds, h1, e) = step_ok _ rest h in
    let k : record { table = t; row = r; id = id; payload = bytes } ∷ ds ≡ cs = cc in
    let all : All (IsMissing t r remote)
        (record { table = t; row = r; id = id; payload = bytes } ∷ ds) =
      ((refl, refl, q), g ds e) in
    subst (λ x. All (IsMissing t r remote) x) k all

-- A change that the peer's inventory of its row lacks.
abbrev pub IsUnlisted : Map SyncKey SyncRowInventory → SyncIncrementalChange → Type 0
IsUnlisted remote c =
    (i : SyncRowInventory) × (BTreeMap.get (row c.table c.row) remote ≡ some i)
    × (has_change c.id i.changes ≡ false)

-- What stands in a plan: units that the peer's manifest lacks, and changes that its inventory
-- of the row lacks.
abbrev pub IsPlan : SyncManifest → Map SyncKey SyncRowInventory → Outbound → Type 0
IsPlan manifest remote o =
    All (λ u. ¬ Has (u.key, u.digest) manifest) o.snapshots
    × All (λ c. IsUnlisted remote c) o.changes

-- The same by what `contains` answers.
abbrev IsAnswered : Slices → SyncManifest → Map SyncKey SyncRowInventory → Outbound → Type 0
IsAnswered slices manifest remote o =
    All (λ u. contains slices manifest u.key u.digest ≡ false) o.snapshots
    × All (λ c. IsUnlisted remote c) o.changes

module _ {E : Type 0} (host : Host E) where
  export_missing-IsMissing :
      (t r : Bytes) (remote ids : List SyncChangeId) (s : host.Engine)
      (cs : List SyncIncrementalChange)
      → export_missing host t r remote ids s ≡ ok cs
      → All (IsMissing t r remote) cs
  unfolding export_missing
  export_missing-IsMissing t r remote [] s [] h = tt
  export_missing-IsMissing t r remote [] s (c ∷ cs) h = cc
  export_missing-IsMissing t r remote (id ∷ ids) s cs h = elim (Bool-cases (has_change id remote)) [
    | inl q ↦ export_missing-IsMissing t r remote ids s cs (rw (export_missing, q) at h)
    | inr q ↦
        (let rest = export_missing host t r remote ids s in
          let h1 : (host.export_change t r id s >>= (λ payload. add_payload t r id payload rest))
              ≡ ok cs =
            rw (export_missing, q) at h in
          let (payload, h2, e) =
            step_ok (λ payload. add_payload t r id payload rest) (host.export_change t r id s) h1 in
          add_payload-IsMissing t r remote id payload rest cs q
            (export_missing-IsMissing t r remote ids s) h2)
  ]

  add_snapshot-IsAnswered :
      (manifest : SyncManifest) (remote : Map SyncKey SyncRowInventory) (u : SyncStateUnit)
      (o : Outbound)
      → contains host.slices manifest u.key u.digest ≡ false
      → IsAnswered host.slices manifest remote o
      → IsAnswered host.slices manifest remote (add_snapshot u o)
  add_snapshot-IsAnswered manifest remote u o q (a, b) =
      (All-append _ o.snapshots (u ∷ []) a (q, tt), b)

  add_exported-IsAnswered :
      (manifest : SyncManifest) (remote : Map SyncKey SyncRowInventory) (t r : Bytes)
      (i : SyncRowInventory) (u : SyncStateUnit) (cs : List SyncIncrementalChange) (o : Outbound)
      → contains host.slices manifest u.key u.digest ≡ false
      → BTreeMap.get (row t r) remote ≡ some i
      → All (IsMissing t r i.changes) cs
      → IsAnswered host.slices manifest remote o
      → IsAnswered host.slices manifest remote (add_exported u cs o)
  add_exported-IsAnswered manifest remote t r i u [] o q e m p =
      add_snapshot-IsAnswered manifest remote u o q p
  add_exported-IsAnswered manifest remote t r i u (c ∷ cs) o q e m (a, b) = (
    a,
    All-append _ o.changes (c ∷ cs) b (All-imp (λ d (et, er, k). (i, rw (et, er) e, k)) (c ∷ cs) m),
  )

  plan_row-IsAnswered :
      (manifest : SyncManifest) (remote : Map SyncKey SyncRowInventory) (t r : Bytes)
      (u : SyncStateUnit) (o p : Outbound) (s : host.Engine)
      → contains host.slices manifest u.key u.digest ≡ false
      → u.key ≡ row t r
      → plan_row host t r u remote o s ≡ ok p
      → IsAnswered host.slices manifest remote o
      → IsAnswered host.slices manifest remote p
  unfolding plan_row
  plan_row-IsAnswered manifest remote t r u o p s q k h g =
      elim (Option-cases (BTreeMap.get u.key remote)) [
        | inl e ↦
            (let h1 : ok (add_snapshot u o) ≡ ok p = rw (plan_row, e) at h in
              let h2 : add_snapshot u o ≡ p = cc in
              subst (λ x. IsAnswered host.slices manifest remote x) h2
                (add_snapshot-IsAnswered manifest remote u o q g))
        | inr (i, e) ↦
            (let h1 : (host.change_inventory t r s >>= (λ ids.
                    export_missing host t r i.changes ids s >>= (λ cs. ok (add_exported u cs o))))
                  ≡ ok p =
                rw (plan_row, e) at h in
              let (ids, h2, _) = step_ok _ (host.change_inventory t r s) h1 in
              let (cs, h3, e3) = step_ok _ (export_missing host t r i.changes ids s) h2 in
              let h4 : add_exported u cs o ≡ p = cc in
              subst (λ x. IsAnswered host.slices manifest remote x) h4
                (add_exported-IsAnswered manifest remote t r i u cs o q (rw k at e)
                  (export_missing-IsMissing t r i.changes ids s cs e3) g))
      ]

  plan_key-IsAnswered :
      (manifest : SyncManifest) (remote : Map SyncKey SyncRowInventory) (key : SyncKey)
      (u : SyncStateUnit) (o p : Outbound) (s : host.Engine)
      → contains host.slices manifest u.key u.digest ≡ false
      → u.key ≡ key
      → plan_key host key u remote o s ≡ ok p
      → IsAnswered host.slices manifest remote o
      → IsAnswered host.slices manifest remote p
  unfolding plan_key
  plan_key-IsAnswered manifest remote (row t r) u o p s q k h g =
      plan_row-IsAnswered manifest remote t r u o p s q k h g
  plan_key-IsAnswered manifest remote _ u o p s q k h g =
      let h2 : add_snapshot u o ≡ p = cc in
      subst (λ x. IsAnswered host.slices manifest remote x) h2
        (add_snapshot-IsAnswered manifest remote u o q g)

  plan_unit-IsAnswered :
      (manifest : SyncManifest) (remote : Map SyncKey SyncRowInventory) (u : SyncStateUnit)
      (o p : Outbound) (s : host.Engine)
      → plan_unit host u manifest remote o s ≡ ok p
      → IsAnswered host.slices manifest remote o
      → IsAnswered host.slices manifest remote p
  unfolding plan_unit
  plan_unit-IsAnswered manifest remote u o p s h g =
      elim (Bool-cases (contains host.slices manifest u.key u.digest)) [
        | inl q ↦
            (let h1 : ok o ≡ ok p = rw (plan_unit, q) at h in
              let h2 : o ≡ p = cc in subst (λ x. IsAnswered host.slices manifest remote x) h2 g)
        | inr q ↦
            plan_key-IsAnswered manifest remote u.key u o p s q refl (rw (plan_unit, q) at h) g
      ]

  plan_all-IsAnswered :
      (us : List SyncStateUnit) (manifest : SyncManifest) (remote : Map SyncKey SyncRowInventory)
      (o p : Outbound) (s : host.Engine)
      → plan_all host us manifest remote o s ≡ ok p
      → IsAnswered host.slices manifest remote o
      → IsAnswered host.slices manifest remote p
  unfolding plan_all
  plan_all-IsAnswered [] manifest remote o p s h g =
      let h2 : o ≡ p = cc in subst (λ x. IsAnswered host.slices manifest remote x) h2 g
  plan_all-IsAnswered (u ∷ us) manifest remote o p s h g =
      let (o1, h1, e) = step_ok _ (plan_unit host u manifest remote o s) h in
      plan_all-IsAnswered us manifest remote o1 p s h1
        (plan_unit-IsAnswered manifest remote u o o1 s e g)

  -- When `build_outbound` succeeds, with a manifest of the peer in the order of its keys and with
  -- one entry for a key, as `new` makes it, it plans no unit whose key and digest are in the
  -- manifest, and only changes of rows in the peer's inventories that the inventory of the row
  -- does not list.
  pub build_outbound-IsPlan :
      (us : List SyncStateUnit) (manifest : SyncManifest) (remote : Map SyncKey SyncRowInventory)
      (p : Outbound) (s : host.Engine)
      → IsSorted manifest
      → build_outbound host us manifest remote s ≡ ok p
      → IsPlan manifest remote p
  unfolding build_outbound
  build_outbound-IsPlan us manifest remote p s order h =
      let (o, h1, e) = step_ok _ (plan_all host us manifest remote empty s) h in
      let (a, b) = plan_all-IsAnswered us manifest remote empty o s e (tt, tt) in
      let h2 : tidy_outbound host.slices o ≡ p = cc in
      let lacking : All (λ u. ¬ Has (u.key, u.digest) manifest) o.snapshots =
        All-imp (λ u q m. cc (q, (contains-Has host.slices manifest u.key u.digest order).1 m))
          o.snapshots a in
      subst (λ x. IsPlan manifest remote x) h2
        (
          All-sort_by host.slices _ (λ u. u.key) o.snapshots lacking,
          All-sort_by host.slices _ (λ c. c.id) o.changes b,
        )
