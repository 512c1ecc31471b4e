-- ===== src/Sync/State/Manifest.antt =====
-- `SyncManifest`: the entries in the order of their keys, one for each key.
pub mod Lookup
use Prim.Native.Nat.Ordering.{lt, eq, gt}
use rs_converge.Prelude.{
  ℕ, ◌≡◌, refl, Bool, Option, false, none, some, List, [], ◌∷◌, arith, ◌↔◌, true, ap, sym, ◌∙◌,
  get_elem?,
}
use rs_converge.Order.{Ord, Ordering-cases}
use rs_converge.Order.Lex.{Bytes, cmp_bytes, bytes_ord}
use rs_converge.BTreeMap
use rs_converge.BTreeMap.Sort.{sort_by_key, FromOn, Increases, sort_by_key-Increases}
use rs_converge.BTreeMap.Slices.{Slices}
use rs_converge.BTreeMap.{Map, Above, IsSorted}
use rs_converge.Value.{is_eq}
use rs_converge.Sync.State.{SyncKey}
use rs_converge.Sync.State.Key.{sync_key_ord}

module _ {ℓ κ} {K : Type ℓ} {V : Type κ} ⦃o : Ord K⦄ where
  -- `dedup_by` on the first component: of a run of equal keys the first entry stays. `e` is the
  -- last entry that stayed.
  unfoldable pub dedup_after : K → List (K × V) → List (K × V)
  dedup_after k [] = []
  dedup_after k (f ∷ fs) = elim (o.cmp k f.0) [
    | lt ↦ f ∷ dedup_after f.0 fs
    | eq ↦ dedup_after k fs
    | gt ↦ f ∷ dedup_after f.0 fs
  ]

  unfoldable pub dedup_by_key : List (K × V) → List (K × V)
  unfolding dedup_after
  dedup_by_key [] = []
  dedup_by_key (e ∷ es) = e ∷ dedup_after e.0 es

-- `SyncManifest`, by its one field
abbrev pub SyncManifest : Type 0
SyncManifest = List (SyncKey × Bytes)

-- `SyncManifest::new`
unfoldable pub new_manifest : Slices → List (SyncKey × Bytes) → SyncManifest
unfolding dedup_by_key
new_manifest slices entries = dedup_by_key (slices.sort_unstable entries)

-- `entries[index]`; the search gives an index in range.
abbrev pub entry_at : SyncManifest → Option ℕ → Option (SyncKey × Bytes)
entry_at manifest none = none
entry_at manifest (some index) = get_elem? manifest index

abbrev pub digest_matches : Option (SyncKey × Bytes) → Bytes → Bool
digest_matches none digest = false
digest_matches (some (_, found)) digest = is_eq (cmp_bytes found digest)

-- `contains`
unfoldable pub contains : Slices → SyncManifest → SyncKey → Bytes → Bool
contains slices manifest key digest =
    digest_matches (entry_at manifest (slices.binary_search key manifest)) digest

module _ {ℓ κ} {K : Type ℓ} {V : Type κ} ⦃o : Ord K⦄ where
  Above-lower_lem : (a b : K) (es : List (K × V)) → o.cmp a b ≡ lt → Above b es → Above a es
  Above-lower_lem a b [] p q = tt
  Above-lower_lem a b (e ∷ es) p (q, qs) = (o.cmp_trans a b e.0 p q, Above-lower_lem a b es p qs)

  dedup_after-IsSorted :
      (k : K) (es : List (K × V))
      → FromOn k es
      → Increases es
      → Above k (dedup_after k es) × IsSorted (dedup_after k es)
  unfolding dedup_after
  dedup_after-IsSorted k [] p h = (tt, tt)
  dedup_after-IsSorted k (f ∷ fs) (p, ps) (q, h) = ground (
    arith,
    dedup_after-IsSorted k fs ps h,
    dedup_after-IsSorted f.0 fs q h,
    Above-lower_lem k f.0 (dedup_after f.0 fs),
  )

  dedup_by_key-IsSorted : (es : List (K × V)) → Increases es → IsSorted (dedup_by_key es)
  unfolding dedup_by_key
  dedup_by_key-IsSorted [] h = tt
  dedup_by_key-IsSorted (e ∷ es) (p, h) = dedup_after-IsSorted e.0 es p h

-- A manifest made by `new` is strictly in the order of its keys, as its binary search needs.
pub new_manifest-IsSorted :
    (slices : Slices) (entries : List (SyncKey × Bytes)) → IsSorted (new_manifest slices entries)
unfolding new_manifest
new_manifest-IsSorted slices entries =
    dedup_by_key-IsSorted (slices.sort_unstable entries) (slices.sorted entries)
