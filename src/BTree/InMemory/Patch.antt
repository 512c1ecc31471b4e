-- ===== src/BTree/InMemory/Patch.antt =====
-- The transaction's patch and the methods of the transaction.
use rs_converge.Prelude.{Option, none, some, Bool, true, false, [], ◌∷◌, if◌then◌else◌}
use rs_converge.Order.{Ord}
use rs_converge.BTreeMap
use rs_converge.BTreeMap.{Map, Bound}
use rs_converge.BTree.{BTreeResult, ok, err}

-- `InMemoryTransactionPatchEntry`
pub data PatchEntry {κ} (V : Type κ) : Type κ where
  present : V → PatchEntry V
  deleted : PatchEntry V

-- `InMemoryTransactionPatchEntry::as_option`
abbrev pub as_option {κ} : {V : Type κ} → PatchEntry V → Option V
as_option (present v) = some v
as_option deleted = none

-- `InMemoryTransactionPatch`, by its one field
abbrev pub Patch {ℓ κ} : Type ℓ → Type κ → Type (ℓ ⊔ κ)
Patch K V = Map K (PatchEntry V)

-- the test of `include_base`: no deletion is recorded
abbrev pub not_deleted {κ} : {V : Type κ} → Option (PatchEntry V) → Bool
not_deleted (some deleted) = false
not_deleted (some (present v)) = true
not_deleted none = true

module _ {ℓ κ} {K : Type ℓ} {V : Type κ} ⦃o : Ord K⦄ where
  -- `InMemoryTransactionPatch::get`
  unfoldable pub get : Map K V → K → Patch K V → Option V
  get base k p = elim (BTreeMap.get k p) [ some e ↦ as_option e | none ↦ BTreeMap.get k base ]

  -- `InMemoryTransactionPatch::insert`
  unfoldable pub insert : K → V → Patch K V → Patch K V
  insert k v p = BTreeMap.insert k (present v) p

  mark_deleted : K → V → Patch K V → Option V × Patch K V
  mark_deleted k v p = (some v, BTreeMap.insert k deleted p)

  -- `InMemoryTransactionPatch::remove`
  unfoldable pub remove : Map K V → K → Patch K V → Option V × Patch K V
  unfolding mark_deleted
  remove base k p = elim (BTreeMap.get k p) [
    | some (present v) ↦ mark_deleted k v p
    | some deleted ↦ (none, p)
    | none ↦ elim (BTreeMap.get k base) [ some v ↦ mark_deleted k v p | none ↦ (none, p) ]
  ]

  -- the body of the loop of `InMemoryTransactionPatch::commit`, and of `apply_patch` in `range`
  abbrev pub apply_entry : K → PatchEntry V → Map K V → Map K V
  apply_entry k (present v) base = BTreeMap.insert k v base
  apply_entry k deleted base = BTreeMap.remove k base

  -- `InMemoryTransactionPatch::commit`
  unfoldable pub commit : Patch K V → Map K V → Map K V
  commit [] base = base
  commit ((k, e) ∷ p) base = commit p (apply_entry k e base)

  -- the first loop of `merge_range_maps`
  unfoldable pub copy_included : (K → Bool) → Map K V → Map K V → Map K V
  copy_included include [] merged = merged
  copy_included include ((k, v) ∷ base) merged =
      copy_included include base (if include k then BTreeMap.insert k v merged else merged)

  -- `merge_range_maps`, with `apply_entry` as its `apply_patch`; `none` is a panic of `range`
  unfoldable pub merge_range_maps :
      Map K V → Patch K V → Bound K → Bound K → (K → Bool) → Option (Map K V)
  merge_range_maps base p lo hi include = elim (BTreeMap.range lo hi base) [
    | none ↦ none
    | some entries ↦ elim (BTreeMap.range lo hi p) [
      | none ↦ none
      | some patched ↦ some (commit patched (copy_included include entries []))
    ]
  ]

  -- `InMemoryTransactionPatch::range`
  unfoldable pub range : Map K V → Bound K → Bound K → Patch K V → Option (Map K V)
  range base lo hi p = merge_range_maps base p lo hi (λ k. not_deleted (BTreeMap.get k p))

  -- `InMemoryBTreeTransaction::update`: the result, and the patch after it
  unfoldable pub update :
      Map K V → K → (V → BTreeResult V) → Patch K V → BTreeResult (Option (Unit {0})) × Patch K V
  update base k f p = elim (get base k p) [
    | some v ↦ elim (f v) [ ok w ↦ (ok (some tt), insert k w p) | err e ↦ (err e, p) ]
    | none ↦ (ok none, p)
  ]

  -- the loop of `InMemoryBTreeTransaction::remove_range`, run to its end
  unfoldable pub remove_each : Map K V → Map K V → Patch K V → Patch K V
  remove_each base [] p = p
  remove_each base ((k, v) ∷ entries) p = remove_each base entries (remove base k p).1

  -- `InMemoryBTreeTransaction::remove_range`: what it yields, and the patch after it
  unfoldable pub remove_range :
      Map K V → Bound K → Bound K → Patch K V → Option (Map K V × Patch K V)
  remove_range base lo hi p = elim (range base lo hi p) [
    | none ↦ none
    | some merged ↦ some (merged, remove_each base merged p)
  ]
