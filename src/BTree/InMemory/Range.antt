-- ===== src/BTree/InMemory/Range.antt =====
-- Range scans of a transaction: `merge_range_maps` gives what a scan after the commit gives.
use rs_converge.Prelude.{◌≡◌, refl, Option, none, some, [], ◌∷◌, arith, Bool, if◌then◌else◌}
use rs_converge.Order.{Ord}
use rs_converge.BTreeMap
use rs_converge.BTreeMap.{Map, Bound, IsSorted, contains, select, range_panics}
use rs_converge.BTreeMap.Lookup.{get-insert, get-select}
use rs_converge.BTreeMap.Sorted.{insert-IsSorted, select-IsSorted}
use rs_converge.BTreeMap.Extensional.{get-Above, ext_of_get}
use rs_converge.BTree.InMemory.Patch.{
  Patch, get, commit, copy_included, range, not_deleted, merge_range_maps,
}
use rs_converge.BTree.InMemory.Laws.{commit-IsSorted, get-commit}

-- `Option::or`
abbrev or_else {κ} : {V : Type κ} → Option V → Option V → Option V
or_else (some v) w = some v
or_else none w = w

module _ {ℓ κ} {K : Type ℓ} {V : Type κ} ⦃o : Ord K⦄ where
  copy_included-IsSorted :
      (include : K → Bool) (entries merged : Map K V)
      → IsSorted merged
      → IsSorted (copy_included include entries merged)
  unfolding copy_included
  copy_included-IsSorted include [] merged s = s
  copy_included-IsSorted include ((k, v) ∷ entries) merged s =
      copy_included-IsSorted include entries _ (ground (arith, insert-IsSorted k v merged s))

  get-copy_included :
      (include : K → Bool) (k : K) (entries merged : Map K V)
      → IsSorted entries
      → BTreeMap.get k (copy_included include entries merged)
        ≡ or_else (if include k then BTreeMap.get k entries else none) (BTreeMap.get k merged)
  unfolding copy_included BTreeMap.get
  get-copy_included include k [] merged s = ground arith
  get-copy_included include k ((j, v) ∷ entries) merged s = ground (
    arith,
    get-copy_included include k entries (if include j then BTreeMap.insert j v merged else merged),
    get-insert j k v merged,
    get-Above j entries,
    o.cmp_reverse j k,
    o.eq_of_cmp k j,
    o.eq_of_cmp j k,
  )

  -- The merge of the two selections, without the panic.
  abbrev copied : Map K V → Patch K V → (K → Bool) → Map K V
  copied base p c = copy_included (λ k. not_deleted (BTreeMap.get k p)) (select c base) []

  abbrev merged_entries : Map K V → Patch K V → (K → Bool) → Map K V
  merged_entries base p c = commit (select c p) (copied base p c)

  merged_entries-IsSorted :
      (base : Map K V) (p : Patch K V) (c : K → Bool) → IsSorted (merged_entries base p c)
  merged_entries-IsSorted base p c =
      commit-IsSorted (select c p) _ (copy_included-IsSorted _ _ [] tt)

  get-merged_entries :
      (base : Map K V) (p : Patch K V) (c : K → Bool) (k : K)
      → IsSorted base
      → IsSorted p
      → BTreeMap.get k (merged_entries base p c) ≡ (if c k then get base k p else none)
  unfolding get
  get-merged_entries base p c k s t = ground (
    arith,
    get-commit k (select c p) (copied base p c) (select-IsSorted c p t),
    get-copy_included (λ k. not_deleted (BTreeMap.get k p)) k (select c base) []
        (select-IsSorted c base s),
    get-select c k p,
    get-select c k base,
    nothing,
  )
    where
      nothing : BTreeMap.get {V = V} k [] ≡ none
      nothing = unfold BTreeMap.get in refl

  -- A scan of the transaction, on a sorted store and buffer, yields what the same scan yields
  -- after the commit, and panics on the same bounds.
  pub range-commit :
      (base : Map K V) (p : Patch K V) (lo hi : Bound K)
      → IsSorted base
      → IsSorted p
      → range base lo hi p ≡ BTreeMap.range lo hi (commit p base)
  unfolding range merge_range_maps BTreeMap.range
  range-commit base p lo hi s t = ground (arith, same)
    where
      same : merged_entries base p (contains lo hi) ≡ select (contains lo hi) (commit p base)
      same =
          ext_of_get _ _ (merged_entries-IsSorted base p (contains lo hi))
            (select-IsSorted _ _ (commit-IsSorted p base s))
            λ k. ground (
              arith,
              get-merged_entries base p (contains lo hi) k s t,
              get-select (contains lo hi) k (commit p base),
              get-commit k p base t,
            )
