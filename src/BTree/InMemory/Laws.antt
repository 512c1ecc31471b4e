-- ===== src/BTree/InMemory/Laws.antt =====
-- What a transaction reads is what its commit writes.
use rs_converge.Prelude.{◌≡◌, ◌⊎◌, refl, none, some, [], ◌∷◌, arith}
use rs_converge.Order.{Ord}
use rs_converge.BTreeMap
use rs_converge.BTreeMap.{Map, IsSorted}
use rs_converge.BTreeMap.Lookup.{at_key, get-insert, get-remove}
use rs_converge.BTreeMap.Sorted.{insert-IsSorted, remove-IsSorted}
use rs_converge.BTreeMap.Extensional.{get-Above, ext_of_get}
use rs_converge.BTree.{BTreeResult}
use rs_converge.BTree.InMemory.Patch.{
  PatchEntry, present, deleted, as_option, Patch, get, insert, remove, apply_entry, commit, update,
}

module _ {ℓ κ} {K : Type ℓ} {V : Type κ} ⦃o : Ord K⦄ where
  get-apply_entry :
      (j k : K) (e : PatchEntry V) (base : Map K V)
      → BTreeMap.get k (apply_entry j e base) ≡ at_key j k (as_option e) (BTreeMap.get k base)
  get-apply_entry j k (present v) base = get-insert j k v base
  get-apply_entry j k deleted base = get-remove j k base

  pub apply_entry-IsSorted :
      (j : K) (e : PatchEntry V) (base : Map K V) → IsSorted base → IsSorted (apply_entry j e base)
  apply_entry-IsSorted j (present v) base s = insert-IsSorted j v base s
  apply_entry-IsSorted j deleted base s = remove-IsSorted j base s

  pub commit-IsSorted : (p : Patch K V) (base : Map K V) → IsSorted base → IsSorted (commit p base)
  unfolding commit
  commit-IsSorted [] base s = s
  commit-IsSorted ((j, e) ∷ p) base s =
      commit-IsSorted p (apply_entry j e base) (apply_entry-IsSorted j e base s)

  -- After the commit of a sorted buffer the store holds at each key what the transaction read
  -- there.
  pub get-commit :
      (k : K) (p : Patch K V) (base : Map K V)
      → IsSorted p
      → BTreeMap.get k (commit p base) ≡ get base k p
  unfolding commit get BTreeMap.get
  get-commit k [] base s = refl
  get-commit k ((j, e) ∷ p) base s = ground (
    arith,
    get-commit k p (apply_entry j e base),
    get-apply_entry j k e base,
    get-Above j p,
    o.cmp_reverse j k,
    o.eq_of_cmp k j,
    o.eq_of_cmp j k,
  )

  -- A write reads back, and leaves the other keys alone.
  pub get-insert_patch :
      (base : Map K V) (k j : K) (v : V) (p : Patch K V)
      → get base j (insert k v p) ≡ at_key k j (some v) (get base j p)
  unfolding get insert
  get-insert_patch base k j v p = ground (arith, get-insert k j (present v) p)

  -- `remove` returns what was read, and afterwards nothing is read at the key.
  pub get-remove_patch :
      (base : Map K V) (k j : K) (p : Patch K V)
      → ((remove base k p).0 ≡ get base k p)
        × (get base j (remove base k p).1 ≡ at_key k j none (get base j p))
  unfolding get remove
  get-remove_patch base k j p =
      (ground arith, ground (arith, get-insert k j deleted p, o.eq_of_cmp k j))

  pub insert_patch-IsSorted : (k : K) (v : V) (p : Patch K V) → IsSorted p → IsSorted (insert k v p)
  unfolding insert
  insert_patch-IsSorted k v p s = insert-IsSorted k (present v) p s

  pub remove_patch-IsSorted :
      (base : Map K V) (k : K) (p : Patch K V) → IsSorted p → IsSorted (remove base k p).1
  unfolding remove
  remove_patch-IsSorted base k p s = ground (arith, insert-IsSorted k deleted p s)

  pub update_patch-IsSorted :
      (base : Map K V) (k : K) (f : V → BTreeResult V) (p : Patch K V)
      → IsSorted p
      → IsSorted (update base k f p).1
  unfolding update
  update_patch-IsSorted base k f p s = grind (arith, insert_patch-IsSorted)

  -- Two patches with no key in common may be committed in either order: concurrent transactions
  -- that write different keys do not disturb each other.
  pub commit_comm :
      (p q : Patch K V) (base : Map K V)
      → IsSorted base
      → IsSorted p
      → IsSorted q
      → ((k : K) → (BTreeMap.get k p ≡ none) ⊎ (BTreeMap.get k q ≡ none))
      → commit p (commit q base) ≡ commit q (commit p base)
  unfolding get
  commit_comm p q base s t u apart =
      ext_of_get _ _ (commit-IsSorted p _ (commit-IsSorted q base s))
        (commit-IsSorted q _ (commit-IsSorted p base s))
        λ k. ground (
          arith,
          apart k,
          get-commit k p (commit q base) t,
          get-commit k q base u,
          get-commit k q (commit p base) u,
          get-commit k p base t,
        )
