-- ===== src/BTree/InMemory/Session/Refine.antt =====
-- A transaction behaves as its operations on a plain map.
use rs_converge.Prelude.{◌≡◌, refl, List, [], ◌∷◌, arith, not}
use rs_converge.Order.{Ord}
use rs_converge.BTreeMap
use rs_converge.BTreeMap.{Map, Bound, IsSorted, contains, select}
use rs_converge.BTreeMap.Lookup.{get-insert, get-remove, get-select}
use rs_converge.BTreeMap.Sorted.{insert-IsSorted, remove-IsSorted, select-IsSorted}
use rs_converge.BTreeMap.Extensional.{ext_of_get}
use rs_converge.BTree.{BTreeResult}
use rs_converge.BTree.InMemory.Patch.{
  Patch, get, insert, remove, commit, update, remove_each, remove_range,
}
use rs_converge.BTree.InMemory.Laws.{
  commit-IsSorted, get-commit, get-insert_patch, get-remove_patch, insert_patch-IsSorted,
  remove_patch-IsSorted, update_patch-IsSorted,
}
use rs_converge.BTree.InMemory.Range.{range-commit}
use rs_converge.BTree.InMemory.Session.{
  Call, read, scan, write, modify, delete, delete_range, Reply, call, apply, call_all, apply_all,
  get-remove_each, remove_each-IsSorted,
}

module _ {ℓ κ} {K : Type ℓ} {V : Type κ} ⦃o : Ord K⦄ where
  -- Over one store, a patch that reads as a map commits to it.
  commit_eq :
      (base n : Map K V) (q : Patch K V)
      → IsSorted base
      → IsSorted q
      → IsSorted n
      → ((j : K) → get base j q ≡ BTreeMap.get j n)
      → commit q base ≡ n
  commit_eq base n q s t u h =
      ext_of_get _ _ (commit-IsSorted q base s) u λ j. ground (arith, get-commit j q base t, h j)

  -- The call and the plain call agree, and so do what they leave.
  abbrev Agrees : Map K V → Patch K V → Reply K V × Patch K V → Reply K V × Map K V → Type (ℓ ⊔ κ)
  Agrees base p (r, q) (r', n) = IsSorted q × (r ≡ r') × (commit q base ≡ n)

  module _ (base : Map K V) (p : Patch K V) (s : IsSorted base) (t : IsSorted p) where
    pub insert-Agrees :
        (k : K) (v : V) → commit (insert k v p) base ≡ BTreeMap.insert k v (commit p base)
    insert-Agrees k v =
        commit_eq base _ _ s (insert_patch-IsSorted k v p t)
          (insert-IsSorted k v _ (commit-IsSorted p base s))
          λ j. ground (
            arith,
            get-insert_patch base k j v p,
            get-insert k j v (commit p base),
            get-commit j p base t,
          )

    pub remove-Agrees :
        (k : K) → commit (remove base k p).1 base ≡ BTreeMap.remove k (commit p base)
    remove-Agrees k =
        commit_eq base _ _ s (remove_patch-IsSorted base k p t)
          (remove-IsSorted k _ (commit-IsSorted p base s))
          λ j. ground (
            arith,
            (get-remove_patch base k j p).1,
            get-remove k j (commit p base),
            get-commit j p base t,
          )

    remove_each_agrees :
        (lo hi : Bound K)
        → commit (remove_each base (select (contains lo hi) (commit p base)) p) base
          ≡ select (λ k. not (contains lo hi k)) (commit p base)
    remove_each_agrees lo hi =
        commit_eq base _ _ s (remove_each-IsSorted base _ p t)
          (select-IsSorted _ _ (commit-IsSorted p base s))
          λ j. ground (
            arith,
            get-remove_each base (select (contains lo hi) (commit p base)) j p,
            get-select (contains lo hi) j (commit p base),
            get-select (λ k. not (contains lo hi k)) j (commit p base),
            get-commit j p base t,
          )

    modify-Agrees :
        (k : K) (f : V → BTreeResult V)
        → Agrees base p (call base (modify k f) p) (apply (modify k f) (commit p base))
    unfolding call apply update
    modify-Agrees k f = (
      update_patch-IsSorted base k f p t,
      ground (arith, get-commit k p base t),
      grind (arith, get-commit k p base t, insert-Agrees k),
    )

    delete_range-Agrees :
        (lo hi : Bound K)
        → Agrees base p
            (call base (delete_range lo hi) p)
            (apply (delete_range lo hi) (commit p base))
    unfolding call apply remove_range BTreeMap.range
    delete_range-Agrees lo hi = (
      ground (
        arith,
        range-commit base p lo hi s t,
        remove_each-IsSorted base (select (contains lo hi) (commit p base)) p t,
      ),
      ground (arith, range-commit base p lo hi s t),
      ground (arith, range-commit base p lo hi s t, remove_each_agrees lo hi),
    )

    call-Agrees : (c : Call K V) → Agrees base p (call base c p) (apply c (commit p base))
    unfolding call apply
    call-Agrees (read k) = (t, ground (arith, get-commit k p base t), refl)
    call-Agrees (scan lo hi) = (t, ground (arith, range-commit base p lo hi s t), refl)
    call-Agrees (write k v) = (insert_patch-IsSorted k v p t, refl, insert-Agrees k v)
    call-Agrees (modify k f) = modify-Agrees k f
    call-Agrees (delete k) = (
      remove_patch-IsSorted base k p t,
      ground (arith, (get-remove_patch base k k p).0, get-commit k p base t),
      remove-Agrees k,
    )
    call-Agrees (delete_range lo hi) = delete_range-Agrees lo hi

  -- From a sorted store and patch, the replies of a transaction's calls and the store after its
  -- commit are those of the same calls made one by one on the map that the patch commits to.
  pub call_all_refines :
      (base : Map K V) (cs : List (Call K V)) (p : Patch K V)
      → IsSorted base
      → IsSorted p
      → ((call_all base cs p).0 ≡ (apply_all cs (commit p base)).0)
        × (commit (call_all base cs p).1 base ≡ (apply_all cs (commit p base)).1)
  unfolding call_all apply_all
  call_all_refines base [] p s t = (refl, refl)
  call_all_refines base (c ∷ cs) p s t =
      let (sorted, same, left) = call-Agrees base p s t c in
      let (replies, store) = call_all_refines base cs (call base c p).1 s sorted in
      (cc, rw left at store)

  -- A transaction that starts on a sorted store and commits, with no other commit between,
  -- answers each call (reads, scans, writes, updates, removals, failing updates and panicking
  -- bounds included) and leaves the store as if its calls had been made on the store one by one.
  pub transaction_refines :
      (base : Map K V) (cs : List (Call K V))
      → IsSorted base
      → ((call_all base cs []).0 ≡ (apply_all cs base).0)
        × (commit (call_all base cs []).1 base ≡ (apply_all cs base).1)
  unfolding commit
  transaction_refines base cs s = call_all_refines base cs [] s tt
