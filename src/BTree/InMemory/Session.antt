-- ===== src/BTree/InMemory/Session.antt =====
-- A transaction as a whole against operations on a plain map.
pub mod Refine
use rs_converge.Prelude.{
  ◌≡◌, refl, ap, Option, none, some, List, [], ◌∷◌, arith, Bool, true, false, if◌then◌else◌, not,
  is_some,
}
use rs_converge.Order.{Ord}
use rs_converge.BTreeMap
use rs_converge.BTreeMap.{Map, Bound, IsSorted, contains, select}
use rs_converge.BTreeMap.Lookup.{at_key, get-insert, get-remove, get-select}
use rs_converge.BTreeMap.Sorted.{insert-IsSorted, remove-IsSorted, select-IsSorted}
use rs_converge.BTreeMap.Extensional.{ext_of_get}
use rs_converge.BTree.{BTreeResult, ok, err}
use rs_converge.BTree.InMemory.Patch.{
  Patch, get, insert, remove, commit, range, update, remove_each, remove_range,
}
use rs_converge.BTree.InMemory.Laws.{
  commit-IsSorted, get-commit, get-insert_patch, get-remove_patch, insert_patch-IsSorted,
  remove_patch-IsSorted, update_patch-IsSorted,
}
use rs_converge.BTree.InMemory.Range.{range-commit}

-- The calls of `BTreeTransaction` before its end.
pub data Call {ℓ κ} (K : Type ℓ) (V : Type κ) : Type (ℓ ⊔ κ) where
  read : K → Call K V
  scan : Bound K → Bound K → Call K V
  write : K → V → Call K V
  modify : K → (V → BTreeResult V) → Call K V
  delete : K → Call K V
  delete_range : Bound K → Bound K → Call K V

-- What a call returns: a value, the outcome of an update, or the entries of a stream, of which
-- `none` is a panic.
pub data Reply {ℓ κ} (K : Type ℓ) (V : Type κ) : Type (ℓ ⊔ κ) where
  done : Reply K V
  value : Option V → Reply K V
  updated : BTreeResult (Option (Unit {0})) → Reply K V
  entries : Option (Map K V) → Reply K V

module _ {ℓ κ} {K : Type ℓ} {V : Type κ} ⦃o : Ord K⦄ where
  after_remove_range : Patch K V → Option (Map K V × Patch K V) → Reply K V × Patch K V
  after_remove_range p none = (entries none, p)
  after_remove_range p (some (m, q)) = (entries (some m), q)

  after_update : BTreeResult (Option (Unit {0})) × Patch K V → Reply K V × Patch K V
  after_update (r, q) = (updated r, q)

  after_remove : Option V × Patch K V → Reply K V × Patch K V
  after_remove (v, q) = (value v, q)

  -- One call of a transaction over the store `base`.
  pub call : Map K V → Call K V → Patch K V → Reply K V × Patch K V
  unfolding after_remove_range after_update after_remove
  call base (read k) p = (value (get base k p), p)
  call base (scan lo hi) p = (entries (range base lo hi p), p)
  call base (write k v) p = (done, insert k v p)
  call base (modify k f) p = after_update (update base k f p)
  call base (delete k) p = after_remove (remove base k p)
  call base (delete_range lo hi) p = after_remove_range p (remove_range base lo hi p)

  -- The same call on a map that nothing buffers.
  pub apply : Call K V → Map K V → Reply K V × Map K V
  apply (read k) m = (value (BTreeMap.get k m), m)
  apply (scan lo hi) m = (entries (BTreeMap.range lo hi m), m)
  apply (write k v) m = (done, BTreeMap.insert k v m)
  apply (modify k f) m = elim (BTreeMap.get k m) [
    | none ↦ (updated (ok none), m)
    | some v ↦ elim (f v) [
      | ok w ↦ (updated (ok (some tt)), BTreeMap.insert k w m)
      | err e ↦ (updated (err e), m)
    ]
  ]
  apply (delete k) m = (value (BTreeMap.get k m), BTreeMap.remove k m)
  apply (delete_range lo hi) m = elim (BTreeMap.range lo hi m) [
    | none ↦ (entries none, m)
    | some found ↦ (entries (some found), select (λ k. not (contains lo hi k)) m)
  ]

  pub call_all : Map K V → List (Call K V) → Patch K V → List (Reply K V) × Patch K V
  call_all base [] p = ([], p)
  call_all base (c ∷ cs) p =
      let (r, q) = call base c p in let (rs, q') = call_all base cs q in (r ∷ rs, q')

  pub apply_all : List (Call K V) → Map K V → List (Reply K V) × Map K V
  apply_all [] m = ([], m)
  apply_all (c ∷ cs) m = let (r, n) = apply c m in let (rs, n') = apply_all cs n in (r ∷ rs, n')

  get-remove_each :
      (base found : Map K V) (j : K) (p : Patch K V)
      → get base j (remove_each base found p)
        ≡ (if is_some (BTreeMap.get j found) then none else get base j p)
  unfolding remove_each BTreeMap.get
  get-remove_each base [] j p = refl
  get-remove_each base ((k, v) ∷ found) j p = ground (
    arith,
    get-remove_each base found j (remove base k p).1,
    (get-remove_patch base k j p).1,
    o.cmp_reverse k j,
  )

  remove_each-IsSorted :
      (base found : Map K V) (p : Patch K V) → IsSorted p → IsSorted (remove_each base found p)
  unfolding remove_each
  remove_each-IsSorted base [] p s = s
  remove_each-IsSorted base ((k, v) ∷ found) p s =
      remove_each-IsSorted base found (remove base k p).1 (remove_patch-IsSorted base k p s)
