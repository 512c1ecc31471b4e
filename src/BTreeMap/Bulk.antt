-- ===== src/BTreeMap/Bulk.antt =====
-- Removing a list of keys from a map.
use Prim.Native.Nat.Ordering.{lt, eq, gt}
use rs_converge.Prelude.{
  ◌≡◌, refl, Bool, true, false, ◌&&◌, none, List, [], ◌∷◌, arith, if◌then◌else◌, is_some, not,
}
use rs_converge.Order.{Ord}
use rs_converge.BTreeMap.{Map, get, remove, select, IsSorted}
use rs_converge.BTreeMap.Lookup.{get-remove, get-select}
use rs_converge.BTreeMap.Sorted.{remove-IsSorted, select-IsSorted}
use rs_converge.BTreeMap.Extensional.{ext_of_get}

module _ {ℓ κ} {K : Type ℓ} {V : Type κ} where
  -- `BTreeMap::keys`
  abbrev pub keys : Map K V → List K
  keys [] = []
  keys ((k, v) ∷ m) = k ∷ keys m

module _ {ℓ} {K : Type ℓ} ⦃o : Ord K⦄ where
  unfoldable pub has_key : K → List K → Bool
  has_key j [] = false
  has_key j (k ∷ ks) =
      let rest = has_key j ks in elim (o.cmp j k) [ lt ↦ rest | eq ↦ true | gt ↦ rest ]

module _ {ℓ κ} {K : Type ℓ} {V : Type κ} ⦃o : Ord K⦄ where
  unfoldable pub remove_all : List K → Map K V → Map K V
  remove_all [] m = m
  remove_all (k ∷ ks) m = remove_all ks (remove k m)

  pub remove_all-IsSorted : (ks : List K) (m : Map K V) → IsSorted m → IsSorted (remove_all ks m)
  unfolding remove_all
  remove_all-IsSorted [] m s = s
  remove_all-IsSorted (k ∷ ks) m s = remove_all-IsSorted ks (remove k m) (remove-IsSorted k m s)

  pub get-remove_all :
      (j : K) (ks : List K) (m : Map K V)
      → get j (remove_all ks m) ≡ (if has_key j ks then none else get j m)
  unfolding remove_all has_key
  get-remove_all j [] m = refl
  get-remove_all j (k ∷ ks) m =
      ground (arith, get-remove_all j ks (remove k m), get-remove k j m, o.cmp_reverse k j)

  pub has_key-keys-select :
      (c : K → Bool) (j : K) (m : Map K V)
      → has_key j (keys (select c m)) ≡ (c j && is_some (get j m))
  unfolding has_key select get
  has_key-keys-select c j [] = ground arith
  has_key-keys-select c j ((k, v) ∷ m) = ground (arith, has_key-keys-select c j m, o.eq_of_cmp j k)

  -- To remove the keys that pass a test is to select those that do not.
  pub remove_all-keys-select :
      (c : K → Bool) (m : Map K V)
      → IsSorted m
      → remove_all (keys (select c m)) m ≡ select (λ k. not (c k)) m
  remove_all-keys-select c m s =
      ext_of_get _ _ (remove_all-IsSorted (keys (select c m)) m s)
        (select-IsSorted (λ k. not (c k)) m s)
        λ k. rw (get-remove_all, has_key-keys-select, get-select) (ground arith)
