-- ===== src/BTree/Interface.antt =====
-- The `BTreeTransaction` trait of src/btree.rs, as what a client may rely on: an abstract state
-- that is read as a sorted map, and for each operation what it does when it succeeds.
use rs_converge.Prelude.{◌≡◌, Option, List, map}
use rs_converge.Order.{Ord}
use rs_converge.BTreeMap
use rs_converge.BTreeMap.{Map, Bound, IsSorted, contains, select}
use rs_converge.BTree.{BTreeResult, ok}

pub record Transaction (K V : Type 0) ⦃o : Ord K⦄ : Type 1 where
  pub State : Type 0
  pub view : State → Map K V
  pub get : K → State → BTreeResult (Option V)
  pub range : Bound K → Bound K → State → List (BTreeResult (K × V))
  pub insert : K → V → State → BTreeResult (Unit {0}) × State
  pub remove : K → State → BTreeResult (Option V) × State
  pub view-IsSorted : (s : State) → IsSorted (view s)
  pub get_view : (k : K) (s : State) (v : Option V) → get k s ≡ ok v → v ≡ BTreeMap.get k (view s)
  pub range_view :
      (lo hi : Bound K) (s : State) (es : Map K V)
      → range lo hi s ≡ map ok es
      → es ≡ select (contains lo hi) (view s)
  pub insert_view :
      (k : K) (v : V) (s : State)
      → (insert k v s).0 ≡ ok tt
      → view (insert k v s).1 ≡ BTreeMap.insert k v (view s)
  pub remove_view :
      (k : K) (s : State) (v : Option V)
      → (remove k s).0 ≡ ok v
      → (v ≡ BTreeMap.get k (view s)) × (view (remove k s).1 ≡ BTreeMap.remove k (view s))
