-- ===== src/BTree/InMemory/Instance.antt =====
-- The in-memory transaction meets the interface of `BTreeTransaction`.
use rs_converge.Prelude.{◌≡◌, refl, ap, Option, none, some, List, [], ◌∷◌, map, arith}
use rs_converge.Order.{Ord}
use rs_converge.BTreeMap
use rs_converge.BTreeMap.{Map, Bound, IsSorted, contains, select}
use rs_converge.BTree.{BTreeResult, ok, err, custom}
use rs_converge.BTree.Interface.{Transaction}
use rs_converge.BTree.InMemory.Patch.{Patch, get, insert, remove, commit, range}
use rs_converge.BTree.InMemory.Laws.{
  commit-IsSorted, get-commit, get-remove_patch, insert_patch-IsSorted, remove_patch-IsSorted,
}
use rs_converge.BTree.InMemory.Range.{range-commit}
use rs_converge.BTree.InMemory.Session.Refine.{insert-Agrees, remove-Agrees}

pub map-ok_injective : {A : Type 0} (xs ys : List A) → map ok xs ≡ map ok ys → xs ≡ ys
map-ok_injective [] [] h = refl
map-ok_injective [] (y ∷ ys) h = cc
map-ok_injective (x ∷ xs) [] h = cc
map-ok_injective (x ∷ xs) (y ∷ ys) h = ground (arith, map-ok_injective xs ys)

module _ {K V : Type 0} ⦃o : Ord K⦄ where
  -- A range that panics ends the transaction, here as an error.
  unfoldable pub items : Option (Map K V) → List (BTreeResult (K × V))
  items none = err (custom []) ∷ []
  items (some m) = map ok m

  items_shape : (r : Option (Map K V)) (es : Map K V) → items r ≡ map ok es → r ≡ some es
  unfolding items
  items_shape none [] h = cc
  items_shape none (e ∷ es) h = cc
  items_shape (some m) es h = ap some (map-ok_injective m es h)

  module _ (base : Map K V) (s : IsSorted base) where
    abbrev Sorted : Type 0
    Sorted = (p : Patch K V) × IsSorted p

    pub range_law :
        (lo hi : Bound K) (p : Sorted) (es : Map K V)
        → items (range base lo hi p.0) ≡ map ok es
        → es ≡ select (contains lo hi) (commit p.0 base)
    unfolding BTreeMap.range
    range_law lo hi p es h =
        ground (arith, range-commit base p.0 lo hi s p.1, items_shape (range base lo hi p.0) es h)

    pub get_law :
        (k : K) (p : Sorted) (v : Option V)
        → ◌≡◌ {A = BTreeResult (Option V)} (ok (get base k p.0)) (ok v)
        → v ≡ BTreeMap.get k (commit p.0 base)
    get_law k p v h = ground (arith, get-commit k p.0 base p.1)

    pub remove_law :
        (k : K) (p : Sorted) (v : Option V)
        → ◌≡◌ {A = BTreeResult (Option V)} (ok (remove base k p.0).0) (ok v)
        → (v ≡ BTreeMap.get k (commit p.0 base))
          × (commit (remove base k p.0).1 base ≡ BTreeMap.remove k (commit p.0 base))
    remove_law k p v h = (
      ground (arith, (get-remove_patch base k k p.0).0, get-commit k p.0 base p.1),
      remove-Agrees base p.0 s p.1 k,
    )

    -- Its operations never fail; only a range may panic.
    unfoldable pub in_memory : Transaction K V
    unfolding items
    in_memory = record {
      State = Sorted;
      view = λ p. commit p.0 base;
      get = λ k p. ok (get base k p.0);
      range = λ lo hi p. items (range base lo hi p.0);
      insert = λ k v p. (ok tt, (insert k v p.0, insert_patch-IsSorted k v p.0 p.1));
      remove = λ k p.
          (ok (remove base k p.0).0, ((remove base k p.0).1, remove_patch-IsSorted base k p.0 p.1));
      view-IsSorted = λ p. commit-IsSorted p.0 base s;
      get_view = get_law;
      range_view = range_law;
      insert_view = λ k v p h. insert-Agrees base p.0 s p.1 k v;
      remove_view = remove_law;
    }
