-- ===== src/BTree/Tests.antt =====
-- The in-memory transaction at concrete inputs.
use rs_converge.Prelude.{ℕ, ◌≡◌, refl, List, [], ◌∷◌}
use rs_converge.Order.{nat_ord}
use rs_converge.BTreeMap
use rs_converge.BTreeMap.{Map, IsSorted, included, excluded, unbounded}
use rs_converge.BTree.{ok}
use rs_converge.BTree.InMemory.Patch.{Patch, present, deleted, commit, range}
use rs_converge.BTree.InMemory.Patch
use rs_converge.BTree.InMemory.Laws.{get-commit}
use rs_converge.BTree.InMemory.Range.{range-commit}
use rs_converge.BTree.InMemory.Session.{
  Call, read, write, modify, delete, delete_range, call_all, apply_all,
}
use rs_converge.BTree.InMemory.Session.Refine.{transaction_refines}

abbrev base : Map ℕ ℕ
base = (1, 10) ∷ (2, 20) ∷ (5, 50) ∷ []

base-IsSorted : IsSorted base
base-IsSorted = ((refl, (refl, tt)), ((refl, tt), (tt, tt)))

abbrev calls : List (Call ℕ ℕ)
calls =
    write 3 30
    ∷ delete 1
    ∷ modify 2 (λ v. ok 21)
    ∷ delete_range (included 2) (excluded 4)
    ∷ read 3
    ∷ []

transaction_refines_example :
    ((call_all base calls []).0 ≡ (apply_all calls base).0)
    × (commit (call_all base calls []).1 base ≡ (apply_all calls base).1)
transaction_refines_example = transaction_refines base calls base-IsSorted

abbrev patch : Patch ℕ ℕ
patch = (2, deleted) ∷ (3, present 30) ∷ []

patch-IsSorted : IsSorted patch
patch-IsSorted = ((refl, tt), (tt, tt))

get-commit_example : BTreeMap.get 2 (commit patch base) ≡ Patch.get base 2 patch
get-commit_example = get-commit 2 patch base patch-IsSorted

range-commit_example :
    range base (included 2) unbounded patch
    ≡ BTreeMap.range (included 2) unbounded (commit patch base)
range-commit_example = range-commit base patch (included 2) unbounded base-IsSorted patch-IsSorted
