-- ===== src/Automerge/Tests/Stores.antt =====
-- The theorems on the change store and on ranges of documents at concrete inputs.
use rs_converge.Prelude.{◌≡◌, refl, not, [], ◌∷◌, map, All}
use rs_converge.Order.Lex.{Bytes, bytes_ord, cmp_list}
use rs_converge.Order.Escape.{escape}
use rs_converge.BTreeMap
use rs_converge.BTreeMap.{Map, Bound, included, excluded, unbounded, contains, select, IsSorted}
use rs_converge.BTree.{ok}
use rs_converge.BTree.Interface.{Transaction}
use rs_converge.BTree.InMemory.Patch
use rs_converge.BTree.InMemory.Instance
use rs_converge.BTree.InMemory.Instance.{in_memory}
use rs_converge.Automerge.Key.{
  DocumentChangeKey, IsKey, key_ord, cmp_key, encode_ordered, decode_ordered, decode_id, map_start,
  map_end,
}
use rs_converge.Automerge.Compaction.{remove_keys}
use rs_converge.Automerge.Compaction.Effect.{Records}
use rs_converge.Automerge.Reconstruct
use rs_converge.Automerge.Reconstruct.{reconstruct_documents}
use rs_converge.Automerge.Store
use rs_converge.Automerge.Store.{encode_bound, decode_entries}
use rs_converge.Automerge.Store.Laws.{encoded, range_records}
use rs_converge.Automerge.Documents
use rs_converge.Automerge.Documents.{range_documents, yield_documents, yield_error}
use rs_converge.Automerge.Documents.Laws.{in_range, remove_range_view}
use rs_converge.Automerge.Tests.{
  toy, key_one, key_two, key_one-IsKey, key_two-IsKey, store, store-IsSorted,
}

stored-IsSorted : IsSorted (encoded store)
unfolding encoded encode_ordered cmp_list escape
stored-IsSorted = ((refl, tt), (tt, tt))

abbrev inner : Transaction Bytes Bytes
inner = in_memory (encoded store) stored-IsSorted

begun : Transaction.State inner
unfolding in_memory
begun = ([], tt)

abbrev found : Records
found = (key_two, 8 ∷ []) ∷ []

begun_view : Transaction.view inner begun ≡ encoded store
unfolding begun in_memory Patch.commit
begun_view = refl

reads : Store.range inner (excluded key_one) unbounded begun ≡ map ok found
unfolding Store.range encode_bound decode_entries encode_ordered decode_ordered decode_id encoded
    escape begun in_memory Instance.items cmp_list BTreeMap.get BTreeMap.range BTreeMap.range_panics
    BTreeMap.insert BTreeMap.select Patch.range Patch.commit Patch.merge_range_maps
    Patch.copy_included Patch.insert
reads = refl

range_records_example : found ≡ select (contains (excluded key_one) unbounded) store
range_records_example =
    range_records inner store begun (excluded key_one) unbounded found begun_view
      (key_one-IsKey, (key_two-IsKey, tt)) reads

abbrev outer : Transaction DocumentChangeKey Bytes
outer = in_memory store store-IsSorted

start : Transaction.State outer
unfolding in_memory
start = ([], tt)

start-IsKey : All (λ e. IsKey e.0) (Transaction.view outer start)
unfolding start in_memory Patch.commit
start-IsKey = (key_one-IsKey, (key_two-IsKey, tt))

-- The record of the one document in the range is no snapshot: it cannot be read, and is removed.
abbrev lo : Bound Bytes
lo = excluded (0 ∷ 1 ∷ [])

scans : Transaction.range outer (map_start lo) (map_end unbounded) start ≡ map ok found
unfolding map_start map_end start in_memory Instance.items cmp_key cmp_list BTreeMap.get
    BTreeMap.range BTreeMap.range_panics BTreeMap.insert BTreeMap.select Patch.range Patch.commit
    Patch.merge_range_maps Patch.copy_included Patch.insert
scans = refl

removes :
    (Documents.remove_range toy outer lo unbounded start).0
    ≡ Documents.range toy outer lo unbounded start
unfolding Documents.remove_range Documents.range range_documents yield_documents yield_error
    remove_keys reconstruct_documents Reconstruct.reconstruct_from Reconstruct.finish
    Reconstruct.new_pending Reconstruct.apply map_start map_end start in_memory Instance.items
    cmp_key cmp_list BTreeMap.get BTreeMap.range BTreeMap.range_panics BTreeMap.insert
    BTreeMap.select Patch.range Patch.commit Patch.merge_range_maps Patch.copy_included Patch.insert
    Patch.remove
removes = refl

remove_range_view_example :
    Transaction.view outer (Documents.remove_range toy outer lo unbounded start).1
    ≡ select (λ k. not (in_range lo unbounded k)) (Transaction.view outer start)
remove_range_view_example =
    remove_range_view toy outer lo unbounded start found start-IsKey scans removes
