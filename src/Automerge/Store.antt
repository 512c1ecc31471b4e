-- ===== src/Automerge/Store.antt =====
-- crates/btree-automerge/src/change_store.rs: a transaction on byte strings as one on the keys of
-- change records.
pub mod Laws
use rs_converge.Prelude.{Option, List, [], ◌∷◌}
use rs_converge.Order.Lex.{Bytes, bytes_ord}
use rs_converge.BTreeMap.{Bound, included, excluded, unbounded}
use rs_converge.BTree.{BTreeResult, ok, err}
use rs_converge.BTree.Interface.{Transaction}
use rs_converge.Automerge.Key.{DocumentChangeKey, encode_ordered, decode_ordered}
use rs_converge.Automerge.Reconstruct.{Item}

-- one end of `bounds`
unfoldable pub encode_bound : Bound DocumentChangeKey → Bound Bytes
encode_bound (included key) = included (encode_ordered key)
encode_bound (excluded key) = excluded (encode_ordered key)
encode_bound unbounded = unbounded

-- the stream of `range`: `?` ends it with the first error
unfoldable pub decode_entries : List (BTreeResult (Bytes × Bytes)) → List Item
decode_entries [] = []
decode_entries (err e ∷ entries) = err e ∷ []
decode_entries (ok (key, value) ∷ entries) =
    let rest = decode_entries entries in
    elim (decode_ordered key) [ ok k ↦ ok (k, value) ∷ rest | err e ↦ err e ∷ [] ]

module _ (inner : Transaction Bytes Bytes) where
  unfoldable pub get : DocumentChangeKey → inner.State → BTreeResult (Option Bytes)
  get key s = inner.get (encode_ordered key) s

  unfoldable pub range : Bound DocumentChangeKey → Bound DocumentChangeKey → inner.State → List Item
  unfolding encode_bound decode_entries
  range lo hi s = decode_entries (inner.range (encode_bound lo) (encode_bound hi) s)

  unfoldable pub insert :
      DocumentChangeKey → Bytes → inner.State → BTreeResult (Unit {0}) × inner.State
  insert key value s = inner.insert (encode_ordered key) value s

  unfoldable pub remove : DocumentChangeKey → inner.State → BTreeResult (Option Bytes) × inner.State
  remove key s = inner.remove (encode_ordered key) s
