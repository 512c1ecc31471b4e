-- ===== src/Automerge/Documents.antt =====
-- crates/btree-automerge/src/transaction.rs, automerge_tree.rs and `reconstruct_document_values`
-- of reconstruction.rs: documents as a transaction and as a tree over their records. A stream is
-- the list of what it yields when it is read to its end.
pub mod Laws
use rs_converge.Prelude.{Bool, false, Option, none, some, List, [], ◌∷◌, ◌++◌}
use rs_converge.Order.Lex.{Bytes}
use rs_converge.BTreeMap.{Bound}
use rs_converge.BTree.{BTreeResult, ok, err, ◌>>=◌}
use rs_converge.BTree.Interface.{Transaction}
use rs_converge.Automerge.Document.{Automerge}
use rs_converge.Automerge.Key.{DocumentChangeKey, key_ord, map_start, map_end}
use rs_converge.Automerge.Reconstruct.{
  Item, ReconstructedDocument, ReconstructedRangeDocument, reconstruct_documents,
}
use rs_converge.Automerge.Reconstruct.Grouping.{group_keys}
use rs_converge.Automerge.Compaction.{ThresholdPolicy, remove_keys}
use rs_converge.Automerge.Records.{
  reconstruct_document, tx_get_document, tx_insert_snapshot, tx_remove_document, tx_update,
}

module _ {Doc : Type 0} where
  unfoldable pub document_of : Option (ReconstructedDocument Doc) → Option Doc
  document_of none = none
  document_of (some d) = d.doc

  unfoldable pub found_document : Option (Doc × Bool) → Option Doc
  found_document none = none
  found_document (some (doc, _)) = some doc

  unfoldable pub yielded : ReconstructedDocument Doc → Option Doc → List (BTreeResult (Bytes × Doc))
  yielded d none = []
  yielded d (some doc) = ok (d.id, doc) ∷ []

  -- the loop over `documents`, by what it yields
  unfoldable pub yield_documents :
      List (ReconstructedRangeDocument Doc) → List (BTreeResult (Bytes × Doc))
  unfolding yielded
  yield_documents [] = []
  yield_documents (g ∷ gs) = elim g.result [
    | ok d ↦ yielded d d.doc ++ yield_documents gs
    | err e ↦ err e ∷ yield_documents gs
  ]

  -- the loop of `reconstruct_document_values`: `?` ends it with the first error
  unfoldable pub yield_values :
      List (ReconstructedRangeDocument Doc) → List (BTreeResult (Bytes × Doc))
  unfolding yielded
  yield_values [] = []
  yield_values (g ∷ gs) = elim g.result [
    | ok d ↦ yielded d d.doc ++ yield_values gs
    | err e ↦ err e ∷ []
  ]

  -- `?` at the end of the stream of `remove_range`
  unfoldable pub yield_error : BTreeResult (Unit {0}) → List (BTreeResult (Bytes × Doc))
  yield_error (ok _) = []
  yield_error (err e) = err e ∷ []

-- `reconstruct_document_values` of src/reconstruction.rs
unfoldable pub reconstruct_document_values :
    (am : Automerge) → List Item → List (BTreeResult (Bytes × am.Doc))
unfolding reconstruct_documents yield_values
reconstruct_document_values am items = yield_values (reconstruct_documents am items)

-- `range` of `AutomergeBTree`, over the stream of the tree inside
unfoldable pub range_documents :
    (am : Automerge)
    → (Bound DocumentChangeKey → Bound DocumentChangeKey → List Item)
    → Bound Bytes
    → Bound Bytes
    → List (BTreeResult (Bytes × am.Doc))
unfolding map_start map_end reconstruct_documents yield_documents
range_documents am inner lo hi =
    yield_documents (reconstruct_documents am (inner (map_start lo) (map_end hi)))

module _ (am : Automerge) (tx : Transaction DocumentChangeKey Bytes) where
  -- `get_document`
  unfoldable pub get_document : Bytes → tx.State → BTreeResult (Option am.Doc)
  unfolding reconstruct_document document_of
  get_document id s = reconstruct_document am tx id s >>= λ d. ok (document_of d)

  -- `get` of `AutomergeBTree`, by the transaction that it begins and drops
  unfoldable pub tree_get :
      Bytes → ThresholdPolicy → BTreeResult tx.State → BTreeResult (Option am.Doc)
  unfolding tx_get_document found_document
  tree_get id policy begun =
      begun >>= λ s. (tx_get_document am tx id false policy s).0 >>= λ d. ok (found_document d)

  abbrev pub range_in : tx.State → Bound DocumentChangeKey → Bound DocumentChangeKey → List Item
  range_in s lo hi = tx.range lo hi s

  -- `range` of `AutomergeBTreeTransaction`
  unfoldable pub range : Bound Bytes → Bound Bytes → tx.State → List (BTreeResult (Bytes × am.Doc))
  unfolding range_documents
  range lo hi s = range_documents am (range_in s) lo hi

  unfoldable pub insert : Bytes → am.Doc → tx.State → BTreeResult (Unit {0}) × tx.State
  unfolding tx_insert_snapshot
  insert id doc s = tx_insert_snapshot am tx id doc s

  unfoldable pub update :
      Bytes
      → (am.Doc → BTreeResult am.Doc)
      → ThresholdPolicy
      → tx.State
      → BTreeResult (Option (Unit {0})) × tx.State
  unfolding tx_update
  update id f policy s = let (r, t) = tx_update am tx id f policy s in (r >>= λ _. ok (some tt), t)

  unfoldable pub remove : Bytes → tx.State → BTreeResult (Option am.Doc) × tx.State
  unfolding tx_remove_document
  remove id s = tx_remove_document am tx id s

  unfoldable pub remove_range :
      Bound Bytes → Bound Bytes → tx.State → List (BTreeResult (Bytes × am.Doc)) × tx.State
  unfolding map_start map_end reconstruct_documents yield_documents remove_keys yield_error
  remove_range lo hi s =
      let documents = reconstruct_documents am (tx.range (map_start lo) (map_end hi) s) in
      let (r, t) = remove_keys tx (group_keys documents) s in
      (yield_documents documents ++ yield_error r, t)
