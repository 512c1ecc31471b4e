-- ===== src/Automerge/Documents/Laws.antt =====
-- Reading and removing documents, whose records these are.
use rs_converge.Prelude.{
  ◌≡◌, ◌≢◌, inl, inr, refl, Bool, false, not, none, some, List, [], ◌∷◌, ◌++◌, map, All, arith,
  Option,
}
use rs_converge.Order.Lex.{Bytes, bytes_ord}
use rs_converge.BTreeMap.{Bound, contains, select}
use rs_converge.BTreeMap.Bulk.{keys, remove_all, remove_all-keys-select}
use rs_converge.BTree.{BTreeResult, BTreeError, ok, err, ◌>>=◌, result_cases}
use rs_converge.BTree.Interface.{Transaction}
use rs_converge.Automerge.Document.{Automerge}
use rs_converge.Automerge.Key.{DocumentChangeKey, IsKey, key_ord, map_start, map_end}
use rs_converge.Automerge.Key.Ranges.{contains-map_document_id_range}
use rs_converge.Automerge.Reconstruct.{
  ReconstructedDocument, ReconstructedRangeDocument, reconstruct_documents,
}
use rs_converge.Automerge.Reconstruct.Grouping.{
  group_keys, item_keys, group_keys-reconstruct_documents,
}
use rs_converge.Automerge.Compaction.{ThresholdPolicy, remove_keys}
use rs_converge.Automerge.Compaction.Effect.{Records, remove_keys_view}
use rs_converge.Automerge.Records.{
  reconstruct_document, get_found, get_reconstructed, tx_get_document,
}
use rs_converge.Automerge.Documents.{
  get_document, tree_get, document_of, found_document, range, remove_range, range_documents,
  yield_error, yielded, yield_documents, yield_values,
}

item_keys-ok : (es : Records) → item_keys (map ok es) ≡ keys es
item_keys-ok [] = refl
item_keys-ok ((k, b) ∷ es) = rw (item_keys-ok es)

append-nil_of_eq : {A : Type 0} (xs ys : List A) → xs ++ ys ≡ xs → ys ≡ []
append-nil_of_eq [] ys h = h
append-nil_of_eq (x ∷ xs) ys h = ground (arith, append-nil_of_eq xs ys)

-- A removal that adds nothing to the stream has not failed.
yield_error-nil :
    {Doc : Type 0} (r : BTreeResult (Unit {0})) → yield_error {Doc = Doc} r ≡ [] → r ≡ ok tt
unfolding yield_error
yield_error-nil (ok u) h = refl
yield_error-nil (err e) h = cc

err-ok :
    {A : Type 0} (e : BTreeError) (rest : List (BTreeResult A)) (es : List A)
    → ◌≢◌ {A = List (BTreeResult A)} (err e ∷ rest) (map ok es)
err-ok e rest [] h = cc
err-ok e rest (x ∷ es) h = cc

module _ {Doc : Type 0} where
  yielded-ok :
      (d : ReconstructedDocument Doc) (doc : Option Doc) (rest : List (BTreeResult (Bytes × Doc)))
      (es : List (Bytes × Doc))
      → yielded d doc ++ rest ≡ map ok es
      → (fs : List (Bytes × Doc)) × (rest ≡ map ok fs)
  unfolding yielded
  yielded-ok d none rest es h = (es, h)
  yielded-ok d (some doc) rest [] h = absurd (ground arith)
  yielded-ok d (some doc) rest (e ∷ es) h = (es, ground arith)

  -- Where no document is unreadable, the values are what the ranges of the adapters yield.
  pub yield_values-yield_documents :
      (gs : List (ReconstructedRangeDocument Doc)) (es : List (Bytes × Doc))
      → yield_documents gs ≡ map ok es
      → yield_values gs ≡ yield_documents gs
  unfolding yield_documents yield_values
  yield_values-yield_documents [] es h = refl
  yield_values-yield_documents (g ∷ gs) es h = elim (result_cases g.result) [
    | inl (d, q) ↦
        let split : yielded d d.doc ++ yield_documents gs ≡ map ok es = ground (arith, q) in
        let (fs, rest) = yielded-ok d d.doc (yield_documents gs) es split in
        ground (arith, q, yield_values-yield_documents gs fs rest)
    | inr (e, q) ↦ absurd (err-ok e (yield_documents gs) es (ground (arith, q)))
  ]

-- Whether the id of a key lies in a range.
abbrev pub in_range : Bound Bytes → Bound Bytes → DocumentChangeKey → Bool
in_range lo hi k = contains lo hi k.id

module _ (lo hi : Bound Bytes) where
  select-in_range :
      (m : Records)
      → All (λ e. IsKey e.0) m
      → select (λ k. not (contains (map_start lo) (map_end hi) k)) m
        ≡ select (λ k. not (in_range lo hi k)) m
  unfolding select
  select-in_range [] h = refl
  select-in_range ((k, b) ∷ m) (h, hs) =
      rw (contains-map_document_id_range k h lo hi, select-in_range m hs) refl

module _ (am : Automerge) (tx : Transaction DocumentChangeKey Bytes) where
  module _ (lo hi : Bound Bytes) (s : tx.State) (es : Records) where
    -- The keys that a removal of a range gathers.
    gathered :
        tx.range (map_start lo) (map_end hi) s ≡ map ok es
        → group_keys (reconstruct_documents am (tx.range (map_start lo) (map_end hi) s))
          ≡ keys (select (contains (map_start lo) (map_end hi)) (tx.view s))
    gathered h =
        let read = tx.range_view (map_start lo) (map_end hi) s es h in
        let listed = group_keys-reconstruct_documents am (tx.range (map_start lo) (map_end hi) s) in
        let all = item_keys-ok es in cc

    removed :
        (remove_range am tx lo hi s).0 ≡ range am tx lo hi s
        → (remove_keys tx
            (group_keys (reconstruct_documents am (tx.range (map_start lo) (map_end hi) s)))
            s).0
          ≡ ok tt
    unfolding remove_range range range_documents
    removed h = yield_error-nil _ (append-nil_of_eq _ _ h)

    -- The removal of a range of documents whose scan meets no error of the store, and that
    -- yields what `range` yields, leaves exactly the records of the documents outside the range,
    -- unreadable documents included, where the keys have hashes of 32 bytes.
    pub remove_range_view :
        All (λ e. IsKey e.0) (tx.view s)
        → tx.range (map_start lo) (map_end hi) s ≡ map ok es
        → (remove_range am tx lo hi s).0 ≡ range am tx lo hi s
        → tx.view (remove_range am tx lo hi s).1 ≡ select (λ k. not (in_range lo hi k)) (tx.view s)
    unfolding remove_range
    remove_range_view well h whole =
        let list = group_keys (reconstruct_documents am (tx.range (map_start lo) (map_end hi) s)) in
        let gone : tx.view (remove_keys tx list s).1 ≡ remove_all list (tx.view s) =
          remove_keys_view tx list s (removed whole) in
        let inner = contains (map_start lo) (map_end hi) in
        let kept = remove_all-keys-select inner (tx.view s) (tx.view-IsSorted s) in
        let read = gathered h in let outer = select-in_range lo hi (tx.view s) well in cc

  tree_get_found :
      (r : BTreeResult (Option (ReconstructedDocument am.Doc))) (policy : ThresholdPolicy)
      (s : tx.State)
      → ((get_reconstructed am tx r false policy s).0 >>= λ d. ok (found_document d))
        ≡ (r >>= λ d. ok (document_of d))
  unfolding get_reconstructed get_found found_document document_of
  tree_get_found (err e) policy s = refl
  tree_get_found (ok none) policy s = refl
  tree_get_found (ok (some d)) policy s = ground arith

  -- A read of the tree gives what a read of the transaction that it begins gives.
  pub tree_get-get_document :
      (id : Bytes) (policy : ThresholdPolicy) (s : tx.State)
      → tree_get am tx id policy (ok s) ≡ get_document am tx id s
  unfolding tree_get get_document tx_get_document
  tree_get-get_document id policy s = tree_get_found (reconstruct_document am tx id s) policy s
