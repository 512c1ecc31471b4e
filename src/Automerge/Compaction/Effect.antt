-- ===== src/Automerge/Compaction/Effect.antt =====
-- What a compaction leaves in the store.
use rs_converge.Prelude.{
  ◌≡◌, refl, ap, Bool, true, not, none, some, List, [], ◌∷◌, map, arith, if◌then◌else◌, ◌&&◌,
  is_some, inl, inr,
}
use rs_converge.Order.Lex.{Bytes}
use rs_converge.BTreeMap
use rs_converge.BTreeMap.{Map, contains, select, IsSorted}
use rs_converge.BTreeMap.Lookup.{at_key, get-insert, get-select}
use rs_converge.BTreeMap.Sorted.{insert-IsSorted, select-IsSorted}
use rs_converge.BTreeMap.Extensional.{ext_of_get}
use rs_converge.BTreeMap.Bulk.{keys, remove_all, get-remove_all, has_key-keys-select}
use rs_converge.BTree.{BTreeResult, ok, err, chain_ok, result_cases}
use rs_converge.BTree.Interface.{Transaction}
use rs_converge.Automerge.Document.{Automerge}
use rs_converge.Automerge.Key.{DocumentChangeKey, IsKey, key_ord, eq_of_cmp_key, range_for}
use rs_converge.Automerge.Key.Ranges.{contains-range_for}
use rs_converge.Automerge.Reconstruct.{Item}
use rs_converge.Automerge.Compaction.{
  collect_keys, document_keys, remove_keys, replace_records, run_compaction, compacted_key,
  compacted_bytes,
}

-- A key lies in the range that a scan of the document `id` reads.
unfoldable pub belongs : Bytes → DocumentChangeKey → Bool
belongs id = contains (range_for id).0 (range_for id).1

abbrev pub Records : Type 0
Records = Map DocumentChangeKey Bytes

-- A listing that succeeds has met no error.
collected :
    (items : List Item) (ks : List DocumentChangeKey)
    → collect_keys items ≡ ok ks
    → (es : Records) × (items ≡ map ok es) × (keys es ≡ ks)
unfolding collect_keys
collected [] ks h = ([], refl, ground arith)
collected (err e ∷ items) ks h = cc
collected (ok (k, b) ∷ items) ks h =
    let (ks', same, found) = chain_ok (λ ks'. ok (k ∷ ks')) (collect_keys items) h in
    let (es, shape, listed) = collected items ks' found in
    ((k, b) ∷ es, ap (λ (l : List Item). ok (k, b) ∷ l) shape, cc)

module _ (tx : Transaction DocumentChangeKey Bytes) where
  -- The keys that `document_keys` lists are those of the document.
  document_keys_view :
      (id : Bytes) (s : tx.State) (ks : List DocumentChangeKey)
      → document_keys tx id s ≡ ok ks
      → ks ≡ keys (select (belongs id) (tx.view s))
  unfolding document_keys belongs
  document_keys_view id s ks h =
      let (es, shape, listed) = collected (tx.range (range_for id).0 (range_for id).1 s) ks h in
      let all = tx.range_view (range_for id).0 (range_for id).1 s es shape in cc

  pub remove_keys_view :
      (ks : List DocumentChangeKey) (s : tx.State)
      → (remove_keys tx ks s).0 ≡ ok tt
      → tx.view (remove_keys tx ks s).1 ≡ remove_all ks (tx.view s)
  unfolding remove_keys remove_all
  remove_keys_view [] s h = refl
  remove_keys_view (k ∷ ks) s h = elim (result_cases (tx.remove k s).0) [
    | inl (v, e) ↦
        let rest = remove_keys_view ks (tx.remove k s).1 (ground (arith, e)) in
        ground (arith, e, rest, (tx.remove_view k s v e).1)
    | inr (x, e) ↦ absurd (ground (arith, e))
  ]

module _ (am : Automerge) (tx : Transaction DocumentChangeKey Bytes) where
  module _ (id : Bytes) (doc : am.Doc) (s : tx.State) where
    -- A compaction that succeeds has written the snapshot and then removed what it had listed.
    run_compaction_view :
        (run_compaction am tx id doc s).0 ≡ ok tt
        → tx.view (run_compaction am tx id doc s).1
          ≡ remove_all
              (keys (select (belongs id) (tx.view s)))
              (BTreeMap.insert (compacted_key am id doc) (compacted_bytes am doc) (tx.view s))
    unfolding run_compaction replace_records
    run_compaction_view h = elim (result_cases (document_keys tx id s)) [
      | inl (ks, listed) ↦ elim (result_cases (written.0)) [
        | inl (u, e) ↦
            let removed = remove_keys_view tx ks written.1 (ground (arith, listed, e)) in
            ground (
              arith,
              listed,
              e,
              removed,
              document_keys_view tx id s ks listed,
              tx.insert_view (compacted_key am id doc) (compacted_bytes am doc) s e,
            )
        | inr (x, e) ↦ absurd (ground (arith, listed, e))
      ]
      | inr (x, e) ↦ absurd (ground (arith, e))
    ]
      where
        written : BTreeResult (Unit {0}) × tx.State
        written = tx.insert (compacted_key am id doc) (compacted_bytes am doc) s

  module _ (id : Bytes) (doc : am.Doc) (s : tx.State) where
    get-run_compaction :
        (run_compaction am tx id doc s).0 ≡ ok tt
        → (k : DocumentChangeKey)
        → BTreeMap.get k (tx.view (run_compaction am tx id doc s).1) ≡ (
            if belongs id k && is_some (BTreeMap.get k (tx.view s))
            then none
            else at_key
                (compacted_key am id doc)
                k
                (some (compacted_bytes am doc))
                (BTreeMap.get k (tx.view s)))
    get-run_compaction h k =
        rw (run_compaction_view id doc s h, get-remove_all, has_key-keys-select, get-insert)

    belongs-compacted_key :
        IsKey (compacted_key am id doc) → belongs id (compacted_key am id doc) ≡ true
    unfolding belongs
    belongs-compacted_key h = (contains-range_for (compacted_key am id doc) h id).1 refl

    -- A compaction that succeeds, of a document with no record under the key of its new snapshot
    -- (a hash of 32 bytes), leaves the snapshot as the document's one record, and every other
    -- document as it was.
    pub run_compaction_keeps :
        IsKey (compacted_key am id doc)
        → BTreeMap.get (compacted_key am id doc) (tx.view s) ≡ none
        → (run_compaction am tx id doc s).0 ≡ ok tt
        → tx.view (run_compaction am tx id doc s).1
          ≡ BTreeMap.insert
              (compacted_key am id doc)
              (compacted_bytes am doc)
              (select (λ k. not (belongs id k)) (tx.view s))
    run_compaction_keeps well fresh h =
        ext_of_get _ _ (tx.view-IsSorted _)
          (insert-IsSorted _ _ _ (select-IsSorted _ _ (tx.view-IsSorted s)))
          λ k.
            rw (get-run_compaction h k, get-insert, get-select)
              (ground (
                arith,
                fresh,
                belongs-compacted_key well,
                eq_of_cmp_key (compacted_key am id doc) k,
              ))

    -- A compaction that succeeds, of a document that already has a record under the key of its
    -- new snapshot, leaves no record of the document: the snapshot is written over that record,
    -- and removed with the old ones.
    pub run_compaction_loses :
        (bytes : Bytes)
        → BTreeMap.get (compacted_key am id doc) (tx.view s) ≡ some bytes
        → IsKey (compacted_key am id doc)
        → (run_compaction am tx id doc s).0 ≡ ok tt
        → tx.view (run_compaction am tx id doc s).1 ≡ select (λ k. not (belongs id k)) (tx.view s)
    run_compaction_loses bytes present well h =
        ext_of_get _ _ (tx.view-IsSorted _) (select-IsSorted _ _ (tx.view-IsSorted s)) λ k.
          rw (get-run_compaction h k, get-select)
            (ground (
              arith,
              present,
              belongs-compacted_key well,
              eq_of_cmp_key (compacted_key am id doc) k,
            ))
