-- ===== src/Automerge/Records.antt =====
-- crates/btree-automerge/src/util.rs: documents in a transaction over their records, and
-- `reconstruct_document` of src/reconstruction.rs.
use rs_converge.Prelude.{
  ◌≡◌, refl, Bool, true, false, Option, none, some, List, [], ◌∷◌, ◌&&◌, if◌then◌else◌,
}
use mathlib.Core.Path.{subst}
use rs_converge.Order.Lex.{Bytes}
use rs_converge.BTreeMap
use rs_converge.BTree.{BTreeResult, ok, err, ◌>>=◌}
use rs_converge.BTree.Interface.{Transaction}
use rs_converge.Automerge.Document.{Automerge}
use rs_converge.Automerge.Key.{DocumentChangeKey, key_ord, new_incremental, range_for}
use rs_converge.Automerge.Reconstruct.{
  ReconstructedDocument, ReconstructedRangeDocument, reconstruct_documents, id_to_uuid,
}
use rs_converge.Automerge.Compaction.{
  ThresholdPolicy, should_compact, run_compaction, hash_heads, compacted_key, compacted_bytes,
  remove_keys,
}

module _ {Doc : Type 0} where
  abbrev pub first_result :
      List (ReconstructedRangeDocument Doc) → BTreeResult (Option (ReconstructedDocument Doc))
  first_result [] = ok none
  first_result (g ∷ gs) = g.result >>= λ d. ok (some d)

module _ (am : Automerge) (tx : Transaction DocumentChangeKey Bytes) where
  open am use {Doc, new, with_actor, get_heads, save, save_incremental}

  -- `reconstruct_document`
  unfoldable pub reconstruct_document :
      Bytes → tx.State → BTreeResult (Option (ReconstructedDocument Doc))
  unfolding reconstruct_documents range_for
  reconstruct_document id s =
      first_result (reconstruct_documents am (tx.range (range_for id).0 (range_for id).1 s))

  -- The document after a compaction, which has committed what was pending in it.
  abbrev pub saved : Doc → Doc
  saved doc = (save (get_heads doc).1).1

  abbrev pub after_compaction :
      Doc → BTreeResult (Unit {0}) × tx.State → BTreeResult (Option (Doc × Bool)) × tx.State
  after_compaction doc (ok _, s) = (ok (some (saved doc, true)), s)
  after_compaction doc (err e, s) = (err e, s)

  -- the rest of `tx_get_document`, by what has been reconstructed
  unfoldable pub get_found :
      ReconstructedDocument Doc
      → Option Doc
      → Bool
      → ThresholdPolicy
      → tx.State
      → BTreeResult (Option (Doc × Bool)) × tx.State
  unfolding run_compaction should_compact
  get_found d none allow policy s = (ok none, s)
  get_found d (some doc) allow policy s =
      if allow && should_compact policy d.deltas d.bytes_size
      then after_compaction doc (run_compaction am tx d.id doc s)
      else (ok (some (doc, false)), s)

  unfoldable pub get_reconstructed :
      BTreeResult (Option (ReconstructedDocument Doc))
      → Bool
      → ThresholdPolicy
      → tx.State
      → BTreeResult (Option (Doc × Bool)) × tx.State
  unfolding get_found
  get_reconstructed (err e) allow policy s = (err e, s)
  get_reconstructed (ok none) allow policy s = (ok none, s)
  get_reconstructed (ok (some d)) allow policy s = get_found d d.doc allow policy s

  unfoldable pub tx_get_document :
      Bytes → Bool → ThresholdPolicy → tx.State → BTreeResult (Option (Doc × Bool)) × tx.State
  unfolding reconstruct_document get_reconstructed
  tx_get_document id allow policy s = get_reconstructed (reconstruct_document id s) allow policy s

  abbrev pub remove_group :
      List (ReconstructedRangeDocument Doc) → tx.State → BTreeResult (Option Doc) × tx.State
  unfolding remove_keys
  remove_group [] s = (ok none, s)
  remove_group (g ∷ gs) s =
      let (r, t) = remove_keys tx g.keys s in (r >>= (λ _. g.result >>= λ d. ok d.doc), t)

  unfoldable pub tx_remove_document : Bytes → tx.State → BTreeResult (Option Doc) × tx.State
  unfolding reconstruct_documents range_for remove_group
  tx_remove_document id s =
      remove_group (reconstruct_documents am (tx.range (range_for id).0 (range_for id).1 s)) s

  unfoldable pub tx_insert_snapshot : Bytes → Doc → tx.State → BTreeResult (Unit {0}) × tx.State
  tx_insert_snapshot id doc s = tx.insert (compacted_key am id doc) (compacted_bytes am doc) s

  -- `unwrap_or_else` of `tx_update`
  unfoldable pub current : Bytes → Option (Doc × Bool) → Doc
  unfolding id_to_uuid
  current id none = with_actor (id_to_uuid am id) new
  current id (some (doc, _)) = doc

  -- the end of `tx_update`: the changed document is written as one increment
  unfoldable pub write_increment :
      Bytes → BTreeResult Doc → tx.State → BTreeResult (Unit {0}) × tx.State
  write_increment id (err e) s = (err e, s)
  write_increment id (ok doc) s =
      let (heads, committed) = get_heads doc in
      tx.insert (new_incremental id (hash_heads am heads)) (save_incremental committed).0 s

  unfoldable pub update_found :
      Bytes
      → (Doc → BTreeResult Doc)
      → BTreeResult (Option (Doc × Bool)) × tx.State
      → BTreeResult (Unit {0}) × tx.State
  unfolding current write_increment
  update_found id f (err e, s) = (err e, s)
  update_found id f (ok found, s) = write_increment id (f (current id found)) s

  -- `tx_update`; the function gives the changed document.
  unfoldable pub tx_update :
      Bytes
      → (Doc → BTreeResult Doc)
      → ThresholdPolicy
      → tx.State
      → BTreeResult (Unit {0}) × tx.State
  unfolding tx_get_document update_found
  tx_update id f policy s = update_found id f (tx_get_document id false policy s)

  get_found-state :
      (d : ReconstructedDocument Doc) (doc : Option Doc) (policy : ThresholdPolicy) (s : tx.State)
      → (get_found d doc false policy s).1 ≡ s
  unfolding get_found
  get_found-state d none policy s = refl
  get_found-state d (some doc) policy s = refl

  get_reconstructed-state :
      (r : BTreeResult (Option (ReconstructedDocument Doc))) (policy : ThresholdPolicy)
      (s : tx.State)
      → (get_reconstructed r false policy s).1 ≡ s
  unfolding get_reconstructed
  get_reconstructed-state (err e) policy s = refl
  get_reconstructed-state (ok none) policy s = refl
  get_reconstructed-state (ok (some d)) policy s = get_found-state d d.doc policy s

  -- What one increment of a document leaves.
  abbrev pub IsIncrement : Bytes → tx.State → tx.State → Type 0
  IsIncrement id s t =
      (hash : Bytes) × (bytes : Bytes) × (tx.view t
        ≡ BTreeMap.insert (new_incremental id hash) bytes (tx.view s))

  write_increment-IsIncrement :
      (id : Bytes) (r : BTreeResult Doc) (s : tx.State)
      → (write_increment id r s).0 ≡ ok tt
      → IsIncrement id s (write_increment id r s).1
  unfolding write_increment
  write_increment-IsIncrement id (err e) s h = cc
  write_increment-IsIncrement id (ok doc) s h = (
    hash_heads am (get_heads doc).0,
    (save_incremental (get_heads doc).1).0,
    tx.insert_view (new_incremental id (hash_heads am (get_heads doc).0))
        (save_incremental (get_heads doc).1).0 s h,
  )

  update_found-IsIncrement :
      (id : Bytes) (f : Doc → BTreeResult Doc) (r : BTreeResult (Option (Doc × Bool)))
      (s : tx.State)
      → (update_found id f (r, s)).0 ≡ ok tt
      → IsIncrement id s (update_found id f (r, s)).1
  unfolding update_found
  update_found-IsIncrement id f (err e) s h = cc
  update_found-IsIncrement id f (ok found) s h =
      write_increment-IsIncrement id (f (current id found)) s h

  -- An update of a document that succeeds writes one incremental record of that document and
  -- touches no other record: it never compacts.
  pub tx_update-IsIncrement :
      (id : Bytes) (f : Doc → BTreeResult Doc) (policy : ThresholdPolicy) (s : tx.State)
      → (tx_update id f policy s).0 ≡ ok tt
      → IsIncrement id s (tx_update id f policy s).1
  unfolding tx_update tx_get_document
  tx_update-IsIncrement id f policy s h =
      let got = tx_get_document id false policy s in
      let same : got.1 ≡ s = get_reconstructed-state (reconstruct_document id s) policy s in
      subst (λ x. IsIncrement id x (update_found id f got).1) same
        (update_found-IsIncrement id f got.0 got.1 h)
