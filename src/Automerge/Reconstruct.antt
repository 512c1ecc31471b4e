-- ===== src/Automerge/Reconstruct.antt =====
-- crates/btree-automerge/src/reconstruction.rs: the change records of a range, in the order of
-- their keys, gathered into documents. A stream is the list of its items.
pub mod Grouping
pub mod Runs
use rs_converge.Prelude.{
  ℕ, ◌≡◌, Bool, true, false, Option, none, some, List, [], ◌∷◌, ◌++◌, ◌+◌, ◌==◌, if◌then◌else◌,
  length, arith,
}
use Prim.Native.Nat.Ordering.{lt, eq, gt}
use rs_converge.Order.Lex.{Bytes, cmp_bytes, bytes_ord}
use rs_converge.BTree.{BTreeResult, BTreeError, ok, err, custom}
use rs_converge.Automerge.Document.{Automerge}
use rs_converge.Automerge.Key.{DocumentChangeKey, is_snapshot, is_metadata}

-- `==` of byte strings
unfoldable pub same_bytes : Bytes → Bytes → Bool
same_bytes a b = elim (cmp_bytes a b) [ lt ↦ false | eq ↦ true | gt ↦ false ]

pub eq_of_same_bytes : (a b : Bytes) → same_bytes a b ≡ true → a ≡ b
unfolding same_bytes
eq_of_same_bytes a b h = ground (arith, bytes_ord.eq_of_cmp a b)

pub record ReconstructedDocument (Doc : Type 0) : Type 0 where
  pub id : Bytes
  pub doc : Option Doc
  pub deltas : ℕ
  pub bytes_size : ℕ

pub record PendingDocument (Doc : Type 0) : Type 0 where
  pub document : ReconstructedDocument Doc
  pub keys : List DocumentChangeKey
  pub error : Option BTreeError

pub record ReconstructedRangeDocument (Doc : Type 0) : Type 0 where
  pub keys : List DocumentChangeKey
  pub result : BTreeResult (ReconstructedDocument Doc)

abbrev pub Item : Type 0
Item = BTreeResult (DocumentChangeKey × Bytes)

module _ (am : Automerge) where
  open am use {Doc, with_actor, load, load_incremental, uuid_v5}

  -- `DocumentChangeKey::id_to_uuid`
  unfoldable pub id_to_uuid : Bytes → Bytes
  id_to_uuid id = if length id == 16 then id else uuid_v5 id

  -- `ReconstructedDocument::new`
  abbrev pub new_document : Bytes → ReconstructedDocument Doc
  new_document id = record { id = id; doc = none; deltas = 0; bytes_size = 0 }

  -- one more record has been read
  abbrev counted :
      ReconstructedDocument Doc → Option Doc → Bytes → BTreeResult (ReconstructedDocument Doc)
  counted d doc bytes =
      ok (record d { doc = doc; deltas = d.deltas + 1; bytes_size = d.bytes_size + length bytes })

  loaded :
      ReconstructedDocument Doc → Bytes → BTreeResult Doc → BTreeResult (ReconstructedDocument Doc)
  loaded d bytes (ok doc) = counted d (some doc) bytes
  loaded d bytes (err e) = err e

  -- a record that is no metadata, by what has been read before it. The message of the last case
  -- names the id, which is left out.
  apply_change :
      ReconstructedDocument Doc
      → Option Doc
      → DocumentChangeKey
      → Bytes
      → BTreeResult (ReconstructedDocument Doc)
  apply_change d (some doc) key bytes = loaded d bytes (load_incremental bytes doc)
  apply_change d none key bytes =
      if is_snapshot key.type
      then elim (load bytes) [
        | ok doc ↦ loaded d bytes (ok (with_actor (id_to_uuid key.id) doc))
        | err e ↦ err e
      ]
      else err (custom [])

  -- `ReconstructedDocument::apply`; on an error the caller drops the document
  unfoldable pub apply :
      DocumentChangeKey
      → Bytes
      → ReconstructedDocument Doc
      → BTreeResult (ReconstructedDocument Doc)
  unfolding apply_change loaded id_to_uuid
  apply key bytes d =
      if is_metadata key.type then counted d none bytes else apply_change d d.doc key bytes

  -- `PendingDocument::new`
  unfoldable pub new_pending : DocumentChangeKey → Bytes → PendingDocument Doc
  new_pending key bytes = elim (apply key bytes (new_document key.id)) [
    | ok d ↦ record { document = d; keys = key ∷ []; error = none }
    | err e ↦ record { document = new_document key.id; keys = key ∷ []; error = some e }
  ]

  -- `PendingDocument::apply`
  unfoldable pub apply_pending :
      DocumentChangeKey → Bytes → PendingDocument Doc → PendingDocument Doc
  apply_pending key bytes p = elim p.error [
    | some e ↦ record p { keys = p.keys ++ key ∷ [] }
    | none ↦ elim (apply key bytes p.document) [
      | ok d ↦ record p { document = d; keys = p.keys ++ key ∷ [] }
      | err e ↦ record p { keys = p.keys ++ key ∷ []; error = some e }
    ]
  ]

  -- `PendingDocument::finish`
  unfoldable pub finish : PendingDocument Doc → ReconstructedRangeDocument Doc
  finish p = elim p.error [
    | none ↦ record { keys = p.keys; result = ok p.document }
    | some e ↦ record { keys = p.keys; result = err e }
  ]

  -- `reconstruct_documents`, from the loop's `pending` on
  unfoldable pub reconstruct_from :
      Option (PendingDocument Doc) → List Item → List (ReconstructedRangeDocument Doc)
  reconstruct_from none [] = []
  reconstruct_from (some p) [] = finish p ∷ []
  reconstruct_from pending (err e ∷ items) =
      record { keys = []; result = err e } ∷ reconstruct_from pending items
  reconstruct_from none (ok (key, bytes) ∷ items) =
      reconstruct_from (some (new_pending key bytes)) items
  reconstruct_from (some p) (ok (key, bytes) ∷ items) = elim (same_bytes p.document.id key.id) [
    | true ↦ reconstruct_from (some (apply_pending key bytes p)) items
    | false ↦ finish p ∷ reconstruct_from (some (new_pending key bytes)) items
  ]

  unfoldable pub reconstruct_documents : List Item → List (ReconstructedRangeDocument Doc)
  unfolding reconstruct_from
  reconstruct_documents items = reconstruct_from none items
