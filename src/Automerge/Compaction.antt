-- ===== src/Automerge/Compaction.antt =====
-- crates/btree-automerge/src/compaction.rs: the policy, and the replacement of a document's
-- records by one snapshot.
pub mod Effect
use rs_converge.Prelude.{
  ℕ, ◌≡◌, ◌↔◌, Bool, true, ◌&&◌, ◌||◌, List, [], ◌∷◌, ◌++◌, arith, ltb, leb, ◌*◌, ◌<◌, ◌≤◌, ◌⊎◌,
}
use rs_converge.Order.Lex.{Bytes}
use rs_converge.BTree.{BTreeResult, ok, err, ◌>>=◌}
use rs_converge.BTree.Interface.{Transaction}
use rs_converge.Automerge.Document.{Automerge}
use rs_converge.Automerge.Key.{DocumentChangeKey, key_ord, new_snapshot, range_for}
use rs_converge.Automerge.Reconstruct.{Item}

pub record ThresholdPolicy : Type 0 where
  pub threshold_count : ℕ
  pub threshold_bytes : ℕ

-- `ThresholdPolicy::default`
abbrev pub default_policy : ThresholdPolicy
default_policy = record { threshold_count = 100; threshold_bytes = 1024 * 1024 }

-- `ThresholdPolicy::should_compact`
unfoldable pub should_compact : ThresholdPolicy → ℕ → ℕ → Bool
should_compact p delta_count delta_bytes =
    (ltb 0 p.threshold_count && leb p.threshold_count delta_count)
    || (ltb 0 p.threshold_bytes && leb p.threshold_bytes delta_bytes)

-- the bytes that `hash_hashes` hands to the hasher, one hash after the other
abbrev pub concat : List Bytes → Bytes
concat [] = []
concat (h ∷ hs) = h ++ concat hs

-- the loop of `document_keys` over the stream
unfoldable pub collect_keys : List Item → BTreeResult (List DocumentChangeKey)
collect_keys [] = ok []
collect_keys (err e ∷ items) = err e
collect_keys (ok (key, _) ∷ items) =
    let rest = collect_keys items in rest >>= λ keys. ok (key ∷ keys)

module _ (am : Automerge) where
  -- `hash_hashes` and `hash_heads`
  abbrev pub hash_heads : List Bytes → Bytes
  hash_heads heads = am.sha256 (concat heads)

  -- the key that `run_compaction` writes
  abbrev pub compacted_key : Bytes → am.Doc → DocumentChangeKey
  compacted_key id doc = new_snapshot id (hash_heads (am.get_heads doc).0)

  -- the bytes that it writes there: `save` comes after `get_heads`
  abbrev pub compacted_bytes : am.Doc → Bytes
  compacted_bytes doc = (am.save (am.get_heads doc).1).0

module _ (tx : Transaction DocumentChangeKey Bytes) where
  -- `document_keys`
  unfoldable pub document_keys : Bytes → tx.State → BTreeResult (List DocumentChangeKey)
  document_keys id s = collect_keys (tx.range (range_for id).0 (range_for id).1 s)

  -- the loop of `run_compaction` over `to_remove`; `?` leaves it at the first error
  unfoldable pub remove_keys : List DocumentChangeKey → tx.State → BTreeResult (Unit {0}) × tx.State
  remove_keys [] s = (ok tt, s)
  remove_keys (key ∷ keys) s =
      let rest = remove_keys keys (tx.remove key s).1 in
      elim (tx.remove key s).0 [ ok _ ↦ rest | err e ↦ (err e, (tx.remove key s).1) ]

module _ (am : Automerge) (tx : Transaction DocumentChangeKey Bytes) where
  -- `run_compaction` behind the listing of the old records
  unfoldable pub replace_records :
      Bytes → am.Doc → List DocumentChangeKey → tx.State → BTreeResult (Unit {0}) × tx.State
  replace_records id doc to_remove s =
      let written = tx.insert (compacted_key am id doc) (compacted_bytes am doc) s in
      elim written.0 [ ok _ ↦ remove_keys tx to_remove written.1 | err e ↦ (err e, written.1) ]

  -- `run_compaction`: the result, and the transaction after it
  unfoldable pub run_compaction : Bytes → am.Doc → tx.State → BTreeResult (Unit {0}) × tx.State
  run_compaction id doc s = elim (document_keys tx id s) [
    | ok to_remove ↦ replace_records id doc to_remove s
    | err e ↦ (err e, s)
  ]
