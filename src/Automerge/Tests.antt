-- ===== src/Automerge/Tests.antt =====
-- A toy instance of what the crate takes from automerge, and the theorems at concrete inputs.
mod Stores
use rs_converge.Prelude.{
  ◌≡◌, refl, map, none, some, List, [], ◌∷◌, ◌++◌, arith, replicate, not, ◌↔◌, true, ◌⊎◌, ◌<◌, ◌≤◌,
  All,
}
use rs_converge.Order.Lex.{Bytes, bytes_ord, cmp_bytes, cmp_list}
use rs_converge.BTreeMap
use rs_converge.BTreeMap.{Map, select, included, excluded, contains, IsSorted}
use rs_converge.BTree.{BTreeResult, ok, err, conflict}
use rs_converge.BTree.Interface.{Transaction}
use rs_converge.BTree.InMemory.Patch
use rs_converge.BTree.InMemory.Instance.{in_memory}
use rs_converge.Automerge.Document.{Automerge}
use rs_converge.Automerge.Key.{
  DocumentChangeKey, IsKey, key_ord, cmp_key, new_snapshot, new_incremental, encode_ordered,
  decode_ordered, range_for, map_start, map_end,
}
use rs_converge.Automerge.Key.Codec.{decode_ordered-encode_ordered, cmp_bytes-encode_ordered}
use rs_converge.Automerge.Key.Ranges.{contains-map_document_id_range, contains-range_for}
use rs_converge.Automerge.Reconstruct.{Item, reconstruct_documents}
use rs_converge.Automerge.Reconstruct.Runs.{Record, rebuild, runs, reconstruct_documents-runs}
use rs_converge.Automerge.Reconstruct.Grouping.{
  group_keys, item_keys, IsOneDocument, group_keys-reconstruct_documents,
  reconstruct_documents-IsOneDocument,
}
use rs_converge.Automerge.Records
use rs_converge.Automerge.Reconstruct
use rs_converge.BTree.InMemory.Instance
use rs_converge.Automerge.Records.{tx_update, IsIncrement, tx_update-IsIncrement}
use rs_converge.Automerge.Compaction.{
  default_policy, run_compaction, compacted_key, compacted_bytes, document_keys, collect_keys,
  remove_keys, replace_records,
}
use rs_converge.Automerge.Compaction.Effect.{belongs, run_compaction_keeps, run_compaction_loses}

-- A document is its bytes, and its one head is a hash of sevens.
abbrev sevens : Bytes
sevens = replicate 32 7

abbrev pub toy : Automerge
toy = record {
  Doc = Bytes;
  new = [];
  with_actor = λ a d. d;
  load = ok;
  load_incremental = λ b d. ok (d ++ b);
  get_heads = λ d. (sevens ∷ [], d);
  save = λ d. (d, d);
  save_incremental = λ d. (d, d);
  sha256 = λ b. sevens;
  uuid_v5 = λ b. replicate 16 1;
}

abbrev pub key_one : DocumentChangeKey
key_one = new_incremental (0 ∷ 1 ∷ []) (replicate 32 3)

abbrev pub key_two : DocumentChangeKey
key_two = new_incremental (2 ∷ []) sevens

pub key_one-IsKey : IsKey key_one
key_one-IsKey = omega arith

decode_ordered-encode_ordered_example : decode_ordered (encode_ordered key_one) ≡ ok key_one
decode_ordered-encode_ordered_example = decode_ordered-encode_ordered key_one key_one-IsKey

contains-map_document_id_range_example :
    contains (map_start (included (0 ∷ []))) (map_end (excluded (1 ∷ []))) key_one
    ≡ contains {K = Bytes} (included (0 ∷ [])) (excluded (1 ∷ [])) (0 ∷ 1 ∷ [])
contains-map_document_id_range_example =
    contains-map_document_id_range key_one key_one-IsKey (included (0 ∷ [])) (excluded (1 ∷ []))

-- Two documents, one of them with an incremental record.
abbrev pub store : Map DocumentChangeKey Bytes
store = (key_one, 9 ∷ []) ∷ (key_two, 8 ∷ []) ∷ []

pub store-IsSorted : IsSorted store
unfolding cmp_key cmp_list
store-IsSorted = ((refl, tt), (tt, tt))

abbrev tx : Transaction DocumentChangeKey Bytes
tx = in_memory store store-IsSorted

start : Transaction.State tx
unfolding in_memory
start = ([], tt)

-- The document of `key_two` has been compacted into nothing but incremental records.
abbrev doc : Bytes
doc = 5 ∷ 6 ∷ []

compacted-IsKey : (id : Bytes) → IsKey (compacted_key toy id doc)
compacted-IsKey id = omega arith

fresh : BTreeMap.get (compacted_key toy (2 ∷ []) doc) (Transaction.view tx start) ≡ none
unfolding start in_memory Patch.commit BTreeMap.get cmp_key cmp_list
fresh = refl

compacts : (run_compaction toy tx (2 ∷ []) doc start).0 ≡ ok tt
unfolding run_compaction replace_records remove_keys document_keys collect_keys start in_memory
    range_for cmp_key cmp_list BTreeMap.get BTreeMap.range BTreeMap.range_panics BTreeMap.insert
    BTreeMap.select Patch.range Patch.commit Patch.merge_range_maps Patch.copy_included Patch.insert
    Patch.remove
compacts = refl

run_compaction_keeps_example :
    Transaction.view tx (run_compaction toy tx (2 ∷ []) doc start).1
    ≡ BTreeMap.insert
        (compacted_key toy (2 ∷ []) doc)
        (compacted_bytes toy doc)
        (select (λ k. not (belongs (2 ∷ []) k)) (Transaction.view tx start))
run_compaction_keeps_example =
    run_compaction_keeps toy tx (2 ∷ []) doc start (compacted-IsKey (2 ∷ [])) fresh compacts

-- A document that is one snapshot, under the hash of its heads: it is as `insert` writes it.
abbrev single : Map DocumentChangeKey Bytes
single = (new_snapshot (2 ∷ []) sevens, doc) ∷ []

single-IsSorted : IsSorted single
single-IsSorted = (tt, tt)

abbrev single_tx : Transaction DocumentChangeKey Bytes
single_tx = in_memory single single-IsSorted

single_start : Transaction.State single_tx
unfolding in_memory
single_start = ([], tt)

present :
    BTreeMap.get (compacted_key toy (2 ∷ []) doc) (Transaction.view single_tx single_start)
    ≡ some doc
unfolding single_start in_memory Patch.commit BTreeMap.get cmp_key cmp_list
present = refl

loses : (run_compaction toy single_tx (2 ∷ []) doc single_start).0 ≡ ok tt
unfolding run_compaction replace_records remove_keys document_keys collect_keys single_start
    in_memory range_for cmp_key cmp_list BTreeMap.get BTreeMap.range BTreeMap.range_panics
    BTreeMap.insert BTreeMap.select Patch.range Patch.commit Patch.merge_range_maps
    Patch.copy_included Patch.insert Patch.remove
loses = refl

run_compaction_loses_example :
    Transaction.view single_tx (run_compaction toy single_tx (2 ∷ []) doc single_start).1
    ≡ select (λ k. not (belongs (2 ∷ []) k)) (Transaction.view single_tx single_start)
run_compaction_loses_example =
    run_compaction_loses toy single_tx (2 ∷ []) doc single_start doc present
      (compacted-IsKey (2 ∷ [])) loses

cmp_bytes-encode_ordered_example :
    cmp_bytes (encode_ordered key_one) (encode_ordered key_two) ≡ cmp_key key_one key_two
cmp_bytes-encode_ordered_example = cmp_bytes-encode_ordered key_one key_two

pub key_two-IsKey : IsKey key_two
key_two-IsKey = omega arith

contains-range_for_example :
    (contains (range_for (2 ∷ [])).0 (range_for (2 ∷ [])).1 key_two ≡ true) ↔ (key_two.id ≡ 2 ∷ [])
contains-range_for_example = contains-range_for key_two key_two-IsKey (2 ∷ [])

-- The records of two documents, with an error of the store between them.
abbrev items : List Item
items =
    ok (new_snapshot (0 ∷ []) sevens, 5 ∷ [])
    ∷ ok (new_incremental (0 ∷ []) sevens, 6 ∷ [])
    ∷ err conflict
    ∷ ok (key_two, 8 ∷ [])
    ∷ []

-- Two records of one document and one, unreadable, of another.
abbrev records : List Record
records =
    (new_snapshot (0 ∷ []) sevens, 5 ∷ [])
    ∷ (new_incremental (0 ∷ []) sevens, 6 ∷ [])
    ∷ (key_two, 8 ∷ [])
    ∷ []

reconstruct_documents-runs_example :
    reconstruct_documents toy (map ok records) ≡ map (rebuild toy) (runs records)
reconstruct_documents-runs_example = reconstruct_documents-runs toy records

reconstruct_documents-IsOneDocument_example :
    All (IsOneDocument toy) (reconstruct_documents toy items)
reconstruct_documents-IsOneDocument_example = reconstruct_documents-IsOneDocument toy items

-- An update of a document that has no record yet.
abbrev append_one : Bytes → BTreeResult Bytes
append_one d = ok (d ++ (1 ∷ []))

updated : (tx_update toy single_tx (9 ∷ []) append_one default_policy single_start).0 ≡ ok tt
unfolding tx_update Records.tx_get_document Records.reconstruct_document Records.get_reconstructed
    Records.update_found Records.current Records.write_increment reconstruct_documents
    Reconstruct.reconstruct_from range_for single_start in_memory Instance.items cmp_key cmp_list
    BTreeMap.get BTreeMap.range BTreeMap.range_panics BTreeMap.insert BTreeMap.select Patch.range
    Patch.commit Patch.merge_range_maps Patch.copy_included Patch.insert
updated = refl

tx_update-IsIncrement_example :
    IsIncrement toy single_tx
      (9 ∷ [])
      single_start
      (tx_update toy single_tx (9 ∷ []) append_one default_policy single_start).1
tx_update-IsIncrement_example =
    tx_update-IsIncrement toy single_tx (9 ∷ []) append_one default_policy single_start updated
