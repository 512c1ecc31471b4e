-- ===== src/Engine/Keeps/Changes.antt =====
-- What changes of rows and of the schema keep of a transaction, with their indexes
-- (crates/engine/src/index.rs and src/change.rs).
use rs_converge.Prelude.{Bool, Option, none, some, List, arith}
use rs_converge.Order.Lex.{Bytes}
use rs_converge.Value.{Row}
use rs_converge.Value.Json.{Floats}
use rs_converge.Schema.{IndexSchema, TableSchema}
use rs_converge.Engine.{EngineResult, ok, err}
use rs_converge.Engine.Action.{◌>>◌, call, pure, for_each}
use rs_converge.Engine.RowKey.{Postcard}
use rs_converge.Engine.RowTable.{remove_entry}
use rs_converge.Engine.Kernel.{Transaction}
use rs_converge.Engine.Codec.{RowCodec}
use rs_converge.Engine.Schema.{
  SchemaChange, create_table, add_column, create_index, tombstone_table, tombstone_column,
  tombstone_index,
}
use rs_converge.Engine.Index.{
  remove_old, put_new, update_index, update_row, clear_index, rebuild_row, rebuild_table,
}
use rs_converge.Engine.Change.{
  ChangeKey, Change, schema, row, materialize_key, materialize_change, ensure_created,
  rebuild_changed, update_merged, merge_live, remove_live, listed,
}
use rs_converge.Engine.Keeps.{IsKept, for_each-keeps, materialize-keeps}

module _ (Inv : Transaction → Type 0) (codec : RowCodec) ⦃fl : Floats⦄ ⦃pc : Postcard⦄
    (kept : IsKept Inv codec) where
  open kept use {
    ensure_kept, drop_kept, put_kept, remove_kept, codec_ensure_kept, codec_merge_kept,
    codec_remove_kept,
  }

  remove_old-keeps :
      (name : Bytes) (index : IndexSchema) (columns : TableSchema) (old : Option Row)
      (t : Transaction)
      → Inv t
      → Inv (remove_old name index columns old t).1
  unfolding remove_old
  remove_old-keeps name index columns none t i = i
  remove_old-keeps name index columns (some r) t i = grind (arith, remove_kept)

  put_new-keeps :
      (enforce : Bool) (name : Bytes) (index : IndexSchema) (columns : TableSchema)
      (new : Option Row) (t : Transaction)
      → Inv t
      → Inv (put_new enforce name index columns new t).1
  unfolding put_new
  put_new-keeps enforce name index columns none t i = i
  put_new-keeps enforce name index columns (some r) t i = grind (arith, put_kept)

  update_index-keeps :
      (columns : TableSchema) (old new : Option Row) (enforce : Bool) (index : Bytes × IndexSchema)
      (t : Transaction)
      → Inv t
      → Inv (update_index columns old new enforce index t).1
  unfolding update_index
  update_index-keeps columns old new enforce index t i =
      grind (arith, ensure_kept, remove_old-keeps, put_new-keeps)

  update_indexes-keeps :
      (columns : TableSchema) (old new : Option Row) (enforce : Bool)
      (indexes : List (Bytes × IndexSchema)) (t : Transaction)
      → Inv t
      → Inv (for_each (update_index columns old new enforce) indexes t).1
  update_indexes-keeps columns old new enforce indexes t i =
      for_each-keeps Inv (update_index columns old new enforce)
        (update_index-keeps columns old new enforce) indexes t i

  pub update_row-keeps :
      (name : Bytes) (old new : Option Row) (enforce : Bool) (t : Transaction)
      → Inv t
      → Inv (update_row name old new enforce t).1
  unfolding update_row
  update_row-keeps name old new enforce t i = grind (arith, update_indexes-keeps)

  remove_keys-keeps :
      (name : Bytes) (keys : List Row) (t : Transaction)
      → Inv t
      → Inv (for_each (λ key. call (remove_entry name key) >> pure tt) keys t).1
  remove_keys-keeps name keys t i =
      for_each-keeps Inv (λ key. call (remove_entry name key) >> pure tt)
        (λ key s j. grind (arith, remove_kept)) keys t i

  clear_index-keeps :
      (index : Bytes × IndexSchema) (t : Transaction) → Inv t → Inv (clear_index index t).1
  unfolding clear_index
  clear_index-keeps index t i = grind (arith, ensure_kept, remove_keys-keeps)

  rebuild_row-keeps :
      (name : Bytes) (columns : TableSchema) (enforce : Bool) (found : Bytes × Row)
      (t : Transaction)
      → Inv t
      → Inv (rebuild_row name columns enforce found t).1
  unfolding rebuild_row
  rebuild_row-keeps name columns enforce found t i = grind (arith, update_row-keeps)

  clear_indexes-keeps :
      (indexes : List (Bytes × IndexSchema)) (t : Transaction)
      → Inv t
      → Inv (for_each clear_index indexes t).1
  clear_indexes-keeps indexes t i = for_each-keeps Inv clear_index clear_index-keeps indexes t i

  rebuild_rows-keeps :
      (name : Bytes) (columns : TableSchema) (enforce : Bool) (rows : List (Bytes × Row))
      (t : Transaction)
      → Inv t
      → Inv (for_each (rebuild_row name columns enforce) rows t).1
  rebuild_rows-keeps name columns enforce rows t i =
      for_each-keeps Inv (rebuild_row name columns enforce) (rebuild_row-keeps name columns enforce)
        rows t i

  rebuild_table-keeps :
      (name : Bytes) (enforce : Bool) (t : Transaction)
      → Inv t
      → Inv (rebuild_table codec name enforce t).1
  unfolding rebuild_table
  rebuild_table-keeps name enforce t i = grind (arith, clear_indexes-keeps, rebuild_rows-keeps)

  ensure_created-keeps :
      (change : SchemaChange) (t : Transaction) → Inv t → Inv (ensure_created codec change t).1
  ensure_created-keeps (create_table a) t i = grind (arith, codec_ensure_kept)
  ensure_created-keeps (add_column a b c d e f) t i = i
  ensure_created-keeps (create_index a b c d) t i = i
  ensure_created-keeps (tombstone_table a) t i = i
  ensure_created-keeps (tombstone_column a b) t i = i
  ensure_created-keeps (tombstone_index a) t i = i

  rebuild_changed-keeps :
      (change : SchemaChange) (enforce : Bool) (t : Transaction)
      → Inv t
      → Inv (rebuild_changed codec change enforce t).1
  rebuild_changed-keeps (create_table a) enforce t i = rebuild_table-keeps a enforce t i
  rebuild_changed-keeps (add_column a b c d e f) enforce t i = rebuild_table-keeps a enforce t i
  rebuild_changed-keeps (create_index a b c d) enforce t i = rebuild_table-keeps b enforce t i
  rebuild_changed-keeps (tombstone_table a) enforce t i = i
  rebuild_changed-keeps (tombstone_column a b) enforce t i = i
  rebuild_changed-keeps (tombstone_index a) enforce t i = i

  update_merged-keeps :
      (name : Bytes) (old new : Option Row) (enforce : Bool) (t : Transaction)
      → Inv t
      → Inv (update_merged name old new enforce t).1
  update_merged-keeps name old none enforce t i = i
  update_merged-keeps name old (some value) enforce t i = grind (arith, update_row-keeps)

  merge_live-keeps :
      (name id value : Bytes) (enforce : Bool) (r : EngineResult {0} Unit) (t : Transaction)
      → Inv t
      → Inv (merge_live codec name id value enforce r t).1
  merge_live-keeps name id value enforce (err _) t i = i
  merge_live-keeps name id value enforce (ok _) t i =
      grind (arith, codec_merge_kept, update_merged-keeps)

  remove_live-keeps :
      (name id : Bytes) (enforce : Bool) (r : EngineResult {0} Unit) (t : Transaction)
      → Inv t
      → Inv (remove_live codec name id enforce r t).1
  remove_live-keeps name id enforce (err _) t i = i
  remove_live-keeps name id enforce (ok _) t i = grind (arith, codec_remove_kept, update_row-keeps)

  materialize_key-keeps :
      (key : ChangeKey) (value : Option Bytes) (enforce : Bool) (t : Transaction)
      → Inv t
      → Inv (materialize_key codec key value enforce t).1
  unfolding materialize_key
  materialize_key-keeps (schema change) none enforce t i =
      grind (arith, materialize-keeps Inv codec kept, ensure_created-keeps, rebuild_changed-keeps)
  materialize_key-keeps (row name id) (some value) enforce t i =
      merge_live-keeps name id value enforce (listed name t) t i
  materialize_key-keeps (row name id) none enforce t i =
      remove_live-keeps name id enforce (listed name t) t i
  materialize_key-keeps (schema change) (some _) enforce t i = i

  -- A change keeps it, of the schema or of a row.
  pub materialize_change-keeps :
      (change : Change) (enforce : Bool) (t : Transaction)
      → Inv t
      → Inv (materialize_change codec change enforce t).1
  unfolding materialize_change
  materialize_change-keeps change enforce t i =
      materialize_key-keeps change.key change.value enforce t i
