-- ===== src/Engine/Keeps.antt =====
-- What holds of a transaction through every call of the engine when the calls of the kernel and of
-- the codec keep it (crates/engine).
pub mod Changes
use rs_converge.Prelude.{ℕ, Bool, Option, none, some, List, [], ◌∷◌, ◌+◌, arith}
use rs_converge.Order.Lex.{Bytes}
use rs_converge.Value.{Row}
use rs_converge.Value.Json.{Floats}
use rs_converge.Schema.{IndexSchema, TableSchema}
use rs_converge.Engine.{EngineResult, ok, err}
use rs_converge.Engine.Action.{Action, ◌>>◌, call, pure, for_each}
use rs_converge.Engine.Catalog.{catalog}
use rs_converge.Engine.RowKey.{Postcard}
use rs_converge.Engine.RowTable.{put_entry, remove_entry}
use rs_converge.Engine.Kernel.{Transaction, ensure_table, drop_table}
use rs_converge.Engine.Codec.{RowCodec}
use rs_converge.Engine.Schema.{
  SchemaChange, create_table, add_column, create_index, tombstone_table, tombstone_column,
  tombstone_index, ensure, set_deleted, put_fields, delete_field, materialize,
}
use rs_converge.Engine.Index.{
  remove_old, put_new, update_index, update_row, clear_index, rebuild_row, rebuild_table,
}
use rs_converge.Engine.Change.{
  ChangeKey, Change, schema, row, materialize_key, materialize_change, ensure_created,
  rebuild_changed, update_merged, merge_live, remove_live, listed,
}

-- The calls that write a transaction keep a property of it.
pub record IsKept (Inv : Transaction → Type 0) (codec : RowCodec) ⦃fl : Floats⦄ ⦃pc : Postcard⦄
    : Type 0 where
  pub ensure_kept : (name : Bytes) (t : Transaction) → Inv t → Inv (ensure_table name t).1
  pub drop_kept : (name : Bytes) (t : Transaction) → Inv t → Inv (drop_table name t).1
  pub put_kept :
      (name : Bytes) (key value : Row) (t : Transaction)
      → Inv t
      → Inv (put_entry name key value t).1
  pub remove_kept :
      (name : Bytes) (key : Row) (t : Transaction) → Inv t → Inv (remove_entry name key t).1
  pub codec_ensure_kept :
      (name : Bytes) (t : Transaction) → Inv t → Inv (codec.ensure_table name t).1
  pub codec_merge_kept :
      (name id value : Bytes) (t : Transaction) → Inv t → Inv (codec.merge_row name id value t).1
  pub codec_remove_kept :
      (name id : Bytes) (t : Transaction) → Inv t → Inv (codec.remove_row name id t).1

pub for_each-keeps {ℓ κ μ} :
    {S : Type ℓ} {A : Type κ} (Inv : S → Type μ) (f : A → Action S (Unit {0}))
    → ((a : A) (s : S) → Inv s → Inv (f a s).1)
    → (xs : List A) (s : S) → Inv s
    → Inv (for_each f xs s).1
unfolding for_each
for_each-keeps Inv f h [] s i = i
for_each-keeps Inv f h (x ∷ xs) s i = grind (arith, h, for_each-keeps Inv f h xs)

module _ (Inv : Transaction → Type 0) (codec : RowCodec) ⦃fl : Floats⦄ ⦃pc : Postcard⦄
    (kept : IsKept Inv codec) where
  open kept use {
    ensure_kept, drop_kept, put_kept, remove_kept, codec_ensure_kept, codec_merge_kept,
    codec_remove_kept,
  }

  pub ensure-keeps : (t : Transaction) → Inv t → Inv (ensure t).1
  unfolding ensure
  ensure-keeps t i = for_each-keeps Inv (λ name. call (ensure_table name)) ensure_kept catalog t i

  set_deleted-keeps :
      (name : Bytes) (key : Row) (position : ℕ) (t : Transaction)
      → Inv t
      → Inv (set_deleted name key position t).1
  unfolding set_deleted
  set_deleted-keeps name key position t i = grind (arith, put_kept)

  put_fields-keeps :
      (index : Bytes) (position : ℕ) (columns : List Bytes) (t : Transaction)
      → Inv t
      → Inv (put_fields index position columns t).1
  unfolding put_fields
  put_fields-keeps index position [] t i = i
  put_fields-keeps index position (column ∷ columns) t i =
      grind (arith, put_kept, put_fields-keeps index (position + 1) columns)

  delete_field-keeps : (key : Row) (t : Transaction) → Inv t → Inv (delete_field key t).1
  unfolding delete_field
  delete_field-keeps key t i = grind (arith, put_kept)

  delete_fields-keeps :
      (keys : List Row) (t : Transaction) → Inv t → Inv (for_each delete_field keys t).1
  delete_fields-keeps keys t i = for_each-keeps Inv delete_field delete_field-keeps keys t i

  -- A change of the schema keeps it.
  pub materialize-keeps :
      (change : SchemaChange) (t : Transaction) → Inv t → Inv (materialize change t).1
  unfolding materialize
  materialize-keeps (create_table name) t i = grind (arith, put_kept)
  materialize-keeps (add_column a b c d e f) t i = grind (arith, put_kept)
  materialize-keeps (create_index a b c d) t i =
      grind (arith, ensure_kept, put_kept, put_fields-keeps)
  materialize-keeps (tombstone_table a) t i = set_deleted-keeps _ _ _ t i
  materialize-keeps (tombstone_column a b) t i = set_deleted-keeps _ _ _ t i
  materialize-keeps (tombstone_index a) t i =
      grind (arith, set_deleted-keeps, delete_fields-keeps, drop_kept)
