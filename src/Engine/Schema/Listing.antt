-- ===== src/Engine/Schema/Listing.antt =====
-- What the changes of the schema do to the columns that are listed (crates/engine/src/schema.rs).
use rs_converge.Prelude.{
  ◌≡◌, ◌≢◌, refl, Bool, true, false, Option, none, some, List, [], ◌∷◌, arith, if◌then◌else◌, inl,
  inr, map,
}
use rs_converge.Order.Lex.{Bytes, bytes_ord, cmp_list, cmp_bytes}
use Prim.Native.Nat.Ordering.{eq}
use rs_converge.BTreeMap
use rs_converge.Value.{Value, Row}
use rs_converge.Value.Text.{text_eq, eq_of_text_eq}
use rs_converge.Value.Json.{Floats, ascii}
use rs_converge.Engine.{EngineResult, ok, err, invalid_query, engine_cases}
use rs_converge.Engine.RowKey.{Postcard, encode_key, encode_value, decode_value}
use rs_converge.Engine.RowTable.{get_entry, put_entry, scan_entries, decode_entry}
use rs_converge.Engine.Kernel.{Transaction, table, get_bytes, put_bytes, scan_bytes}
use rs_converge.Engine.Kernel.Tables.{table-set_table}
use rs_converge.Engine.Catalog.{
  tables_storage, table_fields_storage, table_key, column_key, text_at, deleted, table_deleted,
  column_deleted,
}
use rs_converge.Engine.Schema.{create_table, tombstone_table, materialize}
use rs_converge.Engine.Schema.Columns.{
  column_of, column_found, collect_columns, live_columns, columns,
}
use rs_converge.Engine.Schema.Laws.{
  materialize-create_table, materialize-tombstone_table, get_name-put_name,
}

storages_differ : cmp_bytes tables_storage table_fields_storage ≢ eq
unfolding cmp_list
storages_differ = cc

module _ ⦃fl : Floats⦄ ⦃pc : Postcard⦄ where
  -- An entry that is written leaves the other tables.
  table-put_entry :
      (a b : Bytes) (key value : Row) (t : Transaction)
      → cmp_bytes a b ≢ eq
      → table b (put_entry a key value t).1 ≡ table b t
  unfolding put_entry put_bytes
  table-put_entry a b key value t ne = elim (engine_cases (table a t)) [
    | inl (rows, e) ↦
        ground (
          arith,
          table-set_table a b (BTreeMap.insert (encode_key key) (encode_value value) rows) t,
        )
    | inr (e, q) ↦ ground arith
  ]

  get_entry_same :
      (b : Bytes) (key : Row) (t u : Transaction)
      → table b t ≡ table b u
      → get_entry b key t ≡ get_entry b key u
  unfolding get_entry get_bytes
  get_entry_same b key t u e = rw (get_entry, get_bytes, e) refl

  column_found_same :
      (name : Bytes) (t u : Transaction) (value : Row) (column : Option Bytes)
      → table table_fields_storage t ≡ table table_fields_storage u
      → column_found name t value column ≡ column_found name u value column
  unfolding column_deleted
  column_found_same name t u value none e = refl
  column_found_same name t u value (some column) e =
      rw (get_entry_same table_fields_storage (column_key name column) t u e) refl

  column_of_same :
      (name : Bytes) (t u : Transaction) (entry : Row × Row)
      → table table_fields_storage t ≡ table table_fields_storage u
      → column_of name t entry ≡ column_of name u entry
  unfolding column_of
  column_of_same name t u (key, value) e =
      rw (column_found_same name t u value (text_at key 1) e) refl

  -- The columns read no table but the one of the fields.
  collect_columns_same :
      (name : Bytes) (t u : Transaction) (entries : List (EngineResult (Row × Row)))
      → table table_fields_storage t ≡ table table_fields_storage u
      → collect_columns name t entries ≡ collect_columns name u entries
  unfolding collect_columns
  collect_columns_same name t u [] e = refl
  collect_columns_same name t u (err x ∷ entries) e = refl
  collect_columns_same name t u (ok entry ∷ entries) e =
      rw (column_of_same name t u entry e, collect_columns_same name t u entries e) refl

  live_columns_same :
      (name : Bytes) (t u : Transaction)
      → table table_fields_storage t ≡ table table_fields_storage u
      → live_columns name t ≡ live_columns name u
  unfolding live_columns scan_entries scan_bytes
  live_columns_same name t u e = elim (engine_cases (table table_fields_storage u)) [
    | inl (rows, q) ↦ rw (e, q, collect_columns_same name t u (map decode_entry rows) e) refl
    | inr (x, q) ↦ rw (e, q) refl
  ]

  -- CREATE TABLE of a name shows the columns that the catalog still holds for it, also those from
  -- before a DROP TABLE, and leaves the columns of every other table.
  pub columns-create_table :
      (found : Option Row) (name other : Bytes) (t : Transaction)
      → get_entry tables_storage (table_key name) t ≡ ok found
      → decode_value (encode_value (Value.bool false ∷ [])) ≡ ok (Value.bool false ∷ [])
      → columns other (materialize (create_table name) t).1
        ≡ (if text_eq name other then live_columns other t else columns other t)
  unfolding columns table_deleted deleted
  columns-create_table found name other t h k = ground (
    arith,
    materialize-create_table found name t h,
    get_name-put_name name other (Value.bool false ∷ []) t h k,
    live_columns_same other (put_entry tables_storage (table_key name) (Value.bool false ∷ []) t).1
        t
        (table-put_entry tables_storage table_fields_storage (table_key name)
          (Value.bool false ∷ []) t storages_differ),
  )

  -- DROP TABLE of a name with a catalog entry hides the columns of this table, and leaves those of
  -- every other table.
  pub columns-tombstone_table :
      (value : Row) (state : Bool) (name other : Bytes) (t : Transaction)
      → get_entry tables_storage (table_key name) t ≡ ok (some value)
      → deleted value 0 ≡ ok state
      → decode_value (encode_value (Value.bool true ∷ [])) ≡ ok (Value.bool true ∷ [])
      → columns other (materialize (tombstone_table name) t).1 ≡ (
          if text_eq name other
          then err (invalid_query (ascii "Table not found"))
          else columns other t)
  unfolding columns table_deleted deleted
  columns-tombstone_table value state name other t h d k = ground (
    arith,
    materialize-tombstone_table value state name t h d,
    get_name-put_name name other (Value.bool true ∷ []) t h k,
    live_columns_same other (put_entry tables_storage (table_key name) (Value.bool true ∷ []) t).1 t
        (table-put_entry tables_storage table_fields_storage (table_key name) (Value.bool true ∷ [])
          t storages_differ),
    eq_of_text_eq name other,
  )
