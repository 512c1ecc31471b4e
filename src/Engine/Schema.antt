-- ===== src/Engine/Schema.antt =====
-- crates/engine/src/schema.rs and src/catalog.rs: the changes of the schema and the four catalog
-- tables that they write, here in the in-memory kernel.
pub mod Columns
pub mod Laws
pub mod Listing
pub mod Added
mod Tests
use rs_converge.Prelude.{
  ℕ, Bool, true, false, Option, none, some, List, [], ◌∷◌, ◌+◌, ◌^◌, ltb, if◌then◌else◌, get_elem?,
  resize, set_elem,
}
use rs_converge.Order.Lex.{Bytes}
use rs_converge.Int.{ℤ, pos}
use rs_converge.Value.{Value, ValueType, Row, to_bool, to_text}
use rs_converge.Value.Text.{text_eq}
use rs_converge.Value.Json.{Floats, ascii}
use rs_converge.Engine.{EngineError, EngineResult, ok, err, invalid_query, custom}
use rs_converge.Engine.Catalog.{
  tables_storage, table_fields_storage, indices_storage, index_fields_storage, catalog, table_key,
  column_key, field_key, deleted, keys_of,
}
use rs_converge.Engine.Action.{Action, ◌>>=◌, ◌>>◌, pure, raise, read, call, or_raise, for_each}
use rs_converge.Engine.RowKey.{Postcard}
use rs_converge.Engine.RowTable.{get_entry, put_entry, scan_entries}
use rs_converge.Engine.Kernel.{Transaction, ensure_table, drop_table}

pub data SchemaChange : Type 0 where
  create_table : (table : Bytes) → SchemaChange
  add_column :
      (table column : Bytes) (value_type : ValueType) (default : Value) (position : ℕ)
      (primary_key : Bool)
      → SchemaChange
  create_index : (index table : Bytes) (unique : Bool) (columns : List Bytes) → SchemaChange
  tombstone_table : Bytes → SchemaChange
  tombstone_column : (table column : Bytes) → SchemaChange
  tombstone_index : Bytes → SchemaChange

unfoldable pub ensure : Action Transaction (Unit {0})
ensure = for_each (λ name. call (ensure_table name)) catalog

-- `resize(position + 1, false)`, and the flag at the position is set.
abbrev pub flagged : ℕ → Bool → Row → Row
flagged position flag value =
    set_elem position (Value.bool flag) (resize (position + 1) (Value.bool false) value)

module _ ⦃fl : Floats⦄ ⦃pc : Postcard⦄ where
  abbrev pub flag : Bytes → Row → ℕ → Row → Action Transaction Bool
  flag name key position value = do
    call (put_entry name key (flagged position true value))
    pure false

  unfoldable pub set_deleted : Bytes → Row → ℕ → Action Transaction Bool
  set_deleted name key position = do
    found ← read (get_entry name key)
    value ← or_raise found (invalid_query (ascii "Schema name not found"))
    already ← read (λ _. deleted value position)
    if already then pure false else flag name key position value

  -- The value that a created table is given, by the one that its key has.
  abbrev pub created : Option Row → Row
  created none = Value.bool false ∷ []
  created (some value) = flagged 0 false value

  abbrev pub put_column : Bytes → Bytes → Row → Option Row → Action Transaction Bool
  put_column name column value (some _) = pure false
  put_column name column value none = do
    call (put_entry table_fields_storage (column_key name column) value)
    pure false

  -- The loop over the columns of a new index, from a position on.
  unfoldable pub put_fields : Bytes → ℕ → List Bytes → Action Transaction (Unit {0})
  put_fields index position [] = pure tt
  put_fields index position (column ∷ columns) =
      if ltb position (2 ^ 63)
      then (call (
            put_entry index_fields_storage (field_key index (pos position))
              (Value.text column ∷ Value.bool false ∷ []))
          >> put_fields index (position + 1) columns)
      else raise (custom (ascii "Index column position overflow"))

  unfoldable pub delete_field : Row → Action Transaction (Unit {0})
  delete_field key = do
    found ← read (get_entry index_fields_storage key)
    value ← or_raise found (invalid_query (ascii "Index field not found"))
    call (put_entry index_fields_storage key (flagged 1 true value))

  unfoldable pub materialize : SchemaChange → Action Transaction Bool
  materialize (create_table name) = do
    found ← read (get_entry tables_storage (table_key name))
    call (put_entry tables_storage (table_key name) (created found))
    pure false
  materialize (add_column name column value_type default position primary_key) = do
    found ← read (get_entry table_fields_storage (column_key name column))
    put_column name column
        (Value.type value_type
          ∷ default
          ∷ Value.integer (pos position)
          ∷ Value.bool primary_key
          ∷ Value.bool false
          ∷ [])
        found
  materialize (create_index index name unique columns) = do
    call (ensure_table index)
    call (
        put_entry indices_storage (table_key index)
          (Value.text name ∷ Value.bool unique ∷ Value.bool false ∷ []))
    put_fields index 0 columns
    pure false
  materialize (tombstone_table name) = set_deleted tables_storage (table_key name) 0
  materialize (tombstone_column name column) =
      set_deleted table_fields_storage (column_key name column) 4
  materialize (tombstone_index index) = do
    set_deleted indices_storage (table_key index) 2
    entries ← read (scan_entries index_fields_storage)
    keys ← read (λ _. keys_of index entries)
    for_each delete_field keys
    call (drop_table index)
    pure false
