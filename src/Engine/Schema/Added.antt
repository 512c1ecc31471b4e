-- ===== src/Engine/Schema/Added.antt =====
-- What a column that is added reads back as, and what changes of the schema report
-- (crates/engine/src/schema.rs).
use rs_converge.Prelude.{◌≡◌, ◌≢◌, true, false, none, some, [], ◌∷◌, arith, ℕ}
use rs_converge.Order.Lex.{Bytes, bytes_ord}
use rs_converge.Int.{pos}
use rs_converge.Value.{Value, Row}
use rs_converge.Value.Text.{text_eq_refl}
use rs_converge.Value.Json.{Floats}
use rs_converge.Schema.{ColumnSchema}
use rs_converge.Engine.{ok}
use rs_converge.Engine.Action.{done}
use rs_converge.Engine.RowKey.{Postcard, encode_key, encode_value, decode_value}
use rs_converge.Engine.RowTable.{get_entry, get_entry-put_entry}
use rs_converge.Engine.Kernel.{Transaction}
use rs_converge.Engine.Catalog.{table_fields_storage, column_key, deleted, column_deleted}
use rs_converge.Engine.Schema.{SchemaChange, add_column, materialize, set_deleted}
use rs_converge.Engine.Schema.Columns.{column_of, read_column}
use rs_converge.Engine.Schema.Laws.{get_entry-table, put_entry-ok}

-- The value of a new column in the catalog.
abbrev pub column_row : ColumnSchema → ℕ → Row
column_row c position =
    Value.type c.value_type
    ∷ c.default
    ∷ Value.integer (pos position)
    ∷ Value.bool c.primary_key
    ∷ Value.bool false
    ∷ []

abbrev pub add : Bytes → ColumnSchema → ℕ → SchemaChange
add name c position = add_column name c.name c.value_type c.default position c.primary_key

module _ ⦃fl : Floats⦄ ⦃pc : Postcard⦄ where
  -- AddColumn of a column that the catalog has no entry for, deleted or not, writes an entry that
  -- `columns` reads back as this column at this position.
  pub column_of-add_column :
      (name : Bytes) (c : ColumnSchema) (position : ℕ) (t : Transaction)
      → get_entry table_fields_storage (column_key name c.name) t ≡ ok none
      → decode_value (encode_value (column_row c position)) ≡ ok (column_row c position)
      → let (result, u) = materialize (add name c position) t in
        (result ≡ done false)
        × (get_entry table_fields_storage (column_key name c.name) u
            ≡ ok (some (column_row c position)))
        × (column_of name u (column_key name c.name, column_row c position)
            ≡ ok (some ((pos position, c.name), c)))
  unfolding materialize column_of column_deleted read_column deleted
  column_of-add_column name c position t h k =
      let (rows, e) = get_entry-table table_fields_storage (column_key name c.name) t h in
      ground (
        arith,
        put_entry-ok table_fields_storage (column_key name c.name) (column_key name c.name)
            (column_row c position) t h,
        get_entry-put_entry table_fields_storage table_fields_storage (column_key name c.name)
            (column_key name c.name) (column_row c position) rows t e k,
        bytes_ord.cmp_refl table_fields_storage,
        bytes_ord.cmp_refl (encode_key (column_key name c.name)),
        text_eq_refl name,
      )

  -- AddColumn of a column that the catalog has an entry for, deleted or not, changes nothing.
  pub add_column_again :
      (value : Row) (name : Bytes) (c : ColumnSchema) (position : ℕ) (t : Transaction)
      → get_entry table_fields_storage (column_key name c.name) t ≡ ok (some value)
      → materialize (add name c position) t ≡ (done false, t)
  unfolding materialize
  add_column_again value name c position t h = ground arith

  -- No change of the schema reports that it was superseded.
  pub materialize_not_superseded :
      (change : SchemaChange) (t : Transaction) → (materialize change t).0 ≢ done true
  unfolding materialize set_deleted
  materialize_not_superseded (SchemaChange.create_table name) t = ground arith
  materialize_not_superseded (add_column a b c d e f) t = ground arith
  materialize_not_superseded (SchemaChange.create_index a b c d) t = ground arith
  materialize_not_superseded (SchemaChange.tombstone_table name) t = ground arith
  materialize_not_superseded (SchemaChange.tombstone_column a b) t = ground arith
  materialize_not_superseded (SchemaChange.tombstone_index name) t = ground arith
