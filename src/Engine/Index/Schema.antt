-- ===== src/Engine/Index/Schema.antt =====
-- crates/engine/src/index.rs: the schemas of indexes that the catalog tables hold.
use rs_converge.Prelude.{
  ℕ, Option, none, some, List, [], ◌∷◌, ◌%◌, ◌^◌, ◌++◌, position, if◌then◌else◌, get_elem?,
}
use rs_converge.Order.Lex.{Bytes}
use rs_converge.Order.Pair.{int_ord}
use rs_converge.BTreeMap.Sort.{sort_by_key}
use rs_converge.Int.{ℤ}
use rs_converge.Value.{Row, to_bool}
use rs_converge.Value.Convert.{to_integer}
use rs_converge.Value.Text.{text_eq}
use rs_converge.Value.Json.{Floats, ascii}
use rs_converge.Schema.{ColumnSchema, IndexSchema}
use rs_converge.Engine.{EngineResult, ok, err, custom, invalid_query, ◌>>=◌, traverse}
use rs_converge.Engine.RowKey.{Postcard}
use rs_converge.Engine.RowTable.{get_entry, scan_entries}
use rs_converge.Engine.Kernel.{Transaction}
use rs_converge.Engine.Catalog.{
  indices_storage, index_fields_storage, table_key, text_at, and_then, is_text, ok_or,
  index_deleted, index_field_deleted,
}
use rs_converge.Engine.Schema.Columns.{columns}

-- A field of an index: its position and the name of its column.
abbrev pub Field : Type 0
Field = ℤ × Bytes

abbrev pub keep : Option Field → List Field → List Field
keep none rest = rest
keep (some field) rest = field ∷ rest

-- The index of a column by its name, as a `u32`.
unfoldable pub column_position : List (Bytes × ColumnSchema) → Field → EngineResult ℕ
column_position schema_columns (_, column) = do
  found ←
      ok_or (position (λ c. text_eq c.0 column) schema_columns)
        (invalid_query (ascii "Index column not found"))
  ok (found % 2 ^ 32)

abbrev pub named_field : ℤ → Option Bytes → EngineResult (Option Field)
named_field place none = err (custom (ascii "Invalid index column"))
named_field place (some column) = ok (some (place, column))

module _ ⦃fl : Floats⦄ ⦃pc : Postcard⦄ where
  abbrev pub index_found : Bytes → Transaction → Option Row → EngineResult (Option (Bytes × Row))
  index_found name t none = ok none
  index_found name t (some value) = do
    gone ← index_deleted name t
    ok (if gone then none else some (name, value))

  unfoldable pub index : Bytes → Transaction → EngineResult (Option (Bytes × Row))
  index name t = do found ← get_entry indices_storage (table_key name) t; index_found name t found

  -- The field of an entry of this index: nothing when it is deleted.
  unfoldable pub read_field : Bytes → Transaction → Row × Row → EngineResult (Option Field)
  read_field name t (key, field) = do
    place ←
        ok_or (and_then to_integer (get_elem? key 1))
          (custom (ascii "Invalid index field position"))
    gone ← index_field_deleted name place t
    if gone then ok none else named_field place (text_at field 0)

  unfoldable pub field_of : Bytes → Transaction → Row × Row → EngineResult (Option Field)
  field_of name t (key, field) =
      if is_text name (text_at key 0) then read_field name t (key, field) else ok none

  unfoldable pub collect_fields :
      Bytes → Transaction → List (EngineResult (Row × Row)) → EngineResult (List Field)
  collect_fields name t [] = ok []
  collect_fields name t (entry ∷ entries) = do
    found ← entry
    field ← field_of name t found
    rest ← collect_fields name t entries
    ok (keep field rest)

  -- The schema of an index that is not deleted.
  unfoldable pub read_index : Bytes → Row → Transaction → EngineResult IndexSchema
  read_index name value t = do
    table_name ← ok_or (text_at value 0) (custom (ascii "Invalid index table"))
    unique ←
        ok_or (and_then to_bool (get_elem? value 1)) (custom (ascii "Invalid index uniqueness"))
    entries ← scan_entries index_fields_storage t
    fields ← collect_fields name t entries
    schema_columns ← columns table_name t
    column_indices ← traverse (column_position schema_columns) (sort_by_key fields)
    ok (record {
      name = name;
      table_name = table_name;
      column_indices = column_indices;
      unique = unique;
    })

  abbrev pub schema_found : Transaction → Option (Bytes × Row) → EngineResult (Option IndexSchema)
  schema_found t none = ok none
  schema_found t (some (name, value)) = do schema ← read_index name value t; ok (some schema)

  unfoldable pub index_schema : Bytes → Transaction → EngineResult (Option IndexSchema)
  index_schema name t = do found ← index name t; schema_found t found

  abbrev pub live_name : Transaction → Option Bytes → EngineResult (List Bytes)
  live_name t none = ok []
  live_name t (some name) = do gone ← index_deleted name t; ok (if gone then [] else name ∷ [])

  -- The name that an entry of the indexes adds for a table.
  unfoldable pub names_of : Bytes → Transaction → Row × Row → EngineResult (List Bytes)
  names_of name t (key, value) =
      if is_text name (text_at value 0) then live_name t (text_at key 0) else ok []

  unfoldable pub collect_names :
      Bytes → Transaction → List (EngineResult (Row × Row)) → EngineResult (List Bytes)
  collect_names name t [] = ok []
  collect_names name t (entry ∷ entries) = do
    found ← entry
    names ← names_of name t found
    rest ← collect_names name t entries
    ok (names ++ rest)

  abbrev pub add_schema :
      Bytes → Option IndexSchema → List (Bytes × IndexSchema) → List (Bytes × IndexSchema)
  add_schema name none rest = rest
  add_schema name (some schema) rest = (name, schema) ∷ rest

  unfoldable pub schemas_of : Transaction → List Bytes → EngineResult (List (Bytes × IndexSchema))
  schemas_of t [] = ok []
  schemas_of t (name ∷ names) = do
    schema ← index_schema name t
    rest ← schemas_of t names
    ok (add_schema name schema rest)

  unfoldable pub indexes_for_table : Bytes → Transaction → EngineResult (List (Bytes × IndexSchema))
  indexes_for_table name t = do
    entries ← scan_entries indices_storage t
    names ← collect_names name t entries
    schemas_of t names
