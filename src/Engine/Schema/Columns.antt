-- ===== src/Engine/Schema/Columns.antt =====
-- crates/engine/src/schema.rs: the schema that the catalog tables hold.
use rs_converge.Prelude.{Option, none, some, List, [], ◌∷◌, map, if◌then◌else◌, get_elem?}
use rs_converge.Order.Lex.{Bytes, bytes_ord}
use rs_converge.Order.Pair.{int_ord, pair_ord}
use rs_converge.BTreeMap.Sort.{sort_by_key}
use rs_converge.Int.{ℤ}
use rs_converge.Value.{Row, to_bool, to_type}
use rs_converge.Value.Convert.{to_integer}
use rs_converge.Value.Json.{Floats, ascii}
use rs_converge.Schema.{ColumnSchema, TableSchema}
use rs_converge.Engine.{EngineResult, ok, err, custom, invalid_query, ◌>>=◌}
use rs_converge.Engine.RowKey.{Postcard}
use rs_converge.Engine.RowTable.{get_entry, scan_entries}
use rs_converge.Engine.Kernel.{Transaction}
use rs_converge.Engine.Catalog.{
  tables_storage, table_fields_storage, table_key, text_at, and_then, is_text, ok_or, table_deleted,
  column_deleted,
}

-- A column with its position and its name, by which they are sorted.
abbrev pub Placed : Type 0
Placed = (ℤ × Bytes) × ColumnSchema

abbrev pub keep : Option Placed → List Placed → List Placed
keep none rest = rest
keep (some column) rest = column ∷ rest

-- The column of an entry that is not deleted.
unfoldable pub read_column : Bytes → Row → EngineResult Placed
read_column name value = do
  value_type ← ok_or (and_then to_type (get_elem? value 0)) (custom (ascii "Invalid column type"))
  default ← ok_or (get_elem? value 1) (custom (ascii "Invalid column default"))
  position ←
      ok_or (and_then to_integer (get_elem? value 2)) (custom (ascii "Invalid column position"))
  primary_key ←
      ok_or (and_then to_bool (get_elem? value 3)) (custom (ascii "Invalid column primary key"))
  ok (
    (position, name),
    record { name = name; value_type = value_type; default = default; primary_key = primary_key },
  )

module _ ⦃fl : Floats⦄ ⦃pc : Postcard⦄ where
  abbrev pub found_name : Bytes → Transaction → Option Row → EngineResult Bytes
  found_name name t none = err (invalid_query (ascii "Table not found"))
  found_name name t (some _) = do
    gone ← table_deleted name t
    if gone then err (invalid_query (ascii "Table not found")) else ok name

  unfoldable pub lookup_table_name : Bytes → Transaction → EngineResult Bytes
  lookup_table_name name t = do
    found ← get_entry tables_storage (table_key name) t
    found_name name t found

  -- What an entry of the table adds, by the name in its key.
  abbrev pub column_found : Bytes → Transaction → Row → Option Bytes → EngineResult (Option Placed)
  column_found name t value none = err (custom (ascii "Invalid column name"))
  column_found name t value (some column) = do
    gone ← column_deleted name column t
    if gone then ok none else (read_column column value >>= λ c. ok (some c))

  -- The round of the loop of `columns` for an entry: what it adds to the result.
  unfoldable pub column_of : Bytes → Transaction → Row × Row → EngineResult (Option Placed)
  column_of name t (key, value) =
      if is_text name (text_at key 0) then column_found name t value (text_at key 1) else ok none

  unfoldable pub collect_columns :
      Bytes → Transaction → List (EngineResult (Row × Row)) → EngineResult (List Placed)
  collect_columns name t [] = ok []
  collect_columns name t (entry ∷ entries) = do
    found ← entry
    column ← column_of name t found
    rest ← collect_columns name t entries
    ok (keep column rest)

  -- The rest of `columns`, for a table that is not deleted.
  unfoldable pub live_columns : Bytes → Transaction → EngineResult (List (Bytes × ColumnSchema))
  live_columns name t = do
    entries ← scan_entries table_fields_storage t
    found ← collect_columns name t entries
    ok (map (λ c. (c.0.1, c.1)) (sort_by_key found))

  unfoldable pub columns : Bytes → Transaction → EngineResult (List (Bytes × ColumnSchema))
  columns name t = do
    gone ← table_deleted name t
    if gone then err (invalid_query (ascii "Table not found")) else live_columns name t

  -- `table_schema_for`
  unfoldable pub table_schema_for : Bytes → Bytes → Transaction → EngineResult TableSchema
  table_schema_for storage name t = do
    found ← columns storage t
    ok (record { name = name; columns = map (λ c. c.1) found })

  unfoldable pub table_schema : Bytes → Transaction → EngineResult TableSchema
  table_schema name t = do _ ← lookup_table_name name t; table_schema_for name name t

  unfoldable pub active_from :
      Transaction → List (EngineResult (Row × Row)) → EngineResult (List Bytes)
  active_from t [] = ok []
  active_from t (entry ∷ entries) = do
    (key, _) ← entry
    name ← ok_or (text_at key 0) (custom (ascii "Invalid table name"))
    gone ← table_deleted name t
    rest ← active_from t entries
    ok (if gone then rest else name ∷ rest)

  unfoldable pub active_table_names : Transaction → EngineResult (List Bytes)
  active_table_names t = do entries ← scan_entries tables_storage t; active_from t entries
