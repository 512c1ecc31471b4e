-- ===== src/Engine/Executor/Index.antt =====
-- crates/engine/src/executor.rs: CREATE INDEX and DROP INDEX.
use rs_converge.Prelude.{
  ℕ, Bool, false, not, ◌&&◌, ◌||◌, Option, none, some, List, [], ◌∷◌, ◌%◌, ◌^◌, leb, length,
  get_elem?, if◌then◌else◌, is_some,
}
use rs_converge.Order.Lex.{Bytes}
use rs_converge.Value.Json.{Floats, ascii}
use rs_converge.Schema.{ColumnSchema, IndexSchema}
use rs_converge.Query.{QueryResult}
use rs_converge.Engine.{EngineResult, ok, err, invalid_query, traverse}
use rs_converge.Engine.Action.{Action, ◌>>=◌, ◌>>◌, pure}
use rs_converge.Engine.RowKey.{Postcard}
use rs_converge.Engine.Codec.{RowCodec}
use rs_converge.Engine.Schema.{SchemaChange}
use rs_converge.Engine.Schema.Columns.{lookup_table_name, columns, table_schema}
use rs_converge.Engine.Index.Schema.{index_schema}
use rs_converge.Engine.Executor.{Clock, Context, ask, no_result, apply_schema}
use rs_converge.Engine.Executor.Expr.{is_empty, find_column}
use rs_converge.Engine.Executor.Insert.{refuse_if}

-- `column_indices.iter().any(|index| *index as usize >= count)`
unfoldable pub out_of_range : ℕ → List ℕ → Bool
out_of_range count [] = false
out_of_range count (index ∷ rest) = leb count index || out_of_range count rest

-- The name of an indexed column.
abbrev pub column_name : List (Bytes × ColumnSchema) → ℕ → EngineResult Bytes
column_name found index = elim (get_elem? found index) [
  | none ↦ err (invalid_query (ascii "Index column is out of range"))
  | some column ↦ ok column.0
]

-- The index of a column by its name, as a `u32`.
abbrev pub resolved : Option ℕ → EngineResult ℕ
resolved none = err (invalid_query (ascii "Index column not found"))
resolved (some index) = ok (index % 2 ^ 32)

module _ ⦃fl : Floats⦄ ⦃pc : Postcard⦄ ⦃clock : Clock⦄ (codec : RowCodec) where
  unfoldable pub create_index : IndexSchema → Action Context (Unit {0})
  create_index index = do
    schema ← ask (table_schema index.table_name)
    refuse_if (is_empty index.name || is_empty index.column_indices)
        (ascii "Index requires a name and column")
    refuse_if (out_of_range (length schema.columns) index.column_indices)
        (ascii "Index column is out of range")
    name ← ask (lookup_table_name index.table_name)
    found ← ask (columns name)
    names ← ask (λ _. traverse (column_name found) index.column_indices)
    apply_schema codec (SchemaChange.create_index index.name name index.unique names)

  unfoldable pub ensure_index_absent : Bytes → Bool → Action Context (Unit {0})
  ensure_index_absent name if_not_exists = do
    existing ← ask (index_schema name)
    refuse_if (is_some existing && not if_not_exists) (ascii "Index already exists")

  -- CREATE INDEX with the positions of the columns
  unfoldable pub create_resolved : IndexSchema → Bool → Action Context QueryResult
  create_resolved index if_not_exists = do
    ensure_index_absent index.name if_not_exists
    create_index index
    pure no_result

  -- `unresolved_index_columns`
  unfoldable pub unresolved_index_columns : Bytes → List Bytes → Action Context (List ℕ)
  unresolved_index_columns name names = do
    schema ← ask (table_schema name)
    ask (λ _. traverse (λ column. resolved (find_column schema column)) names)

  abbrev pub create_unresolved : Bytes → Bytes → List Bytes → Bool → Action Context QueryResult
  create_unresolved name table_name column_names unique = do
    found ← unresolved_index_columns table_name column_names
    create_index
        (record { name = name; table_name = table_name; column_indices = found; unique = unique })
    pure no_result

  unfoldable pub create_unresolved_index :
      Bytes → Bytes → List Bytes → Bool → Bool → Action Context QueryResult
  create_unresolved_index name table_name column_names unique if_not_exists = do
    existing ← ask (index_schema name)
    refuse_if (is_some existing && not if_not_exists) (ascii "Index already exists")
    if is_some existing
        then pure no_result
        else create_unresolved name table_name column_names unique

  abbrev pub drop_found : Bytes → Action Context QueryResult
  drop_found name = do apply_schema codec (SchemaChange.tombstone_index name); pure no_result

  unfoldable pub drop_index : Bytes → Bool → Action Context QueryResult
  drop_index name if_exists = do
    existing ← ask (index_schema name)
    refuse_if (not (is_some existing) && not if_exists) (ascii "Index not found")
    if is_some existing then drop_found name else pure no_result
