-- ===== src/Engine/Executor/Conflict.antt =====
-- crates/engine/src/executor.rs: the conflicted columns of a row, and their resolution.
use rs_converge.Prelude.{
  ℕ, Bool, false, not, ◌||◌, Option, none, some, List, [], ◌∷◌, ◌++◌, ◌==◌, get_elem?,
}
use rs_converge.Order.Lex.{Bytes}
use rs_converge.Value.{Value, Row}
use rs_converge.Value.Json.{Floats, ascii}
use rs_converge.Schema.{ColumnSchema, TableSchema}
use rs_converge.Engine.{EngineResult, ok, err, custom, invalid_query, traverse}
use rs_converge.Engine.Action.{Action, ◌>>=◌, ◌>>◌, pure, lift}
use rs_converge.Engine.RowKey.{Postcard}
use rs_converge.Engine.Codec.{RowCodec}
use rs_converge.Engine.Catalog.{ok_or}
use rs_converge.Engine.Rows.{key_row_id}
use rs_converge.Engine.Schema.Columns.{lookup_table_name, table_schema}
use rs_converge.Engine.Executor.{Clock, Context, ask, apply_row}
use rs_converge.Engine.Executor.Expr.{is_empty, find_column, is_primary_key}
use rs_converge.Engine.Executor.Insert.{refuse_if}
use rs_converge.Engine.Executor.Update.{put_value}

abbrev pub conflicted_name : Option ColumnSchema → EngineResult Bytes
conflicted_name none = err (custom (ascii "Conflicted column is missing from schema"))
conflicted_name (some column) = ok column.name

-- `contains` of a vector of indices
unfoldable pub contains_index : ℕ → List ℕ → Bool
contains_index index [] = false
contains_index index (x ∷ xs) = x == index || contains_index index xs

module _ ⦃fl : Floats⦄ ⦃pc : Postcard⦄ (codec : RowCodec) where
  unfoldable pub row_conflicts : Bytes → Row → Action Context (List Bytes)
  row_conflicts table_name key = do
    name ← ask (lookup_table_name table_name)
    id ← ask (λ _. key_row_id key)
    schema ← ask (table_schema table_name)
    conflicts ← ask (codec.conflicted_columns name id)
    ask (λ _. traverse (λ i. conflicted_name (get_elem? schema.columns i)) conflicts)

-- The loop of `resolve_row` over the assignments: the row and the columns that it has changed.
unfoldable pub resolve_columns :
    TableSchema → List ℕ → List (Bytes × Value) → Row → List ℕ → Action Context (Row × List ℕ)
resolve_columns schema conflicts [] row changed = pure (row, changed)
resolve_columns schema conflicts ((name, value) ∷ rest) row changed = do
  index ←
      ask (λ _. ok_or (find_column schema name) (invalid_query (ascii "Unknown resolution column")))
  refuse_if (not (contains_index index conflicts)) (ascii "Resolution column is not conflicted")
  refuse_if (is_primary_key (get_elem? schema.columns index))
      (ascii "Cannot resolve the primary key")
  refuse_if (contains_index index changed) (ascii "Resolution column is repeated")
  next ← lift (put_value row index value)
  resolve_columns schema conflicts rest next (changed ++ (index ∷ []))

module _ ⦃fl : Floats⦄ ⦃pc : Postcard⦄ ⦃clock : Clock⦄ (codec : RowCodec) where
  unfoldable pub resolve_row : Bytes → Row → List (Bytes × Value) → Action Context (Unit {0})
  resolve_row table_name key values = do
    refuse_if (is_empty values) (ascii "Resolution requires an assignment")
    name ← ask (lookup_table_name table_name)
    id ← ask (λ _. key_row_id key)
    schema ← ask (table_schema table_name)
    conflicts ← ask (codec.conflicted_columns name id)
    found ← ask (codec.get_row name id)
    row ← ask (λ _. ok_or found (invalid_query (ascii "Row not found")))
    (next, changed) ← resolve_columns schema conflicts values row []
    value ← ask (codec.encode_resolution name id next changed)
    apply_row codec name id (some value)
