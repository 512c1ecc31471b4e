-- ===== src/Engine/Executor/Select.antt =====
-- crates/engine/src/executor.rs: SELECT, and the rows that UPDATE and DELETE match.
pub mod Shape
use rs_converge.Prelude.{
  ℕ, suc, Bool, true, false, not, ◌&&◌, ◌||◌, Option, none, some, List, [], ◌∷◌, ◌++◌, map,
  get_elem?, if◌then◌else◌, is_some,
}
use rs_converge.Order.Lex.{Bytes}
use rs_converge.Value.{Value, Row, value_eq}
use rs_converge.Value.Text.{text_eq}
use rs_converge.Value.Json.{Floats, ascii}
use rs_converge.Schema.{ColumnSchema, TableSchema}
use rs_converge.Query.{
  QueryColumn, QueryResult, QueryResultColumn, QuerySelect, QueryFrom, from, Joins, Predicate,
  absent, given,
}
use rs_converge.Query
use rs_converge.Engine.{EngineResult, ok, err, invalid_query, unsupported, ◌>>=◌}
use rs_converge.Engine.Action.{Outcome, done, failed, panicked, outcome, bind}
use rs_converge.Engine.RowKey.{Postcard}
use rs_converge.Engine.Kernel.{Transaction}
use rs_converge.Engine.Codec.{RowCodec}
use rs_converge.Engine.Catalog.{ok_or}
use rs_converge.Engine.Rows.{materialize_defaults}
use rs_converge.Engine.Schema.Columns.{lookup_table_name, table_schema}
use rs_converge.Engine.Executor.Expr.{is_empty, find_column, value_at, predicate_matches}

abbrev pub Projected : Type 0
Projected = ℕ × QueryResultColumn

abbrev pub result_column : Bytes → Bytes → QueryResultColumn
result_column name column = record {
  name = column;
  source_table = some name;
  source_column = some column;
}

-- `*`: the columns of the schema with their indices, counted from `i`.
unfoldable pub all_columns : Bytes → ℕ → List ColumnSchema → List Projected
all_columns name i [] = []
all_columns name i (c ∷ cs) = (i, result_column name c.name) ∷ all_columns name (suc i) cs

-- A column that is asked for by its name; the column that is found has this name.
unfoldable pub project_one : TableSchema → Bytes → QueryColumn → EngineResult (List Projected)
project_one schema name requested =
    if not (is_empty requested.table) && not (text_eq requested.table name)
    then err (invalid_query (ascii "Unknown projection table"))
    else (ok_or (find_column schema requested.column)
          (invalid_query (ascii "Unknown projection column"))
        >>= λ index. ok ((index, result_column name requested.column) ∷ []))

unfoldable pub project : TableSchema → Bytes → QueryColumn → EngineResult (List Projected)
project schema name requested =
    if text_eq requested.column (ascii "*")
    then ok (all_columns name 0 schema.columns)
    else project_one schema name requested

unfoldable pub projection : TableSchema → Bytes → List QueryColumn → EngineResult (List Projected)
projection schema name [] = ok []
projection schema name (requested ∷ rest) = do
  columns ← project schema name requested
  others ← projection schema name rest
  ok (columns ++ others)

-- The values of a row in the columns of a projection.
unfoldable pub project_row : Row → List Projected → Outcome Row
project_row row [] = done []
project_row row ((index, _) ∷ rest) =
    bind (value_at row index) (λ v. bind (project_row row rest) (λ vs. done (v ∷ vs)))

abbrev pub has_joins : QueryFrom → Bool
has_joins (from _ Joins.last) = false
has_joins (from _ (Joins.next _ _)) = true

abbrev pub is_given : Predicate → Bool
is_given absent = false
is_given (given _) = true

abbrev pub is_complex : QuerySelect → Bool
is_complex (QuerySelect.select f _ _ aggregates group_by order_by limit offset having) =
    has_joins f
    || not (is_empty aggregates)
    || not (is_empty group_by)
    || not (is_empty order_by)
    || is_some limit
    || is_some offset
    || is_given having

module _ ⦃fl : Floats⦄ where
  -- What a row adds to the result.
  abbrev pub select_row :
      TableSchema → Bytes → List Projected → Predicate → Row → Outcome (List Row)
  select_row schema name columns p row = bind (predicate_matches schema name row p) (λ matches.
      (if matches then bind (project_row row columns) (λ values. done (values ∷ [])) else done []))

  -- The loop of `select_rows` over the stream of rows.
  unfoldable pub select_loop :
      TableSchema
      → Bytes
      → List Projected
      → Predicate
      → List (EngineResult (Bytes × Row))
      → Outcome (List Row)
  select_loop schema name columns p [] = done []
  select_loop schema name columns p (item ∷ items) = bind (outcome item) (λ found.
      (bind (materialize_defaults schema found.1) (λ row.
        (bind (select_row schema name columns p row) (λ selected.
          (bind (select_loop schema name columns p items) (λ rest. done (selected ++ rest))))))))

  -- Whether `row.values.get(index) == Some(value)`
  abbrev pub holds_value : Value → Option Value → Bool
  holds_value value none = false
  holds_value value (some found) = value_eq found value

  unfoldable pub matching_loop :
      TableSchema → ℕ × Value → List (EngineResult (Bytes × Row)) → Outcome (List (Bytes × Row))
  matching_loop schema (index, value) [] = done []
  matching_loop schema (index, value) (item ∷ items) = bind (outcome item) (λ found.
      (bind (materialize_defaults schema found.1) (λ row.
        (bind (matching_loop schema (index, value) items) (λ rest.
          done
            (if holds_value value (get_elem? row index) then (found.0, row) ∷ rest else rest))))))

module _ ⦃fl : Floats⦄ ⦃pc : Postcard⦄ (codec : RowCodec) where
  unfoldable pub matching_rows :
      Bytes → TableSchema → ℕ × Value → Transaction → Outcome (List (Bytes × Row))
  matching_rows name schema p t =
      bind (outcome (lookup_table_name name t))
        (λ found. matching_loop schema p (codec.scan_rows found t))

  abbrev pub select_from : Bytes → List QueryColumn → Predicate → Transaction → Outcome QueryResult
  select_from name requested p t = bind (outcome (table_schema name t)) (λ schema.
      (bind (outcome (projection schema name requested)) (λ columns.
        (bind (outcome (lookup_table_name name t)) (λ found.
          (bind (select_loop schema name columns p (codec.scan_rows found t))
            (λ rows. done (record { rows = rows; columns = map (λ c. c.1) columns }))))))))

  unfoldable pub select_rows : QuerySelect → Transaction → Outcome QueryResult
  select_rows
        (QuerySelect.select
          (from name joins)
          requested
          p
          aggregates
          group_by
          order_by
          limit
          offset
          having)
        t =
      if is_complex (
        QuerySelect.select (from name joins) requested p aggregates group_by order_by limit offset
          having)
      then failed (unsupported (ascii "complex SELECT"))
      else select_from name requested p t
