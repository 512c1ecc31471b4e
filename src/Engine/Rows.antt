-- ===== src/Engine/Rows.antt =====
-- crates/engine/src/executor.rs: the rows of a table by its schema.
use rs_converge.Prelude.{
  ℕ, suc, List, [], ◌∷◌, ◌++◌, map, length, drop, get_elem?, ltb, if◌then◌else◌,
}
use rs_converge.Order.Lex.{Bytes}
use rs_converge.Value.{Value, Row, to_uuid}
use rs_converge.Value.Json.{ascii}
use rs_converge.Schema.{ColumnSchema, TableSchema}
use rs_converge.Engine.{EngineResult, ok, err, invalid_query}
use rs_converge.Engine.Action.{Outcome, done, panicked}
use rs_converge.Engine.Catalog.{and_then, ok_or}

abbrev pub default_values : List ColumnSchema → Row
default_values = map (λ c. c.default)

-- The slice of the columns from the length of the row on panics for a row that is longer.
unfoldable pub materialize_defaults : TableSchema → Row → Outcome Row
materialize_defaults schema row =
    if ltb (length schema.columns) (length row)
    then panicked
    else done (row ++ default_values (drop (length row) schema.columns))

-- The indices of the primary keys, counted from `i`.
unfoldable pub primary_indices : ℕ → List ColumnSchema → List ℕ
primary_indices i [] = []
primary_indices i (c ∷ cs) =
    let rest = primary_indices (suc i) cs in if c.primary_key then i ∷ rest else rest

abbrev pub id_at : Row → List ℕ → EngineResult Bytes
id_at row (i ∷ []) =
    ok_or (and_then to_uuid (get_elem? row i)) (invalid_query (ascii "Primary key must be a UUID"))
id_at row _ = err (invalid_query (ascii "Table requires exactly one UUID primary key"))

unfoldable pub row_id : TableSchema → Row → EngineResult Bytes
row_id schema row = id_at row (primary_indices 0 schema.columns)

unfoldable pub key_row_id : Row → EngineResult Bytes
key_row_id (Value.uuid id ∷ []) = ok id
key_row_id _ = err (invalid_query (ascii "Primary key must be a UUID"))
