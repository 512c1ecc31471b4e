-- ===== src/Engine/Executor/Update.antt =====
-- crates/engine/src/executor.rs: UPDATE and DELETE.
pub mod Safety
use rs_converge.Prelude.{
  ℕ, Bool, true, false, Option, none, some, List, [], ◌∷◌, map, ltb, length, set_elem, is_some, not,
  if◌then◌else◌,
}
use rs_converge.Order.Lex.{Bytes}
use rs_converge.Value.{Value, Row}
use rs_converge.Value.Text.{text_eq}
use rs_converge.Value.Json.{Floats, ascii}
use rs_converge.Schema.{TableSchema}
use rs_converge.Query.{QueryUpdate, QueryDelete, QueryFrom, from, QueryResult}
use rs_converge.Engine.{invalid_query, unsupported}
use rs_converge.Engine.Action.{
  Action, ◌>>=◌, ◌>>◌, Outcome, done, panicked, bind, pure, raise, lift, for_each,
}
use rs_converge.Engine.RowKey.{Postcard}
use rs_converge.Engine.Codec.{RowCodec}
use rs_converge.Engine.Rows.{row_id}
use rs_converge.Engine.Schema.Columns.{lookup_table_name, table_schema}
use rs_converge.Engine.Executor.{Clock, Context, ask, inspect, no_result, apply_row}
use rs_converge.Engine.Executor.Expr.{assignments, predicate}
use rs_converge.Engine.Executor.Select.{has_joins, matching_rows}
use rs_converge.Engine.Executor.Insert.{refuse_if}

abbrev pub from_table : QueryFrom → Bytes
from_table (from name _) = name

-- `Err(EngineError::Unsupported(..))` under a condition
abbrev pub unsupported_if : Bool → Bytes → Action Context (Unit {0})
unsupported_if true message = raise (unsupported message)
unsupported_if false message = pure tt

-- `row.values[index] = value`
abbrev pub put_value : Row → ℕ → Value → Outcome Row
put_value row index value =
    if ltb index (length row) then done (set_elem index value row) else panicked

unfoldable pub assign : List (ℕ × Value) → Row → Outcome Row
assign [] row = done row
assign ((index, value) ∷ rest) row = bind (put_value row index value) (assign rest)

module _ ⦃fl : Floats⦄ ⦃pc : Postcard⦄ ⦃clock : Clock⦄ (codec : RowCodec) where
  -- The round of the loop of `update_rows` for a row.
  unfoldable pub update_one :
      TableSchema → Bytes → List (ℕ × Value) → Bytes × Row → Action Context (Unit {0})
  update_one schema name changes (id, row) = do
    next ← lift (assign changes row)
    found ← ask (λ _. row_id schema next)
    refuse_if (not (text_eq found id)) (ascii "Cannot update the primary key")
    value ← ask (codec.encode_row name id next (map (λ c. c.0) changes))
    apply_row codec name id (some value)

  unfoldable pub update_rows : QueryUpdate → Action Context QueryResult
  update_rows update = do
    unsupported_if (has_joins update.from) (ascii "UPDATE JOIN")
    unsupported_if (is_some update.returning) (ascii "UPDATE RETURNING")
    schema ← ask (table_schema (from_table update.from))
    changes ← ask (λ _. assignments schema (from_table update.from) update.assignments)
    p ← ask (λ _. predicate schema (from_table update.from) update.predicate)
    rows ← inspect (matching_rows codec (from_table update.from) schema p)
    name ← ask (lookup_table_name (from_table update.from))
    for_each (update_one schema name changes) rows
    pure no_result

  unfoldable pub delete_rows : QueryDelete → Action Context QueryResult
  delete_rows delete = do
    unsupported_if (has_joins delete.from) (ascii "DELETE JOIN")
    unsupported_if (is_some delete.returning) (ascii "DELETE RETURNING")
    schema ← ask (table_schema (from_table delete.from))
    p ← ask (λ _. predicate schema (from_table delete.from) delete.predicate)
    rows ← inspect (matching_rows codec (from_table delete.from) schema p)
    name ← ask (lookup_table_name (from_table delete.from))
    for_each (λ found. apply_row codec name found.0 none) rows
    pure no_result
