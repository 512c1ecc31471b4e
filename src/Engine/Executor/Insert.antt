-- ===== src/Engine/Executor/Insert.antt =====
-- crates/engine/src/executor.rs: INSERT.
pub mod Shape
use rs_converge.Prelude.{
  ℕ, zero, suc, Bool, true, false, not, ◌&&◌, Option, none, some, List, [], ◌∷◌, ◌++◌, ◌==◌, map,
  ltb, length, replicate, position, if◌then◌else◌, is_some,
}
use rs_converge.Order.Lex.{Bytes}
use rs_converge.Value.{Value, Row}
use rs_converge.Value.Text.{text_eq}
use rs_converge.Value.Json.{Floats, ascii}
use rs_converge.Schema.{ColumnSchema, TableSchema}
use rs_converge.Query.{
  QueryInsert, QueryInsertValue, QueryInsertValues, QueryResult, QueryResultColumn,
}
use rs_converge.Engine.{EngineResult, ok, err, invalid_query}
use rs_converge.Engine.Action.{
  Action, ◌>>=◌, ◌>>◌, Outcome, done, failed, bind, outcome, pure, raise, lift,
}
use rs_converge.Engine.RowKey.{Postcard}
use rs_converge.Engine.Codec.{RowCodec}
use rs_converge.Engine.Catalog.{ok_or}
use rs_converge.Engine.Rows.{materialize_defaults, row_id}
use rs_converge.Engine.Schema.Columns.{lookup_table_name, table_schema}
use rs_converge.Engine.Executor.{Clock, Context, ask, next_uuid, no_result, apply_row}
use rs_converge.Engine.Executor.Expr.{find_column, value_at}
use rs_converge.Engine.Executor.Slots.{Slots, fill_slots}
use rs_converge.Engine.Executor.Select.{result_column}

-- `position` of the primary key, or the error that says that there is none
abbrev pub primary_index : TableSchema → EngineResult ℕ
primary_index schema =
    ok_or (position (λ c. c.primary_key) schema.columns)
      (invalid_query (ascii "Table requires exactly one UUID primary key"))

abbrev pub wrong_count : {A : Type 0} → Outcome A
wrong_count = failed (invalid_query (ascii "INSERT row has the wrong column count"))

-- The defaults of the columns that a shorter row lacks.
unfoldable pub fill_defaults : TableSchema → Row → Outcome Row
fill_defaults schema row =
    if ltb (length row) (length schema.columns) then materialize_defaults schema row else done row

abbrev pub check_count : TableSchema → Row → Outcome Row
check_count schema row = if length row == length schema.columns then done row else wrong_count

module _ ⦃clock : Clock⦄ where
  -- A row that lacks values is given a UUID in front where the primary key is the first column.
  unfoldable pub add_id : TableSchema → ℕ → Row → Action Context Row
  add_id schema primary row =
      if ltb (length row) (length schema.columns) && primary == 0
      then (next_uuid >>= λ id. pure (Value.uuid id ∷ row))
      else pure row

  unfoldable pub materialize_insert : TableSchema → Row → Action Context Row
  materialize_insert schema row =
      if ltb (length schema.columns) (length row)
      then lift wrong_count
      else (lift (outcome (primary_index schema)) >>= λ primary.
          (add_id schema primary row >>= λ values.
          lift (bind (fill_defaults schema values) (check_count schema))))

-- A column of RETURNING: all of them for `*`.
abbrev pub Returned : Type 0
Returned = Row × List QueryResultColumn

unfoldable pub return_named : TableSchema → Bytes → Row → Bytes → Outcome Returned
return_named schema name row column =
    bind
      (outcome
        (ok_or (find_column schema column) (invalid_query (ascii "Unknown RETURNING column"))))
      (λ index.
        bind (value_at row index) (λ value. done (value ∷ [], result_column name column ∷ [])))

unfoldable pub return_column : TableSchema → Bytes → Row → Bytes → Outcome Returned
return_column schema name row column =
    if text_eq column (ascii "*")
    then done (row, map (λ c. result_column name c.name) schema.columns)
    else return_named schema name row column

unfoldable pub return_columns : TableSchema → Bytes → Row → List Bytes → Outcome Returned
return_columns schema name row [] = done ([], [])
return_columns schema name row (column ∷ columns) =
    bind (return_column schema name row column) (λ first.
      (bind (return_columns schema name row columns)
        (λ rest. done (first.0 ++ rest.0, first.1 ++ rest.1))))

abbrev pub returned : TableSchema → Bytes → Row → Option (List Bytes) → Outcome QueryResult
returned schema name row none = done no_result
returned schema name row (some columns) =
    bind (return_columns schema name row columns)
      (λ found. done (record { rows = found.0 ∷ []; columns = found.1 }))

-- The indices of a row's values, counted from `i`.
unfoldable pub indices : ℕ → Row → List ℕ
indices i [] = []
indices i (_ ∷ row) = i ∷ indices (suc i) row

abbrev pub refuse_if : Bool → Bytes → Action Context (Unit {0})
refuse_if true message = raise (invalid_query message)
refuse_if false message = pure tt

module _ ⦃fl : Floats⦄ ⦃pc : Postcard⦄ ⦃clock : Clock⦄ (codec : RowCodec) where
  unfoldable pub insert_row : QueryInsert → Action Context QueryResult
  insert_row insert = do
    schema ← ask (table_schema insert.table)
    row ← materialize_insert schema insert.row
    id ← ask (λ _. row_id schema row)
    name ← ask (lookup_table_name insert.table)
    gone ← ask (codec.row_is_deleted name id)
    refuse_if gone (ascii "Primary key was deleted")
    existing ← ask (codec.get_row name id)
    refuse_if (is_some existing) (ascii "Primary key already exists")
    value ← ask (codec.encode_row name id row (indices 0 row))
    apply_row codec name id (some value)
    lift (returned schema insert.table row insert.returning)

abbrev pub named_columns : TableSchema → List Bytes → List Bytes
named_columns schema [] = map (λ c. c.name) schema.columns
named_columns schema (name ∷ names) = name ∷ names

module _ ⦃clock : Clock⦄ where
  abbrev pub default_value : Bool → ColumnSchema → Action Context Value
  default_value true column = next_uuid >>= λ id. pure (Value.uuid id)
  default_value false column = pure column.default

  abbrev pub slot_value : Bool → ColumnSchema → Option QueryInsertValue → Action Context Value
  slot_value primary column (some (QueryInsertValue.value v)) = pure v
  slot_value primary column (some QueryInsertValue.default) = default_value primary column
  slot_value primary column none = default_value primary column

  -- The values of the row, from the column with the index `i` on.
  unfoldable pub slot_values : ℕ → ℕ → List ColumnSchema → Slots → Action Context Row
  slot_values primary i (column ∷ columns) (slot ∷ slots) = do
    value ← slot_value (i == primary) column slot
    rest ← slot_values primary (suc i) columns slots
    pure (value ∷ rest)
  slot_values primary i _ _ = pure []

module _ ⦃fl : Floats⦄ ⦃pc : Postcard⦄ ⦃clock : Clock⦄ (codec : RowCodec) where
  unfoldable pub insert_values : QueryInsertValues → Action Context QueryResult
  insert_values insert = do
    schema ← ask (table_schema insert.table)
    refuse_if (not (length (named_columns schema insert.columns) == length insert.values))
        (ascii "INSERT column/value count mismatch")
    slots ← ask (λ _.
        (fill_slots schema (named_columns schema insert.columns) insert.values
          (replicate (length schema.columns) none)))
    primary ← ask (λ _. primary_index schema)
    row ← slot_values primary 0 schema.columns slots
    insert_row codec (record { table = insert.table; row = row; returning = insert.returning })
