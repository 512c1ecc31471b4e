-- ===== src/Engine/Api.antt =====
-- crates/engine/src/engine.rs: the calls of `Engine`, each in a transaction of its own.
use rs_converge.Prelude.{ℕ, false, List, [], ◌∷◌, Option}
use rs_converge.Order.Lex.{Bytes}
use rs_converge.Value.{Value, Row}
use rs_converge.Value.Json.{Floats, ascii}
use rs_converge.Schema.{IndexSchema, TableSchema}
use rs_converge.Query.{Statement, DataDefinition, QueryResult}
use rs_converge.Engine.{EngineResult, invalid_query, ◌>>=◌}
use rs_converge.Engine.Action.{Outcome, done, failed, panicked}
use rs_converge.Engine.RowKey.{Postcard}
use rs_converge.Engine.Kernel.{State, transaction}
use rs_converge.Engine.Codec.{RowCodec}
use rs_converge.Engine.Catalog.{ok_or}
use rs_converge.Engine.Schema.Columns
use rs_converge.Engine.Index.Schema
use rs_converge.Engine.Index.Lookup.{lookup}
use rs_converge.Engine.Executor.{Clock}
use rs_converge.Engine.Executor.Conflict
use rs_converge.Engine.Executor.Statement.{execute_statement, start, store_of, finish}

-- The result of a call without its value
abbrev pub forget : {A S : Type 0} → Outcome A × S → Outcome (Unit {0}) × S
forget (done _, s) = (done tt, s)
forget (failed e, s) = (failed e, s)
forget (panicked, s) = (panicked, s)

-- The calls that read roll their transaction back, so they leave the store.
module _ ⦃fl : Floats⦄ ⦃pc : Postcard⦄ where
  -- `Engine::index_schema`
  unfoldable pub engine_index_schema : Bytes → State → EngineResult IndexSchema
  engine_index_schema name s = do
    found ← Schema.index_schema name (transaction s)
    ok_or found (invalid_query (ascii "Index not found"))

  -- `Engine::index_lookup`
  unfoldable pub index_lookup : RowCodec → Bytes → Row → State → EngineResult (Option Row)
  index_lookup codec name values s = lookup codec name values (transaction s)

  -- `Engine::table_schema`
  unfoldable pub engine_table_schema : Bytes → State → EngineResult TableSchema
  engine_table_schema name s = Columns.table_schema name (transaction s)

  -- `Engine::row_conflicts`
  unfoldable pub engine_row_conflicts : RowCodec → Bytes → Row → State → Outcome (List Bytes)
  engine_row_conflicts codec name key s =
      (Conflict.row_conflicts codec name key (start (transaction s) 0)).0

module _ ⦃fl : Floats⦄ ⦃pc : Postcard⦄ ⦃clock : Clock⦄ (codec : RowCodec) where
  -- `Engine::execute`
  unfoldable pub execute : List Statement → ℕ → State → State → Outcome (List QueryResult) × State
  execute = execute_statement codec

  -- `Engine::create_table`
  unfoldable pub engine_create_table : TableSchema → ℕ → State → State → Outcome (Unit {0}) × State
  engine_create_table schema now begin end = forget (
      execute (Statement.data_definition (DataDefinition.create_table schema false) ∷ []) now begin
        end)

  -- `Engine::drop_table`
  unfoldable pub engine_drop_table : Bytes → ℕ → State → State → Outcome (Unit {0}) × State
  engine_drop_table name now begin end = forget (
      execute (Statement.data_definition (DataDefinition.drop_table name false) ∷ []) now begin end)

  -- `Engine::resolve_row`
  unfoldable pub engine_resolve_row :
      Bytes → Row → List (Bytes × Value) → ℕ → State → State → Outcome (Unit {0}) × State
  engine_resolve_row name key values now begin end =
      finish end
        (store_of (Conflict.resolve_row codec name key values (start (transaction begin) now)))
