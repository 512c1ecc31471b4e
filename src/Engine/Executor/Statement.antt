-- ===== src/Engine/Executor/Statement.antt =====
-- crates/engine/src/executor.rs: statements in one transaction, which commits when all of them
-- have succeeded.
pub mod Laws
use rs_converge.Prelude.{ℕ, List, [], ◌∷◌}
use rs_converge.Value.Json.{Floats, ascii}
use rs_converge.Query.{Query, DataDefinition, Statement, QueryResult, QuerySelect}
use rs_converge.Engine.{EngineResult, unsupported}
use rs_converge.Engine
use rs_converge.Engine.Action.{
  Action, ◌>>=◌, ◌>>◌, Outcome, done, failed, panicked, outcome, pure, raise,
}
use rs_converge.Engine.RowKey.{Postcard}
use rs_converge.Engine.Kernel.{State, Transaction, transaction, commit}
use rs_converge.Engine.Codec.{RowCodec}
use rs_converge.Engine.Schema.{ensure}
use rs_converge.Engine.Executor.{Clock, Context, inspect, with_clock, no_result}
use rs_converge.Engine.Executor.Select.{select_rows}
use rs_converge.Engine.Executor.Insert.{insert_row, insert_values}
use rs_converge.Engine.Executor.Update.{update_rows, delete_rows}
use rs_converge.Engine.Executor.Table.{create_table_statement, drop_table_statement, alter_table}
use rs_converge.Engine.Executor.Index.{create_resolved, create_unresolved_index, drop_index}

module _ ⦃fl : Floats⦄ ⦃pc : Postcard⦄ ⦃clock : Clock⦄ (codec : RowCodec) where
  unfoldable pub execute_query : Query → Action Context QueryResult
  execute_query (Query.select s) = inspect (select_rows codec s)
  execute_query (Query.insert insert) = insert_row codec insert
  execute_query (Query.insert_values insert) = insert_values codec insert
  execute_query (Query.update update) = update_rows codec update
  execute_query (Query.delete delete) = delete_rows codec delete

  -- `execute_ddl`, with `execute_table_ddl` and `execute_index_ddl`
  unfoldable pub execute_ddl : DataDefinition → Action Context QueryResult
  execute_ddl (DataDefinition.create_table schema if_not_exists) =
      create_table_statement codec schema [] if_not_exists
  execute_ddl (DataDefinition.create_table_with_indexes schema indexes if_not_exists) =
      create_table_statement codec schema indexes if_not_exists
  execute_ddl (DataDefinition.drop_table name if_exists) = drop_table_statement codec name if_exists
  execute_ddl (DataDefinition.alter_table name operations if_exists) =
      alter_table codec name operations if_exists
  execute_ddl (DataDefinition.create_index schema if_not_exists) =
      create_resolved codec schema if_not_exists
  execute_ddl
        (DataDefinition.create_index_unresolved name table_name column_names unique if_not_exists) =
      create_unresolved_index codec name table_name column_names unique if_not_exists
  execute_ddl (DataDefinition.drop_index name if_exists) = drop_index codec name if_exists
  execute_ddl (DataDefinition.alter_index _ _ _) =
      raise (unsupported (ascii "only CREATE TABLE and ALTER TABLE ADD COLUMN are supported"))

  unfoldable pub execute_one : Statement → Action Context QueryResult
  execute_one (Statement.query q) = execute_query q
  execute_one (Statement.data_definition d) = execute_ddl d

  -- The loop of `execute_statement`, until a statement fails.
  unfoldable pub execute_all : List Statement → Action Context (List QueryResult)
  execute_all [] = pure []
  execute_all (statement ∷ statements) = do
    result ← execute_one statement
    results ← execute_all statements
    pure (result ∷ results)

-- The context of a transaction that has begun.
abbrev pub start : Transaction → ℕ → Context
start t now = record { local = record { transaction = t; changes = [] }; clock = now }

-- `ensure_catalog`, on the transaction of the context
abbrev pub ensure_catalog : Action Context (Unit {0})
ensure_catalog c =
    let (o, t) = ensure c.local.transaction in
    with_clock c.clock (o, record { transaction = t; changes = c.local.changes })

-- What a commit has given, after a result.
abbrev pub committed {ℓ} : {A : Type ℓ} → A → EngineResult {0} Unit × State → Outcome A × State
committed a (Engine.ok _, s) = (done a, s)
committed a (Engine.err e, s) = (failed e, s)

-- A transaction ends: it commits into the store as it is by then, or it is rolled back. A panic
-- drops it.
abbrev pub finish {ℓ} : {A : Type ℓ} → State → Outcome A × Transaction → Outcome A × State
finish end (done a, t) = committed a (commit end t)
finish end (failed e, t) = (failed e, end)
finish end (panicked, t) = (panicked, end)

abbrev pub store_of {ℓ} : {A : Type ℓ} → Outcome A × Context → Outcome A × Transaction
store_of (o, c) = (o, c.local.transaction)

module _ ⦃fl : Floats⦄ ⦃pc : Postcard⦄ ⦃clock : Clock⦄ (codec : RowCodec) where
  -- The statements, in a transaction that begins at one state of the store and ends at another:
  -- transactions may commit between.
  unfoldable pub execute_statement :
      List Statement → ℕ → State → State → Outcome (List QueryResult) × State
  execute_statement statements now begin end =
      finish end (
        store_of ((ensure_catalog >> execute_all codec statements) (start (transaction begin) now)))
