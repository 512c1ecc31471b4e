-- ===== src/Engine/Executor/Keeps.antt =====
-- What INSERT, UPDATE and DELETE keep of their transaction (crates/engine/src/executor.rs).
pub mod Tables
pub mod Statements
use rs_converge.Prelude.{ℕ, suc, Bool, true, false, Option, none, List, [], ◌∷◌, arith}
use rs_converge.Order.Lex.{Bytes}
use rs_converge.Value.{Value, Row}
use rs_converge.Value.Json.{Floats}
use rs_converge.Schema.{ColumnSchema, IndexSchema, TableSchema}
use rs_converge.Query.{
  AlterTableOperation, QueryInsert, QueryInsertValues, QueryUpdate, QueryDelete, Query,
  DataDefinition, Statement,
}
use rs_converge.Engine.{EngineError, EngineResult, ok, err}
use rs_converge.Engine.Action.{Outcome, for_each, done, failed, panicked}
use rs_converge.Engine.RowKey.{Postcard}
use rs_converge.Engine.Kernel.{Transaction}
use rs_converge.Engine.Codec.{RowCodec}
use rs_converge.Engine.Schema.{SchemaChange}
use rs_converge.Engine.Change.{Change, Local, apply_local_change, push_change, materialize_change}
use rs_converge.Engine.Keeps.{IsKept, ensure-keeps, for_each-keeps}
use rs_converge.Engine.Keeps.Changes.{materialize_change-keeps}
use rs_converge.Engine.Executor.{Clock, Context, apply_schema, apply_row}
use rs_converge.Engine.Executor.Slots.{Slots}
use rs_converge.Engine.Executor.Insert.{
  insert_row, insert_values, materialize_insert, add_id, slot_values,
}
use rs_converge.Engine.Executor.Update.{update_one, update_rows, delete_rows}
use rs_converge.Engine.Executor.Table.{
  add_column, add_columns, create_table, create_unless, create_table_statement, missing, drop_found,
  drop_table_statement, alter_one, alter_each, alter_found, alter_table,
}
use rs_converge.Engine.Executor.Index.{
  create_index, ensure_index_absent, create_resolved, unresolved_index_columns,
  create_unresolved_index, drop_index,
}
use rs_converge.Engine.Executor.Statement.{
  execute_query, execute_ddl, execute_one, execute_all, ensure_catalog,
}

-- A property of the transaction of a context.
abbrev pub InContext : (Transaction → Type 0) → Context → Type 0
InContext Inv c = Inv c.local.transaction

module _ (Inv : Transaction → Type 0) (codec : RowCodec) ⦃fl : Floats⦄ ⦃pc : Postcard⦄
    ⦃clock : Clock⦄ (kept : IsKept Inv codec) where
  push_change-keeps :
      (change : Change) (changes : List Change) (r : Outcome Bool × Transaction)
      → Inv r.1
      → Inv (push_change change changes r).1.transaction
  push_change-keeps change changes (done _, t) i = i
  push_change-keeps change changes (failed e, t) i = i
  push_change-keeps change changes (panicked, t) i = i

  apply_local_change-keeps :
      (change : Change) (local : Local)
      → Inv local.transaction
      → Inv (apply_local_change codec change local).1.transaction
  unfolding apply_local_change
  apply_local_change-keeps change local i =
      push_change-keeps change local.changes
        (materialize_change codec change true local.transaction)
        (materialize_change-keeps Inv codec kept change true local.transaction i)

  pub apply_schema-keeps :
      (change : SchemaChange) (c : Context)
      → InContext Inv c
      → InContext Inv (apply_schema codec change c).1
  unfolding apply_schema
  apply_schema-keeps change c i = grind (arith, apply_local_change-keeps)

  apply_row-keeps :
      (name id : Bytes) (value : Option Bytes) (c : Context)
      → InContext Inv c
      → InContext Inv (apply_row codec name id value c).1
  unfolding apply_row
  apply_row-keeps name id value c i = grind (arith, apply_local_change-keeps)

  add_id-keeps :
      (schema : TableSchema) (primary : ℕ) (row : Row) (c : Context)
      → InContext Inv c
      → InContext Inv (add_id schema primary row c).1
  unfolding add_id
  add_id-keeps schema primary row c i = ground arith

  materialize_insert-keeps :
      (schema : TableSchema) (row : Row) (c : Context)
      → InContext Inv c
      → InContext Inv (materialize_insert schema row c).1
  unfolding materialize_insert
  materialize_insert-keeps schema row c i = grind (arith, add_id-keeps)

  pub insert_row-keeps :
      (insert : QueryInsert) (c : Context)
      → InContext Inv c
      → InContext Inv (insert_row codec insert c).1
  unfolding insert_row
  insert_row-keeps insert c i = grind (arith, materialize_insert-keeps, apply_row-keeps)

  slot_values-keeps :
      (primary i : ℕ) (columns : List ColumnSchema) (slots : Slots) (c : Context)
      → InContext Inv c
      → InContext Inv (slot_values primary i columns slots c).1
  unfolding slot_values
  slot_values-keeps primary i [] slots c h = h
  slot_values-keeps primary i (column ∷ columns) [] c h = h
  slot_values-keeps primary i (column ∷ columns) (slot ∷ slots) c h =
      grind (arith, slot_values-keeps primary (suc i) columns slots)

  pub insert_values-keeps :
      (insert : QueryInsertValues) (c : Context)
      → InContext Inv c
      → InContext Inv (insert_values codec insert c).1
  unfolding insert_values
  insert_values-keeps insert c i = grind (arith, slot_values-keeps, insert_row-keeps)

  update_one-keeps :
      (schema : TableSchema) (name : Bytes) (changes : List (ℕ × Value)) (found : Bytes × Row)
      (c : Context)
      → InContext Inv c
      → InContext Inv (update_one codec schema name changes found c).1
  unfolding update_one
  update_one-keeps schema name changes found c i = grind (arith, apply_row-keeps)

  update_each-keeps :
      (schema : TableSchema) (name : Bytes) (changes : List (ℕ × Value)) (rows : List (Bytes × Row))
      (c : Context)
      → InContext Inv c
      → InContext Inv (for_each (update_one codec schema name changes) rows c).1
  update_each-keeps schema name changes rows c i =
      for_each-keeps (InContext Inv) (update_one codec schema name changes)
        (update_one-keeps schema name changes) rows c i

  pub update_rows-keeps :
      (update : QueryUpdate) (c : Context)
      → InContext Inv c
      → InContext Inv (update_rows codec update c).1
  unfolding update_rows
  update_rows-keeps update c i = grind (arith, update_each-keeps)

  delete_each-keeps :
      (name : Bytes) (rows : List (Bytes × Row)) (c : Context)
      → InContext Inv c
      → InContext Inv (for_each (λ found. apply_row codec name found.0 none) rows c).1
  delete_each-keeps name rows c i =
      for_each-keeps (InContext Inv) (λ found. apply_row codec name found.0 none)
        (λ found. apply_row-keeps name found.0 none) rows c i

  pub delete_rows-keeps :
      (delete : QueryDelete) (c : Context)
      → InContext Inv c
      → InContext Inv (delete_rows codec delete c).1
  unfolding delete_rows
  delete_rows-keeps delete c i = grind (arith, delete_each-keeps)
