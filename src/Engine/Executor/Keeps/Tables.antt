-- ===== src/Engine/Executor/Keeps/Tables.antt =====
-- What CREATE, ALTER and DROP keep of their transaction (crates/engine/src/executor.rs).
use rs_converge.Prelude.{ℕ, suc, Bool, true, false, List, [], ◌∷◌, arith}
use rs_converge.Order.Lex.{Bytes}
use rs_converge.Value.Json.{Floats}
use rs_converge.Schema.{ColumnSchema, IndexSchema, TableSchema}
use rs_converge.Query.{AlterTableOperation}
use rs_converge.Engine.{EngineError, EngineResult, ok, err}
use rs_converge.Engine.Action.{for_each}
use rs_converge.Engine.RowKey.{Postcard}
use rs_converge.Engine.Kernel.{Transaction}
use rs_converge.Engine.Codec.{RowCodec}
use rs_converge.Engine.Keeps.{IsKept, for_each-keeps}
use rs_converge.Engine.Executor.{Clock, Context}
use rs_converge.Engine.Executor.Table.{
  add_column, add_columns, create_table, create_unless, create_table_statement, missing, drop_found,
  drop_table_statement, alter_one, alter_each, alter_found, alter_table,
}
use rs_converge.Engine.Executor.Index.{
  create_index, ensure_index_absent, create_resolved, unresolved_index_columns,
  create_unresolved_index, drop_index,
}
use rs_converge.Engine.Executor.Keeps.{InContext, apply_schema-keeps}

module _ (Inv : Transaction → Type 0) (codec : RowCodec) ⦃fl : Floats⦄ ⦃pc : Postcard⦄
    ⦃clock : Clock⦄ (kept : IsKept Inv codec) where
  add_column-keeps :
      (name : Bytes) (position : ℕ) (column : ColumnSchema) (c : Context)
      → InContext Inv c
      → InContext Inv (add_column codec name position column c).1
  unfolding add_column
  add_column-keeps name position column c i = grind (arith, apply_schema-keeps Inv codec kept)

  add_columns-keeps :
      (name : Bytes) (position : ℕ) (columns : List ColumnSchema) (c : Context)
      → InContext Inv c
      → InContext Inv (add_columns codec name position columns c).1
  unfolding add_columns
  add_columns-keeps name position [] c i = i
  add_columns-keeps name position (column ∷ columns) c i =
      grind (arith, add_column-keeps, add_columns-keeps name (suc position) columns)

  create_table-keeps :
      (schema : TableSchema) (c : Context)
      → InContext Inv c
      → InContext Inv (create_table codec schema c).1
  unfolding create_table
  create_table-keeps schema c i =
      grind (arith, apply_schema-keeps Inv codec kept, add_columns-keeps)

  create_index-keeps :
      (index : IndexSchema) (c : Context)
      → InContext Inv c
      → InContext Inv (create_index codec index c).1
  unfolding create_index
  create_index-keeps index c i = grind (arith, apply_schema-keeps Inv codec kept)

  create_indexes-keeps :
      (indexes : List IndexSchema) (c : Context)
      → InContext Inv c
      → InContext Inv (for_each (create_index codec) indexes c).1
  create_indexes-keeps indexes c i =
      for_each-keeps (InContext Inv) (create_index codec) create_index-keeps indexes c i

  create_unless-keeps :
      (schema : TableSchema) (indexes : List IndexSchema) (if_not_exists : Bool)
      (found : EngineResult Bytes) (c : Context)
      → InContext Inv c
      → InContext Inv (create_unless codec schema indexes if_not_exists found c).1
  create_unless-keeps schema indexes if_not_exists (ok _) c i = ground arith
  create_unless-keeps schema indexes if_not_exists (err _) c i =
      grind (arith, create_table-keeps, create_indexes-keeps)

  pub create_table_statement-keeps :
      (schema : TableSchema) (indexes : List IndexSchema) (if_not_exists : Bool) (c : Context)
      → InContext Inv c
      → InContext Inv (create_table_statement codec schema indexes if_not_exists c).1
  unfolding create_table_statement
  create_table_statement-keeps schema indexes if_not_exists c i =
      create_unless-keeps schema indexes if_not_exists _ c i

  missing-keeps :
      (if_exists : Bool) (e : EngineError) (c : Context)
      → InContext Inv c
      → InContext Inv (missing if_exists e c).1
  missing-keeps true e c i = i
  missing-keeps false e c i = i

  drop_found-keeps :
      (if_exists : Bool) (found : EngineResult Bytes) (c : Context)
      → InContext Inv c
      → InContext Inv (drop_found codec if_exists found c).1
  drop_found-keeps if_exists (ok name) c i = grind (arith, apply_schema-keeps Inv codec kept)
  drop_found-keeps if_exists (err e) c i = missing-keeps if_exists e c i

  pub drop_table_statement-keeps :
      (name : Bytes) (if_exists : Bool) (c : Context)
      → InContext Inv c
      → InContext Inv (drop_table_statement codec name if_exists c).1
  unfolding drop_table_statement
  drop_table_statement-keeps name if_exists c i = drop_found-keeps if_exists _ c i

  alter_one-keeps :
      (name : Bytes) (names : List Bytes) (position : ℕ) (operation : AlterTableOperation)
      (c : Context)
      → InContext Inv c
      → InContext Inv (alter_one codec name names position operation c).1
  unfolding alter_one
  alter_one-keeps name names position (AlterTableOperation.add_column column) c i =
      grind (arith, add_column-keeps)
  alter_one-keeps name names position _ c i = i

  alter_each-keeps :
      (name : Bytes) (operations : List AlterTableOperation) (names : List Bytes) (position : ℕ)
      (c : Context)
      → InContext Inv c
      → InContext Inv (alter_each codec name names position operations c).1
  unfolding alter_each
  alter_each-keeps name [] names position c i = i
  alter_each-keeps name (operation ∷ operations) names position c i =
      grind (arith, alter_one-keeps, alter_each-keeps name operations)

  alter_found-keeps :
      (name : Bytes) (operations : List AlterTableOperation) (if_exists : Bool)
      (found : EngineResult Bytes) (c : Context)
      → InContext Inv c
      → InContext Inv (alter_found codec name operations if_exists found c).1
  alter_found-keeps name operations if_exists (err e) c i = missing-keeps if_exists e c i
  alter_found-keeps name operations if_exists (ok _) c i = grind (arith, alter_each-keeps)

  pub alter_table-keeps :
      (name : Bytes) (operations : List AlterTableOperation) (if_exists : Bool) (c : Context)
      → InContext Inv c
      → InContext Inv (alter_table codec name operations if_exists c).1
  unfolding alter_table
  alter_table-keeps name operations if_exists c i =
      alter_found-keeps name operations if_exists _ c i

  pub create_resolved-keeps :
      (index : IndexSchema) (if_not_exists : Bool) (c : Context)
      → InContext Inv c
      → InContext Inv (create_resolved codec index if_not_exists c).1
  unfolding create_resolved ensure_index_absent
  create_resolved-keeps index if_not_exists c i = grind (arith, create_index-keeps)

  pub create_unresolved_index-keeps :
      (name table_name : Bytes) (column_names : List Bytes) (unique if_not_exists : Bool)
      (c : Context)
      → InContext Inv c
      → InContext Inv
          (create_unresolved_index codec name table_name column_names unique if_not_exists c).1
  unfolding create_unresolved_index unresolved_index_columns
  create_unresolved_index-keeps name table_name column_names unique if_not_exists c i =
      grind (arith, create_index-keeps)

  pub drop_index-keeps :
      (name : Bytes) (if_exists : Bool) (c : Context)
      → InContext Inv c
      → InContext Inv (drop_index codec name if_exists c).1
  unfolding drop_index
  drop_index-keeps name if_exists c i = grind (arith, apply_schema-keeps Inv codec kept)
