-- ===== src/Engine/Executor/Keeps/Statements.antt =====
-- What a list of statements keeps of its transaction (crates/engine/src/executor.rs).
use rs_converge.Prelude.{List, [], ◌∷◌, arith}
use rs_converge.Value.Json.{Floats}
use rs_converge.Query.{Query, DataDefinition, Statement}
use rs_converge.Engine.RowKey.{Postcard}
use rs_converge.Engine.Kernel.{Transaction}
use rs_converge.Engine.Codec.{RowCodec}
use rs_converge.Engine.Keeps.{IsKept, ensure-keeps}
use rs_converge.Engine.Executor.{Clock, Context}
use rs_converge.Engine.Executor.Statement.{
  execute_query, execute_ddl, execute_one, execute_all, ensure_catalog,
}
use rs_converge.Engine.Executor.Keeps.{
  InContext, insert_row-keeps, insert_values-keeps, update_rows-keeps, delete_rows-keeps,
}
use rs_converge.Engine.Executor.Keeps.Tables.{
  create_table_statement-keeps, drop_table_statement-keeps, alter_table-keeps,
  create_resolved-keeps, create_unresolved_index-keeps, drop_index-keeps,
}

module _ (Inv : Transaction → Type 0) (codec : RowCodec) ⦃fl : Floats⦄ ⦃pc : Postcard⦄
    ⦃clock : Clock⦄ (kept : IsKept Inv codec) where
  execute_query-keeps :
      (query : Query) (c : Context)
      → InContext Inv c
      → InContext Inv (execute_query codec query c).1
  unfolding execute_query
  execute_query-keeps (Query.select s) c i = i
  execute_query-keeps (Query.insert insert) c i = insert_row-keeps Inv codec kept insert c i
  execute_query-keeps (Query.insert_values insert) c i =
      insert_values-keeps Inv codec kept insert c i
  execute_query-keeps (Query.update update) c i = update_rows-keeps Inv codec kept update c i
  execute_query-keeps (Query.delete delete) c i = delete_rows-keeps Inv codec kept delete c i

  execute_ddl-keeps :
      (ddl : DataDefinition) (c : Context)
      → InContext Inv c
      → InContext Inv (execute_ddl codec ddl c).1
  unfolding execute_ddl
  execute_ddl-keeps (DataDefinition.create_table a b) c i =
      create_table_statement-keeps Inv codec kept a [] b c i
  execute_ddl-keeps (DataDefinition.create_table_with_indexes a b d) c i =
      create_table_statement-keeps Inv codec kept a b d c i
  execute_ddl-keeps (DataDefinition.drop_table a b) c i =
      drop_table_statement-keeps Inv codec kept a b c i
  execute_ddl-keeps (DataDefinition.alter_table a b d) c i =
      alter_table-keeps Inv codec kept a b d c i
  execute_ddl-keeps (DataDefinition.create_index a b) c i =
      create_resolved-keeps Inv codec kept a b c i
  execute_ddl-keeps (DataDefinition.create_index_unresolved a b d e f) c i =
      create_unresolved_index-keeps Inv codec kept a b d e f c i
  execute_ddl-keeps (DataDefinition.drop_index a b) c i = drop_index-keeps Inv codec kept a b c i
  execute_ddl-keeps (DataDefinition.alter_index a b d) c i = i

  execute_one-keeps :
      (statement : Statement) (c : Context)
      → InContext Inv c
      → InContext Inv (execute_one codec statement c).1
  unfolding execute_one
  execute_one-keeps (Statement.query q) c i = execute_query-keeps q c i
  execute_one-keeps (Statement.data_definition d) c i = execute_ddl-keeps d c i

  -- Statements keep what the calls of the kernel and of the codec keep.
  pub execute_all-keeps :
      (statements : List Statement) (c : Context)
      → InContext Inv c
      → InContext Inv (execute_all codec statements c).1
  unfolding execute_all
  execute_all-keeps [] c i = i
  execute_all-keeps (statement ∷ statements) c i =
      grind (arith, execute_one-keeps, execute_all-keeps statements)

  pub ensure_catalog-keeps : (c : Context) → InContext Inv c → InContext Inv (ensure_catalog c).1
  ensure_catalog-keeps c i = ensure-keeps Inv codec kept c.local.transaction i
