-- ===== src/Engine/Executor/Table.antt =====
-- crates/engine/src/executor.rs: CREATE TABLE, DROP TABLE and ALTER TABLE.
use rs_converge.Prelude.{
  ℕ, suc, Bool, true, false, not, ◌||◌, List, [], ◌∷◌, ◌++◌, ◌^◌, map, ltb, length,
}
use rs_converge.Order.Lex.{Bytes}
use rs_converge.Value.Text.{text_eq}
use rs_converge.Value.Json.{Floats, ascii}
use rs_converge.Schema.{
  ColumnSchema, IndexSchema, TableSchema, Validation, valid, invalid, validate_uuid_primary_key,
}
use rs_converge.Query.{AlterTableOperation, QueryResult}
use rs_converge.Engine.{EngineError, EngineResult, ok, err, invalid_query, unsupported}
use rs_converge.Engine.Action.{Action, ◌>>=◌, ◌>>◌, pure, raise, for_each}
use rs_converge.Engine.RowKey.{Postcard}
use rs_converge.Engine.Codec.{RowCodec}
use rs_converge.Engine.Schema.{SchemaChange}
use rs_converge.Engine.Schema.Columns.{lookup_table_name, table_schema}
use rs_converge.Engine.Executor.{Clock, Context, ask, no_result, apply_schema}
use rs_converge.Engine.Executor.Insert.{refuse_if}
use rs_converge.Engine.Executor.Index.{create_index}

abbrev pub check_valid : Validation → Action Context (Unit {0})
check_valid valid = pure tt
check_valid (invalid message) = raise (invalid_query message)

-- Whether a name is one of the names.
unfoldable pub contains_name : Bytes → List Bytes → Bool
contains_name name [] = false
contains_name name (x ∷ xs) = text_eq x name || contains_name name xs

-- A lookup as a value: an error stays one.
abbrev pub try_lookup : ⦃fl : Floats⦄ ⦃pc : Postcard⦄ → Bytes → Action Context (EngineResult Bytes)
try_lookup name = ask (λ t. ok (lookup_table_name name t))

-- `Err(_) if if_exists`
abbrev pub missing : Bool → EngineError → Action Context QueryResult
missing true e = pure no_result
missing false e = raise e

module _ ⦃fl : Floats⦄ ⦃pc : Postcard⦄ ⦃clock : Clock⦄ (codec : RowCodec) where
  unfoldable pub add_column : Bytes → ℕ → ColumnSchema → Action Context (Unit {0})
  add_column name position column = do
    refuse_if (not (ltb position (2 ^ 32))) (ascii "Too many columns")
    apply_schema codec (
        SchemaChange.add_column name column.name column.value_type column.default position
          column.primary_key)

  -- The loop of `create_table` over the columns, from a position on.
  unfoldable pub add_columns : Bytes → ℕ → List ColumnSchema → Action Context (Unit {0})
  add_columns name position [] = pure tt
  add_columns name position (column ∷ columns) = do
    add_column name position column
    add_columns name (suc position) columns

  unfoldable pub create_table : TableSchema → Action Context (Unit {0})
  create_table schema = do
    check_valid (validate_uuid_primary_key schema)
    apply_schema codec (SchemaChange.create_table schema.name)
    add_columns schema.name 0 schema.columns

  -- What CREATE TABLE does by what the lookup of its name has given.
  abbrev pub create_unless :
      TableSchema → List IndexSchema → Bool → EngineResult Bytes → Action Context QueryResult
  create_unless schema indexes if_not_exists (ok _) = do
    refuse_if (not if_not_exists) (ascii "Table already exists")
    pure no_result
  create_unless schema indexes if_not_exists (err _) = do
    create_table schema
    for_each (create_index codec) indexes
    pure no_result

  -- CREATE TABLE, with the indexes of `CreateTableWithIndexes`
  unfoldable pub create_table_statement :
      TableSchema → List IndexSchema → Bool → Action Context QueryResult
  create_table_statement schema indexes if_not_exists = do
    found ← try_lookup schema.name
    create_unless schema indexes if_not_exists found

  abbrev pub drop_found : Bool → EngineResult Bytes → Action Context QueryResult
  drop_found if_exists (err e) = missing if_exists e
  drop_found if_exists (ok name) = do
    apply_schema codec (SchemaChange.tombstone_table name)
    pure no_result

  unfoldable pub drop_table_statement : Bytes → Bool → Action Context QueryResult
  drop_table_statement name if_exists = do found ← try_lookup name; drop_found if_exists found

  -- The round of the loop of `alter_table` for an operation: the names with the new one.
  unfoldable pub alter_one :
      Bytes → List Bytes → ℕ → AlterTableOperation → Action Context (List Bytes)
  alter_one name names position (AlterTableOperation.add_column column) = do
    refuse_if (contains_name column.name names) (ascii "Column already exists")
    refuse_if column.primary_key (ascii "Cannot add a primary-key column")
    add_column name position column
    pure (names ++ (column.name ∷ []))
  alter_one name names position _ =
      raise (unsupported (ascii "only ALTER TABLE ADD COLUMN is supported"))

  unfoldable pub alter_each :
      Bytes → List Bytes → ℕ → List AlterTableOperation → Action Context (Unit {0})
  alter_each name names position [] = pure tt
  alter_each name names position (operation ∷ operations) = do
    more ← alter_one name names position operation
    alter_each name more (suc position) operations

  abbrev pub alter_found :
      Bytes → List AlterTableOperation → Bool → EngineResult Bytes → Action Context QueryResult
  alter_found table_name operations if_exists (err e) = missing if_exists e
  alter_found table_name operations if_exists (ok name) = do
    schema ← ask (table_schema table_name)
    let names = map (λ c. c.name) schema.columns
    alter_each name names (length names) operations
    pure no_result

  unfoldable pub alter_table : Bytes → List AlterTableOperation → Bool → Action Context QueryResult
  alter_table table_name operations if_exists = do
    found ← try_lookup table_name
    alter_found table_name operations if_exists found
