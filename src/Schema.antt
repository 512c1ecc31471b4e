-- ===== src/Schema.antt =====
-- crates/schema/src/schema.rs: the schemas of tables, columns and indexes.
mod Laws
mod Tests
use rs_converge.Prelude.{ℕ, Bool, List, [], ◌∷◌, ◌==◌, if◌then◌else◌}
use rs_converge.Order.Lex.{Bytes}
use rs_converge.Value.{Value, ValueType, rank}
use rs_converge.Value.Json.{ascii}

-- `type` and `default` are the fields `r#type` and `default`.
pub record ColumnSchema : Type 0 where
  pub name : Bytes
  pub value_type : ValueType
  pub default : Value
  pub primary_key : Bool

pub record IndexSchema : Type 0 where
  pub name : Bytes
  pub table_name : Bytes
  pub column_indices : List ℕ
  pub unique : Bool

pub record TableSchema : Type 0 where
  pub name : Bytes
  pub columns : List ColumnSchema

-- `Result<(), &'static str>`
pub data Validation : Type 0 where
  valid : Validation
  invalid : Bytes → Validation

-- The columns that the filter of `validate_uuid_primary_key` lets through.
unfoldable pub primary_keys : List ColumnSchema → List ColumnSchema
primary_keys [] = []
primary_keys (column ∷ rest) =
    let keys = primary_keys rest in if column.primary_key then column ∷ keys else keys

-- What is done with them.
abbrev pub check_keys : List ColumnSchema → Validation
check_keys [] = invalid (ascii "Table requires a UUID primary key")
check_keys (key ∷ []) =
    if rank key.value_type == rank ValueType.uuid
    then valid
    else invalid (ascii "Primary key must have UUID type")
check_keys (key ∷ other ∷ _) = invalid (ascii "Table requires exactly one primary key")

unfoldable pub validate_uuid_primary_key : TableSchema → Validation
validate_uuid_primary_key schema = check_keys (primary_keys schema.columns)
