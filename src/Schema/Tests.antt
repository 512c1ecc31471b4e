-- ===== src/Schema/Tests.antt =====
-- The validation of schemas at concrete inputs.
use rs_converge.Prelude.{◌≡◌, ◌↔◌, [], ◌∷◌, true, false}
use rs_converge.Value.{Value, ValueType}
use rs_converge.Value.Json.{ascii}
use rs_converge.Schema.{ColumnSchema, TableSchema, validate_uuid_primary_key, valid}
use rs_converge.Schema.Laws.{HasUuidKey, validate_uuid_primary_key-HasUuidKey}

abbrev id_column : ColumnSchema
id_column = record {
  name = ascii "id";
  value_type = ValueType.uuid;
  default = Value.null;
  primary_key = true;
}

abbrev name_column : ColumnSchema
name_column = record {
  name = ascii "name";
  value_type = ValueType.text;
  default = Value.null;
  primary_key = false;
}

abbrev people : TableSchema
people = record { name = ascii "people"; columns = name_column ∷ id_column ∷ [] }

validate_uuid_primary_key-HasUuidKey_example :
    (validate_uuid_primary_key people ≡ valid) ↔ HasUuidKey people.columns
validate_uuid_primary_key-HasUuidKey_example = validate_uuid_primary_key-HasUuidKey people
