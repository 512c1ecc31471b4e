-- ===== src/Engine/Schema/Tests.antt =====
-- The changes of the schema at concrete inputs.
use rs_converge.Prelude.{◌≡◌, refl, true, false, none, some, [], ◌∷◌, if◌then◌else◌, ◌==◌}
use rs_converge.Order.Lex.{Bytes, cmp_list}
use rs_converge.BTreeMap
use rs_converge.Int.{pos}
use rs_converge.Value.{Value, ValueType, Row}
use rs_converge.Value.Text.{text_eq}
use rs_converge.Value.Json.{Floats, ascii}
use rs_converge.Schema.{ColumnSchema}
use rs_converge.Engine.{EngineResult, ok, err, invalid_query}
use rs_converge.Engine.Action.{done}
use rs_converge.Order.Escape.{escape}
use rs_converge.Engine.RowKey.{
  Postcard, encode_key, encode_values, encode_value_order, encode_escaped,
}
use rs_converge.Engine.RowTable.{get_entry}
use rs_converge.Engine.Kernel.{Transaction, get_bytes, table}
use rs_converge.Engine.Catalog.{
  tables_storage, table_fields_storage, table_key, column_key, deleted,
}
use rs_converge.Engine.Schema.{create_table, tombstone_table, materialize}
use rs_converge.Engine.Schema.Columns.{lookup_table_name, columns, live_columns, column_of}
use rs_converge.Engine.Schema.Laws.{
  lookup_table_name-create_table, lookup_table_name-tombstone_table,
}
use rs_converge.Engine.Schema.Listing.{columns-create_table}
use rs_converge.Engine.Schema.Added.{add, column_row, column_of-add_column}

instance abbrev toy_floats : Floats
toy_floats = record { show_float = λ f. f ∷ []; float_of = λ i. 0; float_eq = λ a b. a == b }

abbrev name_column : ColumnSchema
name_column = record {
  name = ascii "name";
  value_type = ValueType.text;
  default = Value.null;
  primary_key = false;
}

-- It tells three rows apart.
abbrev flag_bytes : Row → Bytes
flag_bytes (Value.bool true ∷ []) = []
flag_bytes (Value.bool false ∷ []) = 0 ∷ []
flag_bytes _ = 0 ∷ 0 ∷ []

abbrev flag_row : Bytes → EngineResult Row
flag_row [] = ok (Value.bool true ∷ [])
flag_row (_ ∷ []) = ok (Value.bool false ∷ [])
flag_row _ = ok (column_row name_column 1)

instance abbrev toy_postcard : Postcard
toy_postcard = record { to_bytes = flag_bytes; from_bytes = flag_row }

abbrev people : Bytes
people = ascii "people"

abbrev places : Bytes
places = ascii "places"

abbrev opened : Transaction
opened = record { revision = 0; tables = (table_fields_storage, []) ∷ (tables_storage, []) ∷ [] }

no_people : get_entry tables_storage (table_key people) opened ≡ ok none
unfolding get_entry get_bytes table BTreeMap.get cmp_list
no_people = refl

lookup_table_name-create_table_example :
    lookup_table_name people (materialize (create_table people) opened).1
    ≡ (if text_eq people people then ok people else lookup_table_name people opened)
lookup_table_name-create_table_example =
    lookup_table_name-create_table none people people opened no_people refl

columns-create_table_example :
    columns people (materialize (create_table people) opened).1
    ≡ (if text_eq people people then live_columns people opened else columns people opened)
columns-create_table_example = columns-create_table none people people opened no_people refl

-- With a table that is not deleted.
abbrev with_people : Transaction
with_people = record {
  revision = 0;
  tables =
      (table_fields_storage, [])
      ∷ (tables_storage, (encode_key (table_key people), 0 ∷ []) ∷ [])
      ∷ [];
}

people_there :
    get_entry tables_storage (table_key people) with_people ≡ ok (some (Value.bool false ∷ []))
unfolding get_entry get_bytes table BTreeMap.get cmp_list encode_key encode_values
    encode_value_order encode_escaped escape
people_there = refl

people_live : deleted (Value.bool false ∷ []) 0 ≡ ok false
unfolding deleted
people_live = refl

lookup_table_name-tombstone_table_example :
    lookup_table_name people (materialize (tombstone_table people) with_people).1 ≡ (
      if text_eq people people
      then err (invalid_query (ascii "Table not found"))
      else lookup_table_name people with_people)
lookup_table_name-tombstone_table_example =
    lookup_table_name-tombstone_table (Value.bool false ∷ []) false people people with_people
      people_there people_live refl

no_name : get_entry table_fields_storage (column_key people (ascii "name")) with_people ≡ ok none
unfolding get_entry get_bytes table BTreeMap.get cmp_list
no_name = refl

column_of-add_column_example :
    let (result, u) = materialize (add people name_column 1) with_people in
    (result ≡ done false)
    × (get_entry table_fields_storage (column_key people (ascii "name")) u
        ≡ ok (some (column_row name_column 1)))
    × (column_of people u (column_key people (ascii "name"), column_row name_column 1)
        ≡ ok (some ((pos 1, ascii "name"), name_column)))
column_of-add_column_example = column_of-add_column people name_column 1 with_people no_name refl
