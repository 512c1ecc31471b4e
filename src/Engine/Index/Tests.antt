-- ===== src/Engine/Index/Tests.antt =====
-- Unique indexes at a concrete input.
use rs_converge.Prelude.{◌≡◌, refl, true, false, some, [], ◌∷◌, ◌==◌}
use rs_converge.Order.Lex.{Bytes, cmp_list}
use rs_converge.BTreeMap
use rs_converge.Value.{Value, ValueType, Row}
use rs_converge.Value.Json.{Floats, ascii}
use rs_converge.Schema.{IndexSchema, TableSchema}
use rs_converge.Engine.{EngineResult, ok, traverse}
use rs_converge.Engine.Action.{done}
use rs_converge.Engine.RowKey.{Postcard}
use rs_converge.Engine.RowTable.{scan_entries, put_entry}
use rs_converge.Engine.Kernel.{Transaction, Table, table, scan_bytes, put_bytes}
use rs_converge.Engine.Rows.{materialize_defaults, row_id, primary_indices}
use rs_converge.Engine.Index.{
  record_key, put_new, violates, unique_key_exists, has_null, any_starts_with,
}
use rs_converge.Engine.Index.Unique.{IsUnique, put_new-IsUnique}

instance abbrev toy_floats : Floats
toy_floats = record { show_float = λ f. f ∷ []; float_of = λ i. 0; float_eq = λ a b. a == b }

-- Sixteen bytes
abbrev some_id : Bytes
some_id = 1 ∷ 2 ∷ 3 ∷ 4 ∷ 5 ∷ 6 ∷ 7 ∷ 8 ∷ 9 ∷ 10 ∷ 11 ∷ 12 ∷ 13 ∷ 14 ∷ 15 ∷ 16 ∷ []

abbrev person : Row
person = Value.uuid some_id ∷ Value.text (ascii "ada") ∷ []

abbrev person_key : Row
person_key = Value.text (ascii "ada") ∷ Value.uuid some_id ∷ []

-- It tells the key from the empty row.
abbrev key_bytes : Row → Bytes
key_bytes [] = []
key_bytes _ = 0 ∷ []

abbrev key_row : Bytes → EngineResult Row
key_row [] = ok []
key_row _ = ok person_key

instance abbrev toy_postcard : Postcard
toy_postcard = record { to_bytes = key_bytes; from_bytes = key_row }

abbrev people : TableSchema
people = record {
  name = ascii "people";
  columns =
      record {
        name = ascii "id";
        value_type = ValueType.uuid;
        default = Value.null;
        primary_key = true;
      }
      ∷ record {
        name = ascii "name";
        value_type = ValueType.text;
        default = Value.null;
        primary_key = false;
      }
      ∷ [];
}

abbrev by_name : IndexSchema
by_name = record {
  name = ascii "by_name";
  table_name = ascii "people";
  column_indices = 1 ∷ [];
  unique = true;
}

abbrev opened : Transaction
opened = record { revision = 0; tables = (ascii "by_name", []) ∷ [] }

abbrev written : Transaction
written = (put_entry (ascii "by_name") person_key [] opened).1

person_full : materialize_defaults people person ≡ done person
unfolding materialize_defaults
person_full = refl

person_id : row_id people person ≡ ok some_id
unfolding row_id primary_indices
person_id = refl

person_record : record_key by_name some_id person ≡ ok person_key
unfolding record_key traverse
person_record = refl

by_name_there : table (ascii "by_name") opened ≡ ok []
unfolding table BTreeMap.get cmp_list
by_name_there = refl

none_yet : IsUnique []
unfolding BTreeMap.get
none_yet k j v w r s x y gk = cc

passed : put_new true (ascii "by_name") by_name people (some person) opened ≡ (done tt, written)
unfolding put_new violates unique_key_exists scan_entries scan_bytes table BTreeMap.get cmp_list
    any_starts_with has_null materialize_defaults row_id primary_indices record_key traverse
    put_entry put_bytes
passed = refl

put_new-IsUnique_example :
    (after : Table) × (table (ascii "by_name") written ≡ ok after) × IsUnique after
put_new-IsUnique_example =
    put_new-IsUnique (ascii "by_name") some_id by_name people person person person_key [] opened
      written refl person_full person_id person_record (tt, (refl, tt)) refl refl by_name_there
      none_yet passed
