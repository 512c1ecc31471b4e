-- ===== src/Engine/Executor/Tests.antt =====
-- Statements at concrete inputs, with a codec that stores what it is given.
use rs_converge.Prelude.{
  ◌≡◌, refl, true, false, none, some, List, [], ◌∷◌, ◌==◌, ◌≤◌, arith, map, All, length, position,
}
use rs_converge.Order.Lex.{Bytes, cmp_list}
use rs_converge.Int.{pos}
use rs_converge.Value.{Value, ValueType, Row}
use rs_converge.Value.Json.{Floats, ascii}
use rs_converge.Schema.{ColumnSchema, TableSchema}
use rs_converge.Query.{
  Query, QueryColumn, QueryExpr, QueryExprValue, QueryUpdateAssignment, Statement, DataDefinition,
  given,
}
use rs_converge.Engine.{ok, traverse}
use rs_converge.Engine.Action.{Action, done}
use rs_converge.Engine.RowKey.{Postcard}
use rs_converge.Engine.RowTable.{get_entry, put_entry, remove_entry}
use rs_converge.Engine.Kernel.{new, Transaction, transaction, ensure_table, drop_table}
use rs_converge.Engine.Codec.{RowCodec}
use rs_converge.Engine.Rows.{row_id}
use rs_converge.Engine.Executor.{Clock, Context}
use rs_converge.Engine.Executor.Expr.{column_index, evaluate_expr, assignment, assignments}
use rs_converge.Engine.Executor.Expr.Total.{IsSupported, evaluate_expr-done}
use rs_converge.Engine.Executor.Select.{
  projection, project, project_one, Projected, result_column, select_loop,
}
use rs_converge.Engine.Executor.Select.Shape.{select_loop-done}
use rs_converge.Engine.Transfer.{RowMutation}
use rs_converge.Engine.Executor.Update.{assign}
use rs_converge.Engine.Executor.Update.Safety.{assign-assignments}
use rs_converge.Engine.Executor.Statement.{execute_statement, start}
use rs_converge.Engine.Executor.Statement.Laws.{
  EndsAlone, execute_statement-EndsAlone, ensure_table-revision, put_entry-revision,
  remove_entry-revision,
}

instance abbrev toy_floats : Floats
toy_floats = record { show_float = λ f. f ∷ []; float_of = λ i. 0; float_eq = λ a b. a == b }

instance abbrev toy_postcard : Postcard
toy_postcard = record { to_bytes = λ r. []; from_bytes = λ b. ok [] }

instance abbrev toy_clock : Clock
toy_clock = record { new_uuid = λ n. some (n ∷ []) }

abbrev id_key : Bytes → Row
id_key id = Value.uuid id ∷ []

-- A row is kept as the bytes that it is encoded to.
abbrev toy_codec : RowCodec
toy_codec = record {
  ensure_table = ensure_table;
  drop_table = drop_table;
  get_row = λ name id. get_entry name (id_key id);
  scan_rows = λ name t. [];
  put_row = λ name id value. put_entry name (id_key id) value;
  remove_row = λ name id. remove_entry name (id_key id);
  encode_row = λ name id value columns t. ok [];
  conflicted_columns = λ name id t. ok [];
  encode_resolution = λ name id value columns t. ok [];
  merge_row = λ name id value t.
      (ok (some (Value.blob value ∷ [])), (put_entry name (id_key id) (Value.blob value ∷ []) t).1);
  delete_row = λ name id. remove_entry name (id_key id);
  row_is_deleted = λ name id t. ok false;
}

abbrev id_column : ColumnSchema
id_column = record {
  name = ascii "id";
  value_type = ValueType.uuid;
  default = Value.null;
  primary_key = true;
}

abbrev age_column : ColumnSchema
age_column = record {
  name = ascii "age";
  value_type = ValueType.integer;
  default = Value.integer (pos 7);
  primary_key = false;
}

abbrev people : TableSchema
people = record { name = ascii "people"; columns = id_column ∷ age_column ∷ [] }

-- CREATE TABLE, and INSERT of a row without its id
abbrev script : List Statement
script =
    Statement.data_definition (DataDefinition.create_table people false)
    ∷ Statement.query (
        Query.insert
          (record { table = ascii "people"; row = Value.integer (pos 9) ∷ []; returning = none }))
    ∷ []

execute_statement-EndsAlone_example :
    EndsAlone new new (execute_statement toy_codec script 0 new new)
execute_statement-EndsAlone_example =
    execute_statement-EndsAlone toy_codec ensure_table-revision
      (λ name id value. put_entry-revision name (id_key id) (Value.blob value ∷ []))
      (λ name id. remove_entry-revision name (id_key id)) script 0 new new

-- An operation on the rows that writes one of its own and passes on a change for the indexes.
abbrev write_ada : Action Transaction (Unit {0} × List RowMutation)
write_ada t = (
  done (
    tt,
    record { table_name = ascii "people"; row_name = 1 ∷ []; old = none; new = some [] } ∷ [],
  ),
  (put_entry (ascii "people") (id_key (1 ∷ [])) [] t).1,
)

abbrev age : QueryColumn
age = record { table = []; column = ascii "age" }

abbrev older : QueryExpr
older =
    QueryExpr.greater_than (QueryExpr.value (QueryExprValue.column age))
      (QueryExpr.value (QueryExprValue.value (Value.integer (pos 8))))

abbrev ada : Row
ada = Value.uuid (1 ∷ []) ∷ Value.integer (pos 9) ∷ []

age_index : column_index people (ascii "people") age (ascii "Unknown predicate column") ≡ ok 1
unfolding column_index position cmp_list
age_index = refl

older-IsSupported : IsSupported people (ascii "people") older
older-IsSupported =
    IsSupported.gt_test (IsSupported.named age 1 age_index)
      (IsSupported.constant (Value.integer (pos 8)))

evaluate_expr-done_example :
    (v : Value) × (evaluate_expr people (ascii "people") ada older ≡ done v)
evaluate_expr-done_example =
    evaluate_expr-done people (ascii "people") ada older older-IsSupported (omega arith)

abbrev begun : Context
begun = start (transaction new) 0

abbrev birthday : List QueryUpdateAssignment
birthday = record { column = age; value = QueryExprValue.value (Value.integer (pos 10)) } ∷ []

birthday_changes :
    assignments people (ascii "people") birthday ≡ ok ((1, Value.integer (pos 10)) ∷ [])
unfolding assignments assignment traverse column_index position cmp_list
birthday_changes = refl

assign-assignments_example :
    (next : Row) × (assign ((1, Value.integer (pos 10)) ∷ []) ada ≡ done next)
    × (length next ≡ length ada)
    × (row_id people next ≡ row_id people ada)
assign-assignments_example =
    assign-assignments people (ascii "people") birthday ((1, Value.integer (pos 10)) ∷ []) ada
      birthday_changes (omega arith)

abbrev ages : List Projected
ages = (1, result_column (ascii "people") (ascii "age")) ∷ []

ages_projected : projection people (ascii "people") (age ∷ []) ≡ ok ages
unfolding projection project project_one position cmp_list
ages_projected = refl

-- A row that was stored before the second column was added, and a whole one.
abbrev stored : List (Bytes × Row)
stored = (2 ∷ [], Value.uuid (2 ∷ []) ∷ []) ∷ (1 ∷ [], ada) ∷ []

select_loop-done_example :
    (rows : List Row) × (select_loop people (ascii "people") ages (given older) (map ok stored)
      ≡ done rows)
    × All (λ r. length r ≡ length ages) rows
    × (length rows ≤ length stored)
select_loop-done_example =
    select_loop-done people (ascii "people") (age ∷ []) ages (given older) stored ages_projected
      older-IsSupported (omega arith, (omega arith, tt))
