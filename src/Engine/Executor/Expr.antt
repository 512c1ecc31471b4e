-- ===== src/Engine/Executor/Expr.antt =====
-- crates/engine/src/executor.rs: columns by name, expressions and predicates on a row.
pub mod Total
use rs_converge.Prelude.{
  Bool, true, false, not, ◌&&◌, ◌||◌, ℕ, Option, none, some, List, [], ◌∷◌, position, if◌then◌else◌,
  get_elem?, Ordering,
}
use Prim.Native.Nat.Ordering.{lt, eq, gt}
use rs_converge.Order.Lex.{Bytes}
use rs_converge.Value.{Value, Row, value_eq, cmp_value}
use rs_converge.Value.Text.{text_eq}
use rs_converge.Value.Json.{Floats, ascii}
use rs_converge.Schema.{ColumnSchema, TableSchema}
use rs_converge.Query.{
  QueryColumn, QueryExpr, QueryExprValue, Predicate, absent, given, QueryUpdateAssignment,
}
use rs_converge.Query
use rs_converge.Engine.{EngineResult, ok, err, invalid_query, unsupported, ◌>>=◌, traverse}
use rs_converge.Engine.Action.{Outcome, done, failed, panicked, outcome, bind}
use rs_converge.Engine.Catalog.{ok_or}
use rs_converge.Engine.Index.{is_null}

-- `is_empty` of a text
abbrev pub is_empty : {A : Type 0} → List A → Bool
is_empty [] = true
is_empty (_ ∷ _) = false

-- `schema.columns.iter().position(|column| column.name == name)`
abbrev pub find_column : TableSchema → Bytes → Option ℕ
find_column schema name = position (λ c. text_eq c.name name) schema.columns

unfoldable pub column_index : TableSchema → Bytes → QueryColumn → Bytes → EngineResult ℕ
column_index schema name column unknown_column =
    if not (is_empty column.table) && not (text_eq column.table name)
    then err (invalid_query (ascii "Unknown column table"))
    else ok_or (find_column schema column.column) (invalid_query unknown_column)

-- `matches!(value, Value::Bool(true))`
abbrev pub is_true : Value → Bool
is_true (Value.bool b) = b
is_true _ = false

abbrev pub is_lt : Ordering → Bool
is_lt lt = true
is_lt _ = false

abbrev pub is_gt : Ordering → Bool
is_gt gt = true
is_gt _ = false

-- `row.values[index]`
abbrev pub value_at : Row → ℕ → Outcome Value
value_at row index = elim (get_elem? row index) [ none ↦ panicked | some value ↦ done value ]

-- What `compare_expr` does with the values of both sides.
abbrev pub compared : (Value → Value → Bool) → Value → Value → Outcome Value
compared compare left right =
    done (Value.bool (not (is_null left) && not (is_null right) && compare left right))

abbrev pub compare_values : (Value → Value → Bool) → Outcome Value → Outcome Value → Outcome Value
compare_values compare left right = bind left (λ l. bind right (λ r. compared compare l r))

-- `&&` and `||` do not evaluate their right side when the left one decides.
abbrev pub both : Outcome Value → Outcome Value → Outcome Value
both left right = bind left (λ l.
    (if is_true l
      then bind right (λ r. done (Value.bool (is_true r)))
      else done (Value.bool false)))

abbrev pub either : Outcome Value → Outcome Value → Outcome Value
either left right = bind left (λ l.
    (if is_true l then done (Value.bool true) else bind right (λ r. done (Value.bool (is_true r)))))

module _ ⦃fl : Floats⦄ (schema : TableSchema) (name : Bytes) (row : Row) where
  -- `compare_expr` is `compare_values` of both sides.
  unfoldable pub evaluate_expr : QueryExpr → Outcome Value
  evaluate_expr (QueryExpr.value (QueryExprValue.value value)) = done value
  evaluate_expr (QueryExpr.value (QueryExprValue.column column)) =
      bind (outcome (column_index schema name column (ascii "Unknown predicate column")))
        (value_at row)
  evaluate_expr (QueryExpr.is_null e) = bind (evaluate_expr e) (λ v. done (Value.bool (is_null v)))
  evaluate_expr (QueryExpr.is_not_null e) =
      bind (evaluate_expr e) (λ v. done (Value.bool (not (is_null v))))
  evaluate_expr (QueryExpr.equals l r) = compare_values value_eq (evaluate_expr l) (evaluate_expr r)
  evaluate_expr (QueryExpr.not_equals l r) =
      compare_values (λ a b. not (value_eq a b)) (evaluate_expr l) (evaluate_expr r)
  evaluate_expr (QueryExpr.less_than l r) =
      compare_values (λ a b. is_lt (cmp_value a b)) (evaluate_expr l) (evaluate_expr r)
  evaluate_expr (QueryExpr.less_than_or_equals l r) =
      compare_values (λ a b. not (is_gt (cmp_value a b))) (evaluate_expr l) (evaluate_expr r)
  evaluate_expr (QueryExpr.greater_than l r) =
      compare_values (λ a b. is_gt (cmp_value a b)) (evaluate_expr l) (evaluate_expr r)
  evaluate_expr (QueryExpr.greater_than_or_equals l r) =
      compare_values (λ a b. not (is_lt (cmp_value a b))) (evaluate_expr l) (evaluate_expr r)
  evaluate_expr (QueryExpr.and l r) = both (evaluate_expr l) (evaluate_expr r)
  evaluate_expr (QueryExpr.or l r) = either (evaluate_expr l) (evaluate_expr r)
  evaluate_expr _ = failed (unsupported (ascii "SELECT predicate"))

  unfoldable pub predicate_matches : Predicate → Outcome Bool
  predicate_matches absent = done true
  predicate_matches (given e) = bind (evaluate_expr e) (λ v. done (is_true v))

abbrev pub not_an_equality : {A : Type 0} → EngineResult A
not_an_equality = err (unsupported (ascii "UPDATE and DELETE require column equality predicates"))

-- The column and the value of `column = value`, or of `value = column`.
abbrev pub equated : QueryExpr → QueryExpr → EngineResult (QueryColumn × Value)
equated (QueryExpr.value (QueryExprValue.column c)) (QueryExpr.value (QueryExprValue.value v)) =
    ok (c, v)
equated (QueryExpr.value (QueryExprValue.value v)) (QueryExpr.value (QueryExprValue.column c)) =
    ok (c, v)
equated _ _ = not_an_equality

abbrev pub equality : Predicate → EngineResult (QueryColumn × Value)
equality (given (QueryExpr.equals left right)) = equated left right
equality _ = not_an_equality

unfoldable pub predicate : TableSchema → Bytes → Predicate → EngineResult (ℕ × Value)
predicate schema name p = do
  (column, value) ← equality p
  index ← column_index schema name column (ascii "Unknown predicate column")
  ok (index, value)

abbrev pub assigned_value : QueryExprValue → EngineResult Value
assigned_value (QueryExprValue.value value) = ok value
assigned_value (QueryExprValue.column _) = err (unsupported (ascii "UPDATE column assignments"))

-- `schema.columns[index].primary_key`, where the index is that of a column
abbrev pub is_primary_key : Option ColumnSchema → Bool
is_primary_key none = false
is_primary_key (some column) = column.primary_key

abbrev pub assign_to : TableSchema → ℕ → Value → EngineResult (ℕ × Value)
assign_to schema index value =
    if is_primary_key (get_elem? schema.columns index)
    then err (invalid_query (ascii "Cannot update the primary key"))
    else ok (index, value)

unfoldable pub assignment : TableSchema → Bytes → QueryUpdateAssignment → EngineResult (ℕ × Value)
assignment schema name a = do
  index ← column_index schema name a.column (ascii "Unknown assignment column")
  value ← assigned_value a.value
  assign_to schema index value

unfoldable pub assignments :
    TableSchema → Bytes → List QueryUpdateAssignment → EngineResult (List (ℕ × Value))
assignments schema name [] = err (invalid_query (ascii "UPDATE requires an assignment"))
assignments schema name (a ∷ rest) = traverse (assignment schema name) (a ∷ rest)
