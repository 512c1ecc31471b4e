-- ===== src/Engine/Executor/Expr/Total.antt =====
-- Which expressions have a value on every row (crates/engine/src/executor.rs).
use rs_converge.Prelude.{
  ℕ, ◌≤◌, ◌<◌, ◌≡◌, refl, Bool, not, ◌&&◌, ◌||◌, arith, length, Option-cases, inl, inr, position-lt,
  get_elem-some,
}
use rs_converge.Order.Lex.{Bytes}
use rs_converge.Value.{Value, Row}
use rs_converge.Value.Json.{Floats, ascii}
use rs_converge.Schema.{TableSchema}
use rs_converge.Query.{QueryColumn, QueryExpr, QueryExprValue}
use rs_converge.Engine.{ok}
use rs_converge.Engine.Action.{Outcome, done, bind}
use rs_converge.Engine.Index.{is_null}
use rs_converge.Engine.Executor.Expr.{
  column_index, find_column, evaluate_expr, compare_values, both, either, is_true,
}

-- The expressions that SELECT supports, with columns of the table.
pub data IsSupported (schema : TableSchema) (name : Bytes) : QueryExpr → Type 0 where
  constant : (v : Value) → IsSupported schema name (QueryExpr.value (QueryExprValue.value v))
  named :
      (c : QueryColumn) (i : ℕ)
      → column_index schema name c (ascii "Unknown predicate column") ≡ ok i
      → IsSupported schema name (QueryExpr.value (QueryExprValue.column c))
  null_test :
      {e : QueryExpr} → IsSupported schema name e → IsSupported schema name (QueryExpr.is_null e)
  not_null_test :
      {e : QueryExpr}
      → IsSupported schema name e
      → IsSupported schema name (QueryExpr.is_not_null e)
  eq_test :
      {l r : QueryExpr}
      → IsSupported schema name l
      → IsSupported schema name r
      → IsSupported schema name (QueryExpr.equals l r)
  ne_test :
      {l r : QueryExpr}
      → IsSupported schema name l
      → IsSupported schema name r
      → IsSupported schema name (QueryExpr.not_equals l r)
  lt_test :
      {l r : QueryExpr}
      → IsSupported schema name l
      → IsSupported schema name r
      → IsSupported schema name (QueryExpr.less_than l r)
  le_test :
      {l r : QueryExpr}
      → IsSupported schema name l
      → IsSupported schema name r
      → IsSupported schema name (QueryExpr.less_than_or_equals l r)
  gt_test :
      {l r : QueryExpr}
      → IsSupported schema name l
      → IsSupported schema name r
      → IsSupported schema name (QueryExpr.greater_than l r)
  ge_test :
      {l r : QueryExpr}
      → IsSupported schema name l
      → IsSupported schema name r
      → IsSupported schema name (QueryExpr.greater_than_or_equals l r)
  conjunction :
      {l r : QueryExpr}
      → IsSupported schema name l
      → IsSupported schema name r
      → IsSupported schema name (QueryExpr.and l r)
  disjunction :
      {l r : QueryExpr}
      → IsSupported schema name l
      → IsSupported schema name r
      → IsSupported schema name (QueryExpr.or l r)

pub column_index-lt :
    (schema : TableSchema) (name : Bytes) (c : QueryColumn) (message : Bytes) (i : ℕ)
    → column_index schema name c message ≡ ok i
    → i < length schema.columns
unfolding column_index
column_index-lt schema name c message i h = elim (Option-cases (find_column schema c.column)) [
  | inl e ↦ absurd (ground arith)
  | inr (j, e) ↦ ground (arith, position-lt _ schema.columns j e)
]

abbrev HasValue : Outcome Value → Type 0
HasValue o = (v : Value) × (o ≡ done v)

compare_values-done :
    (compare : Value → Value → Bool) (l r : Outcome Value)
    → HasValue l
    → HasValue r
    → HasValue (compare_values compare l r)
compare_values-done compare l r (v, p) (w, q) =
    (Value.bool (not (is_null v) && not (is_null w) && compare v w), ground arith)

mapped-done :
    (f : Value → Value) (o : Outcome Value) → HasValue o → HasValue (bind o (λ v. done (f v)))
mapped-done f o (v, p) = (f v, ground arith)

both-done : (l r : Outcome Value) → HasValue l → HasValue r → HasValue (both l r)
both-done l r (v, p) (w, q) = (Value.bool (is_true v && is_true w), ground arith)

either-done : (l r : Outcome Value) → HasValue l → HasValue r → HasValue (either l r)
either-done l r (v, p) (w, q) = (Value.bool (is_true v || is_true w), ground arith)

-- An expression whose columns are in the schema, of the forms that SELECT supports, has a value on
-- every row that is at least as long as the schema: it raises no error and does not panic.
pub evaluate_expr-done :
    ⦃fl : Floats⦄ (schema : TableSchema) (name : Bytes) (row : Row) (e : QueryExpr)
    → IsSupported schema name e
    → length schema.columns ≤ length row
    → (v : Value) × (evaluate_expr schema name row e ≡ done v)
unfolding evaluate_expr
evaluate_expr-done schema name row _ (constant v) h = (v, refl)
evaluate_expr-done schema name row _ (named c i e) h =
    let lt = column_index-lt schema name c (ascii "Unknown predicate column") i e in
    let (v, q) = get_elem-some row i (omega arith) in (v, ground arith)
evaluate_expr-done schema name row _ (null_test {e = e} s) h =
    mapped-done (λ v. Value.bool (is_null v)) _ (evaluate_expr-done schema name row e s h)
evaluate_expr-done schema name row _ (not_null_test {e = e} s) h =
    mapped-done (λ v. Value.bool (not (is_null v))) _ (evaluate_expr-done schema name row e s h)
evaluate_expr-done schema name row _ (eq_test p q) h =
    compare_values-done _ _ _ (evaluate_expr-done schema name row _ p h)
      (evaluate_expr-done schema name row _ q h)
evaluate_expr-done schema name row _ (ne_test p q) h =
    compare_values-done _ _ _ (evaluate_expr-done schema name row _ p h)
      (evaluate_expr-done schema name row _ q h)
evaluate_expr-done schema name row _ (lt_test p q) h =
    compare_values-done _ _ _ (evaluate_expr-done schema name row _ p h)
      (evaluate_expr-done schema name row _ q h)
evaluate_expr-done schema name row _ (le_test p q) h =
    compare_values-done _ _ _ (evaluate_expr-done schema name row _ p h)
      (evaluate_expr-done schema name row _ q h)
evaluate_expr-done schema name row _ (gt_test p q) h =
    compare_values-done _ _ _ (evaluate_expr-done schema name row _ p h)
      (evaluate_expr-done schema name row _ q h)
evaluate_expr-done schema name row _ (ge_test p q) h =
    compare_values-done _ _ _ (evaluate_expr-done schema name row _ p h)
      (evaluate_expr-done schema name row _ q h)
evaluate_expr-done schema name row _ (conjunction p q) h =
    both-done _ _ (evaluate_expr-done schema name row _ p h)
      (evaluate_expr-done schema name row _ q h)
evaluate_expr-done schema name row _ (disjunction p q) h =
    either-done _ _ (evaluate_expr-done schema name row _ p h)
      (evaluate_expr-done schema name row _ q h)
