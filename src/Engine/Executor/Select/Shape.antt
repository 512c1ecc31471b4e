-- ===== src/Engine/Executor/Select/Shape.antt =====
-- SELECT has a result of the shape of its projection (crates/engine/src/executor.rs).
use rs_converge.Prelude.{
  ℕ, suc, ◌≤◌, ◌<◌, ◌+◌, ◌≡◌, refl, ap, Bool, true, List, [], ◌∷◌, ◌++◌, arith, length, drop, map,
  All, All-imp, All-append, Option-cases, Bool-cases, inl, inr, get_elem-some, position-lt,
  length-append, length-drop, length-map,
}
use mathlib.Core.Path.{subst}
use rs_converge.Order.Lex.{Bytes}
use rs_converge.Value.{Row}
use rs_converge.Value.Text.{text_eq}
use rs_converge.Value.Json.{Floats, ascii}
use rs_converge.Schema.{ColumnSchema, TableSchema}
use rs_converge.Query.{QueryColumn, Predicate, absent, given}
use rs_converge.Engine.{ok, engine_cases}
use rs_converge.Engine.Action.{done}
use rs_converge.Engine.Rows.{materialize_defaults, default_values}
use rs_converge.Engine.Executor.Expr.{find_column, is_true, predicate_matches}
use rs_converge.Engine.Executor.Expr.Total.{IsSupported, evaluate_expr-done}
use rs_converge.Engine.Executor.Select.{
  Projected, all_columns, project_one, project, projection, project_row, result_column, select_row,
  select_loop,
}

-- The index of a projected column is in range.
abbrev pub InRange : ℕ → Projected → Type 0
InRange n c = c.0 < n

all_columns-InRange :
    (name : Bytes) (i : ℕ) (cs : List ColumnSchema)
    → All (InRange (i + length cs)) (all_columns name i cs)
unfolding all_columns
all_columns-InRange name i [] = tt
all_columns-InRange name i (c ∷ cs) = (
  omega arith,
  All-imp (λ x p. omega (arith, p)) (all_columns name (suc i) cs)
      (all_columns-InRange name (suc i) cs),
)

project_one-InRange :
    (schema : TableSchema) (name : Bytes) (c : QueryColumn) (columns : List Projected)
    → project_one schema name c ≡ ok columns
    → All (InRange (length schema.columns)) columns
unfolding project_one
project_one-InRange schema name c columns h = elim (Option-cases (find_column schema c.column)) [
  | inl e ↦ absurd (ground arith)
  | inr (i, e) ↦
      let q : ((i, result_column name c.column) ∷ []) ≡ columns = ground arith in
      subst (λ cs. All (InRange (length schema.columns)) cs) q
        (position-lt (λ k. text_eq k.name c.column) schema.columns i e, tt)
]

project-InRange :
    (schema : TableSchema) (name : Bytes) (c : QueryColumn) (columns : List Projected)
    → project schema name c ≡ ok columns
    → All (InRange (length schema.columns)) columns
unfolding project
project-InRange schema name c columns h = elim (Bool-cases (text_eq c.column (ascii "*"))) [
  | inl e ↦
      let q : all_columns name 0 schema.columns ≡ columns = ground arith in
      subst (λ cs. All (InRange (length schema.columns)) cs) q
        (All-imp (λ x p. omega (arith, p)) (all_columns name 0 schema.columns)
          (all_columns-InRange name 0 schema.columns))
  | inr e ↦ project_one-InRange schema name c columns (ground arith)
]

projection-InRange :
    (schema : TableSchema) (name : Bytes) (requested : List QueryColumn) (columns : List Projected)
    → projection schema name requested ≡ ok columns
    → All (InRange (length schema.columns)) columns
unfolding projection
projection-InRange schema name [] columns h =
    let q : [] ≡ columns = ground arith in
    subst (λ cs. All (InRange (length schema.columns)) cs) q tt
projection-InRange schema name (c ∷ requested) columns h =
    elim (engine_cases (project schema name c)) [
      | inl (xs, p) ↦ elim (engine_cases (projection schema name requested)) [
        | inl (ys, q) ↦
            let r : (xs ++ ys) ≡ columns = ground arith in
            subst (λ cs. All (InRange (length schema.columns)) cs) r
              (All-append (InRange (length schema.columns)) xs ys
                (project-InRange schema name c xs p)
                (projection-InRange schema name requested ys q))
        | inr (x, q) ↦ absurd (ground arith)
      ]
      | inr (x, p) ↦ absurd (ground arith)
    ]

project_row-done :
    (row : Row) (columns : List Projected)
    → All (InRange (length row)) columns
    → (values : Row) × (project_row row columns ≡ done values) × (length values ≡ length columns)
unfolding project_row
project_row-done row [] all = ([], refl, refl)
project_row-done row ((i, c) ∷ columns) (lt, all) =
    let (v, e) = get_elem-some row i lt in
    let (vs, p, q) = project_row-done row columns all in (v ∷ vs, ground arith, ap suc q)

-- A stored row with the defaults of the columns that it lacks.
materialize_defaults-done :
    (schema : TableSchema) (row : Row)
    → length row ≤ length schema.columns
    → (full : Row) × (materialize_defaults schema row ≡ done full)
      × (length full ≡ length schema.columns)
unfolding materialize_defaults
materialize_defaults-done schema row h = (
  row ++ default_values (drop (length row) schema.columns),
  ground arith,
  omega (
    arith,
    length-append row (default_values (drop (length row) schema.columns)),
    length-map (λ c. c.default) (drop (length row) schema.columns),
    length-drop (length row) schema.columns,
  ),
)

module _ ⦃fl : Floats⦄ where
  -- A predicate that SELECT can decide on every row of the table.
  abbrev pub IsDecidable : TableSchema → Bytes → Predicate → Type 0
  IsDecidable schema name absent = Unit
  IsDecidable schema name (given e) = IsSupported schema name e

  predicate_matches-done :
      (schema : TableSchema) (name : Bytes) (row : Row) (p : Predicate)
      → IsDecidable schema name p
      → length schema.columns ≤ length row
      → (b : Bool) × (predicate_matches schema name row p ≡ done b)
  unfolding predicate_matches
  predicate_matches-done schema name row absent s h = (true, refl)
  predicate_matches-done schema name row (given e) s h =
      let (v, q) = evaluate_expr-done schema name row e s h in (is_true v, ground arith)

  select_row-done :
      (schema : TableSchema) (name : Bytes) (columns : List Projected) (p : Predicate) (row : Row)
      → All (InRange (length row)) columns
      → IsDecidable schema name p
      → length schema.columns ≤ length row
      → (rows : List Row) × (select_row schema name columns p row ≡ done rows)
        × All (λ r. length r ≡ length columns) rows
        × (length rows ≤ 1)
  select_row-done schema name columns p row all s h =
      let (vs, e, q) = project_row-done row columns all in
      let (b, m) = predicate_matches-done schema name row p s h in
      elim (Bool-cases b) [
        | inl chosen ↦ (vs ∷ [], ground arith, (q, tt), omega arith)
        | inr passed ↦ ([], ground arith, tt, omega arith)
      ]

  -- SELECT over stored rows that are not longer than the schema, with a predicate that it can
  -- decide: it raises no error and does not panic, selects at most every row, and each row that it
  -- selects has a value for each column of the projection.
  pub select_loop-done :
      (schema : TableSchema) (name : Bytes) (requested : List QueryColumn)
      (columns : List Projected) (p : Predicate) (stored : List (Bytes × Row))
      → projection schema name requested ≡ ok columns
      → IsDecidable schema name p
      → All (λ e. length e.1 ≤ length schema.columns) stored
      → (rows : List Row) × (select_loop schema name columns p (map ok stored) ≡ done rows)
        × All (λ r. length r ≡ length columns) rows
        × (length rows ≤ length stored)
  unfolding select_loop
  select_loop-done schema name requested columns p [] e s all = ([], refl, tt, omega arith)
  select_loop-done schema name requested columns p ((id, row) ∷ stored) e s (fits, all) =
      let (full, d, len) = materialize_defaults-done schema row fits in
      let in_range : All (InRange (length full)) columns =
        All-imp (λ c lt. omega (arith, lt)) columns
          (projection-InRange schema name requested columns e) in
      let (first, f, shape, one) =
        select_row-done schema name columns p full in_range s (omega arith) in
      let (rest, r, shapes, many) =
        select_loop-done schema name requested columns p stored e s all in
      (
        first ++ rest,
        ground arith,
        All-append (λ r. length r ≡ length columns) first rest shape shapes,
        omega (arith, length-append first rest),
      )
