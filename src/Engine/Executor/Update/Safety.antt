-- ===== src/Engine/Executor/Update/Safety.antt =====
-- UPDATE leaves the primary key of a row (crates/engine/src/executor.rs).
use mathlib.Core.Path.{subst}
use rs_converge.Prelude.{
  ℕ, zero, suc, ◌≤◌, ◌<◌, ◌+◌, ◌≡◌, ◌≢◌, refl, ap, ◌∙◌, Bool, true, false, List, [], ◌∷◌, arith,
  length, get_elem?, set_elem, All, All-imp, if◌then◌else◌, inl, inr,
}
use rs_converge.Order.Lex.{Bytes}
use rs_converge.Value.{Value, Row}
use rs_converge.Value.Json.{ascii}
use rs_converge.Schema.{ColumnSchema, TableSchema}
use rs_converge.Query.{QueryUpdateAssignment}
use rs_converge.Engine.{EngineResult, ok, traverse, engine_cases}
use rs_converge.Engine.Action.{done}
use rs_converge.Engine.Rows.{primary_indices, row_id, id_at}
use rs_converge.Engine.Executor.Expr.{
  column_index, assignment, assignments, assigned_value, is_primary_key,
}
use rs_converge.Engine.Executor.Expr.Total.{column_index-lt}
use rs_converge.Engine.Executor.Update.{assign}

-- A change of a column of the schema that is no primary key.
abbrev pub IsPlain : TableSchema → ℕ × Value → Type 0
IsPlain schema c =
    (c.0 < length schema.columns) × (is_primary_key (get_elem? schema.columns c.0) ≡ false)

assignment-IsPlain :
    (schema : TableSchema) (name : Bytes) (a : QueryUpdateAssignment) (c : ℕ × Value)
    → assignment schema name a ≡ ok c
    → IsPlain schema c
unfolding assignment
assignment-IsPlain schema name a c h =
    elim (engine_cases (column_index schema name a.column (ascii "Unknown assignment column"))) [
      | inl (i, q) ↦ elim (engine_cases (assigned_value a.value)) [
        | inl (v, r) ↦
            ground
              (arith, column_index-lt schema name a.column (ascii "Unknown assignment column") i q)
        | inr (e, r) ↦ absurd (ground arith)
      ]
      | inr (e, q) ↦ absurd (ground arith)
    ]

traverse-All {ℓ κ μ} :
    {A : Type ℓ} {B : Type κ} (P : B → Type μ) (f : A → EngineResult B)
    → ((a : A) (b : B) → f a ≡ ok b → P b)
    → (xs : List A) (ys : List B) → traverse f xs ≡ ok ys
    → All P ys
unfolding traverse
traverse-All P f h [] ys e = let q : [] ≡ ys = ground arith in subst (λ zs. All P zs) q tt
traverse-All P f h (x ∷ xs) ys e = elim (engine_cases (f x)) [
  | inl (y, p) ↦ elim (engine_cases (traverse f xs)) [
    | inl (zs, q) ↦
        let r : (y ∷ zs) ≡ ys = ground arith in
        subst (λ ws. All P ws) r (h x y p, traverse-All P f h xs zs q)
    | inr (error, q) ↦ absurd (ground arith)
  ]
  | inr (error, p) ↦ absurd (ground arith)
]

keep-All {ℓ κ} :
    {A : Type ℓ} (P : A → Type κ) (b : Bool) (x : A) (xs : List A)
    → (b ≡ true → P x)
    → All P xs
    → All P (if b then x ∷ xs else xs)
keep-All P true x xs h all = (h refl, all)
keep-All P false x xs h all = all

-- Every primary index, counted from `k`, is that of a primary key.
primary_indices-primary :
    (k : ℕ) (cs : List ColumnSchema)
    → All
        (λ i. (j : ℕ) × (i ≡ k + j) × (is_primary_key (get_elem? cs j) ≡ true))
        (primary_indices k cs)
unfolding primary_indices
primary_indices-primary k [] = tt
primary_indices-primary k (c ∷ cs) =
    keep-All _ c.primary_key k (primary_indices (suc k) cs) (λ e. (0, omega arith, e))
      (All-imp (λ i p. (suc p.0, omega (arith, p.1), p.2)) (primary_indices (suc k) cs)
        (primary_indices-primary (suc k) cs))

get_elem-set_elem :
    (i j : ℕ) (v : Value) (row : Row) → i ≢ j → get_elem? (set_elem i v row) j ≡ get_elem? row j
get_elem-set_elem i j v [] ne = refl
get_elem-set_elem zero zero v (x ∷ row) ne = absurd (ne refl)
get_elem-set_elem zero (suc j) v (x ∷ row) ne = refl
get_elem-set_elem (suc i) zero v (x ∷ row) ne = refl
get_elem-set_elem (suc i) (suc j) v (x ∷ row) ne = get_elem-set_elem i j v row (λ e. ne (ap suc e))

length-set_elem : (i : ℕ) (v : Value) (row : Row) → length (set_elem i v row) ≡ length row
length-set_elem i v [] = refl
length-set_elem zero v (x ∷ row) = refl
length-set_elem (suc i) v (x ∷ row) = ap suc (length-set_elem i v row)

-- Another index than those of the primary keys.
id_at-set_elem :
    (schema : TableSchema) (i : ℕ) (v : Value) (row : Row) (keys : List ℕ)
    → All (λ k. (j : ℕ) × (k ≡ 0 + j) × (is_primary_key (get_elem? schema.columns j) ≡ true)) keys
    → is_primary_key (get_elem? schema.columns i) ≡ false
    → id_at (set_elem i v row) keys ≡ id_at row keys
id_at-set_elem schema i v row [] all plain = refl
id_at-set_elem schema i v row (k ∷ j ∷ keys) all plain = refl
id_at-set_elem schema i v row (k ∷ []) ((j, e, is_key), _) plain =
    let ne : i ≢ k = λ same. ground arith in rw (get_elem-set_elem i k v row ne) refl

row_id-set_elem :
    (schema : TableSchema) (i : ℕ) (v : Value) (row : Row)
    → is_primary_key (get_elem? schema.columns i) ≡ false
    → row_id schema (set_elem i v row) ≡ row_id schema row
unfolding row_id
row_id-set_elem schema i v row plain =
    id_at-set_elem schema i v row (primary_indices 0 schema.columns)
      (primary_indices-primary 0 schema.columns) plain

-- What changes of plain columns make of a row that is at least as long as the schema.
assign-row_id :
    (schema : TableSchema) (changes : List (ℕ × Value)) (row : Row)
    → All (IsPlain schema) changes
    → length schema.columns ≤ length row
    → (next : Row) × (assign changes row ≡ done next)
      × (length next ≡ length row)
      × (row_id schema next ≡ row_id schema row)
unfolding assign
assign-row_id schema [] row all h = (row, refl, refl, refl)
assign-row_id schema ((i, v) ∷ changes) row ((lt, plain), all) h =
    let len = length-set_elem i v row in
    let (next, e, same, id) = assign-row_id schema changes (set_elem i v row) all (omega arith) in
    (next, ground arith, same ∙ len, id ∙ row_id-set_elem schema i v row plain)

-- The assignments that UPDATE accepts change a row that is as long as the schema, or longer,
-- without a panic, and leave its length and its UUID.
pub assign-assignments :
    (schema : TableSchema) (name : Bytes) (given : List QueryUpdateAssignment)
    (changes : List (ℕ × Value)) (row : Row)
    → assignments schema name given ≡ ok changes
    → length schema.columns ≤ length row
    → (next : Row) × (assign changes row ≡ done next)
      × (length next ≡ length row)
      × (row_id schema next ≡ row_id schema row)
unfolding assignments
assign-assignments schema name [] changes row e h = absurd (ground arith)
assign-assignments schema name (a ∷ given) changes row e h =
    assign-row_id schema changes row
      (traverse-All (IsPlain schema) (assignment schema name) (assignment-IsPlain schema name)
        (a ∷ given) changes e)
      h
