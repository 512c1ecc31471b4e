-- ===== src/Engine/Executor/Slots.antt =====
-- crates/engine/src/executor.rs: `insert_values` places the values of an INSERT by their columns.
use rs_converge.Prelude.{
  ℕ, Bool, false, Option, none, some, List, [], ◌∷◌, get_elem?, set_elem, is_some, if◌then◌else◌,
}
use rs_converge.Order.Lex.{Bytes}
use rs_converge.Value.Json.{ascii}
use rs_converge.Schema.{TableSchema}
use rs_converge.Query.{QueryInsertValue}
use rs_converge.Engine.{EngineResult, ok, err, invalid_query, ◌>>=◌}
use rs_converge.Engine.Catalog.{ok_or}
use rs_converge.Engine.Executor.Expr.{find_column}

abbrev pub Slots : Type 0
Slots = List (Option QueryInsertValue)

-- The slot of a column, which the vector of as many slots as columns has.
abbrev pub is_taken : Option (Option QueryInsertValue) → Bool
is_taken none = false
is_taken (some slot) = is_some slot

abbrev pub put_slot : Slots → ℕ → QueryInsertValue → EngineResult Slots
put_slot slots index v =
    if is_taken (get_elem? slots index)
    then err (invalid_query (ascii "Duplicate INSERT column"))
    else ok (set_elem index (some v) slots)

-- The loop over the columns and the values of the statement, which are as many.
unfoldable pub fill_slots :
    TableSchema → List Bytes → List QueryInsertValue → Slots → EngineResult Slots
fill_slots schema [] given slots = ok slots
fill_slots schema (column ∷ columns) [] slots = ok slots
fill_slots schema (column ∷ columns) (v ∷ given) slots = do
  index ← ok_or (find_column schema column) (invalid_query (ascii "Unknown INSERT column"))
  next ← put_slot slots index v
  fill_slots schema columns given next
