-- ===== src/Engine/Index.antt =====
-- crates/engine/src/index.rs: secondary indexes. An index is a table with a row's key in it: the
-- values of the indexed columns and the row's UUID.
pub mod Schema
mod Tests
pub mod Lookup
pub mod Laws
pub mod Unique
use rs_converge.Prelude.{
  ℕ, Bool, true, false, not, ◌&&◌, ◌||◌, ◌-◌, Option, none, some, List, [], ◌∷◌, ◌++◌, length, take,
  get_elem?, if◌then◌else◌,
}
use rs_converge.Order.Lex.{Bytes}
use rs_converge.Value.{Value, Row, value_eq, to_uuid}
use rs_converge.Value.Json.{Floats, ascii}
use rs_converge.Schema.{IndexSchema, TableSchema}
use rs_converge.Engine.{EngineResult, ok, err, invalid_query, traverse}
use rs_converge.Engine.Action.{Action, ◌>>=◌, ◌>>◌, pure, raise, read, call, lift, for_each}
use rs_converge.Engine.RowKey.{Postcard}
use rs_converge.Engine.RowTable.{put_entry, remove_entry, scan_entries}
use rs_converge.Engine.Kernel.{Transaction, ensure_table}
use rs_converge.Engine.Codec.{RowCodec}
use rs_converge.Engine.Catalog.{and_then, ok_or}
use rs_converge.Engine.Rows.{materialize_defaults, row_id}
use rs_converge.Engine.Schema.Columns.{table_schema_for}
use rs_converge.Engine.Index.Schema.{indexes_for_table}

abbrev pub indexed_value : Row → ℕ → EngineResult Value
indexed_value row column =
    ok_or (get_elem? row column) (invalid_query (ascii "Index column is missing from row"))

abbrev pub with_id : Bytes → EngineResult Row → EngineResult Row
with_id id (ok values) = ok (values ++ (Value.uuid id ∷ []))
with_id id (err e) = err e

unfoldable pub record_key : IndexSchema → Bytes → Row → EngineResult Row
record_key schema id row = with_id id (traverse (indexed_value row) schema.column_indices)

abbrev pub with_key : Row → EngineResult (List Row) → EngineResult (List Row)
with_key key (ok keys) = ok (key ∷ keys)
with_key key (err e) = err e

abbrev pub search_entries :
    {A : Type 0}
    → (List (EngineResult (Row × Row)) → EngineResult A)
    → EngineResult (List (EngineResult (Row × Row)))
    → EngineResult A
search_entries f (ok entries) = f entries
search_entries f (err e) = err e

abbrev pub is_null : Value → Bool
is_null Value.null = true
is_null _ = false

-- `values.iter().any(|value| matches!(value, Value::Null))`
unfoldable pub has_null : Row → Bool
has_null [] = false
has_null (value ∷ values) = is_null value || has_null values

-- `last`
abbrev pub last : Row → Option Value
last [] = none
last (value ∷ []) = some value
last (_ ∷ value ∷ values) = last (value ∷ values)

module _ ⦃fl : Floats⦄ where
  -- `key.get(..values.len()) == Some(values)`
  unfoldable pub starts_with : Row → Row → Bool
  starts_with [] key = true
  starts_with (value ∷ values) [] = false
  starts_with (value ∷ values) (k ∷ key) = value_eq k value && starts_with values key

  -- The loop of `unique_key_exists`: it stops at the first entry that has the values.
  unfoldable pub any_starts_with : Row → List (EngineResult (Row × Row)) → EngineResult Bool
  any_starts_with values [] = ok false
  any_starts_with values (err e ∷ entries) = err e
  any_starts_with values (ok (key, _) ∷ entries) =
      let rest = any_starts_with values entries in if starts_with values key then ok true else rest

  -- The loop of `lookup`: the UUID in the first entry that has the values.
  unfoldable pub winner : Row → List (EngineResult (Row × Row)) → EngineResult (Option Bytes)
  winner values [] = ok none
  winner values (err e ∷ entries) = err e
  winner values (ok (key, _) ∷ entries) =
      let rest = winner values entries in
      if starts_with values key then ok (and_then to_uuid (last key)) else rest

unfoldable pub first_keys : List (EngineResult (Row × Row)) → EngineResult (List Row)
first_keys [] = ok []
first_keys (err e ∷ entries) = err e
first_keys (ok (key, _) ∷ entries) = with_key key (first_keys entries)

module _ ⦃fl : Floats⦄ ⦃pc : Postcard⦄ where
  unfoldable pub unique_key_exists : Bytes → Row → Transaction → EngineResult Bool
  unique_key_exists name key t =
      search_entries (any_starts_with (take (length key - 1) key)) (scan_entries name t)

  abbrev pub unique_violation : Action Transaction (Unit {0})
  unique_violation = raise (invalid_query (ascii "Unique index violation"))

  -- The guard of `update_row` before it writes a key.
  unfoldable pub violates : Bool → Bytes → IndexSchema → Row → Transaction → EngineResult Bool
  violates enforce_unique name index key t =
      let exists = unique_key_exists name key t in
      if enforce_unique && index.unique && not (has_null key) then exists else ok false

  unfoldable pub remove_old :
      Bytes → IndexSchema → TableSchema → Option Row → Action Transaction (Unit {0})
  remove_old name index schema none = pure tt
  remove_old name index schema (some row) = do
    id ← read (λ _. row_id schema row)
    full ← lift (materialize_defaults schema row)
    key ← read (λ _. record_key index id full)
    call (remove_entry name key)
    pure tt

  unfoldable pub put_new :
      Bool → Bytes → IndexSchema → TableSchema → Option Row → Action Transaction (Unit {0})
  put_new enforce_unique name index schema none = pure tt
  put_new enforce_unique name index schema (some row) = do
    full ← lift (materialize_defaults schema row)
    id ← read (λ _. row_id schema full)
    key ← read (λ _. record_key index id full)
    exists ← read (violates enforce_unique name index key)
    if exists then unique_violation else call (put_entry name key [])

  -- The round of the loop of `update_row` for an index.
  unfoldable pub update_index :
      TableSchema
      → Option Row
      → Option Row
      → Bool
      → Bytes × IndexSchema
      → Action Transaction (Unit {0})
  update_index schema old new enforce_unique (name, index) = do
    call (ensure_table name)
    remove_old name index schema old
    put_new enforce_unique name index schema new

  unfoldable pub update_row : Bytes → Option Row → Option Row → Bool → Action Transaction (Unit {0})
  update_row name old new enforce_unique = do
    schema ← read (table_schema_for name name)
    indexes ← read (indexes_for_table name)
    for_each (update_index schema old new enforce_unique) indexes

  -- An index is emptied before it is filled again.
  unfoldable pub clear_index : Bytes × IndexSchema → Action Transaction (Unit {0})
  clear_index (name, _) = do
    call (ensure_table name)
    entries ← read (scan_entries name)
    stale ← read (λ _. first_keys entries)
    for_each (λ key. call (remove_entry name key) >> pure tt) stale

  unfoldable pub rebuild_row :
      Bytes → TableSchema → Bool → Bytes × Row → Action Transaction (Unit {0})
  rebuild_row name schema enforce_unique (_, row) = do
    full ← lift (materialize_defaults schema row)
    update_row name none (some full) enforce_unique

  unfoldable pub rebuild_table : RowCodec → Bytes → Bool → Action Transaction (Unit {0})
  rebuild_table codec name enforce_unique = do
    indexes ← read (indexes_for_table name)
    for_each clear_index indexes
    schema ← read (table_schema_for name name)
    rows ← read (λ t. traverse (λ item. item) (codec.scan_rows name t))
    for_each (rebuild_row name schema enforce_unique) rows
