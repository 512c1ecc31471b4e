-- ===== src/Engine/Catalog.antt =====
-- crates/engine/src/catalog.rs, and what crates/engine/src/schema.rs reads of the four catalog
-- tables, here in the in-memory kernel: which of their entries are deleted.
use rs_converge.Prelude.{
  ℕ, Bool, false, Option, none, some, List, [], ◌∷◌, if◌then◌else◌, get_elem?,
}
use rs_converge.Order.Lex.{Bytes}
use rs_converge.Int.{ℤ}
use rs_converge.Value.{Value, Row, to_bool, to_text}
use rs_converge.Value.Text.{text_eq}
use rs_converge.Value.Json.{Floats, ascii}
use rs_converge.Engine.{EngineError, EngineResult, ok, err, custom, ◌>>=◌}
use rs_converge.Engine.RowKey.{Postcard}
use rs_converge.Engine.RowTable.{get_entry}
use rs_converge.Engine.Kernel.{Transaction}

abbrev pub tables_storage : Bytes
tables_storage = ascii "__engine_tables"

abbrev pub table_fields_storage : Bytes
table_fields_storage = ascii "__engine_table_fields"

abbrev pub indices_storage : Bytes
indices_storage = ascii "__engine_indices"

abbrev pub index_fields_storage : Bytes
index_fields_storage = ascii "__engine_index_fields"

abbrev pub catalog : List Bytes
catalog = tables_storage ∷ table_fields_storage ∷ indices_storage ∷ index_fields_storage ∷ []

abbrev pub table_key : Bytes → Row
table_key name = Value.text name ∷ []

abbrev pub column_key : Bytes → Bytes → Row
column_key name column = Value.text name ∷ Value.text column ∷ []

abbrev pub field_key : Bytes → ℤ → Row
field_key index position = Value.text index ∷ Value.integer position ∷ []

-- `row.values.get(i).and_then(read)`
abbrev pub and_then : {A : Type 0} → (Value → Option A) → Option Value → Option A
and_then f none = none
and_then f (some value) = f value

-- `row.values.get(i).and_then(Value::to_text)`
abbrev pub text_at : Row → ℕ → Option Bytes
text_at row i = and_then to_text (get_elem? row i)

-- `== Some(text)`
abbrev pub is_text : Bytes → Option Bytes → Bool
is_text name none = false
is_text name (some found) = text_eq found name

-- `ok_or`
abbrev pub ok_or : {A : Type 0} → Option A → EngineError → EngineResult A
ok_or none e = err e
ok_or (some a) e = ok a

abbrev pub deleted_state : Option Value → EngineResult Bool
deleted_state none = ok false
deleted_state (some value) = ok_or (to_bool value) (custom (ascii "Invalid schema deletion state"))

unfoldable pub deleted : Row → ℕ → EngineResult Bool
deleted value position = deleted_state (get_elem? value position)

-- What `table_deleted` and its like say of the entry that they have read.
abbrev pub entry_deleted : ℕ → Option Row → EngineResult Bool
entry_deleted position none = ok false
entry_deleted position (some value) = deleted value position

-- The keys of the fields of an index, or the first error of the stream.
unfoldable pub keys_of : Bytes → List (EngineResult (Row × Row)) → EngineResult (List Row)
keys_of index [] = ok []
keys_of index (entry ∷ entries) = do
  (key, _) ← entry
  keys ← keys_of index entries
  ok (if is_text index (text_at key 0) then key ∷ keys else keys)

module _ ⦃fl : Floats⦄ ⦃pc : Postcard⦄ where
  unfoldable pub table_deleted : Bytes → Transaction → EngineResult Bool
  table_deleted name t = get_entry tables_storage (table_key name) t >>= entry_deleted 0

  unfoldable pub column_deleted : Bytes → Bytes → Transaction → EngineResult Bool
  column_deleted name column t =
      get_entry table_fields_storage (column_key name column) t >>= entry_deleted 4

  unfoldable pub index_field_deleted : Bytes → ℤ → Transaction → EngineResult Bool
  index_field_deleted index position t =
      get_entry index_fields_storage (field_key index position) t >>= entry_deleted 1

  unfoldable pub index_deleted : Bytes → Transaction → EngineResult Bool
  index_deleted index t = get_entry indices_storage (table_key index) t >>= entry_deleted 2
