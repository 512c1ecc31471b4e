-- ===== src/Engine/Schema/Laws.antt =====
-- What the changes of the schema do to the names of tables (crates/engine/src/schema.rs).
use rs_converge.Prelude.{
  ◌≡◌, refl, Bool, true, false, Option, none, some, [], ◌∷◌, arith, if◌then◌else◌, inl, inr,
}
use rs_converge.Order.Lex.{Bytes, bytes_ord, cmp_list}
use rs_converge.BTreeMap.Lookup.{at_key}
use rs_converge.Value.{Value, Row, cmp_value}
use rs_converge.Value.Text.{text_eq, eq_of_text_eq}
use rs_converge.Value.Json.{Floats, ascii}
use rs_converge.Engine.{ok, err, invalid_query, engine_cases}
use rs_converge.Engine.Action.{done}
use rs_converge.Engine.RowKey.{Postcard, encode_key, encode_value, decode_value}
use rs_converge.Engine.RowKey.Order.{cmp_bytes-encode_key}
use rs_converge.Engine.RowTable.{get_entry, put_entry, get_entry-put_entry}
use rs_converge.Engine.Kernel.{Transaction, Table, table, get_bytes, put_bytes}
use rs_converge.Engine.Catalog.{tables_storage, table_key, deleted, table_deleted}
use rs_converge.Engine.Schema.{
  create_table, tombstone_table, materialize, set_deleted, created, flagged,
}
use rs_converge.Engine.Schema.Columns.{lookup_table_name}

module _ ⦃fl : Floats⦄ ⦃pc : Postcard⦄ where
  -- An entry can be read only of a table that there is.
  pub get_entry-table :
      {found : Option Row} (name : Bytes) (key : Row) (t : Transaction)
      → get_entry name key t ≡ ok found
      → (rows : Table) × (table name t ≡ ok rows)
  unfolding get_entry get_bytes
  get_entry-table name key t h = elim (engine_cases (table name t)) [
    | inl (rows, e) ↦ (rows, e)
    | inr (e, q) ↦ absurd (ground arith)
  ]

  pub put_entry-ok :
      {found : Option Row} (name : Bytes) (key j value : Row) (t : Transaction)
      → get_entry name j t ≡ ok found
      → (put_entry name key value t).0 ≡ ok tt
  unfolding put_entry put_bytes
  put_entry-ok name key j value t h = let (rows, e) = get_entry-table name j t h in ground arith

  created_row : (found : Option Row) → created found ≡ Value.bool false ∷ []
  created_row none = refl
  created_row (some []) = refl
  created_row (some (_ ∷ _)) = refl

  flagged_row : (b : Bool) (value : Row) → flagged 0 b value ≡ Value.bool b ∷ []
  flagged_row b [] = refl
  flagged_row b (_ ∷ _) = refl

  pub materialize-create_table :
      (found : Option Row) (name : Bytes) (t : Transaction)
      → get_entry tables_storage (table_key name) t ≡ ok found
      → materialize (create_table name) t
        ≡ (done false, (put_entry tables_storage (table_key name) (Value.bool false ∷ []) t).1)
  unfolding materialize
  materialize-create_table found name t h = ground (
    arith,
    created_row found,
    put_entry-ok tables_storage (table_key name) (table_key name) (Value.bool false ∷ []) t h,
  )

  pub materialize-tombstone_table :
      (value : Row) (state : Bool) (name : Bytes) (t : Transaction)
      → get_entry tables_storage (table_key name) t ≡ ok (some value)
      → deleted value 0 ≡ ok state
      → materialize (tombstone_table name) t ≡ (
        done false,
        (if state
            then t
            else (put_entry tables_storage (table_key name) (Value.bool true ∷ []) t).1),
      )
  unfolding materialize set_deleted
  materialize-tombstone_table value state name t h d = ground (
    arith,
    flagged_row true value,
    put_entry-ok tables_storage (table_key name) (table_key name) (Value.bool true ∷ []) t h,
  )

  -- The keys of two names are equal when the names are.
  at_table_key {ℓ} :
      {A : Type ℓ} (a b : Bytes) (x y : A)
      → at_key (encode_key (table_key a)) (encode_key (table_key b)) x y
        ≡ (if text_eq a b then x else y)
  unfolding cmp_value cmp_list
  at_table_key a b x y = ground (
    arith,
    cmp_bytes-encode_key (table_key a) (table_key b) (tt, tt) (tt, tt),
    bytes_ord.eq_of_cmp a b,
    bytes_ord.cmp_refl (encode_key (table_key a)),
    bytes_ord.cmp_refl a,
  )

  -- What a table's own entry reads as, and another's, after one is written.
  pub get_name-put_name :
      {found : Option Row} (name other : Bytes) (value : Row) (t : Transaction)
      → get_entry tables_storage (table_key name) t ≡ ok found
      → decode_value (encode_value value) ≡ ok value
      → get_entry tables_storage
          (table_key other)
          (put_entry tables_storage (table_key name) value t).1
        ≡ (if text_eq name other
            then ok (some value)
            else get_entry tables_storage (table_key other) t)
  get_name-put_name name other value t h k =
      let (rows, e) = get_entry-table tables_storage (table_key name) t h in
      ground (
        arith,
        get_entry-put_entry tables_storage tables_storage (table_key name) (table_key other) value
            rows t e k,
        bytes_ord.cmp_refl tables_storage,
        at_table_key name other (ok (some value)) (get_entry tables_storage (table_key other) t),
      )

  -- CREATE TABLE of a name whose catalog entry can be read, deleted or not, shows this table and
  -- leaves what a lookup of every other name gives.
  pub lookup_table_name-create_table :
      (found : Option Row) (name other : Bytes) (t : Transaction)
      → get_entry tables_storage (table_key name) t ≡ ok found
      → decode_value (encode_value (Value.bool false ∷ [])) ≡ ok (Value.bool false ∷ [])
      → lookup_table_name other (materialize (create_table name) t).1
        ≡ (if text_eq name other then ok other else lookup_table_name other t)
  unfolding lookup_table_name table_deleted deleted
  lookup_table_name-create_table found name other t h k = ground (
    arith,
    materialize-create_table found name t h,
    get_name-put_name name other (Value.bool false ∷ []) t h k,
  )

  -- DROP TABLE of a name with a catalog entry hides this table, deleted before or not, and leaves
  -- what a lookup of every other name gives.
  pub lookup_table_name-tombstone_table :
      (value : Row) (state : Bool) (name other : Bytes) (t : Transaction)
      → get_entry tables_storage (table_key name) t ≡ ok (some value)
      → deleted value 0 ≡ ok state
      → decode_value (encode_value (Value.bool true ∷ [])) ≡ ok (Value.bool true ∷ [])
      → lookup_table_name other (materialize (tombstone_table name) t).1 ≡ (
          if text_eq name other
          then err (invalid_query (ascii "Table not found"))
          else lookup_table_name other t)
  unfolding lookup_table_name table_deleted deleted
  lookup_table_name-tombstone_table value state name other t h d k = ground (
    arith,
    materialize-tombstone_table value state name t h d,
    get_name-put_name name other (Value.bool true ∷ []) t h k,
    eq_of_text_eq name other,
  )
