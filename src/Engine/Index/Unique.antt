-- ===== src/Engine/Index/Unique.antt =====
-- A unique index holds no two rows with the same values (crates/engine/src/index.rs).
use rs_converge.Prelude.{
  ◌≡◌, true, false, some, [], ◌∷◌, arith, if◌then◌else◌, length, take, map, ◌-◌, ◌⊎◌, inl, inr,
}
use rs_converge.Order.Lex.{Bytes, bytes_ord}
use rs_converge.BTreeMap
use rs_converge.BTreeMap.Lookup.{get-insert}
use rs_converge.Value.{Row, IsRow}
use rs_converge.Value.Json.{Floats}
use rs_converge.Schema.{IndexSchema, TableSchema}
use rs_converge.Engine.{ok, engine_cases}
use rs_converge.Engine.Action.{done}
use rs_converge.Engine.RowKey.{Postcard, encode_key, encode_value, decode_value}
use rs_converge.Engine.RowKey.Codec.{decode_key-encode_key}
use rs_converge.Engine.RowTable.{scan_entries, put_entry, decode_entry}
use rs_converge.Engine.Kernel.{Transaction, Table, table, scan_bytes, put_bytes}
use rs_converge.Engine.Kernel.Tables.{table-set_table}
use rs_converge.Engine.Rows.{materialize_defaults, row_id}
use rs_converge.Engine.Index.{
  starts_with, has_null, any_starts_with, unique_key_exists, violates, put_new, record_key,
}

module _ ⦃fl : Floats⦄ ⦃pc : Postcard⦄ where
  -- Each of two keys starts with the values of the other.
  abbrev pub Clashes : Row → Row → Type 0
  Clashes r s =
      (starts_with (take (length r - 1) r) s ≡ true)
      × (starts_with (take (length s - 1) s) r ≡ true)

  -- Two entries of the table of an index whose keys have no null, and clash, are one.
  abbrev pub IsUnique : Table → Type 0
  IsUnique rows =
      (k j v w : Bytes) (r s x y : Row)
      → BTreeMap.get k rows ≡ some v
      → BTreeMap.get j rows ≡ some w
      → decode_entry (k, v) ≡ ok (r, x)
      → decode_entry (j, w) ≡ ok (s, y)
      → has_null r ≡ false
      → has_null s ≡ false
      → Clashes r s
      → k ≡ j

  -- The check has looked at every entry.
  checked :
      (values : Row) (rows : Table) (k v : Bytes) (r x : Row)
      → any_starts_with values (map decode_entry rows) ≡ ok false
      → BTreeMap.get k rows ≡ some v
      → decode_entry (k, v) ≡ ok (r, x)
      → starts_with values r ≡ false
  unfolding any_starts_with BTreeMap.get
  checked values [] k v r x h g d = absurd (ground arith)
  checked values ((j, w) ∷ rows) k v r x h g d = elim (engine_cases (decode_entry (j, w))) [
    | inl (entry, e) ↦ ground (arith, checked values rows k v r x, bytes_ord.eq_of_cmp k j)
    | inr (error, e) ↦ absurd (ground arith)
  ]

  inserted :
      (key value : Bytes) (rows : Table) (k v : Bytes)
      → BTreeMap.get k (BTreeMap.insert key value rows) ≡ some v
      → ((k ≡ key) × (v ≡ value)) ⊎ (BTreeMap.get k rows ≡ some v)
  inserted key value rows k v h =
      ground (arith, get-insert key k value rows, bytes_ord.eq_of_cmp key k)

  same_row :
      (k v key value : Bytes) (r x row y : Row)
      → k ≡ key
      → v ≡ value
      → decode_entry (k, v) ≡ ok (r, x)
      → decode_entry (key, value) ≡ ok (row, y)
      → row ≡ r
  same_row k v key value r x row y ek ev d e = cc

  insert-IsUnique :
      (key value : Bytes) (row y : Row) (rows : Table)
      → decode_entry (key, value) ≡ ok (row, y)
      → (has_null row ≡ false
          → any_starts_with (take (length row - 1) row) (map decode_entry rows) ≡ ok false)
      → IsUnique rows
      → IsUnique (BTreeMap.insert key value rows)
  insert-IsUnique key value row y rows d free unique k j v w r s a b gk gj dk dj nr ns (p, q) =
      elim (inserted key value rows k v gk) [
        | inl (ek, ev) ↦ elim (inserted key value rows j w gj) [
          | inl (ej, ew) ↦ ground arith
          | inr old ↦
              let same = same_row k v key value r a row y ek ev dk d in
              absurd (ground (arith, checked (take (length row - 1) row) rows j w s b, free))
        ]
        | inr old ↦ elim (inserted key value rows j w gj) [
          | inl (ej, ew) ↦
              let same = same_row j w key value s b row y ej ew dj d in
              absurd (ground (arith, checked (take (length row - 1) row) rows k v r a, free))
          | inr older ↦ unique k j v w r s a b old older dk dj nr ns (p, q)
        ]
      ]

  -- What the guard says of a unique index, in terms of its entries.
  violates_unique :
      (name : Bytes) (index : IndexSchema) (key : Row) (rows : Table) (t : Transaction)
      → index.unique ≡ true
      → table name t ≡ ok rows
      → violates true name index key t ≡ (
          if has_null key
          then ok false
          else any_starts_with (take (length key - 1) key) (map decode_entry rows))
  unfolding violates unique_key_exists scan_entries scan_bytes
  violates_unique name index key rows t is_unique there = ground arith

  -- `put_new` has succeeded when the guard has let the key through, and then has written it.
  put_new_done :
      (name id : Bytes) (index : IndexSchema) (schema : TableSchema) (row full key : Row)
      (t u : Transaction)
      → materialize_defaults schema row ≡ done full
      → row_id schema full ≡ ok id
      → record_key index id full ≡ ok key
      → put_new true name index schema (some row) t ≡ (done tt, u)
      → (violates true name index key t ≡ ok false) × (u ≡ (put_entry name key [] t).1)
  unfolding put_new
  put_new_done name id index schema row full key t u hf hi hk h =
      elim (engine_cases (violates true name index key t)) [
        | inl (true, q) ↦ absurd (ground arith)
        | inl (false, q) ↦ ground arith
        | inr (e, q) ↦ absurd (ground arith)
      ]

  -- A row that `update_row` writes to a unique index, with the check on and the key given back by
  -- `decode_key`, leaves the entries of this index unique when they were.
  pub put_new-IsUnique :
      (name id : Bytes) (index : IndexSchema) (schema : TableSchema) (row full key : Row)
      (rows : Table) (t u : Transaction)
      → index.unique ≡ true
      → materialize_defaults schema row ≡ done full
      → row_id schema full ≡ ok id
      → record_key index id full ≡ ok key
      → IsRow key
      → decode_value (encode_value key) ≡ ok key
      → decode_value (encode_value []) ≡ ok []
      → table name t ≡ ok rows
      → IsUnique rows
      → put_new true name index schema (some row) t ≡ (done tt, u)
      → (after : Table) × (table name u ≡ ok after) × IsUnique after
  unfolding put_entry put_bytes decode_entry
  put_new-IsUnique name id index schema row full key rows t u is_unique hf hi hk valid back empty
        there unique h =
      let back_key = decode_key-encode_key key valid back in
      let (passed, e) = put_new_done name id index schema row full key t u hf hi hk h in
      (
        BTreeMap.insert (encode_key key) (encode_value []) rows,
        ground (
          arith,
          table-set_table name name (BTreeMap.insert (encode_key key) (encode_value []) rows) t,
          bytes_ord.cmp_refl name,
        ),
        insert-IsUnique (encode_key key) (encode_value []) key [] rows (ground arith)
            (λ no_null. ground (arith, violates_unique name index key rows t is_unique there))
            unique,
      )
