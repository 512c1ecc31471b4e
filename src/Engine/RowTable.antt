-- ===== src/Engine/RowTable.antt =====
-- crates/engine/src/row_table.rs: `RowTable`, rows as keys and values of the tables of a kernel,
-- here of the in-memory kernel.
use rs_converge.Prelude.{◌≡◌, Option, none, some, List, map, arith}
use rs_converge.Order.Lex.{Bytes, bytes_ord}
use rs_converge.BTreeMap.Lookup.{at_key}
use rs_converge.Value.{Row}
use rs_converge.Value.Json.{Floats}
use rs_converge.Engine.{EngineResult, ok, ◌>>=◌}
use rs_converge.Engine.RowKey.{Postcard, encode_key, decode_key, encode_value, decode_value}
use rs_converge.Engine.Kernel.{
  Transaction, Table, table, get_bytes, scan_bytes, put_bytes, remove_bytes,
}
use rs_converge.Engine.Kernel.Tables.{get_bytes-put_bytes}

module _ ⦃fl : Floats⦄ ⦃pc : Postcard⦄ where
  -- `map(decode_value).transpose()`
  abbrev pub decode_option : Option Bytes → EngineResult (Option Row)
  decode_option none = ok none
  decode_option (some bytes) = decode_value bytes >>= λ row. ok (some row)

  unfoldable pub get_entry : Bytes → Row → Transaction → EngineResult (Option Row)
  unfolding encode_key get_bytes
  get_entry name key t = get_bytes name (encode_key key) t >>= decode_option

  unfoldable pub decode_entry : Bytes × Bytes → EngineResult (Row × Row)
  unfolding decode_key
  decode_entry (key, value) = decode_key key >>= λ k. decode_value value >>= λ v. ok (k, v)

  -- `scan_entries` and `scan_entries_owned`: the items of the stream
  unfoldable pub scan_entries : Bytes → Transaction → EngineResult (List (EngineResult (Row × Row)))
  unfolding decode_key scan_bytes
  scan_entries name t = scan_bytes name t >>= λ rows. ok (map decode_entry rows)

  unfoldable pub put_entry : Bytes → Row → Row → Transaction → EngineResult {0} Unit × Transaction
  unfolding encode_key put_bytes
  put_entry name key value t = put_bytes name (encode_key key) (encode_value value) t

  unfoldable pub remove_entry : Bytes → Row → Transaction → EngineResult (Option Row) × Transaction
  unfolding encode_key remove_bytes
  remove_entry name key t =
      let (old, u) = remove_bytes name (encode_key key) t in (old >>= decode_option, u)

  -- After `put_entry` in a table that exists, of a row that `postcard` gives back, `get_entry`
  -- reads the row at that key of that table, and what it read before everywhere else.
  pub get_entry-put_entry :
      (a b : Bytes) (key j value : Row) (rows : Table) (t : Transaction)
      → table a t ≡ ok rows
      → decode_value (encode_value value) ≡ ok value
      → get_entry b j (put_entry a key value t).1
        ≡ at_key a b
            (at_key (encode_key key) (encode_key j) (ok (some value)) (get_entry b j t))
            (get_entry b j t)
  unfolding get_entry put_entry
  get_entry-put_entry a b key j value rows t h k =
      ground (
        arith,
        get_bytes-put_bytes a b (encode_key key) (encode_key j) (encode_value value) rows t h,
      )
