-- ===== src/Engine/Kernel/Tables.antt =====
-- What the calls of a transaction of the in-memory kernel read back.
use rs_converge.Prelude.{◌≡◌, none, some, arith}
use rs_converge.Order.Lex.{Bytes, bytes_ord}
use rs_converge.BTreeMap.Lookup.{at_key, get-insert, get-remove}
use rs_converge.BTreeMap
use rs_converge.Engine.{ok}
use rs_converge.Engine.Kernel.{
  Transaction, Table, table, set_table, get_bytes, put_bytes, remove_bytes, drop_table,
  table_not_found,
}

pub table-set_table :
    (a b : Bytes) (rows : Table) (t : Transaction)
    → table b (set_table a rows t) ≡ at_key a b (ok rows) (table b t)
unfolding table
table-set_table a b rows t = ground (arith, get-insert a b rows t.tables)

-- After `put_bytes` in a table that exists, `get_bytes` reads the value at that key of that
-- table, and what it read before everywhere else.
pub get_bytes-put_bytes :
    (a b key j value : Bytes) (rows : Table) (t : Transaction)
    → table a t ≡ ok rows
    → get_bytes b j (put_bytes a key value t).1
      ≡ at_key a b (at_key key j (ok (some value)) (get_bytes b j t)) (get_bytes b j t)
unfolding get_bytes put_bytes
get_bytes-put_bytes a b key j value rows t h = ground (
  arith,
  table-set_table a b (BTreeMap.insert key value rows) t,
  get-insert key j value rows,
  bytes_ord.eq_of_cmp a b,
)

pub get_bytes-remove_bytes :
    (a b key j : Bytes) (rows : Table) (t : Transaction)
    → table a t ≡ ok rows
    → get_bytes b j (remove_bytes a key t).1
      ≡ at_key a b (at_key key j (ok none) (get_bytes b j t)) (get_bytes b j t)
unfolding get_bytes remove_bytes
get_bytes-remove_bytes a b key j rows t h = ground (
  arith,
  table-set_table a b (BTreeMap.remove key rows) t,
  get-remove key j rows,
  bytes_ord.eq_of_cmp a b,
)

-- `drop_table` of a table that exists leaves the others, and this one is not found any more.
pub get_bytes-drop_table :
    (a b j : Bytes) (rows : Table) (t : Transaction)
    → table a t ≡ ok rows
    → get_bytes b j (drop_table a t).1 ≡ at_key a b table_not_found (get_bytes b j t)
unfolding get_bytes drop_table table
get_bytes-drop_table a b j rows t h = ground (arith, get-remove a b t.tables)
