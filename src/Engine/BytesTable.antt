-- ===== src/Engine/BytesTable.antt =====
-- crates/engine/src/bytes_table.rs: a table of a kernel as an ordered map of bytes, with the
-- operations of crates/btree. The kernel is the in-memory one, and a stream is the list of its
-- items.
use rs_converge.Prelude.{◌≡◌, refl, Option, none, some, List, [], ◌∷◌, map, arith, if◌then◌else◌}
use rs_converge.Order.Lex.{Bytes, bytes_ord}
use rs_converge.BTreeMap
use rs_converge.BTreeMap.{Bound, Map, contains, select}
use rs_converge.BTree.{BTreeResult, BTreeError, custom, unsupported_operation}
use rs_converge.BTree
use rs_converge.Engine.{EngineResult, EngineError, ok, err}
use rs_converge.Engine.Kernel.{
  Transaction, Table, table, get_bytes, scan_bytes, put_bytes, remove_bytes,
}
use rs_converge.Engine.Kernel.Tables.{table-set_table}

-- `show` is the text of an error of the engine.
module _ (show : EngineError → Bytes) where
  -- `map_err(BTreeError::custom)`
  abbrev pub map_err {ℓ} : {A : Type ℓ} → EngineResult A → BTreeResult A
  map_err (ok a) = BTree.ok a
  map_err (err e) = BTree.err (custom (show e))

  unfoldable pub get : Bytes → Bytes → Transaction → BTreeResult (Option Bytes)
  unfolding get_bytes
  get name key t = map_err (get_bytes name key t)

  -- The loop of `range` over the entries of the table.
  unfoldable pub yield_included :
      Bound Bytes → Bound Bytes → Table → List (BTreeResult (Bytes × Bytes))
  yield_included lo hi [] = []
  yield_included lo hi ((key, value) ∷ entries) =
      let rest = yield_included lo hi entries in
      if contains lo hi key then BTree.ok (key, value) ∷ rest else rest

  unfoldable pub range :
      Bytes → Bound Bytes → Bound Bytes → Transaction → List (BTreeResult (Bytes × Bytes))
  unfolding scan_bytes yield_included
  range name lo hi t = elim (scan_bytes name t) [
    | ok rows ↦ yield_included lo hi rows
    | err e ↦ BTree.err (custom (show e)) ∷ []
  ]

  unfoldable pub insert : Bytes → Bytes → Bytes → Transaction → BTreeResult (Unit {0}) × Transaction
  unfolding put_bytes
  insert name key value t = let (r, u) = put_bytes name key value t in (map_err r, u)

  -- `update`, by what `get` has found
  unfoldable pub update_found :
      Bytes
      → Bytes
      → (Bytes → BTreeResult Bytes)
      → BTreeResult (Option Bytes)
      → Transaction
      → BTreeResult (Option (Unit {0})) × Transaction
  unfolding insert
  update_found name key f (BTree.err e) t = (BTree.err e, t)
  update_found name key f (BTree.ok none) t = (BTree.ok none, t)
  update_found name key f (BTree.ok (some value)) t = elim (f value) [
    | BTree.err e ↦ (BTree.err e, t)
    | BTree.ok new ↦
        (let (r, u) = insert name key new t in
          (elim r [ BTree.ok _ ↦ BTree.ok (some tt) | BTree.err e ↦ BTree.err e ], u))
  ]

  unfoldable pub update :
      Bytes
      → Bytes
      → (Bytes → BTreeResult Bytes)
      → Transaction
      → BTreeResult (Option (Unit {0})) × Transaction
  unfolding get update_found
  update name key f t = update_found name key f (get name key t) t

  unfoldable pub remove : Bytes → Bytes → Transaction → BTreeResult (Option Bytes) × Transaction
  unfolding remove_bytes
  remove name key t = let (r, u) = remove_bytes name key t in (map_err r, u)

  -- `remove_range` is not supported.
  abbrev pub remove_range :
      Bytes
      → Bound Bytes
      → Bound Bytes
      → Transaction
      → List (BTreeResult (Bytes × Bytes)) × Transaction
  remove_range name lo hi t = (BTree.err unsupported_operation ∷ [], t)

  yield_included-select :
      (lo hi : Bound Bytes) (rows : Table)
      → yield_included lo hi rows ≡ map (λ e. BTree.ok e) (select (contains lo hi) rows)
  unfolding yield_included select
  yield_included-select lo hi [] = refl
  yield_included-select lo hi ((key, value) ∷ rows) =
      ground (arith, yield_included-select lo hi rows)

  -- A scan of a table that exists yields what the ordered map of its rows gives for the range,
  -- wherever that does not panic.
  range-table :
      (name : Bytes) (lo hi : Bound Bytes) (rows found : Table) (t : Transaction)
      → table name t ≡ ok rows
      → BTreeMap.range lo hi rows ≡ some found
      → range name lo hi t ≡ map (λ e. BTree.ok e) found
  unfolding range scan_bytes BTreeMap.range
  range-table name lo hi rows found t h r = ground (arith, yield_included-select lo hi rows)

  table-insert :
      (name key value : Bytes) (rows : Table) (t : Transaction)
      → table name t ≡ ok rows
      → table name (insert name key value t).1 ≡ ok (BTreeMap.insert key value rows)
  unfolding insert put_bytes
  table-insert name key value rows t h =
      ground (
        arith,
        table-set_table name name (BTreeMap.insert key value rows) t,
        bytes_ord.cmp_refl name,
      )

  update-found :
      (name key value new : Bytes) (f : Bytes → BTreeResult Bytes) (rows : Table) (t : Transaction)
      → table name t ≡ ok rows
      → BTreeMap.get key rows ≡ some value
      → f value ≡ BTree.ok new
      → update name key f t ≡ (BTree.ok (some tt), (insert name key new t).1)
  unfolding update update_found get get_bytes insert put_bytes
  update-found name key value new f rows t h g e = ground arith

  -- In a table that exists, `update` of a key that is there, by a function that succeeds on its
  -- value, succeeds, and a scan after it yields what the ordered map of the rows gives with the
  -- new value at that key, for every range on which that map does not panic.
  pub range-update :
      (name key value new : Bytes) (f : Bytes → BTreeResult Bytes) (lo hi : Bound Bytes)
      (rows found : Table) (t : Transaction)
      → table name t ≡ ok rows
      → BTreeMap.get key rows ≡ some value
      → f value ≡ BTree.ok new
      → BTreeMap.range lo hi (BTreeMap.insert key new rows) ≡ some found
      → ((update name key f t).0 ≡ BTree.ok (some tt))
        × (range name lo hi (update name key f t).1 ≡ map (λ e. BTree.ok e) found)
  range-update name key value new f lo hi rows found t h g e r =
      rw (update-found name key value new f rows t h g e) (
        refl,
        range-table name lo hi (BTreeMap.insert key new rows) found (insert name key new t).1
            (table-insert name key new rows t h) r,
      )
