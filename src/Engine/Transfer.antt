-- ===== src/Engine/Transfer.antt =====
-- crates/engine/src/state_transfer.rs: the catalog as entries that peers exchange, and changes of
-- rows in a transaction of their own.
pub mod Laws
use Prim.Native.Nat.Ordering.{lt, eq, gt}
use rs_converge.Prelude.{
  ℕ, Bool, true, false, Option, none, some, List, [], ◌∷◌, ◌++◌, compare, Ordering,
}
use rs_converge.Order.{then_with}
use rs_converge.Order.Lex.{Bytes}
use rs_converge.Value.{Row, cmp_row}
use rs_converge.Value.Json.{Floats, ascii}
use rs_converge.Engine.{EngineResult, ok, err, custom}
use rs_converge.Engine.Action.{
  Action, ◌>>=◌, ◌>>◌, Outcome, pure, raise, read, call, for_each, outcome,
}
use rs_converge.Engine.RowKey.{Postcard}
use rs_converge.Engine.RowTable.{put_entry, scan_entries}
use rs_converge.Engine.Kernel.{State, Transaction, transaction, ensure_table}
use rs_converge.Engine.Codec.{RowCodec}
use rs_converge.Engine.Catalog.{
  tables_storage, table_fields_storage, indices_storage, index_fields_storage, text_at, ok_or,
}
use rs_converge.Engine.Schema.{ensure}
use rs_converge.Engine.Schema.Columns.{active_table_names}
use rs_converge.Engine.Index.{update_row}
use rs_converge.Engine.Executor.Statement.{finish}

pub data CatalogEntryKind : Type 0 where
  table table_field index index_field : CatalogEntryKind

pub record CatalogEntry : Type 0 where
  pub kind : CatalogEntryKind
  pub key : Row
  pub value : Row

-- `table_name` and `row_name` are the fields `table` and `row`.
pub record RowMutation : Type 0 where
  pub table_name : Bytes
  pub row_name : Bytes
  pub old : Option Row
  pub new : Option Row

abbrev pub storage : CatalogEntryKind → Bytes
storage table = tables_storage
storage table_field = table_fields_storage
storage index = indices_storage
storage index_field = index_fields_storage

-- The discriminant, by which kinds are ordered
abbrev pub kind_rank : CatalogEntryKind → ℕ
kind_rank table = 0
kind_rank table_field = 1
kind_rank index = 2
kind_rank index_field = 3

abbrev pub kinds : List CatalogEntryKind
kinds = table ∷ table_field ∷ index ∷ index_field ∷ []

abbrev pub add_entry :
    CatalogEntry → EngineResult (List CatalogEntry) → EngineResult (List CatalogEntry)
add_entry entry (ok entries) = ok (entry ∷ entries)
add_entry entry (err e) = err e

-- The entries of one kind, or the first error of the stream.
unfoldable pub entries_of :
    CatalogEntryKind → List (EngineResult (Row × Row)) → EngineResult (List CatalogEntry)
entries_of kind [] = ok []
entries_of kind (err e ∷ items) = err e
entries_of kind (ok (key, value) ∷ items) =
    add_entry (record { kind = kind; key = key; value = value }) (entries_of kind items)

module _ ⦃fl : Floats⦄ where
  unfoldable pub cmp_entry : CatalogEntry → CatalogEntry → Ordering
  cmp_entry a b = then_with (compare (kind_rank a.kind) (kind_rank b.kind)) (cmp_row a.key b.key)

  -- `sort_by`, which is stable
  unfoldable pub place_entry : CatalogEntry → List CatalogEntry → List CatalogEntry
  place_entry e [] = e ∷ []
  place_entry e (f ∷ fs) =
      let rest = place_entry e fs in
      elim (cmp_entry e f) [ lt ↦ e ∷ f ∷ fs | eq ↦ e ∷ f ∷ fs | gt ↦ f ∷ rest ]

  unfoldable pub sort_entries : List CatalogEntry → List CatalogEntry
  sort_entries [] = []
  sort_entries (e ∷ es) = place_entry e (sort_entries es)

module _ ⦃fl : Floats⦄ ⦃pc : Postcard⦄ where
  -- The loop over the four kinds.
  unfoldable pub export_kinds : List CatalogEntryKind → Action Transaction (List CatalogEntry)
  export_kinds [] = pure []
  export_kinds (kind ∷ rest) = do
    call (ensure_table (storage kind))
    items ← read (scan_entries (storage kind))
    entries ← read (λ _. entries_of kind items)
    others ← export_kinds rest
    pure (entries ++ others)

  unfoldable pub apply_mutation : RowMutation → Action Transaction (Unit {0})
  apply_mutation m = update_row m.table_name m.old m.new false

  -- The transaction is rolled back.
  unfoldable pub export_catalog_entries : State → Outcome (List CatalogEntry)
  export_catalog_entries s =
      ((export_kinds kinds >>= λ entries. pure (sort_entries entries)) (transaction s)).0

  -- `table_names`
  unfoldable pub table_names : State → Outcome (List Bytes)
  table_names s =
      ((call (ensure_table tables_storage) >> read active_table_names) (transaction s)).0

module _ ⦃fl : Floats⦄ ⦃pc : Postcard⦄ (codec : RowCodec) where
  abbrev pub ensure_storage : CatalogEntryKind → Bytes → Action Transaction (Unit {0})
  ensure_storage table id = do call (ensure_table id); call (codec.ensure_table id)
  ensure_storage index id = call (ensure_table id)
  ensure_storage _ id = pure tt

  -- A table or an index has a table of the kernel of its own.
  abbrev pub ensure_named : CatalogEntryKind → Row → Action Transaction (Unit {0})
  ensure_named table key =
      read (λ _. ok_or (text_at key 0) (custom (ascii "Invalid catalog key")))
      >>= ensure_storage table
  ensure_named index key =
      read (λ _. ok_or (text_at key 0) (custom (ascii "Invalid catalog key")))
      >>= ensure_storage index
  ensure_named _ key = pure tt

  unfoldable pub write_entry : CatalogEntry → Action Transaction (Unit {0})
  write_entry entry = do
    call (ensure_table (storage entry.kind))
    call (put_entry (storage entry.kind) entry.key entry.value)
    ensure_named entry.kind entry.key

  unfoldable pub apply_catalog_entry : CatalogEntry → State → State → Outcome (Unit {0}) × State
  apply_catalog_entry entry begin end = finish end (write_entry entry (transaction begin))

  -- A table that rows are written to.
  unfoldable pub ensure_rows : Bytes → Action Transaction (Unit {0})
  ensure_rows name = do call (ensure_table name); call (codec.ensure_table name)

  -- The work of `mutate_rows` in its transaction.
  unfoldable pub mutate :
      {O : Type 0}
      → List (Bytes × Bytes)
      → Action Transaction (O × List RowMutation)
      → Action Transaction O
  mutate rows operation = do
    ensure
    for_each (λ found. ensure_rows found.0) rows
    (output, mutations) ← operation
    for_each apply_mutation mutations
    pure output

  unfoldable pub mutate_rows :
      {O : Type 0}
      → List (Bytes × Bytes)
      → Action Transaction (O × List RowMutation)
      → State
      → State
      → Outcome O × State
  mutate_rows rows operation begin end = finish end (mutate rows operation (transaction begin))

  -- The work of `mutate_transaction` in its transaction.
  unfoldable pub mutate_one :
      {O : Type 0}
      → Bytes
      → Bytes
      → (Option Row → Action Transaction (O × Option Row))
      → Action Transaction O
  mutate_one name id operation = do
    ensure
    ensure_rows name
    old ← read (codec.get_row name id)
    (output, new) ← operation old
    update_row name old new false
    pure output

  unfoldable pub mutate_transaction :
      {O : Type 0}
      → Bytes
      → Bytes
      → (Option Row → Action Transaction (O × Option Row))
      → State
      → State
      → Outcome O × State
  mutate_transaction name id operation begin end =
      finish end (mutate_one name id operation (transaction begin))
