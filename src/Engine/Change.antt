-- ===== src/Engine/Change.antt =====
-- crates/engine/src/change.rs: changes of the schema and of rows, and how a transaction
-- materialises them.
use rs_converge.Prelude.{Bool, true, false, Option, none, some, List, [], ◌∷◌, ◌++◌}
use rs_converge.Order.Lex.{Bytes}
use rs_converge.Value.{Row}
use rs_converge.Value.Json.{Floats, ascii}
use rs_converge.Engine.{EngineResult, ok, err, custom}
use rs_converge.Engine.Action.{
  Action, ◌>>=◌, ◌>>◌, pure, raise, read, call, Outcome, done, failed, panicked,
}
use rs_converge.Engine.RowKey.{Postcard}
use rs_converge.Engine.Kernel.{Transaction}
use rs_converge.Engine.Codec.{RowCodec}
use rs_converge.Engine.Schema.{SchemaChange, create_table, add_column, create_index, materialize}
use rs_converge.Engine.Schema.Columns.{columns}
use rs_converge.Engine.Index.{rebuild_table, update_row}

pub data ChangeKey : Type 0 where
  schema : SchemaChange → ChangeKey
  row : (table row : Bytes) → ChangeKey

pub record Change : Type 0 where
  pub id : Bytes
  pub key : ChangeKey
  pub value : Option Bytes

-- `Change::schema` and `Change::row`
abbrev pub schema_change : Bytes → SchemaChange → Change
schema_change id change = record { id = id; key = schema change; value = none }

abbrev pub row_change : Bytes → Bytes → Bytes → Option Bytes → Change
row_change id table_name row_name value = record {
  id = id;
  key = row table_name row_name;
  value = value;
}

-- A transaction and the changes that have been applied to it.
pub record Local : Type 0 where
  pub transaction : Transaction
  pub changes : List Change

module _ ⦃fl : Floats⦄ ⦃pc : Postcard⦄ where
  -- `codec.ensure_table` for a created table
  abbrev pub ensure_created : RowCodec → SchemaChange → Action Transaction (Unit {0})
  ensure_created codec (create_table name) = call (codec.ensure_table name)
  ensure_created codec _ = pure tt

  abbrev pub rebuild_changed : RowCodec → SchemaChange → Bool → Action Transaction (Unit {0})
  rebuild_changed codec (create_table name) enforce = rebuild_table codec name enforce
  rebuild_changed codec (add_column name _ _ _ _ _) enforce = rebuild_table codec name enforce
  rebuild_changed codec (create_index _ name _ _) enforce = rebuild_table codec name enforce
  rebuild_changed codec _ enforce = pure tt

  -- A row that the codec has merged: nothing when the row is superseded.
  abbrev pub update_merged : Bytes → Option Row → Option Row → Bool → Action Transaction Bool
  update_merged name old none enforce = pure true
  update_merged name old (some value) enforce = do
    update_row name old (some value) enforce
    pure false

  abbrev pub merge_live :
      RowCodec → Bytes → Bytes → Bytes → Bool → EngineResult {0} Unit → Action Transaction Bool
  merge_live codec name id value enforce (err _) = pure true
  merge_live codec name id value enforce (ok _) = do
    old ← read (codec.get_row name id)
    merged ← call (codec.merge_row name id value)
    update_merged name old merged enforce

  abbrev pub remove_live :
      RowCodec → Bytes → Bytes → Bool → EngineResult {0} Unit → Action Transaction Bool
  remove_live codec name id enforce (err _) = pure true
  remove_live codec name id enforce (ok _) = do
    old ← call (codec.remove_row name id)
    update_row name old none enforce
    pure false

  -- Whether the columns of a table can be listed.
  abbrev pub listed : Bytes → Transaction → EngineResult {0} Unit
  listed name t = elim (columns name t) [ ok _ ↦ ok tt | err e ↦ err e ]

  unfoldable pub materialize_key :
      RowCodec → ChangeKey → Option Bytes → Bool → Action Transaction Bool
  materialize_key codec (schema change) none enforce = do
    superseded ← materialize change
    ensure_created codec change
    rebuild_changed codec change enforce
    pure superseded
  materialize_key codec (row name id) (some value) enforce =
      λ t. merge_live codec name id value enforce (listed name t) t
  materialize_key codec (row name id) none enforce =
      λ t. remove_live codec name id enforce (listed name t) t
  materialize_key codec (schema change) (some _) enforce =
      raise (custom (ascii "Invalid schema change value"))

  unfoldable pub materialize_change : RowCodec → Change → Bool → Action Transaction Bool
  materialize_change codec change enforce = materialize_key codec change.key change.value enforce

  -- What is pushed once the change is materialised.
  abbrev pub push_change :
      Change → List Change → Outcome Bool × Transaction → Outcome (Unit {0}) × Local
  push_change change changes (done _, t) =
      (done tt, record { transaction = t; changes = changes ++ (change ∷ []) })
  push_change change changes (failed e, t) =
      (failed e, record { transaction = t; changes = changes })
  push_change change changes (panicked, t) =
      (panicked, record { transaction = t; changes = changes })

  unfoldable pub apply_local_change : RowCodec → Change → Action Local (Unit {0})
  apply_local_change codec change local =
      push_change change local.changes (materialize_change codec change true local.transaction)
