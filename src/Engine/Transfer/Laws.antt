-- ===== src/Engine/Transfer/Laws.antt =====
-- The transactions of changes of rows and of catalog entries (crates/engine/src/state_transfer.rs).
use rs_converge.Prelude.{Option, arith}
use rs_converge.Order.Lex.{Bytes}
use rs_converge.Value.{Row}
use rs_converge.Value.Json.{Floats}
use rs_converge.Engine.Action.{Action}
use rs_converge.Engine.RowKey.{Postcard}
use rs_converge.Engine.Kernel.{State, Transaction, transaction}
use rs_converge.Engine.Codec.{RowCodec}
use rs_converge.Engine.Keeps.{IsKept, ensure-keeps}
use rs_converge.Engine.Keeps.Changes.{update_row-keeps}
use rs_converge.Engine.Executor.Statement.Laws.{EndsWith, finish-EndsWith}
use rs_converge.Engine.Transfer.{ensure_rows, mutate_one, mutate_transaction}

module _ (Inv : Transaction → Type 0) (codec : RowCodec) ⦃fl : Floats⦄ ⦃pc : Postcard⦄
    (kept : IsKept Inv codec) where
  open kept use {ensure_kept, codec_ensure_kept}

  ensure_rows-keeps : (name : Bytes) (t : Transaction) → Inv t → Inv (ensure_rows codec name t).1
  unfolding ensure_rows
  ensure_rows-keeps name t i = grind (arith, ensure_kept, codec_ensure_kept)

  -- `mutate_transaction`, in the same way.
  pub mutate_transaction-EndsWith :
      {O : Type 0} (name id : Bytes) (operation : Option Row → Action Transaction (O × Option Row))
      (begin end : State)
      → ((old : Option Row) (t : Transaction) → Inv t → Inv (operation old t).1)
      → Inv (transaction begin)
      → EndsWith Inv end (mutate_transaction codec name id operation begin end)
  unfolding mutate_transaction mutate_one
  mutate_transaction-EndsWith name id operation begin end h i =
      finish-EndsWith Inv end (mutate_one codec name id operation (transaction begin)) (
        grind (
          arith,
          ensure-keeps Inv codec kept,
          ensure_rows-keeps,
          h,
          update_row-keeps Inv codec kept,
        ))
