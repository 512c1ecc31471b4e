-- ===== src/Engine/Codec.antt =====
-- crates/engine/src/codec.rs: `RowCodec`, what the engine asks of the code that stores rows, here
-- over the transactions of the in-memory kernel. A row's UUID is its bytes.
use rs_converge.Prelude.{ℕ, Bool, Option, List}
use rs_converge.Order.Lex.{Bytes}
use rs_converge.Value.{Row}
use rs_converge.Engine.{EngineResult}
use rs_converge.Engine.Kernel.{Transaction}

pub record RowCodec : Type 0 where
  pub ensure_table : Bytes → Transaction → EngineResult {0} Unit × Transaction
  pub drop_table : Bytes → Transaction → EngineResult {0} Unit × Transaction
  pub get_row : Bytes → Bytes → Transaction → EngineResult (Option Row)
  -- the items of the stream
  pub scan_rows : Bytes → Transaction → List (EngineResult (Bytes × Row))
  pub put_row : Bytes → Bytes → Row → Transaction → EngineResult {0} Unit × Transaction
  pub remove_row : Bytes → Bytes → Transaction → EngineResult (Option Row) × Transaction
  pub encode_row : Bytes → Bytes → Row → List ℕ → Transaction → EngineResult Bytes
  pub conflicted_columns : Bytes → Bytes → Transaction → EngineResult (List ℕ)
  pub encode_resolution : Bytes → Bytes → Row → List ℕ → Transaction → EngineResult Bytes
  pub merge_row : Bytes → Bytes → Bytes → Transaction → EngineResult (Option Row) × Transaction
  pub delete_row : Bytes → Bytes → Transaction → EngineResult (Option Row) × Transaction
  pub row_is_deleted : Bytes → Bytes → Transaction → EngineResult Bool
