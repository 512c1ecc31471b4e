-- ===== src/Engine/Executor.antt =====
-- crates/engine/src/executor.rs: the statements of a query, over the in-memory kernel. The state of
-- a call is its transaction, the changes that it has applied and how often it has asked for the
-- time.
pub mod Expr
pub mod Select
pub mod Slots
pub mod Insert
pub mod Update
pub mod Table
pub mod Index
pub mod Statement
pub mod Conflict
pub mod Keeps
mod Tests
use rs_converge.Prelude.{ℕ, ◌+◌, Option, none, some, List, []}
use rs_converge.Order.Lex.{Bytes}
use rs_converge.Value.Json.{Floats}
use rs_converge.Query.{QueryResult}
use rs_converge.Engine.{EngineResult, missing_timestamp_provider}
use rs_converge.Engine.Action.{Action, ◌>>=◌, ◌>>◌, Outcome, done, failed, outcome}
use rs_converge.Engine.RowKey.{Postcard}
use rs_converge.Engine.Kernel.{Transaction}
use rs_converge.Engine.Codec.{RowCodec}
use rs_converge.Engine.Schema.{SchemaChange}
use rs_converge.Engine.Change.{Local, Change, schema_change, row_change, apply_local_change}

-- The `n`-th call of the timestamp provider, and the UUID that `Uuid::new_v7` makes of its time.
pub record Clock : Type 0 where
  pub new_uuid : ℕ → Option Bytes

pub record Context : Type 0 where
  pub local : Local
  pub clock : ℕ

-- `QueryResult::default`
abbrev pub no_result : QueryResult
no_result = record { rows = []; columns = [] }

module _ {ℓ} {A : Type ℓ} where
  -- A read of the transaction, `?` included.
  abbrev pub ask : (Transaction → EngineResult A) → Action Context A
  ask f c = (outcome (f c.local.transaction), c)

  -- A read that may panic.
  abbrev pub inspect : (Transaction → Outcome A) → Action Context A
  inspect f c = (f c.local.transaction, c)

  abbrev pub with_clock : ℕ → Outcome A × Local → Outcome A × Context
  with_clock clock (o, local) = (o, record { local = local; clock = clock })

  abbrev pub on_local : Action Local A → Action Context A
  on_local f c = with_clock c.clock (f c.local)

abbrev pub uuid_made : Option Bytes → Outcome Bytes
uuid_made none = failed missing_timestamp_provider
uuid_made (some id) = done id

-- `next_uuid`
abbrev pub next_uuid : ⦃clock : Clock⦄ → Action Context Bytes
next_uuid ⦃clock⦄ c =
    (uuid_made (clock.new_uuid c.clock), record { local = c.local; clock = c.clock + 1 })

module _ ⦃fl : Floats⦄ ⦃pc : Postcard⦄ ⦃clock : Clock⦄ (codec : RowCodec) where
  -- The calls of `apply_local_change` with a change that `next_uuid` names.
  unfoldable pub apply_schema : SchemaChange → Action Context (Unit {0})
  apply_schema change = do
    id ← next_uuid
    on_local (apply_local_change codec (schema_change id change))

  unfoldable pub apply_row : Bytes → Bytes → Option Bytes → Action Context (Unit {0})
  apply_row name row value = do
    id ← next_uuid
    on_local (apply_local_change codec (row_change id name row value))
