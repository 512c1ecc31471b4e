-- ===== src/Engine/Executor/Insert/Shape.antt =====
-- The rows that INSERT writes (crates/engine/src/executor.rs).
use rs_converge.Prelude.{ℕ, ◌≡◌, ◌≢◌, ◌⊎◌, ◌+◌, ◌<◌, ◌≤◌, ◌∷◌, ◌++◌, length, drop}
use rs_converge.Order.Lex.{Bytes}
use rs_converge.Value.{Value, Row}
use rs_converge.Schema.{TableSchema}
use rs_converge.Engine.Action.{Outcome, done}
use rs_converge.Engine.Rows.{default_values}
use rs_converge.Engine.Executor.{Context}
use rs_converge.Engine.Executor.Insert.{wrong_count}

-- The values that are given, and the defaults of the columns behind them.
abbrev pub completed : TableSchema → Row → Row
completed schema row = row ++ default_values (drop (length row) schema.columns)

-- What INSERT makes of a row, by its length: a row that is too long is refused; one that lacks
-- values, where the primary key is the first column, is given the UUID `id` in front and takes one
-- call of the clock; what it still lacks are defaults.
abbrev pub IsMaterialized : TableSchema → ℕ → Bytes → Row → Context → Outcome Row × Context → Type 0
IsMaterialized schema primary id row c result =
    ((length schema.columns < length row) × (result ≡ (wrong_count, c)))
    ⊎ ((length row ≤ length schema.columns)
        × ((length row ≡ length schema.columns) ⊎ (primary ≢ 0))
        × (result ≡ (done (completed schema row), c)))
    ⊎ ((length row < length schema.columns)
        × (primary ≡ 0)
        × (result ≡ (
          done (completed schema (Value.uuid id ∷ row)),
          record { local = c.local; clock = c.clock + 1 },
        )))
