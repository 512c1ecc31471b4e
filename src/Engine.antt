-- ===== src/Engine.antt =====
-- crates/engine: the errors of the engine (src/engine.rs), the encoding of row keys
-- (src/row_table.rs) and the in-memory kernel (src/in_memory.rs).
pub mod RowKey
pub mod Kernel
pub mod RowTable
pub mod BytesTable
pub mod Action
pub mod Codec
pub mod Rows
pub mod Index
pub mod Change
pub mod Executor
pub mod Keeps
pub mod Transfer
pub mod Api
pub mod Catalog
pub mod Schema
mod Tests
use rs_converge.Prelude.{List, [], ◌∷◌, ◌≡◌, ◌⊎◌, inl, inr, refl}
use rs_converge.Order.Lex.{Bytes}

-- `EngineError`; a message is its bytes.
pub data EngineError : Type 0 where
  translate_error : Bytes → EngineError
  unsupported : Bytes → EngineError
  invalid_query : Bytes → EngineError
  sync_dependency_unavailable : EngineError
  missing_timestamp_provider : EngineError
  custom : Bytes → EngineError

-- `EngineResult`
pub data EngineResult {ℓ} (A : Type ℓ) : Type ℓ where
  ok : A → EngineResult A
  err : EngineError → EngineResult A

infixl 5 ◌>>=◌
abbrev pub ◌>>=◌ {ℓ κ} :
    {A : Type ℓ} {B : Type κ} → EngineResult A → (A → EngineResult B) → EngineResult B
ok a >>= f = f a
err e >>= f = err e

pub engine_cases {ℓ} :
    {A : Type ℓ} (r : EngineResult A) → ((a : A) × (r ≡ ok a)) ⊎ ((e : EngineError) × (r ≡ err e))
engine_cases (ok a) = inl (a, refl)
engine_cases (err e) = inr (e, refl)

-- A step that is followed by another has succeeded when both have.
pub step_ok {ℓ κ} :
    {A : Type ℓ} {B : Type κ} {last : B} (next : A → EngineResult B) (first : EngineResult A)
    → (first >>= next) ≡ ok last
    → (found : A) × (next found ≡ ok last) × (first ≡ ok found)
step_ok next (ok found) h = (found, h, refl)
step_ok next (err e) h = cc

-- `collect` of an iterator of results
unfoldable pub traverse {ℓ κ} :
    {A : Type ℓ} {B : Type κ} → (A → EngineResult B) → List A → EngineResult (List B)
traverse f [] = ok []
traverse f (x ∷ xs) = do y ← f x; ys ← traverse f xs; ok (y ∷ ys)
