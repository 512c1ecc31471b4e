-- ===== src/BTree.antt =====
-- crates/btree: the storage interface (src/btree.rs) and its in-memory implementation.
-- A `stream!` that ends after its items is the list of what it yields.
pub mod InMemory
pub mod Interface
mod Tests
use rs_converge.Prelude.{List, ℕ, ◌≡◌, ◌⊎◌, inl, inr, refl}

-- `BTreeError`; a message is its bytes
pub data BTreeError : Type 0 where
  invalid_document type_mismatch conflict commit_failed : BTreeError
  rollback_failed unsupported_operation : BTreeError
  custom : List ℕ → BTreeError

-- `BTreeResult`
pub data BTreeResult {ℓ} (A : Type ℓ) : Type ℓ where
  ok : A → BTreeResult A
  err : BTreeError → BTreeResult A

infixl 5 ◌>>=◌ ◌>>◌
abbrev pub ◌>>=◌ {ℓ κ} :
    {A : Type ℓ} {B : Type κ} → BTreeResult A → (A → BTreeResult B) → BTreeResult B
ok a >>= f = f a
err e >>= f = err e

abbrev pub ◌>>◌ {ℓ κ} : {A : Type ℓ} {B : Type κ} → BTreeResult A → BTreeResult B → BTreeResult B
m >> n = m >>= λ _. n

-- A chain that succeeds has succeeded step by step.
pub chain_ok {ℓ κ} :
    {A : Type ℓ} {B : Type κ} {last : B} (next : A → BTreeResult B) (first : BTreeResult A)
    → (first >>= next) ≡ ok last
    → (found : A) × (next found ≡ ok last) × (first ≡ ok found)
chain_ok next (ok found) h = (found, h, refl)
chain_ok next (err e) h = cc

-- To split on a computed result and keep the equation.
pub result_cases {ℓ} :
    {A : Type ℓ} (r : BTreeResult A) → ((a : A) × (r ≡ ok a)) ⊎ ((e : BTreeError) × (r ≡ err e))
result_cases (ok a) = inl (a, refl)
result_cases (err e) = inr (e, refl)
