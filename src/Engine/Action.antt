-- ===== src/Engine/Action.antt =====
-- The engine's calls on a state: they return, fail, or panic, and what they wrote before stays
-- written (crates/engine).
use rs_converge.Prelude.{Option, none, some, List, [], ◌∷◌}
use rs_converge.Engine
use rs_converge.Engine.{EngineError, EngineResult}

-- An `EngineResult`, or a panic.
pub data Outcome {ℓ} (A : Type ℓ) : Type ℓ where
  done : A → Outcome A
  failed : EngineError → Outcome A
  panicked : Outcome A

abbrev pub Action {ℓ κ} : Type ℓ → Type κ → Type (ℓ ⊔ κ)
Action S A = S → Outcome A × S

abbrev pub outcome {ℓ} : {A : Type ℓ} → EngineResult A → Outcome A
outcome (Engine.ok a) = done a
outcome (Engine.err e) = failed e

abbrev pub bind {ℓ κ} : {A : Type ℓ} {B : Type κ} → Outcome A → (A → Outcome B) → Outcome B
bind (done a) f = f a
bind (failed e) f = failed e
bind panicked f = panicked

infixl 5 ◌>>=◌ ◌>>◌
abbrev pub continue {ℓ κ μ} :
    {S : Type ℓ} {A : Type κ} {B : Type μ} → (A → Action S B) → Outcome A × S → Outcome B × S
continue f (done a, s) = f a s
continue f (failed e, s) = (failed e, s)
continue f (panicked, s) = (panicked, s)

abbrev pub ◌>>=◌ {ℓ κ μ} :
    {S : Type ℓ} {A : Type κ} {B : Type μ} → Action S A → (A → Action S B) → Action S B
◌>>=◌ m f s = continue f (m s)

abbrev pub ◌>>◌ {ℓ κ μ} :
    {S : Type ℓ} {A : Type κ} {B : Type μ} → Action S A → Action S B → Action S B
m >> k = m >>= λ _. k

module _ {ℓ κ} {S : Type ℓ} {A : Type κ} where
  abbrev pub pure : A → Action S A
  pure a s = (done a, s)

  abbrev pub raise : EngineError → Action S A
  raise e s = (failed e, s)

  -- A call that reads the state, `?` included.
  abbrev pub read : (S → EngineResult A) → Action S A
  read f s = (outcome (f s), s)

  abbrev pub call : (S → EngineResult A × S) → Action S A
  call f s = let (r, t) = f s in (outcome r, t)

  abbrev pub lift : Outcome A → Action S A
  lift o s = (o, s)

  -- `ok_or`
  abbrev pub or_raise : Option A → EngineError → Action S A
  or_raise none e = raise e
  or_raise (some a) e = pure a

-- `for x in xs { f(x)? }`
unfoldable pub for_each {ℓ κ} :
    {S : Type ℓ} {A : Type κ} → (A → Action S (Unit {0})) → List A → Action S (Unit {0})
for_each f [] = pure tt
for_each f (x ∷ xs) = f x >> for_each f xs
