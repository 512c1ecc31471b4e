-- ===== src/BTreeMap.antt =====
-- `alloc::collections::BTreeMap`: the entries in the order of their keys. The standard library's
-- map is modelled by what the source uses of it: `get`, `insert`, `remove`, `range` and iteration.
pub mod Sort
pub mod Slices
pub mod Lookup
pub mod Sorted
pub mod Extensional
pub mod Bulk
use Prim.Native.Nat.Ordering.{lt, eq, gt}
use rs_converge.Prelude.{
  ◌≡◌, Bool, true, false, ◌&&◌, Option, none, some, List, [], ◌∷◌, All, if◌then◌else◌,
}
use rs_converge.Order.{Ord}

abbrev pub Map {ℓ κ} : Type ℓ → Type κ → Type (ℓ ⊔ κ)
Map K V = List (K × V)

-- `core::ops::Bound`
pub data Bound {ℓ} (K : Type ℓ) : Type ℓ where
  included : K → Bound K
  excluded : K → Bound K
  unbounded : Bound K

module _ {ℓ κ} {K : Type ℓ} {V : Type κ} ⦃o : Ord K⦄ where
  unfoldable pub get : K → Map K V → Option V
  get k [] = none
  get k ((j, v) ∷ m) = elim (o.cmp k j) [ lt ↦ get k m | eq ↦ some v | gt ↦ get k m ]

  -- A present key keeps its place and has its value replaced.
  unfoldable pub insert : K → V → Map K V → Map K V
  insert k v [] = (k, v) ∷ []
  insert k v ((j, w) ∷ m) = elim (o.cmp k j) [
    | lt ↦ (k, v) ∷ (j, w) ∷ m
    | eq ↦ (j, v) ∷ m
    | gt ↦ (j, w) ∷ insert k v m
  ]

  unfoldable pub remove : K → Map K V → Map K V
  remove k [] = []
  remove k ((j, w) ∷ m) = elim (o.cmp k j) [
    | lt ↦ (j, w) ∷ remove k m
    | eq ↦ remove k m
    | gt ↦ (j, w) ∷ remove k m
  ]

  abbrev pub Above : K → Map K V → Type 0
  Above k m = All (λ e. o.cmp k e.0 ≡ lt) m

  -- The keys increase strictly.
  abbrev pub IsSorted : Map K V → Type 0
  IsSorted [] = Unit
  IsSorted ((k, v) ∷ m) = Above k m × IsSorted m

module _ {ℓ κ} {K : Type ℓ} {V : Type κ} where
  -- The entries whose keys pass a test, in order.
  unfoldable pub select : (K → Bool) → Map K V → Map K V
  select p [] = []
  select p ((k, v) ∷ m) = let rest = select p m in if p k then (k, v) ∷ rest else rest

module _ {ℓ} {K : Type ℓ} ⦃o : Ord K⦄ where
  abbrev pub after_start : Bound K → K → Bool
  after_start (included a) k = elim (o.cmp k a) [ lt ↦ false | eq ↦ true | gt ↦ true ]
  after_start (excluded a) k = elim (o.cmp k a) [ lt ↦ false | eq ↦ false | gt ↦ true ]
  after_start unbounded k = true

  abbrev pub before_end : Bound K → K → Bool
  before_end (included b) k = elim (o.cmp k b) [ lt ↦ true | eq ↦ true | gt ↦ false ]
  before_end (excluded b) k = elim (o.cmp k b) [ lt ↦ true | eq ↦ false | gt ↦ false ]
  before_end unbounded k = true

  -- `RangeBounds::contains`
  abbrev pub contains : Bound K → Bound K → K → Bool
  contains lo hi k = after_start lo k && before_end hi k

  abbrev inverted : K → K → Bool
  inverted a b = elim (o.cmp a b) [ lt ↦ false | eq ↦ false | gt ↦ true ]

  -- `BTreeMap::range` panics when the start is above the end, or both exclude one key.
  unfoldable pub range_panics : Bound K → Bound K → Bool
  range_panics (included a) (included b) = inverted a b
  range_panics (included a) (excluded b) = inverted a b
  range_panics (excluded a) (included b) = inverted a b
  range_panics (excluded a) (excluded b) = elim (o.cmp a b) [ lt ↦ false | eq ↦ true | gt ↦ true ]
  range_panics _ _ = false

module _ {ℓ κ} {K : Type ℓ} {V : Type κ} ⦃o : Ord K⦄ where
  -- `none` is the panic.
  unfoldable pub range : Bound K → Bound K → Map K V → Option (Map K V)
  range lo hi m = if range_panics lo hi then none else some (select (contains lo hi) m)
