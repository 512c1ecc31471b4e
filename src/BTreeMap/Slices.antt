-- ===== src/BTreeMap/Slices.antt =====
-- What Rust promises of `sort_unstable_by` and `binary_search_by` on slices of pairs, by their
-- first components, and no more: equal keys may come in any order, and the search says nothing of
-- a slice that is not in order.
use rs_converge.Prelude.{ℕ, ◌≡◌, ◌≢◌, ◌↔◌, Option, none, some, List, get_elem?, Has, All}
use rs_converge.Order.{Ord}
use rs_converge.BTreeMap.Sort.{Increases}

pub record Slices : Type 1 where
  pub sort_unstable : {K V : Type 0} → ⦃o : Ord K⦄ → List (K × V) → List (K × V)
  -- the index of an entry with the key
  pub binary_search : {K V : Type 0} → ⦃o : Ord K⦄ → K → List (K × V) → Option ℕ
  pub sorted : {K V : Type 0} ⦃o : Ord K⦄ (es : List (K × V)) → Increases (sort_unstable es)
  pub kept :
      {K V : Type 0} ⦃o : Ord K⦄ (es : List (K × V)) (e : K × V)
      → Has e (sort_unstable es) ↔ Has e es
  pub found :
      {K V : Type 0} ⦃o : Ord K⦄ (k : K) (es : List (K × V)) (i : ℕ)
      → Increases es
      → binary_search k es ≡ some i
      → (v : V) × (get_elem? es i ≡ some (k, v))
  pub missed :
      {K V : Type 0} ⦃o : Ord K⦄ (k : K) (es : List (K × V))
      → Increases es
      → binary_search k es ≡ none
      → All (λ e. e.0 ≢ k) es
