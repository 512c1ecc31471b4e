-- ===== src/BTreeMap/Sort.antt =====
-- `sort_by` of Rust on lists of pairs, by their first components.
use Prim.Native.Nat.Ordering.{lt, eq, gt}
use rs_converge.Prelude.{◌≢◌, List, [], ◌∷◌, arith, All}
use rs_converge.Order.{Ord, Ordering-cases}

module _ {ℓ κ} {K : Type ℓ} {V : Type κ} ⦃o : Ord K⦄ where
  -- `sort_by` on the first component; an entry stays before the equal ones that follow it.
  unfoldable pub place : K × V → List (K × V) → List (K × V)
  place e [] = e ∷ []
  place e (f ∷ fs) = elim (o.cmp e.0 f.0) [
    | lt ↦ e ∷ f ∷ fs
    | eq ↦ e ∷ f ∷ fs
    | gt ↦ f ∷ place e fs
  ]

  unfoldable pub sort_by_key : List (K × V) → List (K × V)
  unfolding place
  sort_by_key [] = []
  sort_by_key (e ∷ es) = place e (sort_by_key es)

cmp_mono {ℓ} :
    {K : Type ℓ} ⦃o : Ord K⦄ (a b c : K) → o.cmp a b ≢ gt → o.cmp b c ≢ gt → o.cmp a c ≢ gt
cmp_mono ⦃o⦄ a b c p q = ground (
  arith,
  o.cmp_trans a b c,
  o.eq_of_cmp a b,
  o.eq_of_cmp b c,
  Ordering-cases (o.cmp a b),
  Ordering-cases (o.cmp b c),
)

module _ {ℓ κ} {K : Type ℓ} {V : Type κ} ⦃o : Ord K⦄ where
  -- No key stands below `k`.
  abbrev pub FromOn : K → List (K × V) → Type 0
  FromOn k es = All (λ e. o.cmp k e.0 ≢ gt) es

  -- The keys do not decrease.
  abbrev pub Increases : List (K × V) → Type 0
  Increases [] = Unit
  Increases (e ∷ es) = FromOn e.0 es × Increases es

  pub FromOn-lower : (a b : K) (es : List (K × V)) → o.cmp a b ≢ gt → FromOn b es → FromOn a es
  FromOn-lower a b [] p q = tt
  FromOn-lower a b (e ∷ es) p (q, qs) = (cmp_mono a b e.0 p q, FromOn-lower a b es p qs)

  place-FromOn :
      (k : K) (e : K × V) (es : List (K × V))
      → o.cmp k e.0 ≢ gt
      → FromOn k es
      → FromOn k (place e es)
  unfolding place
  place-FromOn k e [] p q = (p, tt)
  place-FromOn k e (f ∷ fs) p (q, qs) = ground (arith, place-FromOn k e fs p qs)

  place-Increases : (e : K × V) (es : List (K × V)) → Increases es → Increases (place e es)
  unfolding place
  place-Increases e [] h = (tt, tt)
  place-Increases e (f ∷ fs) (p, h) = ground (
    arith,
    FromOn-lower e.0 f.0 fs,
    place-FromOn f.0 e fs,
    place-Increases e fs h,
    o.cmp_reverse e.0 f.0,
  )

  pub sort_by_key-Increases : (es : List (K × V)) → Increases (sort_by_key es)
  unfolding sort_by_key
  sort_by_key-Increases [] = tt
  sort_by_key-Increases (e ∷ es) = place-Increases e (sort_by_key es) (sort_by_key-Increases es)
