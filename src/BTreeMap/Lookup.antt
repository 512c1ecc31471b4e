-- ===== src/BTreeMap/Lookup.antt =====
-- What `get` reads after each operation.
use Prim.Native.Nat.Ordering.{lt, eq, gt}
use rs_converge.Prelude.{◌≡◌, Bool, none, some, [], ◌∷◌, arith, if◌then◌else◌}
use rs_converge.Order.{Ord}
use rs_converge.BTreeMap.{Map, get, insert, remove, select}

-- `a` where the keys are equal and `b` elsewhere
abbrev pub at_key {ℓ μ} : {K : Type ℓ} → ⦃o : Ord K⦄ → {A : Type μ} → K → K → A → A → A
at_key ⦃o⦄ k j a b = elim (o.cmp k j) [ lt ↦ b | eq ↦ a | gt ↦ b ]

module _ {ℓ κ} {K : Type ℓ} {V : Type κ} ⦃o : Ord K⦄ where
  pub get-insert :
      (k j : K) (v : V) (m : Map K V) → get j (insert k v m) ≡ at_key k j (some v) (get j m)
  unfolding get insert
  get-insert k j v [] = ground (arith, o.cmp_reverse k j)
  get-insert k j v ((i, w) ∷ m) = ground (
    arith,
    get-insert k j v m,
    o.cmp_reverse k j,
    o.eq_of_cmp k i,
    o.eq_of_cmp j i,
    o.eq_of_cmp k j,
    o.cmp_refl i,
    o.cmp_refl j,
  )

  pub get-remove : (k j : K) (m : Map K V) → get j (remove k m) ≡ at_key k j none (get j m)
  unfolding get remove
  get-remove k j [] = ground arith
  get-remove k j ((i, w) ∷ m) = ground (
    arith,
    get-remove k j m,
    o.cmp_reverse k j,
    o.eq_of_cmp k i,
    o.eq_of_cmp j i,
    o.eq_of_cmp k j,
    o.cmp_refl i,
    o.cmp_refl j,
  )

  pub get-select :
      (p : K → Bool) (k : K) (m : Map K V) → get k (select p m) ≡ (if p k then get k m else none)
  unfolding get select
  get-select p k [] = ground arith
  get-select p k ((i, w) ∷ m) = ground (arith, get-select p k m, o.eq_of_cmp k i, o.cmp_refl k)
