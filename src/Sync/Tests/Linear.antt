-- ===== src/Sync/Tests/Linear.antt =====
-- A stable sort and a search from the front keep what Rust promises of slices.
use rs_converge.Prelude.{
  ℕ, ◌≡◌, ◌≢◌, ◌↔◌, inl, inr, Option, Option-cases, none, some, List, [], ◌∷◌, Has, All,
  next_position, get_elem?, arith,
}
use Prim.Native.Nat.Ordering.{lt, eq, gt}
use rs_converge.Order.{Ord, Ordering-cases}
use rs_converge.BTreeMap.Sort.{place, sort_by_key, sort_by_key-Increases}
use rs_converge.BTreeMap.Slices.{Slices}

module _ {K V : Type 0} ⦃o : Ord K⦄ where
  Has-swap :
      (a e f : K × V) (xs ys : List (K × V))
      → (Has a xs → Has a (e ∷ ys))
      → Has a (f ∷ xs)
      → Has a (e ∷ f ∷ ys)
  Has-swap a e f xs ys g (inl p) = inr (inl p)
  Has-swap a e f xs ys g (inr m) = elim (g m) [ inl p ↦ inl p | inr n ↦ inr (inr n) ]

  Has-unswap :
      (a e f : K × V) (xs ys : List (K × V))
      → (Has a (e ∷ ys) → Has a xs)
      → Has a (e ∷ f ∷ ys)
      → Has a (f ∷ xs)
  Has-unswap a e f xs ys g (inl p) = inr (g (inl p))
  Has-unswap a e f xs ys g (inr (inl p)) = inl p
  Has-unswap a e f xs ys g (inr (inr m)) = inr (g (inr m))

  Has-place : (a e : K × V) (fs : List (K × V)) → Has a (place e fs) ↔ Has a (e ∷ fs)
  unfolding place
  Has-place a e [] = (λ h. h, λ h. h)
  Has-place a e (f ∷ fs) = elim (Ordering-cases (o.cmp e.0 f.0)) [
    | inl q ↦ rw (place, q) (λ h. h, λ h. h)
    | inr (inl q) ↦ rw (place, q) (λ h. h, λ h. h)
    | inr (inr q) ↦
        (let (there, back) = Has-place a e fs in
          rw (place, q)
            (Has-swap a e f (place e fs) fs there, Has-unswap a e f (place e fs) fs back))
  ]

  pub Has-sort_by_key : (es : List (K × V)) (a : K × V) → Has a (sort_by_key es) ↔ Has a es
  unfolding sort_by_key
  Has-sort_by_key [] a = (λ h. h, λ h. h)
  Has-sort_by_key (e ∷ es) a =
      let (there, back) = Has-place a e (sort_by_key es) in
      let (down, up) = Has-sort_by_key es a in
      (
        λ h. elim (there h) [ inl p ↦ inl p | inr m ↦ inr (down m) ],
        λ h. back (elim h [ inl p ↦ inl p | inr m ↦ inr (up m) ]),
      )

  unfoldable pub first_with : K → List (K × V) → Option ℕ
  first_with k [] = none
  first_with k ((j, v) ∷ es) =
      let rest = next_position (first_with k es) in
      elim (o.cmp j k) [ lt ↦ rest | eq ↦ some 0 | gt ↦ rest ]

  Found : K → List (K × V) → ℕ → Type 0
  Found k es i = (v : V) × (get_elem? es i ≡ some (k, v))

  first_with-later :
      (k j : K) (v : V) (es : List (K × V)) (i : ℕ)
      → ((n : ℕ) → first_with k es ≡ some n → Found k es n)
      → next_position (first_with k es) ≡ some i
      → Found k ((j, v) ∷ es) i
  unfolding Found
  first_with-later k j v es i g h = elim (Option-cases (first_with k es)) [
    | inl q ↦ absurd (ground (arith, q))
    | inr (n, q) ↦ let (w, e) = g n q in (w, ground (arith, q, e))
  ]

  pub first_with-found :
      (k : K) (es : List (K × V)) (i : ℕ)
      → first_with k es ≡ some i
      → (v : V) × (get_elem? es i ≡ some (k, v))
  unfolding first_with Found
  first_with-found k [] i h = cc
  first_with-found k ((j, v) ∷ es) i h = elim (Ordering-cases (o.cmp j k)) [
    | inl q ↦ first_with-later k j v es i (first_with-found k es) (rw (first_with, q) at h)
    | inr (inl q) ↦ (v, ground (arith, q, o.eq_of_cmp j k q))
    | inr (inr q) ↦ first_with-later k j v es i (first_with-found k es) (rw (first_with, q) at h)
  ]

  pub first_with-missed :
      (k : K) (es : List (K × V)) → first_with k es ≡ none → All (λ e. e.0 ≢ k) es
  unfolding first_with
  first_with-missed k [] h = tt
  first_with-missed k ((j, v) ∷ es) h = (
    λ e. ground (arith, e, o.cmp_refl k),
    first_with-missed k es
        (ground (arith, Ordering-cases (o.cmp j k), Option-cases (first_with k es))),
  )

abbrev pub linear : Slices
linear = record {
  sort_unstable = sort_by_key;
  binary_search = first_with;
  sorted = sort_by_key-Increases;
  kept = Has-sort_by_key;
  found = λ k es i _ h. first_with-found k es i h;
  missed = λ k es _ h. first_with-missed k es h;
}
