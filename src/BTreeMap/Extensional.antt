-- ===== src/BTreeMap/Extensional.antt =====
-- Two maps that read alike are equal.
use Prim.Native.Nat.Ordering.{lt}
use rs_converge.Prelude.{◌≡◌, refl, none, some, [], ◌∷◌, arith, inl, inr}
use rs_converge.Order.{Ord, Ordering-cases}
use rs_converge.BTreeMap.{Map, get, Above, IsSorted}
use rs_converge.BTreeMap.Sorted.{Above-lower}

module _ {ℓ κ} {K : Type ℓ} {V : Type κ} ⦃o : Ord K⦄ where
  pub get-Above : (k : K) (m : Map K V) → Above k m → get k m ≡ none
  unfolding get
  get-Above k [] b = refl
  get-Above k ((j, w) ∷ m) b = ground (arith, get-Above k m)

  get-head : (k : K) (v : V) (m : Map K V) → get k ((k, v) ∷ m) ≡ some v
  unfolding get
  get-head k v m = ground (arith, o.cmp_refl k)

  -- A map reads nothing below its first key.
  get-below :
      (k j : K) (w : V) (m : Map K V) → o.cmp k j ≡ lt → Above j m → get k ((j, w) ∷ m) ≡ none
  get-below k j w m h b = get-Above k ((j, w) ∷ m) (h, Above-lower k j m h b)

  -- Past the first key, the tails decide.
  tails_agree :
      (k j : K) (v w : V) (m n : Map K V)
      → k ≡ j
      → Above k m
      → Above j n
      → (x : K) → get x ((k, v) ∷ m) ≡ get x ((j, w) ∷ n)
      → get x m ≡ get x n
  unfolding get
  tails_agree k j v w m n e a b x h = ground (
    arith,
    o.eq_of_cmp x k,
    o.eq_of_cmp x j,
    get-Above x m,
    get-Above x n,
    get-Above k m,
    get-Above j n,
  )

  pub ext_of_get : (m n : Map K V) → IsSorted m → IsSorted n → ((k : K) → get k m ≡ get k n) → m ≡ n
  ext_of_get [] [] s t h = refl
  ext_of_get [] ((j, w) ∷ n) s t h = unfold get in cc (h j, get-head j w n)
  ext_of_get ((k, v) ∷ m) [] s t h = unfold get in cc (h k, get-head k v m)
  ext_of_get ((k, v) ∷ m) ((j, w) ∷ n) s t h = elim (Ordering-cases (o.cmp k j)) [
    | inl e ↦ cc (h k, get-head k v m, get-below k j w n e t.0)
    | inr (inl e) ↦
        let p = o.eq_of_cmp k j e in
        let tails = ext_of_get m n s.1 t.1 (λ x. tails_agree k j v w m n p s.0 t.0 x (h x)) in
        cc (p, tails, h k, get-head k v m, get-head j w n)
    | inr (inr e) ↦
        cc (h j, get-head j w n, get-below j k v m (ground (arith, o.cmp_reverse k j)) s.0)
  ]
