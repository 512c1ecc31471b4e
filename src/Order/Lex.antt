-- ===== src/Order/Lex.antt =====
-- The lexicographic order of lists, as `Ord` for `Vec<T>`, `[T]` and the bytes of `str` has it,
-- and encodings into byte strings that keep an order.
use Prim.Native.Nat.Ordering.{lt, eq, gt}
use rs_converge.Prelude.{ℕ, ◌≡◌, refl, List, [], ◌∷◌, Ordering, compare, arith}
use rs_converge.Order.{Ord, reverse, then_with, nat_ord}

module _ {ℓ} {A : Type ℓ} where
  unfoldable pub cmp_list : (A → A → Ordering) → List A → List A → Ordering
  cmp_list c [] [] = eq
  cmp_list c [] (y ∷ ys) = lt
  cmp_list c (x ∷ xs) [] = gt
  cmp_list c (x ∷ xs) (y ∷ ys) = then_with (c x y) (cmp_list c xs ys)

module _ {ℓ} {A : Type ℓ} ⦃o : Ord A⦄ where
  pub cmp_list_refl : (xs : List A) → cmp_list o.cmp xs xs ≡ eq
  unfolding cmp_list
  cmp_list_refl [] = refl
  cmp_list_refl (x ∷ xs) = rw (o.cmp_refl, then_with) (cmp_list_refl xs)

  pub eq_of_cmp_list : (xs ys : List A) → cmp_list o.cmp xs ys ≡ eq → xs ≡ ys
  unfolding cmp_list
  eq_of_cmp_list [] [] h = refl
  eq_of_cmp_list [] (y ∷ ys) h = cc
  eq_of_cmp_list (x ∷ xs) [] h = cc
  eq_of_cmp_list (x ∷ xs) (y ∷ ys) h = ground (arith, o.eq_of_cmp x y, eq_of_cmp_list xs ys)

  pub cmp_list-reverse : (xs ys : List A) → cmp_list o.cmp ys xs ≡ reverse (cmp_list o.cmp xs ys)
  unfolding cmp_list
  cmp_list-reverse [] [] = refl
  cmp_list-reverse [] (y ∷ ys) = refl
  cmp_list-reverse (x ∷ xs) [] = refl
  cmp_list-reverse (x ∷ xs) (y ∷ ys) = ground (arith, o.cmp_reverse x y, cmp_list-reverse xs ys)

  pub cmp_list_trans :
      (xs ys zs : List A)
      → cmp_list o.cmp xs ys ≡ lt
      → cmp_list o.cmp ys zs ≡ lt
      → cmp_list o.cmp xs zs ≡ lt
  unfolding cmp_list
  cmp_list_trans [] [] zs p q = cc
  cmp_list_trans [] (y ∷ ys) [] p q = cc
  cmp_list_trans [] (y ∷ ys) (z ∷ zs) p q = refl
  cmp_list_trans (x ∷ xs) [] zs p q = cc
  cmp_list_trans (x ∷ xs) (y ∷ ys) [] p q = cc
  cmp_list_trans (x ∷ xs) (y ∷ ys) (z ∷ zs) p q = ground (
    arith,
    o.eq_of_cmp x y,
    o.eq_of_cmp y z,
    o.cmp_trans x y z,
    o.cmp_refl y,
    cmp_list_trans xs ys zs,
  )

instance abbrev pub list_ord {ℓ} : {A : Type ℓ} → ⦃o : Ord A⦄ → Ord (List A)
list_ord ⦃o⦄ = record {
  cmp = cmp_list o.cmp;
  cmp_refl = cmp_list_refl;
  eq_of_cmp = eq_of_cmp_list;
  cmp_reverse = cmp_list-reverse;
  cmp_trans = cmp_list_trans;
}

-- A string of bytes; `str` is compared by its bytes too.
abbrev pub Bytes : Type 0
Bytes = List ℕ

abbrev pub cmp_bytes : Bytes → Bytes → Ordering
cmp_bytes = cmp_list compare

instance abbrev pub bytes_ord : Ord Bytes
bytes_ord = record {
  cmp = cmp_bytes;
  cmp_refl = cmp_list_refl;
  eq_of_cmp = eq_of_cmp_list;
  cmp_reverse = cmp_list-reverse;
  cmp_trans = cmp_list_trans;
}
