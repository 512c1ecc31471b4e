-- ===== src/Order/Pair.antt =====
-- The orders of pairs and of signed integers (`Ord` for tuples and for `i64`).
use Prim.Native.Nat.Ordering.{lt, eq}
use rs_converge.Prelude.{◌≡◌, refl, ap, Ordering, arith}
use rs_converge.Order.{
  Ord, reverse, then_with, compare_refl, compare-eq, compare-reverse, compare_trans,
}
use rs_converge.Int.{ℤ, pos, negsuc, cmp_int}

pub cmp_int_refl : (a : ℤ) → cmp_int a a ≡ eq
cmp_int_refl (pos n) = compare_refl n
cmp_int_refl (negsuc n) = compare_refl n

pub eq_of_cmp_int : (a b : ℤ) → cmp_int a b ≡ eq → a ≡ b
eq_of_cmp_int (pos m) (pos n) h = ap pos (compare-eq m n h)
eq_of_cmp_int (pos m) (negsuc n) h = cc
eq_of_cmp_int (negsuc m) (pos n) h = cc
eq_of_cmp_int (negsuc m) (negsuc n) h = ground (arith, compare-eq n m h)

pub cmp_int-reverse : (a b : ℤ) → cmp_int b a ≡ reverse (cmp_int a b)
cmp_int-reverse (pos m) (pos n) = compare-reverse m n
cmp_int-reverse (pos m) (negsuc n) = refl
cmp_int-reverse (negsuc m) (pos n) = refl
cmp_int-reverse (negsuc m) (negsuc n) = compare-reverse n m

pub cmp_int_trans : (a b c : ℤ) → cmp_int a b ≡ lt → cmp_int b c ≡ lt → cmp_int a c ≡ lt
cmp_int_trans (pos a) (pos b) (pos c) p q = compare_trans a b c p q
cmp_int_trans (pos a) (pos b) (negsuc c) p q = cc
cmp_int_trans (pos a) (negsuc b) c p q = cc
cmp_int_trans (negsuc a) (pos b) (pos c) p q = refl
cmp_int_trans (negsuc a) (pos b) (negsuc c) p q = cc
cmp_int_trans (negsuc a) (negsuc b) (pos c) p q = refl
cmp_int_trans (negsuc a) (negsuc b) (negsuc c) p q = compare_trans c b a q p

instance abbrev pub int_ord : Ord ℤ
int_ord = record {
  cmp = cmp_int;
  cmp_refl = cmp_int_refl;
  eq_of_cmp = eq_of_cmp_int;
  cmp_reverse = cmp_int-reverse;
  cmp_trans = cmp_int_trans;
}

module _ {ℓ κ} {A : Type ℓ} {B : Type κ} ⦃a : Ord A⦄ ⦃b : Ord B⦄ where
  abbrev pub cmp_pair : A × B → A × B → Ordering
  cmp_pair p q = then_with (a.cmp p.0 q.0) (b.cmp p.1 q.1)

  pub cmp_pair_refl : (p : A × B) → cmp_pair p p ≡ eq
  cmp_pair_refl p = ground (arith, a.cmp_refl p.0, b.cmp_refl p.1)

  pub eq_of_cmp_pair : (p q : A × B) → cmp_pair p q ≡ eq → p ≡ q
  eq_of_cmp_pair p q h = ground (arith, a.eq_of_cmp p.0 q.0, b.eq_of_cmp p.1 q.1)

  pub cmp_pair-reverse : (p q : A × B) → cmp_pair q p ≡ reverse (cmp_pair p q)
  cmp_pair-reverse p q = ground (arith, a.cmp_reverse p.0 q.0, b.cmp_reverse p.1 q.1)

  pub cmp_pair_trans : (p q r : A × B) → cmp_pair p q ≡ lt → cmp_pair q r ≡ lt → cmp_pair p r ≡ lt
  cmp_pair_trans p q r = ground (
    arith,
    a.cmp_trans p.0 q.0 r.0,
    b.cmp_trans p.1 q.1 r.1,
    a.eq_of_cmp p.0 q.0,
    a.eq_of_cmp q.0 r.0,
    a.cmp_refl q.0,
  )

instance abbrev pub pair_ord {ℓ κ} :
    {A : Type ℓ} {B : Type κ} → ⦃a : Ord A⦄ ⦃b : Ord B⦄ → Ord (A × B)
pair_ord ⦃a⦄ ⦃b⦄ = record {
  cmp = λ p q. then_with (a.cmp p.0 q.0) (b.cmp p.1 q.1);
  cmp_refl = cmp_pair_refl;
  eq_of_cmp = eq_of_cmp_pair;
  cmp_reverse = cmp_pair-reverse;
  cmp_trans = cmp_pair_trans;
}
