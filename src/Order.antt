-- ===== src/Order.antt =====
-- Total orders: Rust's `Ord` as an interface, with the orders of numbers and of byte strings.
pub mod Lex
pub mod Escape
pub mod BigEndian
pub mod Pair
use Prim.Native.Nat.Ordering.{lt, eq, gt}
use rs_converge.Prelude.{ℕ, ◌≡◌, refl, Ordering, compare, arith, ◌⊎◌, inl, inr}

-- `Ordering::reverse`
abbrev pub reverse : Ordering → Ordering
reverse lt = gt
reverse eq = eq
reverse gt = lt

-- `Ordering::then_with`
abbrev pub then_with : Ordering → Ordering → Ordering
then_with lt o = lt
then_with eq o = o
then_with gt o = gt

-- A type whose comparison is a total order, and equal exactly on equal values.
pub record Ord {ℓ} (K : Type ℓ) : Type ℓ where
  pub cmp : K → K → Ordering
  pub cmp_refl : (a : K) → cmp a a ≡ eq
  pub eq_of_cmp : (a b : K) → cmp a b ≡ eq → a ≡ b
  pub cmp_reverse : (a b : K) → cmp b a ≡ reverse (cmp a b)
  pub cmp_trans : (a b c : K) → cmp a b ≡ lt → cmp b c ≡ lt → cmp a c ≡ lt

abbrev pub cmp {ℓ} : {K : Type ℓ} ⦃o : Ord K⦄ → K → K → Ordering
cmp ⦃o⦄ = o.cmp

pub compare_refl : (a : ℕ) → compare a a ≡ eq
compare_refl a = ground arith

pub compare-eq : (a b : ℕ) → compare a b ≡ eq → a ≡ b
compare-eq a b h = ground arith

pub compare-reverse : (a b : ℕ) → compare b a ≡ reverse (compare a b)
compare-reverse a b = ground arith

pub compare_trans : (a b c : ℕ) → compare a b ≡ lt → compare b c ≡ lt → compare a c ≡ lt
compare_trans a b c p q = ground arith

instance abbrev pub nat_ord : Ord ℕ
nat_ord = record {
  cmp = compare;
  cmp_refl = compare_refl;
  eq_of_cmp = compare-eq;
  cmp_reverse = compare-reverse;
  cmp_trans = compare_trans;
}

pub Ordering-cases : (o : Ordering) → (o ≡ lt) ⊎ ((o ≡ eq) ⊎ (o ≡ gt))
Ordering-cases lt = inl refl
Ordering-cases eq = inr (inl refl)
Ordering-cases gt = inr (inr refl)
