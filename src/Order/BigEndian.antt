-- ===== src/Order/BigEndian.antt =====
-- `to_be_bytes`: the bytes of a number, the highest first. Byte strings of one length compare as
-- the numbers do.
use native.Mathlib.Nat.{
  div-add-mod, mod-lt, pow-suc, mul-le-mul_left, mod-eq_of_lt, div-lt_iff_lt-mul,
}
use rs_converge.Prelude.{
  ℕ, zero, suc, ◌≡◌, refl, ◌+◌, ◌*◌, ◌/◌, ◌%◌, ◌^◌, ◌<◌, [], ◌∷◌, ◌++◌, arith, compare, length,
  Ordering,
}
use rs_converge.Order.{then_with}
use rs_converge.Order.Lex.{Bytes, cmp_list, cmp_bytes}

unfoldable pub be_bytes : ℕ → ℕ → Bytes
be_bytes zero x = []
be_bytes (suc k) x = (x / 256 ^ k % 256) ∷ be_bytes k (x % 256 ^ k)

pub length-be_bytes : (k x : ℕ) → length (be_bytes k x) ≡ k
unfolding be_bytes
length-be_bytes zero x = refl
length-be_bytes (suc k) x = omega (arith, length-be_bytes k (x % 256 ^ k))

compare_digits :
    (b p q r s : ℕ)
    → r < b
    → s < b
    → compare (b * p + r) (b * q + s) ≡ then_with (compare p q) (compare r s)
compare_digits b p q r s h k =
    ground (arith, mul-le-mul_left {m = suc p} {n = q} b, mul-le-mul_left {m = suc q} {n = p} b)

compare_div_mod :
    (b x y : ℕ)
    → 0 < b
    → compare x y ≡ then_with (compare (x / b) (y / b)) (compare (x % b) (y % b))
compare_div_mod b x y h =
    let e = compare_digits b (x / b) (y / b) (x % b) (y % b) (mod-lt x h) (mod-lt y h) in
    rw (div-add-mod x b, div-add-mod y b) at e

pow_pos : (k : ℕ) → 0 < 256 ^ k
pow_pos zero = omega arith
pow_pos (suc k) = rw pow-suc (omega (arith, pow_pos k))

top_digit : (k x : ℕ) → x < 256 ^ suc k → x / 256 ^ k % 256 ≡ x / 256 ^ k
top_digit k x h =
    let e : x < 256 ^ k * 256 = rw pow-suc at h in
    let bound : x < 256 * 256 ^ k = omega arith in
    mod-eq_of_lt ((div-lt_iff_lt-mul (pow_pos k)).1 bound)

pub then_with_assoc : (a b c : Ordering) → then_with (then_with a b) c ≡ then_with a (then_with b c)
then_with_assoc a b c = ground arith

-- Numbers of at most `k` bytes compare as their bytes do, and then as what follows.
pub cmp_bytes-be_bytes :
    (k x y : ℕ) (s t : Bytes)
    → x < 256 ^ k
    → y < 256 ^ k
    → cmp_bytes (be_bytes k x ++ s) (be_bytes k y ++ t) ≡ then_with (compare x y) (cmp_bytes s t)
unfolding be_bytes cmp_list
cmp_bytes-be_bytes zero x y s t p q = ground arith
cmp_bytes-be_bytes (suc k) x y s t p q = rw (
  top_digit k x p,
  top_digit k y q,
  cmp_bytes-be_bytes k (x % 256 ^ k) (y % 256 ^ k) s t (mod-lt x (pow_pos k))
      (mod-lt y (pow_pos k)),
  compare_div_mod (256 ^ k) x y (pow_pos k),
  then_with_assoc,
)
