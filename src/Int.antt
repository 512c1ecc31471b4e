-- ===== src/Int.antt =====
-- Signed integers (`i64`, by value) over the native numbers.
use Prim.Native.Nat.Ordering.{lt, gt}
use rs_converge.Prelude.{ℕ, Ordering, compare, ◌<◌, ◌^◌, ◌-◌}

-- `negsuc n` is -(n + 1).
pub data ℤ : Type 0 where
  pos : ℕ → ℤ
  negsuc : ℕ → ℤ

-- `Ord` for `i64`
abbrev pub cmp_int : ℤ → ℤ → Ordering
cmp_int (pos m) (pos n) = compare m n
cmp_int (pos m) (negsuc n) = gt
cmp_int (negsuc m) (pos n) = lt
cmp_int (negsuc m) (negsuc n) = compare n m

-- The value fits 64 bits.
abbrev pub IsI64 : ℤ → Type 0
IsI64 (pos n) = n < 2 ^ 63
IsI64 (negsuc n) = n < 2 ^ 63

-- `value as u64`
abbrev pub as_u64 : ℤ → ℕ
as_u64 (pos n) = n
as_u64 (negsuc n) = 2 ^ 64 - 1 - n
