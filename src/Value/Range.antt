-- ===== src/Value/Range.antt =====
-- The integers that values convert to fit 64 bits (crates/value/src/value.rs).
use rs_converge.Prelude.{ℕ, Bool, true, false, some, ◌+◌, ◌-◌, ◌*◌, ◌^◌, ◌<◌, ◌≤◌, ◌≡◌, arith}
use mathlib.Core.Path.{subst}
use native.Mathlib.Nat.{pow-le-pow_right, mul-le-mul}
use rs_converge.Int.{ℤ, IsI64}
use rs_converge.Value.{Value, IsValue}
use rs_converge.Value.Convert.{
  exponent, fraction, is_negative, whole_part, signed, float_to_integer, to_integer,
}

whole_part-lt : (f : ℕ) → exponent f < 1086 → whole_part f < 2 ^ 63
unfolding whole_part
whole_part-lt f h =
    let p : 2 ^ (exponent f - 1023) ≤ 2 ^ 62 =
      pow-le-pow_right (omega arith) {j = 62} (omega arith) in
    let q : (2 ^ 52 + fraction f) * 2 ^ (exponent f - 1023) ≤ (2 ^ 53 - 1) * 2 ^ 62 =
      mul-le-mul {n₂ = 2 ^ 53 - 1} (omega arith) p in
    ground arith

signed-IsI64 : (b : Bool) (n : ℕ) → n < 2 ^ 63 → IsI64 (signed b n)
signed-IsI64 false n h = h
signed-IsI64 true ℕ.zero h = h
signed-IsI64 true (ℕ.suc n) h = omega arith

float_to_integer-IsI64 : (f : ℕ) (i : ℤ) → float_to_integer f ≡ some i → IsI64 i
unfolding float_to_integer
float_to_integer-IsI64 f i h =
    ground (arith, whole_part-lt f, signed-IsI64 (is_negative f) (whole_part f))

-- A value that fits its Rust type converts to an integer that fits 64 bits: an integer as it is,
-- and a float only when the rounded float is in range, where the two ends saturate.
pub to_integer-IsI64 : (v : Value) (i : ℤ) → IsValue v → to_integer v ≡ some i → IsI64 i
to_integer-IsI64 (Value.integer j) i p h = let e : j ≡ i = ground arith in subst (λ k. IsI64 k) e p
to_integer-IsI64 (Value.float f) i p h = float_to_integer-IsI64 f i h
to_integer-IsI64 Value.null i p h = cc
to_integer-IsI64 (Value.type _) i p h = cc
to_integer-IsI64 (Value.uuid _) i p h = cc
to_integer-IsI64 (Value.bool _) i p h = cc
to_integer-IsI64 (Value.text _) i p h = cc
to_integer-IsI64 (Value.json _) i p h = cc
to_integer-IsI64 (Value.blob _) i p h = cc
