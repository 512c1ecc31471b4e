-- ===== src/Engine/RowKey/Order.antt =====
-- The order of row keys: order codes compare as the values do.
use Prim.Native.Nat.Ordering.{lt, gt}
use rs_converge.Prelude.{
  ℕ, ◌≡◌, refl, sym, [], ◌∷◌, ◌++◌, ◌<◌, ◌^◌, arith, length, append_assoc, compare,
}
use rs_converge.Int.{ℤ, pos, negsuc, as_u64, IsI64, cmp_int}
use rs_converge.Order.{then_with}
use rs_converge.Order.Lex.{Bytes, cmp_bytes, cmp_list}
use rs_converge.Order.Escape.{escape, cmp_bytes-escape}
use rs_converge.Order.BigEndian.{then_with_assoc, cmp_bytes-be_bytes}
use rs_converge.Value.{Value, Row, IsValue, IsRow, cmp_value, cmp_row}
use rs_converge.Value.Json.{Floats, json_to_string}
use rs_converge.Engine.RowKey.{
  Postcard, flip_sign, encode_escaped, encode_value_order, encode_values, encode_key, encode_value,
}

-- Texts of one length compare before what follows them.
cmp_bytes-append :
    (a b s t : Bytes)
    → length a ≡ length b
    → cmp_bytes (a ++ s) (b ++ t) ≡ then_with (cmp_bytes a b) (cmp_bytes s t)
unfolding cmp_list
cmp_bytes-append [] [] s t h = refl
cmp_bytes-append [] (y ∷ b) s t h = absurd (omega arith)
cmp_bytes-append (x ∷ a) [] s t h = absurd (omega arith)
cmp_bytes-append (x ∷ a) (y ∷ b) s t h = ground (arith, cmp_bytes-append a b s t)

compare-flip_sign :
    (i j : ℤ)
    → IsI64 i
    → IsI64 j
    → compare (flip_sign (as_u64 i)) (flip_sign (as_u64 j)) ≡ cmp_int i j
unfolding flip_sign
compare-flip_sign (pos m) (pos n) p q = ground arith
compare-flip_sign (pos m) (negsuc n) p q = ground arith
compare-flip_sign (negsuc m) (pos n) p q = ground arith
compare-flip_sign (negsuc m) (negsuc n) p q = ground arith

flip_sign-bound : (x : ℕ) → flip_sign x < 256 ^ 8
unfolding flip_sign
flip_sign-bound x = omega arith

cmp_bytes-encode_escaped :
    (a b s t : Bytes)
    → cmp_bytes (encode_escaped a ++ s) (encode_escaped b ++ t)
      ≡ then_with (cmp_bytes a b) (cmp_bytes s t)
unfolding encode_escaped
cmp_bytes-encode_escaped a b s t =
    rw (append_assoc (escape a), append_assoc (escape b)) (cmp_bytes-escape a b s t)

module _ ⦃fl : Floats⦄ where
  -- Order codes compare as the values do, and then as what follows.
  cmp_bytes-encode_value_order :
      (a b : Value) (s t : Bytes)
      → IsValue a
      → IsValue b
      → cmp_bytes (encode_value_order a ++ s) (encode_value_order b ++ t)
        ≡ then_with (cmp_value a b) (cmp_bytes s t)
  unfolding encode_value_order cmp_value cmp_list
  cmp_bytes-encode_value_order Value.null Value.null s t p q = refl
  cmp_bytes-encode_value_order (Value.type a) (Value.type b) s t p q = ground arith
  cmp_bytes-encode_value_order (Value.uuid a) (Value.uuid b) s t p q =
      cmp_bytes-append a b s t (omega arith)
  cmp_bytes-encode_value_order (Value.bool a) (Value.bool b) s t p q = ground arith
  cmp_bytes-encode_value_order (Value.integer a) (Value.integer b) s t p q =
      rw (sym (compare-flip_sign a b p q)) (
        cmp_bytes-be_bytes 8 (flip_sign (as_u64 a)) (flip_sign (as_u64 b)) s t
          (flip_sign-bound (as_u64 a)) (flip_sign-bound (as_u64 b)))
  cmp_bytes-encode_value_order (Value.float a) (Value.float b) s t p q =
      cmp_bytes-be_bytes 8 a b s t p q
  cmp_bytes-encode_value_order (Value.text a) (Value.text b) s t p q =
      cmp_bytes-encode_escaped a b s t
  cmp_bytes-encode_value_order (Value.json a) (Value.json b) s t p q =
      cmp_bytes-encode_escaped (json_to_string a) (json_to_string b) s t
  cmp_bytes-encode_value_order (Value.blob a) (Value.blob b) s t p q =
      cmp_bytes-encode_escaped a b s t
  cmp_bytes-encode_value_order _ _ s t p q = refl

  -- The mark at the end stands below every value.
  mark_lt : (v : Value) (s t : Bytes) → cmp_bytes (0 ∷ s) (encode_value_order v ++ t) ≡ lt
  unfolding encode_value_order cmp_list
  mark_lt Value.null s t = refl
  mark_lt _ s t = refl

  mark_gt : (v : Value) (s t : Bytes) → cmp_bytes (encode_value_order v ++ s) (0 ∷ t) ≡ gt
  unfolding encode_value_order cmp_list
  mark_gt Value.null s t = refl
  mark_gt _ s t = refl

  cmp_bytes-encode_values :
      (a b : Row) (s t : Bytes)
      → IsRow a
      → IsRow b
      → cmp_bytes (encode_values a ++ (0 ∷ 0 ∷ s)) (encode_values b ++ (0 ∷ 0 ∷ t))
        ≡ then_with (cmp_row a b) (cmp_bytes s t)
  unfolding encode_values cmp_list
  cmp_bytes-encode_values [] [] s t p q = refl
  cmp_bytes-encode_values [] (w ∷ b) s t p q =
      rw (append_assoc (encode_value_order w)) (mark_lt w (0 ∷ s) (encode_values b ++ (0 ∷ 0 ∷ t)))
  cmp_bytes-encode_values (v ∷ a) [] s t p q =
      rw (append_assoc (encode_value_order v)) (mark_gt v (encode_values a ++ (0 ∷ 0 ∷ s)) (0 ∷ t))
  cmp_bytes-encode_values (v ∷ a) (w ∷ b) s t (p, ps) (q, qs) = rw (
    append_assoc (encode_value_order v),
    append_assoc (encode_value_order w),
    cmp_bytes-encode_value_order v w (encode_values a ++ (0 ∷ 0 ∷ s))
        (encode_values b ++ (0 ∷ 0 ∷ t)) p q,
    cmp_bytes-encode_values a b s t ps qs,
    then_with_assoc,
  )

-- Row keys, of rows whose values fit their Rust types, compare as the rows do, and those of rows
-- that compare equal by the `postcard` bytes of the rows.
pub cmp_bytes-encode_key :
    ⦃fl : Floats⦄ ⦃pc : Postcard⦄ (a b : Row)
    → IsRow a
    → IsRow b
    → cmp_bytes (encode_key a) (encode_key b)
      ≡ then_with (cmp_row a b) (cmp_bytes (encode_value a) (encode_value b))
unfolding encode_key
cmp_bytes-encode_key a b p q = cmp_bytes-encode_values a b (encode_value a) (encode_value b) p q
