-- ===== src/Engine/RowKey/Codec.antt =====
-- Decoding a row key: the order code is skipped value by value, and the rest is read.
use rs_converge.Prelude.{
  ℕ, zero, suc, ◌≡◌, refl, [], ◌∷◌, ◌++◌, ◌≤◌, ◌<◌, ◌∙◌, arith, length, append_assoc,
}
use rs_converge.Prelude.{drop-append, length-append}
use rs_converge.Order.Lex.{Bytes}
use rs_converge.Order.Escape.{escape}
use rs_converge.Order.BigEndian.{be_bytes, length-be_bytes}
use rs_converge.Int.{as_u64}
use rs_converge.Value.{Value, Row, IsValue, IsRow}
use rs_converge.Value.Json.{Floats, json_to_string}
use rs_converge.Engine.{ok}
use rs_converge.Engine.RowKey.{
  Postcard, flip_sign, encode_escaped, skip_escaped, skip_value, encode_value_order, encode_values,
  encode_key, encode_value, decode_from, decode_key, decode_value,
}

-- The skip of an escaped text stops at its end mark.
skip_escaped-escape : (value s : Bytes) → skip_escaped (escape value ++ (0 ∷ 0 ∷ s)) ≡ s
unfolding escape skip_escaped
skip_escaped-escape [] s = refl
skip_escaped-escape (b ∷ []) s = ground arith
skip_escaped-escape (b ∷ c ∷ bs) s = ground (arith, skip_escaped-escape (c ∷ bs) s)

skip_escaped-encode_escaped : (value s : Bytes) → skip_escaped (encode_escaped value ++ s) ≡ s
unfolding encode_escaped
skip_escaped-encode_escaped value s = rw (append_assoc (escape value)) (skip_escaped-escape value s)

module _ ⦃fl : Floats⦄ ⦃pc : Postcard⦄ where
  -- One round of the loop steps over one value.
  decode_from-encode_value_order :
      (fuel : ℕ) (v : Value) (s : Bytes)
      → IsValue v
      → decode_from (suc fuel) (encode_value_order v ++ s) ≡ decode_from fuel s
  unfolding encode_value_order decode_from skip_value
  decode_from-encode_value_order fuel Value.null s p = refl
  decode_from-encode_value_order fuel (Value.type t) s p = refl
  decode_from-encode_value_order fuel (Value.uuid u) s p = rw (drop-append 16 u s p) refl
  decode_from-encode_value_order fuel (Value.bool b) s p = refl
  decode_from-encode_value_order fuel (Value.integer i) s p =
      let x = be_bytes 8 (flip_sign (as_u64 i)) in
      rw (drop-append 8 x s (length-be_bytes 8 (flip_sign (as_u64 i)))) refl
  decode_from-encode_value_order fuel (Value.float f) s p =
      rw (drop-append 8 (be_bytes 8 f) s (length-be_bytes 8 f)) refl
  decode_from-encode_value_order fuel (Value.text t) s p = rw (skip_escaped-encode_escaped t s) refl
  decode_from-encode_value_order fuel (Value.json j) s p =
      rw (skip_escaped-encode_escaped (json_to_string j) s) refl
  decode_from-encode_value_order fuel (Value.blob b) s p = rw (skip_escaped-encode_escaped b s) refl

  decode_from-encode_values :
      (fuel : ℕ) (row : Row) (s : Bytes)
      → IsRow row
      → length row < fuel
      → decode_from fuel (encode_values row ++ (0 ∷ 0 ∷ s)) ≡ decode_value s
  unfolding encode_values decode_from
  decode_from-encode_values zero row s p h = absurd (omega arith)
  decode_from-encode_values (suc fuel) [] s p h = refl
  decode_from-encode_values (suc fuel) (v ∷ vs) s (p, ps) h =
      rw
        (
          append_assoc (encode_value_order v),
          decode_from-encode_value_order fuel v (encode_values vs ++ (0 ∷ 0 ∷ s)) p,
        )
        (decode_from-encode_values fuel vs s ps (omega arith))

  -- Every value has a byte at least, so the length of a key is enough fuel.
  length-encode_value_order : (v : Value) → 1 ≤ length (encode_value_order v)
  unfolding encode_value_order
  length-encode_value_order Value.null = omega arith
  length-encode_value_order _ = omega arith

  length-encode_values : (row : Row) → length row ≤ length (encode_values row)
  unfolding encode_values
  length-encode_values [] = omega arith
  length-encode_values (v ∷ vs) = omega (
    arith,
    length-append (encode_value_order v) (encode_values vs),
    length-encode_value_order v,
    length-encode_values vs,
  )

  -- The key of a row whose values fit their Rust types, and which `postcard` gives back, decodes
  -- to the row: the loop ends within the length of the key.
  pub decode_key-encode_key :
      (row : Row)
      → IsRow row
      → decode_value (encode_value row) ≡ ok row
      → decode_key (encode_key row) ≡ ok row
  unfolding encode_key decode_key
  decode_key-encode_key row p h =
      let bytes = encode_values row ++ (0 ∷ 0 ∷ encode_value row) in
      let enough : length row < length bytes = omega (
        arith,
        length-append (encode_values row) (0 ∷ 0 ∷ encode_value row),
        length-encode_values row,
      ) in
      decode_from-encode_values (length bytes) row (encode_value row) p enough ∙ h
