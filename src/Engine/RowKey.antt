-- ===== src/Engine/RowKey.antt =====
-- crates/engine/src/row_table.rs: the byte keys of rows. A key is the order code of each value,
-- the mark 0 0, and the `postcard` bytes of the row, which is what decoding reads.
pub mod Order
pub mod Codec
use rs_converge.Prelude.{
  ℕ, zero, suc, Bool, true, false, Option, none, some, [], ◌∷◌, ◌++◌, ◌==◌, ◌&&◌, ◌||◌, ◌+◌, ◌%◌,
  ◌^◌, length, drop, if◌then◌else◌,
}
use rs_converge.Int.{as_u64}
use rs_converge.Order.Lex.{Bytes}
use rs_converge.Order.Escape.{escape}
use rs_converge.Order.BigEndian.{be_bytes}
use rs_converge.Value.{Value, Row, rank, bit}
use rs_converge.Value.Json.{Floats, ascii, json_to_string}
use rs_converge.Engine.{EngineResult, ok, err, custom}

-- `postcard::to_allocvec` and `postcard::from_bytes` at `Row`, whose error is its text.
pub record Postcard : Type 0 where
  pub to_bytes : Row → Bytes
  pub from_bytes : Bytes → EngineResult Row

-- `value ^ (1 << 63)` on a `u64`
unfoldable pub flip_sign : ℕ → ℕ
flip_sign x = (x + 2 ^ 63) % 2 ^ 64

-- `encode_escaped`: the bytes it appends
unfoldable pub encode_escaped : Bytes → Bytes
encode_escaped value = escape value ++ (0 ∷ 0 ∷ [])

-- The loop of `decode_key` over an escaped text, from its first byte: what stands after its end.
unfoldable pub skip_escaped : Bytes → Bytes
skip_escaped [] = []
skip_escaped (b ∷ []) = []
skip_escaped (b ∷ c ∷ rest) = elim (b == 0 && c == 0) [
  | true ↦ rest
  | false ↦ elim (b == 0 && c == 255) [ true ↦ skip_escaped rest | false ↦ skip_escaped (c ∷ rest) ]
]

-- `bytes.get(i) == Some(&byte)` on the bytes from `i` on.
abbrev pub first_is : ℕ → Bytes → Bool
first_is byte [] = false
first_is byte (c ∷ _) = c == byte

-- What stands after the value with tag `b`, or `none` where no value has this tag.
unfoldable pub skip_value : ℕ → Bytes → Option Bytes
skip_value b rest =
    if b == 1
    then some rest
    else if b == 2 || b == 4
    then some (drop 1 rest)
    else if b == 3
    then some (drop 16 rest)
    else if b == 5 || b == 6
    then some (drop 8 rest)
    else if b == 7 || b == 8 || b == 9
    then some (skip_escaped rest)
    else none

abbrev pub invalid_row_key {ℓ} : {A : Type ℓ} → EngineResult A
invalid_row_key = err (custom (ascii "Invalid row key"))

module _ ⦃fl : Floats⦄ where
  -- `encode_value_order`: the bytes it appends
  unfoldable pub encode_value_order : Value → Bytes
  encode_value_order Value.null = 1 ∷ []
  encode_value_order (Value.type t) = 2 ∷ (rank t + 1) ∷ []
  encode_value_order (Value.uuid u) = 3 ∷ u
  encode_value_order (Value.bool b) = 4 ∷ (bit b + 1) ∷ []
  encode_value_order (Value.integer i) = 5 ∷ be_bytes 8 (flip_sign (as_u64 i))
  encode_value_order (Value.float f) = 6 ∷ be_bytes 8 f
  encode_value_order (Value.text t) = 7 ∷ encode_escaped t
  encode_value_order (Value.json j) = 8 ∷ encode_escaped (json_to_string j)
  encode_value_order (Value.blob b) = 9 ∷ encode_escaped b

  -- the loop of `encode_key` over the values
  unfoldable pub encode_values : Row → Bytes
  encode_values [] = []
  encode_values (v ∷ vs) = encode_value_order v ++ encode_values vs

module _ ⦃pc : Postcard⦄ where
  -- `encode_value` and `decode_value`
  abbrev pub encode_value : Row → Bytes
  encode_value = pc.to_bytes

  abbrev pub decode_value : Bytes → EngineResult Row
  decode_value = pc.from_bytes

  unfoldable pub encode_key : ⦃fl : Floats⦄ → Row → Bytes
  encode_key row = encode_values row ++ (0 ∷ 0 ∷ encode_value row)

  -- The loop of `decode_key` on the bytes from its index on, one round to a unit of fuel.
  unfoldable pub decode_from : ℕ → Bytes → EngineResult Row
  decode_from zero bytes = invalid_row_key
  decode_from (suc fuel) [] = invalid_row_key
  decode_from (suc fuel) (b ∷ rest) = elim (b == 0 && first_is 0 rest) [
    | true ↦ pc.from_bytes (drop 1 rest)
    | false ↦ elim (skip_value b rest) [
      | some next ↦ decode_from fuel next
      | none ↦ invalid_row_key
    ]
  ]

  -- Each round takes a byte or more.
  unfoldable pub decode_key : Bytes → EngineResult Row
  decode_key bytes = decode_from (length bytes) bytes
