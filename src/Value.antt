-- ===== src/Value.antt =====
-- crates/value: values, their types, their equality and their order (src/value.rs).
pub mod Json
pub mod Text
pub mod Convert
pub mod Range
use Prim.Native.Nat.Ordering.{eq}
use rs_converge.Prelude.{
  ℕ, Bool, true, false, Option, none, some, List, [], ◌∷◌, ◌==◌, compare, Ordering, ◌<◌, ◌^◌, ◌≡◌,
  length, All, ◌&&◌,
}
use rs_converge.Int.{ℤ, cmp_int, IsI64}
use rs_converge.Order.Lex.{Bytes, cmp_bytes, cmp_list}
use rs_converge.Value.Json.{Floats, JsonValue, json_eq, json_to_string}

pub data ValueType : Type 0 where
  null type uuid bool integer float text json blob : ValueType

-- `ValueType::rank`: the discriminant
abbrev pub rank : ValueType → ℕ
rank null = 0
rank type = 1
rank uuid = 2
rank bool = 3
rank integer = 4
rank float = 5
rank text = 6
rank json = 7
rank blob = 8

-- A float is its bits (`to_bits`), a text its UTF-8 bytes and a UUID its 16 bytes.
pub data Value : Type 0 where
  null : Value
  type : ValueType → Value
  uuid : Bytes → Value
  bool : Bool → Value
  integer : ℤ → Value
  float : ℕ → Value
  text : Bytes → Value
  json : JsonValue → Value
  blob : Bytes → Value

-- `Row`, by its one field
abbrev pub Row : Type 0
Row = List Value

-- `Value::r#type`
abbrev pub type_of : Value → ValueType
type_of Value.null = ValueType.null
type_of (Value.type _) = ValueType.type
type_of (Value.uuid _) = ValueType.uuid
type_of (Value.bool _) = ValueType.bool
type_of (Value.integer _) = ValueType.integer
type_of (Value.float _) = ValueType.float
type_of (Value.text _) = ValueType.text
type_of (Value.json _) = ValueType.json
type_of (Value.blob _) = ValueType.blob

-- A test for `Ordering::Equal`
abbrev pub is_eq : Ordering → Bool
is_eq Ordering.lt = false
is_eq Ordering.eq = true
is_eq Ordering.gt = false

-- `u8::from` of a `bool`, and its rank in the order
abbrev pub bit : Bool → ℕ
bit false = 0
bit true = 1

module _ ⦃fl : Floats⦄ where
  -- `PartialEq for Value`
  unfoldable pub value_eq : Value → Value → Bool
  value_eq Value.null Value.null = true
  value_eq (Value.type a) (Value.type b) = rank a == rank b
  value_eq (Value.uuid a) (Value.uuid b) = is_eq (cmp_bytes a b)
  value_eq (Value.bool a) (Value.bool b) = bit a == bit b
  value_eq (Value.integer a) (Value.integer b) = is_eq (cmp_int a b)
  value_eq (Value.float a) (Value.float b) = a == b
  value_eq (Value.text a) (Value.text b) = is_eq (cmp_bytes a b)
  value_eq (Value.blob a) (Value.blob b) = is_eq (cmp_bytes a b)
  value_eq (Value.json a) (Value.json b) = json_eq a b
  value_eq _ _ = false

  -- `Ord for Value`
  unfoldable pub cmp_value : Value → Value → Ordering
  cmp_value Value.null Value.null = eq
  cmp_value (Value.type a) (Value.type b) = compare (rank a) (rank b)
  cmp_value (Value.uuid a) (Value.uuid b) = cmp_bytes a b
  cmp_value (Value.bool a) (Value.bool b) = compare (bit a) (bit b)
  cmp_value (Value.text a) (Value.text b) = cmp_bytes a b
  cmp_value (Value.json a) (Value.json b) = cmp_bytes (json_to_string a) (json_to_string b)
  cmp_value (Value.blob a) (Value.blob b) = cmp_bytes a b
  cmp_value (Value.integer a) (Value.integer b) = cmp_int a b
  cmp_value (Value.float a) (Value.float b) = compare a b
  cmp_value a b = compare (rank (type_of a)) (rank (type_of b))

  -- `Row` derives its order and its equality from its values.
  abbrev pub cmp_row : Row → Row → Ordering
  cmp_row = cmp_list cmp_value

  unfoldable pub row_eq : Row → Row → Bool
  row_eq [] [] = true
  row_eq (a ∷ r) (b ∷ s) = value_eq a b && row_eq r s
  row_eq _ _ = false

-- What the Rust types say of a value.
abbrev pub IsValue : Value → Type 0
IsValue (Value.uuid b) = length b ≡ 16
IsValue (Value.integer i) = IsI64 i
IsValue (Value.float f) = f < 2 ^ 64
IsValue _ = Unit

abbrev pub IsRow : Row → Type 0
IsRow = All IsValue

-- `as_type`, `as_uuid`, `as_bool`, `as_text` and `as_blob`, with their `to_` forms
abbrev pub to_type : Value → Option ValueType
to_type (Value.type t) = some t
to_type _ = none

abbrev pub to_uuid : Value → Option Bytes
to_uuid (Value.uuid u) = some u
to_uuid _ = none

abbrev pub to_bool : Value → Option Bool
to_bool (Value.bool b) = some b
to_bool _ = none

abbrev pub to_text : Value → Option Bytes
to_text (Value.text t) = some t
to_text _ = none

abbrev pub to_blob : Value → Option Bytes
to_blob (Value.blob b) = some b
to_blob _ = none
