-- ===== src/Value/Json.antt =====
-- crates/value: JSON values and numbers (src/json_value.rs, src/json_number.rs), their text and
-- their equality.
use Prim.Native.String.{String}
use Prim.Native.Char.{code}
use rs_converge.Prelude.{
  ℕ, zero, suc, Bool, true, false, [], ◌∷◌, ◌++◌, ◌==◌, ◌&&◌, ◌+◌, ◌/◌, ◌%◌, ltb, Ordering,
  if◌then◌else◌,
}
use rs_converge.Int.{ℤ, pos, negsuc, cmp_int}
use rs_converge.Order.Lex.{Bytes, cmp_bytes}

-- What `core` gives for 64-bit floats, which are kept as their bits: their text, the float
-- nearest to an integer, and `==` (which differs from equality of bits at NaN and at zero).
pub record Floats : Type 0 where
  pub show_float : ℕ → Bytes
  pub float_of : ℤ → ℕ
  pub float_eq : ℕ → ℕ → Bool

-- The bytes of an ASCII text.
abbrev pub ascii : String → Bytes
ascii String.[] = []
ascii (String.◌∷◌ c s) = code c ∷ ascii s

pub data JsonNumber : Type 0 where
  i64 : ℤ → JsonNumber
  u64 : ℕ → JsonNumber
  f64 : ℕ → JsonNumber

-- `Array` holds a list of values, and `Object` the entries of a `BTreeMap`, in the order of keys.
mutual
  pub data JsonValue : Type 0 where
    null : JsonValue
    bool : Bool → JsonValue
    number : JsonNumber → JsonValue
    string : Bytes → JsonValue
    array : Items → JsonValue
    object : Fields → JsonValue

  pub data Items : Type 0 where
    nil : Items
    cons : JsonValue → Items → Items

  pub data Fields : Type 0 where
    end : Fields
    field : Bytes → JsonValue → Fields → Fields

same : Bytes → Bytes → Bool
same a b = elim (cmp_bytes a b) [ Ordering.lt ↦ false | Ordering.eq ↦ true | Ordering.gt ↦ false ]

-- the decimal digits of a number, in front of a text; one round to a digit
digits : ℕ → ℕ → Bytes → Bytes
digits zero n acc = acc
digits (suc fuel) n acc =
    let rest = digits fuel (n / 10) ((48 + n % 10) ∷ acc) in
    if ltb n 10 then (48 + n) ∷ acc else rest

-- `Display for u64`; a number of 64 bits has at most 20 digits
show_nat : ℕ → Bytes
unfolding digits
show_nat n = digits 20 n []

-- `Display for i64`
show_int : ℤ → Bytes
unfolding show_nat
show_int (pos n) = show_nat n
show_int (negsuc n) = b'-' ∷ show_nat (n + 1)

module _ ⦃fl : Floats⦄ where
  -- `PartialEq for JsonNumber`, with `eq_i64`, `eq_u64` and `eq_f64`
  unfoldable pub number_eq : JsonNumber → JsonNumber → Bool
  number_eq (i64 a) (i64 b) = elim (cmp_int a b) [ Ordering.eq ↦ true | _ ↦ false ]
  number_eq (i64 a) (u64 b) = elim (cmp_int a (pos b)) [ Ordering.eq ↦ true | _ ↦ false ]
  number_eq (i64 a) (f64 b) = fl.float_eq (fl.float_of a) b
  number_eq (u64 a) (i64 b) = elim (cmp_int (pos a) b) [ Ordering.eq ↦ true | _ ↦ false ]
  number_eq (u64 a) (u64 b) = a == b
  number_eq (u64 a) (f64 b) = fl.float_eq (fl.float_of (pos a)) b
  number_eq (f64 a) (i64 b) = fl.float_eq a (fl.float_of b)
  number_eq (f64 a) (u64 b) = fl.float_eq a (fl.float_of (pos b))
  number_eq (f64 a) (f64 b) = fl.float_eq a b

  -- `Display for JsonNumber`
  unfoldable pub number_to_string : JsonNumber → Bytes
  unfolding show_int show_nat
  number_to_string (i64 i) = show_int i
  number_to_string (u64 u) = show_nat u
  number_to_string (f64 f) = fl.show_float f

  -- `Display for JsonValue`, which `to_string` runs. Texts are written between quotes as they are.
  unfoldable mutual
    unfolding number_to_string

    pub json_to_string : JsonValue → Bytes
    json_to_string null = ascii "null"
    json_to_string (bool true) = ascii "true"
    json_to_string (bool false) = ascii "false"
    json_to_string (number n) = number_to_string n
    json_to_string (string s) = b'"' ∷ (s ++ b'"' ∷ [])
    json_to_string (array xs) = b'[' ∷ (items_to_string xs ++ b']' ∷ [])
    json_to_string (object fs) = b'{' ∷ (fields_to_string fs ++ b'}' ∷ [])

    -- the items joined by `, `
    pub items_to_string : Items → Bytes
    items_to_string nil = []
    items_to_string (cons x nil) = json_to_string x
    items_to_string (cons x (cons y ys)) =
        json_to_string x ++ (b',' ∷ b' ' ∷ items_to_string (cons y ys))

    pub fields_to_string : Fields → Bytes
    fields_to_string end = []
    fields_to_string (field k v end) = b'"' ∷ (k ++ (b'"' ∷ b':' ∷ b' ' ∷ json_to_string v))
    fields_to_string (field k v (field l w fs)) =
        b'"'
        ∷ (k
            ++ (b'"'
                ∷ b':'
                ∷ b' '
                ∷ (json_to_string v ++ (b',' ∷ b' ' ∷ fields_to_string (field l w fs)))))

  -- the derived `PartialEq for JsonValue`
  unfoldable mutual
    unfolding number_eq same

    pub json_eq : JsonValue → JsonValue → Bool
    json_eq null null = true
    json_eq (bool true) (bool b) = b
    json_eq (bool false) (bool true) = false
    json_eq (bool false) (bool false) = true
    json_eq (number a) (number b) = number_eq a b
    json_eq (string a) (string b) = same a b
    json_eq (array xs) (array ys) = items_eq xs ys
    json_eq (object fs) (object gs) = fields_eq fs gs
    json_eq _ _ = false

    pub items_eq : Items → Items → Bool
    items_eq nil nil = true
    items_eq (cons x xs) (cons y ys) = json_eq x y && items_eq xs ys
    items_eq _ _ = false

    pub fields_eq : Fields → Fields → Bool
    fields_eq end end = true
    fields_eq (field k v fs) (field l w gs) = same k l && json_eq v w && fields_eq fs gs
    fields_eq _ _ = false
