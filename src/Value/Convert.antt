-- ===== src/Value/Convert.antt =====
-- The conversions of crates/value/src/value.rs that look into numbers.
use rs_converge.Prelude.{
  ℕ, Bool, true, false, Option, none, some, ◌+◌, ◌-◌, ◌*◌, ◌/◌, ◌%◌, ◌^◌, ltb, ◌==◌, if◌then◌else◌,
}
use rs_converge.Int.{ℤ, pos, negsuc}
use rs_converge.Value.{Value}
use rs_converge.Value.Json.{Floats, JsonValue}

-- `as_null`
abbrev pub as_null : Value → Option (Unit {0})
as_null Value.null = some tt
as_null _ = none

-- `as_json` and `to_json`
abbrev pub to_json : Value → Option JsonValue
to_json (Value.json j) = some j
to_json _ = none

-- The fields of the 64 bits of a float.
abbrev pub exponent : ℕ → ℕ
exponent f = f / 2 ^ 52 % 2 ^ 11

abbrev pub fraction : ℕ → ℕ
fraction f = f % 2 ^ 52

abbrev pub is_negative : ℕ → Bool
is_negative f = f / 2 ^ 63 == 1

-- The absolute value of a finite float below 2^63, rounded down.
unfoldable pub whole_part : ℕ → ℕ
whole_part f =
    if ltb (exponent f) 1023 then 0 else ((2 ^ 52 + fraction f) * 2 ^ (exponent f - 1023) / 2 ^ 52)

-- `f as i64` where the absolute value is below 2^63
abbrev pub signed : Bool → ℕ → ℤ
signed false n = pos n
signed true ℕ.zero = pos 0
signed true (ℕ.suc n) = negsuc n

-- `f as i64` for -2^63 and 2^63, which is out of range and saturates
abbrev pub end_of_range : Bool → ℤ
end_of_range false = pos (2 ^ 63 - 1)
end_of_range true = negsuc (2 ^ 63 - 1)

-- The guard of `as_integer` on a float and its cast. The float nearest to the greatest `i64` is
-- 2^63, so the guard lets both ends through: they have the exponent 1086 and no fraction.
unfoldable pub float_to_integer : ℕ → Option ℤ
float_to_integer f =
    if ltb (exponent f) 1086
    then some (signed (is_negative f) (whole_part f))
    else (if exponent f == 1086
        then (if fraction f == 0 then some (end_of_range (is_negative f)) else none)
        else none)

-- `as_integer` and `to_integer`
abbrev pub to_integer : Value → Option ℤ
to_integer (Value.integer i) = some i
to_integer (Value.float f) = float_to_integer f
to_integer _ = none

-- `as_float` and `to_float`
abbrev pub to_float : ⦃fl : Floats⦄ → Value → Option ℕ
to_float (Value.float f) = some f
to_float ⦃fl⦄ (Value.integer i) = some (fl.float_of i)
to_float _ = none
