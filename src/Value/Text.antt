-- ===== src/Value/Text.antt =====
-- The equality of texts, `==` on `str` (crates/value/src/value.rs).
use rs_converge.Prelude.{◌≡◌, Bool, true, arith}
use rs_converge.Order.Lex.{Bytes, cmp_bytes, bytes_ord}
use rs_converge.Value.{is_eq}

abbrev pub text_eq : Bytes → Bytes → Bool
text_eq a b = is_eq (cmp_bytes a b)

pub text_eq_refl : (a : Bytes) → text_eq a a ≡ true
text_eq_refl a = ground (arith, bytes_ord.cmp_refl a)

pub eq_of_text_eq : (a b : Bytes) → text_eq a b ≡ true → a ≡ b
eq_of_text_eq a b h = ground (arith, bytes_ord.eq_of_cmp a b)
