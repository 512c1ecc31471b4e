-- ===== src/Order/Escape.antt =====
-- The escape of zero bytes that the key encodings share: 0 becomes 0 255, and the text ends at
-- 0 0. It keeps the order of byte strings, whatever follows them.
use rs_converge.Prelude.{◌≡◌, refl, [], ◌∷◌, ◌++◌, arith, ◌==◌, if◌then◌else◌}
use rs_converge.Order.{then_with}
use rs_converge.Order.Lex.{Bytes, cmp_list, cmp_bytes}

-- The loop over the bytes, without the end mark.
unfoldable pub escape : Bytes → Bytes
escape [] = []
escape (b ∷ bs) = let rest = escape bs in if b == 0 then 0 ∷ 255 ∷ rest else b ∷ rest

-- Escaped texts compare as the texts do, and then as what follows their end marks.
pub cmp_bytes-escape :
    (a b s t : Bytes)
    → cmp_bytes (escape a ++ (0 ∷ 0 ∷ s)) (escape b ++ (0 ∷ 0 ∷ t))
      ≡ then_with (cmp_bytes a b) (cmp_bytes s t)
unfolding escape cmp_list
cmp_bytes-escape [] [] s t = refl
cmp_bytes-escape [] (y ∷ b) s t = ground arith
cmp_bytes-escape (x ∷ a) [] s t = ground arith
cmp_bytes-escape (x ∷ a) (y ∷ b) s t = ground (arith, cmp_bytes-escape a b s t)
