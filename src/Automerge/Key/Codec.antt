-- ===== src/Automerge/Key/Codec.antt =====
-- The ordered encoding of keys: it decodes to the key, and keeps the order.
use rs_converge.Prelude.{◌≡◌, refl, some, [], ◌∷◌, ◌++◌, arith}
use rs_converge.Order.Lex.{Bytes, cmp_list, cmp_bytes}
use rs_converge.Order.Escape.{escape, cmp_bytes-escape}
use rs_converge.BTree.{ok}
use rs_converge.Automerge.Key.{
  DocumentChangeKey, IsKey, discriminant, cmp_key, encode_ordered, decode_id, decode_tail,
  decode_ordered,
}

-- The loop reads back an escaped id, and stops behind its end mark.
decode_id-escape : (id rest : Bytes) → decode_id (escape id ++ (0 ∷ 0 ∷ rest)) ≡ some (id, rest)
unfolding decode_id escape
decode_id-escape [] rest = refl
decode_id-escape (b ∷ []) rest = ground arith
decode_id-escape (b ∷ c ∷ id) rest = ground (arith, decode_id-escape (c ∷ id) rest)

-- Every key with a hash of 32 bytes decodes from its encoding.
pub decode_ordered-encode_ordered :
    (k : DocumentChangeKey) → IsKey k → decode_ordered (encode_ordered k) ≡ ok k
unfolding decode_ordered encode_ordered decode_tail
decode_ordered-encode_ordered k h =
    ground (arith, decode_id-escape k.id (discriminant k.type ∷ k.change_hash))

-- Encoded keys compare, as byte strings, as the keys do.
pub cmp_bytes-encode_ordered :
    (a b : DocumentChangeKey) → cmp_bytes (encode_ordered a) (encode_ordered b) ≡ cmp_key a b
unfolding encode_ordered cmp_key cmp_list
cmp_bytes-encode_ordered a b = cmp_bytes-escape a.id b.id _ _
