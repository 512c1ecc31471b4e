-- ===== src/Automerge/Key.antt =====
-- crates/btree-automerge/src/document_change_key.rs and document_type.rs: the key of a change
-- record, its order, its ordered encoding and the ranges of keys.
pub mod Codec
pub mod Ranges
use Prim.Native.Nat.Ordering.{lt}
use rs_converge.Prelude.{
  ℕ, zero, suc, ◌≡◌, refl, Bool, true, false, Option, none, some, List, [], ◌∷◌, ◌++◌, arith, ◌==◌,
  if◌then◌else◌, length, replicate, Ordering, compare, All, ◌≤◌,
}
use rs_converge.Order.{Ord, then_with, reverse, compare-reverse, compare_trans, nat_ord}
use rs_converge.Order.Lex.{
  Bytes, cmp_bytes, cmp_list_refl, eq_of_cmp_list, cmp_list-reverse, cmp_list_trans,
}
use rs_converge.Order.Escape.{escape}
use rs_converge.BTreeMap.{Bound, included, excluded, unbounded}
use rs_converge.BTree.{BTreeResult, ok, err, invalid_document}

pub data DocumentType : Type 0 where
  snapshot incremental metadata : DocumentType

-- the discriminant, `as u8`
abbrev pub discriminant : DocumentType → ℕ
discriminant snapshot = 0
discriminant incremental = 1
discriminant metadata = 2

abbrev pub is_snapshot : DocumentType → Bool
is_snapshot snapshot = true
is_snapshot _ = false

abbrev pub is_metadata : DocumentType → Bool
is_metadata metadata = true
is_metadata _ = false

pub record DocumentChangeKey : Type 0 where
  pub id : Bytes
  pub type : DocumentType
  pub change_hash : Bytes

-- `[0; 32]` and `[255; 32]`
abbrev pub zero_hash : Bytes
zero_hash = replicate 32 0

abbrev pub full_hash : Bytes
full_hash = replicate 32 255

-- What the Rust types say of a key: the hash is an array of 32 `u8`.
pub record IsKey (k : DocumentChangeKey) : Type 0 where
  pub hash_length : length k.change_hash ≡ 32
  pub hash_bytes : All (λ b. b ≤ 255) k.change_hash

abbrev pub new_snapshot : Bytes → Bytes → DocumentChangeKey
new_snapshot id hash = record { id = id; type = snapshot; change_hash = hash }

abbrev pub new_incremental : Bytes → Bytes → DocumentChangeKey
new_incremental id hash = record { id = id; type = incremental; change_hash = hash }

abbrev pub new_metadata : Bytes → DocumentChangeKey
new_metadata id = record { id = id; type = metadata; change_hash = zero_hash }

-- `impl Ord for DocumentChangeKey`
unfoldable pub cmp_key : DocumentChangeKey → DocumentChangeKey → Ordering
cmp_key a b = then_with (cmp_bytes a.id b.id) (
    then_with (compare (discriminant a.type) (discriminant b.type))
      (cmp_bytes a.change_hash b.change_hash))

pub cmp_key_refl : (a : DocumentChangeKey) → cmp_key a a ≡ Ordering.eq
unfolding cmp_key
cmp_key_refl a = ground (arith, cmp_list_refl a.id, cmp_list_refl a.change_hash)

discriminant_inj : (s t : DocumentType) → discriminant s ≡ discriminant t → s ≡ t
discriminant_inj s t h = ground arith

pub eq_of_cmp_key : (a b : DocumentChangeKey) → cmp_key a b ≡ Ordering.eq → a ≡ b
unfolding cmp_key
eq_of_cmp_key a b h = ground (
  arith,
  eq_of_cmp_list a.id b.id,
  discriminant_inj a.type b.type,
  eq_of_cmp_list a.change_hash b.change_hash,
)

pub cmp_key-reverse : (a b : DocumentChangeKey) → cmp_key b a ≡ reverse (cmp_key a b)
unfolding cmp_key
cmp_key-reverse a b = ground (
  arith,
  cmp_list-reverse a.id b.id,
  compare-reverse (discriminant a.type) (discriminant b.type),
  cmp_list-reverse a.change_hash b.change_hash,
)

pub cmp_key_trans :
    (a b c : DocumentChangeKey) → cmp_key a b ≡ lt → cmp_key b c ≡ lt → cmp_key a c ≡ lt
unfolding cmp_key
cmp_key_trans a b c p q = ground (
  arith,
  cmp_list_trans a.id b.id c.id,
  eq_of_cmp_list a.id b.id,
  eq_of_cmp_list b.id c.id,
  cmp_list_refl c.id,
  cmp_list_trans a.change_hash b.change_hash c.change_hash,
)

instance abbrev pub key_ord : Ord DocumentChangeKey
key_ord = record {
  cmp = cmp_key;
  cmp_refl = cmp_key_refl;
  eq_of_cmp = eq_of_cmp_key;
  cmp_reverse = cmp_key-reverse;
  cmp_trans = cmp_key_trans;
}

-- `DocumentChangeKey::encode_ordered`
unfoldable pub encode_ordered : DocumentChangeKey → Bytes
encode_ordered k = escape k.id ++ (0 ∷ 0 ∷ discriminant k.type ∷ k.change_hash)

prepend : ℕ → Option (Bytes × Bytes) → Option (Bytes × Bytes)
prepend b none = none
prepend b (some (id, rest)) = some (b ∷ id, rest)

-- the loop of `decode_ordered` over the bytes from `index` on: the id, and what follows it
unfoldable pub decode_id : Bytes → Option (Bytes × Bytes)
unfolding prepend
decode_id [] = none
decode_id (b ∷ []) = none
decode_id (b ∷ c ∷ rest) = elim (b == 0) [
  | false ↦ prepend b (decode_id (c ∷ rest))
  | true ↦ elim (c == 0) [
    | true ↦ some ([], rest)
    | false ↦ elim (c == 255) [
      | true ↦ prepend 0 (decode_id rest)
      | false ↦ prepend b (decode_id (c ∷ rest))
    ]
  ]
]

decode_type : ℕ → Option DocumentType
decode_type zero = some snapshot
decode_type (suc zero) = some incremental
decode_type (suc (suc zero)) = some metadata
decode_type _ = none

-- the rest of `decode_ordered`, behind the id
decode_tail : Bytes → Bytes → BTreeResult DocumentChangeKey
unfolding decode_type
decode_tail id [] = err invalid_document
decode_tail id (t ∷ hash) = elim (decode_type t) [
  | none ↦ err invalid_document
  | some type ↦
      if length hash == 32
      then ok (record { id = id; type = type; change_hash = hash })
      else err invalid_document
]

-- `DocumentChangeKey::decode_ordered`
unfoldable pub decode_ordered : Bytes → BTreeResult DocumentChangeKey
unfolding decode_tail
decode_ordered bytes = elim (decode_id bytes) [
  | none ↦ err invalid_document
  | some (id, rest) ↦ decode_tail id rest
]

abbrev pub min_for_id : Bytes → DocumentChangeKey
min_for_id id = record { id = id; type = snapshot; change_hash = zero_hash }

abbrev pub max_for_id : Bytes → DocumentChangeKey
max_for_id id = record { id = id; type = metadata; change_hash = full_hash }

-- `DocumentChangeKey::range_for`
unfoldable pub range_for : Bytes → Bound DocumentChangeKey × Bound DocumentChangeKey
range_for id = (included (min_for_id id), included (max_for_id id))

-- `DocumentChangeKey::map_document_id_range`, by its two ends
unfoldable pub map_start : Bound Bytes → Bound DocumentChangeKey
map_start (included id) = included (min_for_id id)
map_start (excluded id) = excluded (max_for_id id)
map_start unbounded = unbounded

unfoldable pub map_end : Bound Bytes → Bound DocumentChangeKey
map_end (included id) = included (max_for_id id)
map_end (excluded id) = excluded (min_for_id id)
map_end unbounded = unbounded
