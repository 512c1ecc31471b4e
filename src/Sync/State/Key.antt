-- ===== src/Sync/State/Key.antt =====
-- The order of keys is a total order: it is the order of lists of byte strings.
use Prim.Native.Nat.Ordering.{lt, eq}
use rs_converge.Prelude.{◌≡◌, refl, List, [], ◌∷◌, arith}
use rs_converge.Order.{Ord, reverse}
use rs_converge.Order.Lex.{
  Bytes, bytes_ord, list_ord, cmp_list, cmp_bytes, cmp_list_refl, cmp_list-reverse, cmp_list_trans,
  eq_of_cmp_list,
}
use rs_converge.Sync.State.{SyncKey, table, table_field, index, index_field, row, cmp_sync_key}

abbrev fields : SyncKey → List Bytes
fields (table a) = (0 ∷ []) ∷ a ∷ []
fields (table_field a c) = (1 ∷ []) ∷ a ∷ c ∷ []
fields (index a) = (2 ∷ []) ∷ a ∷ []
fields (index_field a n) = (3 ∷ []) ∷ a ∷ (n ∷ []) ∷ []
fields (row a c) = (4 ∷ []) ∷ a ∷ c ∷ []

cmp_fields : (a b : SyncKey) → cmp_sync_key a b ≡ cmp_list cmp_bytes (fields a) (fields b)
unfolding cmp_sync_key cmp_list
cmp_fields (table a) (table b) = ground arith
cmp_fields (table_field a c) (table_field b d) = ground arith
cmp_fields (index a) (index b) = ground arith
cmp_fields (index_field a m) (index_field b n) = ground arith
cmp_fields (row a c) (row b d) = ground arith
cmp_fields _ _ = refl

fields_inj : (a b : SyncKey) → fields a ≡ fields b → a ≡ b
fields_inj a b h = ground arith

pub key_refl : (a : SyncKey) → cmp_sync_key a a ≡ eq
key_refl a = rw (cmp_fields a a) (cmp_list_refl (fields a))

pub key_eq : (a b : SyncKey) → cmp_sync_key a b ≡ eq → a ≡ b
key_eq a b h = fields_inj a b (eq_of_cmp_list (fields a) (fields b) (rw (cmp_fields a b) at h))

pub key_reverse : (a b : SyncKey) → cmp_sync_key b a ≡ reverse (cmp_sync_key a b)
key_reverse a b = rw (cmp_fields a b, cmp_fields b a) (cmp_list-reverse (fields a) (fields b))

pub key_trans :
    (a b c : SyncKey) → cmp_sync_key a b ≡ lt → cmp_sync_key b c ≡ lt → cmp_sync_key a c ≡ lt
key_trans a b c p q = rw (cmp_fields a c) (
    cmp_list_trans (fields a) (fields b) (fields c) (rw (cmp_fields a b) at p)
      (rw (cmp_fields b c) at q))

instance abbrev pub sync_key_ord : Ord SyncKey
sync_key_ord = record {
  cmp = cmp_sync_key;
  cmp_refl = key_refl;
  eq_of_cmp = key_eq;
  cmp_reverse = key_reverse;
  cmp_trans = key_trans;
}
