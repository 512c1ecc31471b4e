-- ===== src/Automerge/Key/Ranges.antt =====
-- The ranges of keys select whole documents.
use Prim.Native.Nat.Ordering.{lt, gt}
use rs_converge.Prelude.{
  ℕ, zero, suc, ◌≡◌, ◌≢◌, ◌↔◌, refl, [], ◌∷◌, arith, length, replicate, ◌≤◌, All, true,
}
use rs_converge.Order.Lex.{Bytes, cmp_list, cmp_bytes, bytes_ord}
use rs_converge.BTreeMap.{Bound, included, excluded, unbounded, contains, after_start, before_end}
use rs_converge.Automerge.Key.{
  DocumentChangeKey, IsKey, cmp_key, key_ord, zero_hash, full_hash, range_for, map_start, map_end,
}

zeros_least : (n : ℕ) (h : Bytes) → length h ≡ n → cmp_bytes h (replicate n 0) ≢ lt
unfolding cmp_list
zeros_least zero [] e p = cc
zeros_least zero (b ∷ h) e p = absurd (omega arith)
zeros_least (suc n) [] e p = absurd (omega arith)
zeros_least (suc n) (b ∷ h) e p = ground (arith, zeros_least n h)

full_greatest :
    (n : ℕ) (h : Bytes) → length h ≡ n → All (λ b. b ≤ 255) h → cmp_bytes h (replicate n 255) ≢ gt
unfolding cmp_list
full_greatest zero [] e a p = cc
full_greatest zero (b ∷ h) e a p = absurd (omega arith)
full_greatest (suc n) [] e a p = absurd (omega arith)
full_greatest (suc n) (b ∷ h) e a p = ground (arith, full_greatest n h)

module _ (k : DocumentChangeKey) (h : IsKey k) where
  zero_le_hash : cmp_bytes k.change_hash zero_hash ≢ lt
  zero_le_hash = zeros_least 32 k.change_hash h.hash_length

  hash_le_full : cmp_bytes k.change_hash full_hash ≢ gt
  hash_le_full = full_greatest 32 k.change_hash h.hash_length h.hash_bytes

  after_map_start : (lo : Bound Bytes) → after_start (map_start lo) k ≡ after_start lo k.id
  unfolding map_start cmp_key
  after_map_start (included id) = ground (arith, zero_le_hash)
  after_map_start (excluded id) = ground (arith, hash_le_full)
  after_map_start unbounded = refl

  before_map_end : (hi : Bound Bytes) → before_end (map_end hi) k ≡ before_end hi k.id
  unfolding map_end cmp_key
  before_map_end (included id) = ground (arith, hash_le_full)
  before_map_end (excluded id) = ground (arith, zero_le_hash)
  before_map_end unbounded = refl

  -- The mapped range holds a key with a hash of 32 bytes exactly when the range of ids holds its
  -- id: a scan reads whole documents, whether bounds are inclusive, exclusive or open.
  pub contains-map_document_id_range :
      (lo hi : Bound Bytes) → contains (map_start lo) (map_end hi) k ≡ contains lo hi k.id
  contains-map_document_id_range lo hi = rw (after_map_start lo, before_map_end hi)

  -- Of the keys with a hash of 32 bytes, `range_for` holds exactly those of one document.
  pub contains-range_for :
      (id : Bytes) → (contains (range_for id).0 (range_for id).1 k ≡ true) ↔ (k.id ≡ id)
  unfolding range_for map_start map_end
  contains-range_for id =
      let e = contains-map_document_id_range (included id) (included id) in
      (
        λ p. bytes_ord.eq_of_cmp k.id id (ground (arith, e)),
        λ p. ground (arith, e, bytes_ord.cmp_refl id),
      )
