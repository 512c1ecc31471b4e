-- ===== src/Automerge/Store/Laws.antt =====
-- The change store keeps a map of keys as a map of their encodings.
use rs_converge.Prelude.{◌≡◌, refl, ap, Bool, Option, List, [], ◌∷◌, map, All, arith, inl, inr, ◌∙◌}
use rs_converge.Order.Lex.{Bytes, bytes_ord}
use rs_converge.BTreeMap
use rs_converge.BTreeMap.{
  Map, Bound, included, excluded, unbounded, contains, select, after_start, before_end,
}
use rs_converge.BTree.{BTreeResult, ok, err, result_cases}
use rs_converge.BTree.Interface.{Transaction}
use rs_converge.Automerge.Key.{DocumentChangeKey, IsKey, key_ord, encode_ordered, decode_ordered}
use rs_converge.BTree.InMemory.Instance.{map-ok_injective}
use rs_converge.Automerge.Key.Codec.{cmp_bytes-encode_ordered, decode_ordered-encode_ordered}
use rs_converge.Automerge.Compaction.Effect.{Records}
use rs_converge.Automerge.Store
use rs_converge.Automerge.Store.{encode_bound, decode_entries}

-- The records as the bytes that are stored.
unfoldable pub encoded : Records → Map Bytes Bytes
encoded [] = []
encoded ((k, v) ∷ m) = (encode_ordered k, v) ∷ encoded m

get-encoded :
    (k : DocumentChangeKey) (m : Records)
    → BTreeMap.get (encode_ordered k) (encoded m) ≡ BTreeMap.get k m
unfolding encoded BTreeMap.get
get-encoded k [] = refl
get-encoded k ((j, v) ∷ m) = ground (arith, cmp_bytes-encode_ordered k j, get-encoded k m)

insert-encoded :
    (k : DocumentChangeKey) (v : Bytes) (m : Records)
    → BTreeMap.insert (encode_ordered k) v (encoded m) ≡ encoded (BTreeMap.insert k v m)
unfolding encoded BTreeMap.insert
insert-encoded k v [] = refl
insert-encoded k v ((j, w) ∷ m) = ground (arith, cmp_bytes-encode_ordered k j, insert-encoded k v m)

remove-encoded :
    (k : DocumentChangeKey) (m : Records)
    → BTreeMap.remove (encode_ordered k) (encoded m) ≡ encoded (BTreeMap.remove k m)
unfolding encoded BTreeMap.remove
remove-encoded k [] = refl
remove-encoded k ((j, w) ∷ m) = ground (arith, cmp_bytes-encode_ordered k j, remove-encoded k m)

after_start-encode :
    (lo : Bound DocumentChangeKey) (k : DocumentChangeKey)
    → after_start (encode_bound lo) (encode_ordered k) ≡ after_start lo k
unfolding encode_bound
after_start-encode (included a) k = ground (arith, cmp_bytes-encode_ordered k a)
after_start-encode (excluded a) k = ground (arith, cmp_bytes-encode_ordered k a)
after_start-encode unbounded k = refl

before_end-encode :
    (hi : Bound DocumentChangeKey) (k : DocumentChangeKey)
    → before_end (encode_bound hi) (encode_ordered k) ≡ before_end hi k
unfolding encode_bound
before_end-encode (included b) k = ground (arith, cmp_bytes-encode_ordered k b)
before_end-encode (excluded b) k = ground (arith, cmp_bytes-encode_ordered k b)
before_end-encode unbounded k = refl

module _ (lo hi : Bound DocumentChangeKey) where
  select-encoded :
      (m : Records)
      → select (contains (encode_bound lo) (encode_bound hi)) (encoded m)
        ≡ encoded (select (contains lo hi) m)
  unfolding encoded select
  select-encoded [] = refl
  select-encoded ((k, v) ∷ m) =
      ground (arith, after_start-encode lo k, before_end-encode hi k, select-encoded m)

select-IsKey :
    (p : DocumentChangeKey → Bool) (m : Records)
    → All (λ e. IsKey e.0) m
    → All (λ e. IsKey e.0) (select p m)
unfolding select
select-IsKey p [] h = tt
select-IsKey p ((k, v) ∷ m) (h, hs) = ground (arith, h, select-IsKey p m hs)

decode_entries-encoded :
    (m : Records) → All (λ e. IsKey e.0) m → decode_entries (map ok (encoded m)) ≡ map ok m
unfolding encoded decode_entries
decode_entries-encoded [] h = refl
decode_entries-encoded ((k, v) ∷ m) (h, hs) =
    ground (arith, decode_ordered-encode_ordered k h, decode_entries-encoded m hs)

-- A stream without an error has met none in the store.
decode_entries_shape :
    (entries : List (BTreeResult (Bytes × Bytes))) (es : Records)
    → decode_entries entries ≡ map ok es
    → (bs : Map Bytes Bytes) × (entries ≡ map ok bs)
unfolding decode_entries
decode_entries_shape [] es h = ([], refl)
decode_entries_shape (err e ∷ entries) [] h = cc
decode_entries_shape (err e ∷ entries) (x ∷ es) h = cc
decode_entries_shape (ok (key, value) ∷ entries) [] h = elim (result_cases (decode_ordered key)) [
  | inl (k, q) ↦ absurd (ground (arith, q))
  | inr (e, q) ↦ absurd (ground (arith, q))
]
decode_entries_shape (ok (key, value) ∷ entries) (x ∷ es) h =
    elim (result_cases (decode_ordered key)) [
      | inl (k, q) ↦
          let (bs, shape) = decode_entries_shape entries es (ground (arith, q)) in
          ((key, value) ∷ bs, ap (λ rest. ok (key, value) ∷ rest) shape)
      | inr (e, q) ↦ absurd (ground (arith, q))
    ]

module _ (inner : Transaction Bytes Bytes) (m : Records) (s : inner.State) where
  pub get_records :
      (k : DocumentChangeKey) (v : Option Bytes)
      → inner.view s ≡ encoded m
      → Store.get inner k s ≡ ok v
      → v ≡ BTreeMap.get k m
  unfolding Store.get
  get_records k v stored h =
      ground (arith, inner.get_view (encode_ordered k) s v h, stored, get-encoded k m)

  -- An insert that succeeds keeps the store the encodings of a map.
  pub insert_records :
      (k : DocumentChangeKey) (v : Bytes)
      → inner.view s ≡ encoded m
      → (Store.insert inner k v s).0 ≡ ok tt
      → inner.view (Store.insert inner k v s).1 ≡ encoded (BTreeMap.insert k v m)
  unfolding Store.insert
  insert_records k v stored h =
      rw (inner.insert_view (encode_ordered k) v s h, stored) (insert-encoded k v m)

  -- So does a removal, which gives back what the map had.
  pub remove_records :
      (k : DocumentChangeKey) (v : Option Bytes)
      → inner.view s ≡ encoded m
      → (Store.remove inner k s).0 ≡ ok v
      → (v ≡ BTreeMap.get k m)
        × (inner.view (Store.remove inner k s).1 ≡ encoded (BTreeMap.remove k m))
  unfolding Store.remove
  remove_records k v stored h =
      let (found, gone) = inner.remove_view (encode_ordered k) s v h in
      (ground (arith, found, stored, get-encoded k m), rw (gone, stored) (remove-encoded k m))

  -- A scan of the change store without an error, where the store inside holds the encodings of
  -- records with hashes of 32 bytes, yields the records in the range of keys, in their order.
  pub range_records :
      (lo hi : Bound DocumentChangeKey) (es : Records)
      → inner.view s ≡ encoded m
      → All (λ e. IsKey e.0) m
      → Store.range inner lo hi s ≡ map ok es
      → es ≡ select (contains lo hi) m
  unfolding Store.range
  range_records lo hi es stored keys h =
      let entries = inner.range (encode_bound lo) (encode_bound hi) s in
      let (bs, shape) = decode_entries_shape entries es h in
      let read : bs ≡ encoded (select (contains lo hi) m) =
        inner.range_view (encode_bound lo) (encode_bound hi) s bs shape
        ∙ (rw (stored) (select-encoded lo hi m)) in
      let whole =
        decode_entries-encoded (select (contains lo hi) m) (select-IsKey (contains lo hi) m keys) in
      map-ok_injective es (select (contains lo hi) m) cc
