-- ===== src/Schema/Laws.antt =====
-- Which schemas `validate_uuid_primary_key` of crates/schema/src/schema.rs accepts.
use rs_converge.Prelude.{
  ◌≡◌, ◌↔◌, ◌∷◌, [], true, false, refl, ap, Bool-cases, inl, inr, arith, ◌++◌, List, All,
}
use rs_converge.Value.{ValueType, rank}
use rs_converge.Schema.{
  ColumnSchema, TableSchema, primary_keys, check_keys, validate_uuid_primary_key, valid,
}

-- One column is a primary key, and its type is UUID.
abbrev pub HasUuidKey : List ColumnSchema → Type 0
HasUuidKey columns =
    (before : List ColumnSchema) × (key : ColumnSchema) × (after : List ColumnSchema) × (columns
      ≡ before ++ (key ∷ after))
    × All (λ c. c.primary_key ≡ false) before
    × (key.primary_key ≡ true)
    × (key.value_type ≡ ValueType.uuid)
    × All (λ c. c.primary_key ≡ false) after

no_keys :
    (columns : List ColumnSchema)
    → primary_keys columns ≡ []
    → All (λ c. c.primary_key ≡ false) columns
unfolding primary_keys
no_keys [] h = tt
no_keys (c ∷ columns) h = ground (arith, no_keys columns)

primary_keys_none :
    (columns : List ColumnSchema)
    → All (λ c. c.primary_key ≡ false) columns
    → primary_keys columns ≡ []
unfolding primary_keys
primary_keys_none [] h = refl
primary_keys_none (c ∷ columns) (e, h) = ground (arith, primary_keys_none columns h)

one_key :
    (columns : List ColumnSchema) (key : ColumnSchema)
    → primary_keys columns ≡ key ∷ []
    → (before : List ColumnSchema) × (after : List ColumnSchema) × (columns
        ≡ before ++ (key ∷ after))
      × All (λ c. c.primary_key ≡ false) before
      × (key.primary_key ≡ true)
      × All (λ c. c.primary_key ≡ false) after
unfolding primary_keys
one_key [] key h = cc
one_key (c ∷ columns) key h = elim (Bool-cases c.primary_key) [
  | inl is_key ↦ ([], columns, ground arith, tt, ground arith, no_keys columns (ground arith))
  | inr other ↦
      let (before, after, e, none_before, is_key, none_after) =
        one_key columns key (ground arith) in
      (c ∷ before, after, ap (λ x. c ∷ x) e, (other, none_before), is_key, none_after)
]

primary_keys_one :
    (before : List ColumnSchema) (key : ColumnSchema) (after : List ColumnSchema)
    → All (λ c. c.primary_key ≡ false) before
    → key.primary_key ≡ true
    → All (λ c. c.primary_key ≡ false) after
    → primary_keys (before ++ (key ∷ after)) ≡ key ∷ []
unfolding primary_keys
primary_keys_one [] key after none_before is_key none_after =
    ground (arith, primary_keys_none after none_after)
primary_keys_one (c ∷ before) key after (e, none_before) is_key none_after =
    ground (arith, primary_keys_one before key after none_before is_key none_after)

uuid_rank : (t : ValueType) → rank t ≡ rank ValueType.uuid → t ≡ ValueType.uuid
uuid_rank ValueType.uuid h = refl
uuid_rank _ h = absurd (omega arith)

key_accepted :
    (keys : List ColumnSchema)
    → check_keys keys ≡ valid
    → (key : ColumnSchema) × (keys ≡ key ∷ []) × (key.value_type ≡ ValueType.uuid)
key_accepted [] h = cc
key_accepted (key ∷ []) h = (key, refl, uuid_rank key.value_type (ground arith))
key_accepted (key ∷ other ∷ keys) h = cc

-- A schema is accepted exactly when one of its columns is a primary key, the others are none, and
-- its type is UUID.
pub validate_uuid_primary_key-HasUuidKey :
    (schema : TableSchema) → (validate_uuid_primary_key schema ≡ valid) ↔ HasUuidKey schema.columns
unfolding validate_uuid_primary_key
validate_uuid_primary_key-HasUuidKey schema = (
  λ h.
      (let (key, only, is_uuid) = key_accepted (primary_keys schema.columns) h in
        let (before, after, e, none_before, is_key, none_after) = one_key schema.columns key only in
        (before, key, after, e, none_before, is_key, is_uuid, none_after)),
  λ (before, key, after, e, none_before, is_key, is_uuid, none_after).
      ground (arith, primary_keys_one before key after none_before is_key none_after),
)
