-- ===== src/Sync/State.antt =====
-- crates/sync/src/state.rs: keys, units of state with their digests, and manifests.
pub mod Key
pub mod Manifest
use Prim.Native.Nat.Ordering.{lt, eq, gt}
use rs_converge.Prelude.{
  ℕ, Bool, true, false, Option, none, some, [], ◌∷◌, List, ◌++◌, ◌/◌, ◌%◌, length, compare,
  Ordering, zero, suc,
}
use rs_converge.Order.{then_with}
use rs_converge.Order.Lex.{Bytes, bytes_ord, cmp_bytes}
use rs_converge.BTreeMap
use rs_converge.Value.{is_eq}

-- `SyncChangeId`, by its one field
abbrev pub SyncChangeId : Type 0
SyncChangeId = Bytes

-- A UUID is its 16 bytes, a digest its 32.
pub data SyncKey : Type 0 where
  table : Bytes → SyncKey
  table_field : Bytes → Bytes → SyncKey
  index : Bytes → SyncKey
  index_field : Bytes → ℕ → SyncKey
  row : Bytes → Bytes → SyncKey

-- The place of a variant in the enum.
abbrev pub variant : SyncKey → ℕ
variant (table _) = 0
variant (table_field _ _) = 1
variant (index _) = 2
variant (index_field _ _) = 3
variant (row _ _) = 4

-- the derived `Ord`
unfoldable pub cmp_sync_key : SyncKey → SyncKey → Ordering
cmp_sync_key (table a) (table b) = cmp_bytes a b
cmp_sync_key (table_field a c) (table_field b d) = then_with (cmp_bytes a b) (cmp_bytes c d)
cmp_sync_key (index a) (index b) = cmp_bytes a b
cmp_sync_key (index_field a m) (index_field b n) = then_with (cmp_bytes a b) (compare m n)
cmp_sync_key (row a c) (row b d) = then_with (cmp_bytes a b) (cmp_bytes c d)
cmp_sync_key a b = compare (variant a) (variant b)

pub record SyncStateUnit : Type 0 where
  pub key : SyncKey
  pub state : Bytes
  pub metadata : Bytes
  pub digest : Bytes

-- `to_le_bytes`: the bytes of a number, the lowest first
unfoldable pub le_bytes : ℕ → ℕ → Bytes
le_bytes zero x = []
le_bytes (suc k) x = (x % 256) ∷ le_bytes k (x / 256)

-- What the hasher is given; a length of the host fits 64 bits.
unfoldable pub digest_input : Bytes → Bytes → Bytes
digest_input state metadata =
    le_bytes 8 (length state) ++ (state ++ (le_bytes 8 (length metadata) ++ metadata))

-- `SyncStateUnit::new`; `sha256` is the hash of the `sha2` crate.
abbrev pub new_unit : (Bytes → Bytes) → SyncKey → Bytes → Bytes → SyncStateUnit
new_unit sha256 key state metadata = record {
  key = key;
  state = state;
  metadata = metadata;
  digest = sha256 (digest_input state metadata);
}

unfoldable pub verify_digest : (Bytes → Bytes) → SyncStateUnit → Bool
verify_digest sha256 unit =
    is_eq (cmp_bytes (new_unit sha256 unit.key unit.state unit.metadata).digest unit.digest)
