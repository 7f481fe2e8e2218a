-- ===== src/Store/Types.antt =====
-- litecast/store.py: the errors, the records and the constructor of `CheckpointStore`. The lock is
-- not modelled: each call below is one critical section.
use litecast.Common.{
  ℕ, ◌+◌, Bool, ◌&&◌, List, [], ◌∷◌, Option, none, some, Text, Bytes, ℤ, pos, negsuc, length, ◌==◌,
  text_eq, Outcome, ok, raise,
}

pub data StoreError : Type 0 where
  value_error index_error version_too_large version_not_found invalid_shard_index : StoreError

pub record VersionMetadata : Type 0 where
  pub name : Text
  pub total_size : ℕ
  pub shard_size : ℕ
  pub shard_count : ℕ
  pub checksum : Text

-- `==` of the frozen dataclass.
unfoldable pub metadata_eq : VersionMetadata → VersionMetadata → Bool
metadata_eq m n =
    text_eq m.name n.name
    && ((m.total_size == n.total_size)
        && ((m.shard_size == n.shard_size)
            && ((m.shard_count == n.shard_count) && text_eq m.checksum n.checksum)))

-- `content` is the field `data`, the bytes of a version that was stored whole.
pub record StoredVersion : Type 0 where
  pub metadata : VersionMetadata
  pub content : Option Bytes
  pub shards : List (ℕ × Bytes)
  pub shard_checksums : List Text

unfoldable pub shard_bytes : List (ℕ × Bytes) → ℕ
shard_bytes [] = 0
shard_bytes ((i, b) ∷ shards) = length b + shard_bytes shards

unfoldable pub stored_bytes : StoredVersion → ℕ
stored_bytes v = elim v.content [ some b ↦ length b | none ↦ shard_bytes v.shards ]

-- `size` is the running count `_size`. Where the source subtracts from it, the accounting
-- theorems show that the count is at least what is taken away, so `-` on ℕ is exact.
pub record CheckpointStore : Type 0 where
  pub capacity : ℕ
  pub size : ℕ
  pub versions : List (Text × StoredVersion)

unfoldable pub init : ℤ → Outcome StoreError CheckpointStore
init (pos capacity) = ok (record { capacity = capacity; size = 0; versions = [] })
init (negsuc _) = raise value_error

-- A call that changes the store and returns or raises; what was changed before a raise stays.
abbrev pub Call : Type 0 → Type 0
Call A = CheckpointStore → Outcome StoreError A × CheckpointStore
