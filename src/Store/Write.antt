-- ===== src/Store/Write.antt =====
-- litecast/store.py: the calls of `CheckpointStore` that change it. A buffer is the bytes that it
-- holds when the call is made.
use litecast.Common.{
  ℕ, ◌+◌, ◌-◌, ◌*◌, min, Bool, true, false, not, ◌&&◌, ◌||◌, List, [], ◌∷◌, Option, none, some,
  Text, Bytes, ℤ, pos, negsuc, length, ◌==◌, ltb, text_eq, text_dec, is_empty, lower, get_elem?,
  Outcome, ok, raise, ◌>>=◌, ◌>>◌, if◌then◌else◌,
}
use native.Mathlib.Decide.{ℕ_discrete}
use litecast.Common.Dict
use litecast.Store.Types.{
  StoreError, value_error, index_error, version_too_large, version_not_found, invalid_shard_index,
  VersionMetadata, metadata_eq, StoredVersion, CheckpointStore, stored_bytes, Call,
}
use litecast.Store.Checks.{Check, check_put, check_put_verified, validate_name, validate_shard_size}

-- The loop of `_store_complete`: the oldest version goes until `need` bytes fit, or none is left.
unfoldable pub evict : ℕ → ℕ → CheckpointStore → List (Text × StoredVersion) → CheckpointStore
evict need size s [] = record s { size = size; versions = [] }
evict need size s ((name, v) ∷ versions) =
    let rest = evict need (size - stored_bytes v) s versions in
    if ltb s.capacity (size + need)
    then rest
    else record s { size = size; versions = (name, v) ∷ versions }

-- `self._versions.pop(name, None)` with its subtraction.
unfoldable pub pop_version : Text → CheckpointStore → CheckpointStore
pop_version name s = elim (Dict.get text_dec name s.versions) [
  | none ↦ s
  | some previous ↦ record s {
    size = s.size - stored_bytes previous;
    versions = Dict.remove text_dec name s.versions;
  }
]

unfoldable pub store_complete :
    VersionMetadata → Bytes → List Text → CheckpointStore → CheckpointStore
store_complete metadata retained shard_checksums s =
    let stored : StoredVersion = record {
      metadata = metadata;
      content = some retained;
      shards = [];
      shard_checksums = shard_checksums;
    } in
    let popped = pop_version metadata.name s in
    let left = evict (length retained) popped.size popped popped.versions in
    record left {
      versions = Dict.set text_dec metadata.name stored left.versions;
      size = left.size + length retained;
    }

-- The tail of `put` and `put_verified`, once the arguments are validated.
unfoldable pub complete :
    Outcome StoreError (VersionMetadata × List Text) → Bytes → Call VersionMetadata
unfolding store_complete
complete (raise e) retained s = (raise e, s)
complete (ok (metadata, checksums)) retained s =
    (ok metadata, store_complete metadata retained checksums s)

module _ (hexdigest : Bytes → Text) where
  unfoldable pub put : Text → Bytes → ℤ → Option Text → List Text → Call VersionMetadata
  unfolding complete
  put name content shard_size checksum shard_checksums s =
      complete (check_put hexdigest s.capacity name content shard_size checksum shard_checksums)
        content s

unfoldable pub put_verified : Text → Bytes → ℤ → Text → List Text → Call VersionMetadata
unfolding complete
put_verified name content shard_size checksum shard_checksums s =
    complete (check_put_verified s.capacity name content shard_size checksum shard_checksums)
      content s

unfoldable pub texts_eq : List Text → List Text → Bool
texts_eq [] [] = true
texts_eq (a ∷ s) (b ∷ t) = text_eq a b && texts_eq s t
texts_eq _ _ = false

unfoldable pub check_begin : VersionMetadata → List Text → Check
check_begin metadata checksums = do
  validate_name metadata.name
  _ ← validate_shard_size (pos metadata.shard_size)
  if length checksums == metadata.shard_count then ok tt else raise value_error

-- `begin_version` on a name that is stored: the metadata has to be the same, and the checksums
-- too, unless the stored version has none and takes these.
unfoldable pub begin_existing : VersionMetadata → List Text → StoredVersion → Call VersionMetadata
begin_existing metadata checksums existing s =
    if not (metadata_eq existing.metadata metadata)
      || not (is_empty existing.shard_checksums || texts_eq existing.shard_checksums checksums)
    then (raise value_error, s)
    else if is_empty existing.shard_checksums
    then (
      ok existing.metadata,
      record s {
        versions =
            Dict.set text_dec metadata.name (record existing { shard_checksums = checksums })
              s.versions;
      },
    )
    else (ok existing.metadata, s)

unfoldable pub begin_new : VersionMetadata → List Text → Call VersionMetadata
begin_new metadata checksums s = (
  ok metadata,
  record s {
    versions =
        Dict.set text_dec metadata.name
          (record { metadata = metadata; content = none; shards = []; shard_checksums = checksums })
          s.versions;
  },
)

unfoldable pub begin_version : VersionMetadata → List Text → Call VersionMetadata
begin_version metadata checksums s = elim (check_begin metadata checksums) [
  | raise e ↦ (raise e, s)
  | ok _ ↦ elim (Dict.get text_dec metadata.name s.versions) [
    | some existing ↦ begin_existing metadata checksums existing s
    | none ↦ begin_new metadata checksums s
  ]
]

-- The bound `0 <= index < shard_count` of every call on a shard.
unfoldable pub check_index : ℤ → VersionMetadata → Outcome StoreError ℕ
check_index (negsuc _) m = raise invalid_shard_index
check_index (pos i) m = if ltb i m.shard_count then ok i else raise invalid_shard_index

-- `n == min(shard_size, total_size - i * shard_size)` with `i * shard_size` added on both sides,
-- since the difference may be negative.
unfoldable pub has_shard_size : VersionMetadata → ℕ → ℕ → Bool
has_shard_size m i n = n + i * m.shard_size == min (m.shard_size + i * m.shard_size) m.total_size

-- The digest test of `_put_shard`.
unfoldable pub check_shard_digest : Text → List Text → ℕ → Check
check_shard_digest digest [] i = ok tt
check_shard_digest digest (c ∷ cs) i = elim (get_elem? (c ∷ cs) i) [
  | none ↦ raise index_error
  | some expected ↦ if text_eq digest expected then ok tt else raise value_error
]

-- The loop of `_put_shard`: the oldest version goes until the shard fits, but not `name` itself.
-- `held + size` and `need` stand for the source's `size` and its `additional = need - held`.
unfoldable pub evict_others :
    Text → ℕ → ℕ → ℕ → CheckpointStore → List (Text × StoredVersion) → CheckpointStore
evict_others name need held size s [] = record s { size = size; versions = [] }
evict_others name need held size s ((oldest, v) ∷ versions) =
    let rest = evict_others name need held (size - stored_bytes v) s versions in
    if ltb (s.capacity + held) (size + need) && not (text_eq oldest name)
    then rest
    else record s { size = size; versions = (oldest, v) ∷ versions }

unfoldable pub held_bytes : Option Bytes → ℕ
held_bytes none = 0
held_bytes (some b) = length b

unfoldable pub check_shard : ℤ → ℕ → Text → StoredVersion → Outcome StoreError ℕ
unfolding check_index
check_shard index n digest stored = do
  i ← check_index index stored.metadata
  (if has_shard_size stored.metadata i n then ok tt else raise value_error)
  check_shard_digest digest stored.shard_checksums i
  ok i

-- The part of `_put_shard` behind the checks. The object `stored` is the entry of `name`, which
-- no eviction removes.
unfoldable pub insert_shard : Text → ℕ → Bytes → StoredVersion → Call Bytes
insert_shard name i retained stored s =
    let held = held_bytes (Dict.get ℕ_discrete i stored.shards) in
    let left = evict_others name (length retained) held s.size s s.versions in
    if ltb (left.capacity + held) (left.size + length retained)
    then (raise version_too_large, left)
    else (
      ok retained,
      record left {
        versions =
            Dict.set text_dec name
              (record stored { shards = Dict.set ℕ_discrete i retained stored.shards })
              left.versions;
        size = left.size + length retained - held;
      },
    )

-- `_put_shard`, with the digest that is compared: the given one, or that of the bytes.
unfoldable pub put_shard_as : Text → ℤ → Bytes → Text → Call Bytes
unfolding check_shard insert_shard
put_shard_as name index retained digest s = elim (Dict.get text_dec name s.versions) [
  | none ↦ (raise version_not_found, s)
  | some stored ↦ elim (check_shard index (length retained) digest stored) [
    | raise e ↦ (raise e, s)
    | ok i ↦ insert_shard name i retained stored s
  ]
]

module _ (hexdigest : Bytes → Text) where
  unfoldable pub put_shard : Text → ℤ → Bytes → Call Bytes
  unfolding put_shard_as
  put_shard name index retained = put_shard_as name index retained (hexdigest retained)

unfoldable pub put_verified_shard : Text → ℤ → Bytes → Text → Call Bytes
unfolding put_shard_as
put_verified_shard name index retained verified_checksum =
    put_shard_as name index retained (lower verified_checksum)

-- The flag tells whether the version existed.
unfoldable pub remove : Text → CheckpointStore → Bool × CheckpointStore
remove name s = elim (Dict.get text_dec name s.versions) [
  | none ↦ (false, s)
  | some stored ↦ (
    true,
    record s {
      versions = Dict.remove text_dec name s.versions;
      size = s.size - stored_bytes stored;
    },
  )
]

unfoldable pub clear : CheckpointStore → CheckpointStore
clear s = record s { versions = []; size = 0 }
