-- ===== src/Store/Read.antt =====
-- litecast/store.py: the calls of `CheckpointStore` that leave it as it is. A read-only view is the
-- bytes that it shows.
use litecast.Common.{
  ℕ, zero, suc, ◌+◌, ◌*◌, min, Bool, true, false, List, [], ◌∷◌, map, Option, none, some, Text,
  Bytes, ℤ, pos, negsuc, length, ◌==◌, leb, ltb, text_dec, get_elem?, slice, Outcome, ok, raise,
  ◌>>=◌, if◌then◌else◌,
}
use native.Mathlib.Decide.{ℕ_discrete}
use litecast.Common.Dict
use litecast.Store.Types.{
  StoreError, index_error, version_not_found, VersionMetadata, StoredVersion, CheckpointStore,
}
use litecast.Store.Write.{check_index}

abbrev pub used_bytes : CheckpointStore → ℕ
used_bytes s = s.size

abbrev pub version_count : CheckpointStore → ℕ
version_count s = length s.versions

abbrev pub find_version : CheckpointStore → Text → Option StoredVersion
find_version s name = Dict.get text_dec name s.versions

unfoldable pub contains : CheckpointStore → Text → Bool
contains s name = elim (find_version s name) [ none ↦ false | some _ ↦ true ]

stored_has_shard : ℤ → StoredVersion → Bool
stored_has_shard (negsuc _) stored = false
stored_has_shard (pos i) stored = elim stored.content [
  | some _ ↦ ltb i stored.metadata.shard_count
  | none ↦ elim (Dict.get ℕ_discrete i stored.shards) [ none ↦ false | some _ ↦ true ]
]

unfoldable pub has_shard : CheckpointStore → Text → ℤ → Bool
unfolding stored_has_shard
has_shard s name index = elim (find_version s name) [
  | none ↦ false
  | some stored ↦ stored_has_shard index stored
]

unfoldable pub range_from : ℕ → ℕ → List ℕ
range_from start zero = []
range_from start (suc n) = start ∷ range_from (start + 1) n

insert_sorted : ℕ → List ℕ → List ℕ
insert_sorted i [] = i ∷ []
insert_sorted i (j ∷ js) = if leb i j then i ∷ j ∷ js else j ∷ insert_sorted i js

unfoldable pub sorted : List ℕ → List ℕ
unfolding insert_sorted
sorted [] = []
sorted (i ∷ is) = insert_sorted i (sorted is)

unfoldable pub available_shards : CheckpointStore → Text → List ℕ
unfolding range_from sorted
available_shards s name = elim (find_version s name) [
  | none ↦ []
  | some stored ↦ elim stored.content [
    | some _ ↦ range_from 0 stored.metadata.shard_count
    | none ↦ sorted (map (λ e. e.0) stored.shards)
  ]
]

unfoldable pub is_complete : CheckpointStore → Text → Bool
is_complete s name = elim (find_version s name) [
  | none ↦ false
  | some stored ↦ elim stored.content [
    | some _ ↦ true
    | none ↦ length stored.shards == stored.metadata.shard_count
  ]
]

unfoldable pub get : CheckpointStore → Text → Option Bytes
get s name = elim (find_version s name) [ none ↦ none | some stored ↦ stored.content ]

unfoldable pub get_metadata : CheckpointStore → Text → Option VersionMetadata
get_metadata s name = elim (find_version s name) [
  | none ↦ none
  | some stored ↦ some stored.metadata
]

-- `data[start:end]` of a whole version.
unfoldable pub shard_slice : VersionMetadata → Bytes → ℕ → Bytes
shard_slice m content i =
    slice (i * m.shard_size) (min (i * m.shard_size + m.shard_size) m.total_size) content

-- A shard of a version, whole or in progress.
unfoldable pub read_shard : StoredVersion → ℕ → Outcome StoreError Bytes
unfolding shard_slice
read_shard stored i = elim stored.content [
  | some content ↦ ok (shard_slice stored.metadata content i)
  | none ↦ elim (Dict.get ℕ_discrete i stored.shards) [
    | none ↦ raise version_not_found
    | some shard ↦ ok shard
  ]
]

unfoldable pub get_shard : CheckpointStore → Text → ℤ → Outcome StoreError Bytes
unfolding read_shard check_index
get_shard s name index = elim (find_version s name) [
  | none ↦ raise version_not_found
  | some stored ↦ do i ← check_index index stored.metadata; read_shard stored i
]

unfoldable pub list_versions : CheckpointStore → List VersionMetadata
list_versions s = map (λ e. e.1.metadata) s.versions

module _ (hexdigest : Bytes → Text) where
  -- The registered checksum of a shard, or the digest of its bytes where none is registered.
  unfoldable pub shard_checksum : List Text → ℕ → Bytes → Outcome StoreError Text
  shard_checksum [] i shard = ok (hexdigest shard)
  shard_checksum (c ∷ cs) i shard = elim (get_elem? (c ∷ cs) i) [
    | none ↦ raise index_error
    | some checksum ↦ ok checksum
  ]

  unfoldable pub get_shard_with_checksum :
      CheckpointStore → Text → ℤ → Outcome StoreError (Bytes × Text)
  unfolding read_shard check_index shard_checksum
  get_shard_with_checksum s name index = elim (find_version s name) [
    | none ↦ raise version_not_found
    | some stored ↦ do
      i ← check_index index stored.metadata
      shard ← read_shard stored i
      checksum ← shard_checksum stored.shard_checksums i shard
      ok (shard, checksum)
  ]

  unfoldable pub get_shard_checksum : CheckpointStore → Text → ℤ → Outcome StoreError Text
  unfolding get_shard_with_checksum
  get_shard_checksum s name index = do
    (_, checksum) ← get_shard_with_checksum s name index
    ok checksum
