-- ===== src/Streaming/Manifest.antt =====
-- litecast/streaming.py: `ShardManifest` and `build_manifest`. `digest` is that of blake3.
use litecast.Common.{
  ℕ, zero, suc, ◌+◌, ◌-◌, ◌*◌, min, ◌||◌, ◌==◌, leb, List, [], ◌∷◌, Option, some, Text, Bytes, ℤ,
  pos, negsuc, length, slice, is_empty, Outcome, ok, raise, ◌>>=◌, if◌then◌else◌,
}
use litecast.Store.Checks.{count_shards}
use litecast.Streaming.Members.{PlacementError, value_error, index_error, Profile}
use litecast.Streaming.Merkle.{hex, merkle_root}

pub record ShardManifest (F : Type 0) : Type 0 where
  pub name : Text
  pub total_size : ℕ
  pub shard_size : ℕ
  pub shard_count : ℕ
  pub checksum : Text
  pub shard_checksums : List Text
  pub members : List Text
  pub replication_factor : ℤ
  pub merkle_root : Option Text
  pub member_profiles : List (Text × Profile F)
  pub schema : ℕ

-- The source subtracts the start of a shard, which is at most the size where the index is in range.
unfoldable pub shard_length : {F : Type 0} → ShardManifest F → ℤ → Outcome PlacementError ℕ
shard_length m (negsuc n) = raise index_error
shard_length m (pos i) =
    if leb m.shard_count i
    then raise index_error
    else ok (min m.shard_size (m.total_size - i * m.shard_size))

module _ (digest : Bytes → Bytes) where
  -- The digests of `n` shards from the shard `i` on.
  unfoldable pub shard_digests : Bytes → ℕ → ℕ → ℕ → List Text
  unfolding hex
  shard_digests content size i zero = []
  shard_digests content size i (suc n) =
      hex (digest (slice (i * size) (min ((i + 1) * size) (length content)) content))
      ∷ shard_digests content size (i + 1) n

  unfoldable pub build_manifest :
      {F : Type 0} → Text → Bytes → ℤ → Outcome PlacementError (ShardManifest F)
  unfolding is_empty count_shards shard_digests merkle_root hex
  build_manifest name content (negsuc n) = raise value_error
  build_manifest name content (pos size) =
      if is_empty name || (size == 0) then raise value_error else (do
        let count = count_shards (length content) size
        let checksums = shard_digests content size 0 count
        root ← merkle_root digest checksums
        ok (record {
          name = name;
          total_size = length content;
          shard_size = size;
          shard_count = count;
          checksum = hex (digest content);
          shard_checksums = checksums;
          members = [];
          replication_factor = pos 1;
          merkle_root = some root;
          member_profiles = [];
          schema = 2;
        }))
