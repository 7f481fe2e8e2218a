-- ===== src/Streaming/ManifestTests.antt =====
-- The manifest of five bytes in three shards, and the theorem about it. The digest of the tests is
-- the length of the bytes.
use litecast.Common.{
  ℕ, ◌%◌, ◌≡◌, refl, arith, [], ◌∷◌, some, Bytes, pos, negsuc, length, codes, Outcome, ok, raise,
  is_empty,
}
use native.Mathlib.Nat.{mod-lt}
use litecast.Store.Checks.{count_shards}
use litecast.Protocol.Words.{AreBytes}
use litecast.Streaming.Members.{PlacementError, value_error, index_error}
use litecast.Streaming.Merkle.{
  fromhex, hex_digit, hex, leaf, node, next_level, reduce, leaves, root_of, merkle_root, nibble,
  is_ascii_space,
}
use litecast.Streaming.Manifest.{ShardManifest, shard_length, shard_digests, build_manifest}
use litecast.Streaming.Description.{Describes, build_manifest-Describes}

program : Unit {0}
unfolding is_empty count_shards fromhex nibble is_ascii_space hex_digit hex leaf node next_level
    reduce leaves root_of merkle_root shard_length shard_digests build_manifest
program = tt

abbrev size_digest : Bytes → Bytes
size_digest raw = (length raw % 256) ∷ []

size_digest-AreBytes : (raw : Bytes) → AreBytes (size_digest raw)
size_digest-AreBytes raw = (mod-lt (length raw) (omega arith), tt)

abbrev five : Bytes
five = 1 ∷ 2 ∷ 3 ∷ 4 ∷ 5 ∷ []

abbrev described : ShardManifest ℕ
described = record {
  name = codes "v1";
  total_size = 5;
  shard_size = 2;
  shard_count = 3;
  checksum = codes "05";
  shard_checksums = codes "02" ∷ codes "02" ∷ codes "01" ∷ [];
  members = [];
  replication_factor = pos 1;
  merkle_root = some (codes "10");
  member_profiles = [];
  schema = 2;
}

abbrev refused : Outcome PlacementError (ShardManifest ℕ)
refused = build_manifest size_digest (codes "v1") five (negsuc 0)

run_manifest :
    (build_manifest size_digest (codes "v1") five (pos 2) ≡ ok described)
    × (shard_length described (pos 2) ≡ ok 1)
    × (shard_length described (pos 3) ≡ raise index_error)
    × (refused ≡ raise value_error)
unfolding program
run_manifest = (refl, refl, refl, refl)

build_manifest-Describes_example :
    (m : ShardManifest ℕ) × (build_manifest size_digest (codes "v1") five (pos 2) ≡ ok m)
    × Describes size_digest five m
build_manifest-Describes_example =
    build_manifest-Describes size_digest (codes "v1") five 2 size_digest-AreBytes (omega arith)
      (omega arith)
