-- ===== src/Streaming/Description.antt =====
-- litecast/streaming.py: the manifest of `build_manifest`, beside the slices that a store serves.
use litecast.Common.{
  drop, ℕ, zero, suc, ◌+◌, ◌-◌, ◌*◌, ◌<◌, min, ◌==◌, leb, List, [], ◌∷◌, some, Text, Bytes, pos,
  length, length-take, length-drop, slice, get_elem?, is_empty, false, ok, ◌≡◌, refl, ap, ◌∙◌,
  arith,
}
use litecast.Store.Types.{VersionMetadata}
use litecast.Store.Checks.{count_shards}
use litecast.Store.Read.{shard_slice}
use litecast.Store.Slices.{shard_slice-take}
use litecast.Protocol.Words.{AreBytes}
use litecast.Streaming.Merkle.{hex, merkle_root, leaf, leaves, root_of, reduce}
use litecast.Streaming.Hex.{fromhex-hex}
use litecast.Streaming.Manifest.{ShardManifest, shard_length, shard_digests, build_manifest}

-- The metadata in a manifest.
abbrev pub metadata_of : {F : Type 0} → ShardManifest F → VersionMetadata
metadata_of m = record {
  name = m.name;
  total_size = m.total_size;
  shard_size = m.shard_size;
  shard_count = m.shard_count;
  checksum = m.checksum;
}

module _ (digest : Bytes → Bytes) (md : VersionMetadata) (content : Bytes)
    (sized : md.total_size ≡ length content) where
  shard_digests-get :
      (n i k : ℕ)
      → k < n
      → get_elem? (shard_digests digest content md.shard_size i n) k
        ≡ some (hex (digest (shard_slice md content (i + k))))
  unfolding shard_digests shard_slice
  shard_digests-get zero i k h = absurd (omega arith)
  shard_digests-get (suc n) i zero h =
      let here : i + 0 ≡ i = omega arith in
      let next : (i + 1) * md.shard_size ≡ i * md.shard_size + md.shard_size = omega arith in
      rw (here, next, sized) refl
  shard_digests-get (suc n) i (suc k) h =
      let later : i + suc k ≡ (i + 1) + k = omega arith in
      rw later (shard_digests-get n (i + 1) k (omega arith))

  shard_slice-length :
      (i : ℕ)
      → length (shard_slice md content i) ≡ min md.shard_size (md.total_size - i * md.shard_size)
  shard_slice-length i = rw (shard_slice-take md content sized i) (
      omega (
        arith,
        sized,
        length-take md.shard_size (drop (i * md.shard_size) content),
        length-drop (i * md.shard_size) content,
      ))

-- A digest of bytes is bytes, so the leaves of the tree can be computed.
leaves-shard_digests :
    (digest : Bytes → Bytes) (content : Bytes) (size i n : ℕ)
    → ((x : Bytes) → AreBytes (digest x))
    → (level : List Bytes) × (leaves digest (shard_digests digest content size i n) ≡ ok level)
unfolding shard_digests leaves
leaves-shard_digests digest content size i zero octets = ([], refl)
leaves-shard_digests digest content size i (suc n) octets =
    let (level, rest) = leaves-shard_digests digest content size (i + 1) n octets in
    let shard = slice (i * size) (min ((i + 1) * size) (length content)) content in
    (leaf digest (digest shard) ∷ level, rw (fromhex-hex (digest shard) (octets shard), rest) refl)

-- A manifest of some bytes, as a store cuts them in shards.
pub record Describes {F : Type 0} (digest : Bytes → Bytes) (content : Bytes) (m : ShardManifest F)
    : Type 0 where
  pub sized : m.total_size ≡ length content
  pub counted : m.shard_count ≡ count_shards m.total_size m.shard_size
  pub rooted :
      (root : Text) × (m.merkle_root ≡ some root) × (merkle_root digest m.shard_checksums ≡ ok root)
  pub shards :
      (i : ℕ)
      → i < m.shard_count
      → (get_elem? m.shard_checksums i
          ≡ some (hex (digest (shard_slice (metadata_of m) content i))))
        × (shard_length m (pos i) ≡ ok (length (shard_slice (metadata_of m) content i)))

-- If the name is not empty, the shard size is positive and digests are bytes, build_manifest
-- returns a manifest whose root is that of its checksums, with the count of shards that a store
-- needs, and at each index of a shard the digest and the length of the slice that the store serves.
pub build_manifest-Describes :
    {F : Type 0} (digest : Bytes → Bytes) (name : Text) (content : Bytes) (size : ℕ)
    → ((x : Bytes) → AreBytes (digest x))
    → 0 < length name
    → 0 < size
    → (m : ShardManifest F) × (build_manifest digest name content (pos size) ≡ ok m)
      × Describes digest content m
unfolding build_manifest shard_length is_empty merkle_root
build_manifest-Describes {F = F} digest [] content size octets named positive = absurd (omega arith)
build_manifest-Describes {F = F} digest (c ∷ name) content size octets named positive =
    let count = count_shards (length content) size in
    let checksums = shard_digests digest content size 0 count in
    let (level, computed) = leaves-shard_digests digest content size 0 count octets in
    let root = root_of digest (reduce digest (length level) level) in
    let rooted : merkle_root digest checksums ≡ ok root = rw computed refl in
    let m : ShardManifest F = record {
      name = c ∷ name;
      total_size = length content;
      shard_size = size;
      shard_count = count;
      checksum = hex (digest content);
      shard_checksums = checksums;
      members = [];
      replication_factor = pos 1;
      merkle_root = some root;
      member_profiles = [];
      schema = 2;
    } in
    let given : (size == 0) ≡ false = ground arith in
    (
      m,
      rw (given, rooted) refl,
      record {
        sized = refl;
        counted = refl;
        rooted = (root, refl, rooted);
        shards = λ i within. (
          shard_digests-get digest (metadata_of m) content refl count 0 i within
              ∙ ap (λ (k : ℕ). some (hex (digest (shard_slice (metadata_of m) content k))))
                  (omega arith),
          (let known : leb count i ≡ false = ground arith in
              rw (known, shard_slice-length digest (metadata_of m) content refl i) refl),
        );
      },
    )
