-- ===== src/Transport/Metadata.antt =====
-- litecast/transport/ucxx.py: what the tests on the metadata of a version let pass, and the bytes
-- of its chunks.
use litecast.Common.{
  [], ◌∷◌, ℕ, zero, suc, ◌+◌, ◌-◌, ◌*◌, ◌≤◌, ◌<◌, min, Bool, true, false, Option, none, some, Text,
  pos, negsuc, ◌==◌, codes, ok, ensures-bind, ensures-then, ensures_ok, ◌≡◌, refl, arith, ◌∙◌,
}
use litecast.Store.Types.{VersionMetadata}
use litecast.Store.Checks.{count_shards}
use litecast.Store.Slices.{count_shards-covers}
use litecast.Protocol.Json.{
  Json, null, boolean, integer, real, text, array, object, Fields, find_field,
}
use litecast.Transport.Wire.{
  is_text, has_keys, validate_metadata, plain_int, demand, checksum_of, max_shard_size,
  max_shard_count,
}

-- The bytes of `n` chunks from the index `i` on.
unfoldable pub chunk_bytes : VersionMetadata → ℕ → ℕ → ℕ
chunk_bytes m i zero = 0
chunk_bytes m i (suc n) =
    min (i * m.shard_size + m.shard_size) m.total_size - i * m.shard_size + chunk_bytes m (i + 1) n

chunk_bytes-eq :
    (m : VersionMetadata) (n i : ℕ)
    → m.total_size ≤ (i + n) * m.shard_size
    → chunk_bytes m i n ≡ m.total_size - i * m.shard_size
unfolding chunk_bytes
chunk_bytes-eq m zero i h =
    let e : i + 0 ≡ i = omega arith in
    let h' : m.total_size ≤ i * m.shard_size = rw (← e) h in omega arith
chunk_bytes-eq m (suc n) i h =
    let next : (i + 1) * m.shard_size ≡ i * m.shard_size + m.shard_size = omega arith in
    let ih = chunk_bytes-eq m n (i + 1) (grind arith) in omega (arith, ih, next)

pub chunk_bytes-total :
    (m : VersionMetadata)
    → 0 < m.shard_size
    → m.shard_count ≡ count_shards m.total_size m.shard_size
    → chunk_bytes m 0 m.shard_count ≡ m.total_size
chunk_bytes-total m positive counted =
    let covers : m.total_size ≤ m.shard_count * m.shard_size =
      rw counted (count_shards-covers m.total_size m.shard_size positive) in
    let none : 0 * m.shard_size ≡ 0 = omega arith in
    chunk_bytes-eq m m.shard_count 0 (omega (arith, covers)) ∙ omega (arith, none)

pub demand-ok : (b : Bool) → demand b ≡ ok tt → b ≡ true
unfolding demand
demand-ok true h = refl
demand-ok false h = cc

pub plain_int-ok :
    (lower upper : ℕ) (value : Option Json) (n : ℕ)
    → plain_int lower upper value ≡ ok n
    → (lower ≤ n) × (n ≤ upper)
unfolding plain_int
plain_int-ok lower upper (some (integer (pos k))) n h = ground arith
plain_int-ok lower upper (some (integer (negsuc k))) n h = absurd (cc)
plain_int-ok lower upper (some null) n h = absurd (cc)
plain_int-ok lower upper (some (boolean b)) n h = absurd (cc)
plain_int-ok lower upper (some (real t)) n h = absurd (cc)
plain_int-ok lower upper (some (text t)) n h = absurd (cc)
plain_int-ok lower upper (some (array items)) n h = absurd (cc)
plain_int-ok lower upper (some (object fields)) n h = absurd (cc)
plain_int-ok lower upper none n h = absurd (cc)

-- The metadata that a client accepts for a name and a limit.
abbrev pub IsAccepted : Text → ℕ → VersionMetadata → Type 0
IsAccepted version maximum m =
    (m.name ≡ version)
    × (m.shard_count ≡ count_shards m.total_size m.shard_size)
    × (m.total_size ≤ maximum)
    × (0 < m.shard_size)

pub validate_metadata-ok :
    (value : Fields) (version : Text) (maximum : ℕ) (m : VersionMetadata)
    → validate_metadata value version maximum ≡ ok m
    → IsAccepted version maximum m
unfolding validate_metadata
validate_metadata-ok value version maximum =
    let P = IsAccepted version maximum in
    let entry = λ (key : Text). find_field key value in
    ensures-then P
      (demand (
        has_keys
          (codes "status"
            ∷ codes "name"
            ∷ codes "total_size"
            ∷ codes "shard_size"
            ∷ codes "shard_count"
            ∷ codes "checksum"
            ∷ [])
          value))
      _
      λ _. ensures-then P (demand (is_text (codes "ok") (entry (codes "status")))) _ λ _.
        ensures-then P (demand (is_text version (entry (codes "name")))) _ λ _.
          ensures-bind P (plain_int 0 maximum (entry (codes "total_size"))) _ λ total t.
            ensures-bind P (plain_int 1 max_shard_size (entry (codes "shard_size"))) _ λ size s.
              ensures-bind P (plain_int 0 max_shard_count (entry (codes "shard_count"))) _
                λ count _. ensures-then P (demand (count == count_shards total size)) _ λ counted.
                  ensures-bind P (checksum_of (entry (codes "checksum"))) _ λ checksum _ b.
                    ensures_ok P
                      (record {
                        name = version;
                        total_size = total;
                        shard_size = size;
                        shard_count = count;
                        checksum = checksum;
                      })
                      b
                      (
                        refl,
                        ground (arith, demand-ok (count == count_shards total size) counted),
                        (plain_int-ok 0 maximum (entry (codes "total_size")) total t).1,
                        (plain_int-ok 1 max_shard_size (entry (codes "shard_size")) size s).0,
                      )
