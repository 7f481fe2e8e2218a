-- ===== src/Transport/Integrity.antt =====
-- litecast/transport/ucxx.py: what a client is sure of, whatever its peer sends.
use litecast.Common.{
  ℕ, zero, suc, ◌+◌, ◌-◌, ◌*◌, ◌≤◌, min, [], ◌++◌, Option, none, some, Text, Bytes, pos, length,
  length-append, text_eq→eq, ok, ◌≡◌, refl, ◌∙◌, arith,
}
use litecast.Common.Effects.{ensures-continue, ensures_end, ensures-lift}
use litecast.Store.Types.{VersionMetadata}
use litecast.Store.Checks.{count_shards}
use litecast.Protocol.Json.{Codec}
use litecast.Protocol.Frames.{MessageType}
use litecast.Protocol.Messages.{
  encode_get_shard, encode_named, decode_shard_metadata, decode_metadata,
}
use litecast.Transport.Wire.{Endpoint, check_shard_metadata, validate_metadata}
use litecast.Transport.Metadata.{chunk_bytes, chunk_bytes-total, validate_metadata-ok}
use litecast.Transport.Client.{
  check_digest, or_other, ask, receive, receive_into, check_target, check_integrity, exchange_shard,
  receive_chunks, exchange_version,
}

-- The digest passed both tests.
pub check_integrity-ok :
    (digest advertised : Text) (expected : Option Text) (c : Text)
    → check_integrity digest advertised expected ≡ ok tt
    → expected ≡ some c
    → digest ≡ c
unfolding check_integrity
check_integrity-ok digest advertised none c h e = cc
check_integrity-ok digest advertised (some expected) c h e =
    text_eq→eq digest expected (ground (arith, text_eq→eq digest expected)) ∙ ground arith

check_digest-ok : (digest wanted : Text) → check_digest digest wanted ≡ ok tt → digest ≡ wanted
unfolding check_digest
check_digest-ok digest wanted h = ground (arith, text_eq→eq digest wanted)

check_target-ok :
    (target : Option ℕ) (size n : ℕ) → check_target target size ≡ ok tt → target ≡ some n → size ≡ n
unfolding check_target
check_target-ok none size n h e = cc
check_target-ok (some k) size n h e = ground arith

module _ {S : Type 0} (endpoint : Endpoint S)
    (fills : (n : ℕ) (s : S) (raw : Bytes) (s' : S)
      → endpoint.recv n s ≡ some (raw, s')
      → length raw ≡ n) where
  receive-length :
      (n : ℕ) (s : S) (raw : Bytes) (s' : S) → receive endpoint n s ≡ (ok raw, s') → length raw ≡ n
  unfolding receive
  receive-length n s raw s' h = ground (arith, fills n s raw s')

  pub receive_into-length :
      (n : ℕ) (s : S) (raw : Bytes) (s' : S)
      → receive_into endpoint n s ≡ (ok raw, s')
      → length raw ≡ n
  unfolding receive_into
  receive_into-length n s raw s' h = ground (arith, receive-length n s raw s')

  module _ (codec : Codec) (hexdigest : Bytes → Text) (real_index : Text → Option ℕ) where
    -- The bytes of a shard have the digest that goes with them, the expected digest where one is
    -- given, and the length of the target where one is given.
    abbrev pub IsVerified : Option Text → Option ℕ → Bytes × Text → S → Type 0
    IsVerified expected target r s =
        (r.1 ≡ hexdigest r.0)
        × ((c : Text) → expected ≡ some c → hexdigest r.0 ≡ c)
        × ((n : ℕ) → target ≡ some n → length r.0 ≡ n)

    -- Where receiving fills a buffer and a fetch of a shard returns, whatever the peer sent: the
    -- returned checksum is the digest of the bytes and, where one is expected, the expected one,
    -- and the bytes have the length of the target where there is one.
    pub exchange_shard-IsVerified :
        (version : Text) (i : ℕ) (expected : Option Text) (target : Option ℕ) (s : S)
        (r : Bytes × Text) (s' : S)
        → exchange_shard endpoint codec hexdigest real_index version i expected target s
          ≡ (ok r, s')
        → IsVerified expected target r s'
    unfolding exchange_shard
    exchange_shard-IsVerified version i expected target s =
        let P = IsVerified expected target in
        ensures-continue P (ask endpoint codec (encode_get_shard codec version (pos i)) s) _
          λ frame s1 _.
            ensures-lift P (or_other (decode_shard_metadata codec MessageType.shard_metadata frame))
              s1 _
              λ value _.
                ensures-lift P (check_shard_metadata real_index version i value) s1 _ λ m _.
                  ensures-lift P (check_target target m.0) s1 _ λ _ fits.
                    ensures-continue P (receive_into endpoint m.0 s1) _ λ content s2 got.
                      ensures-lift P (check_integrity (hexdigest content) m.1 expected) s2 _
                        λ _ passed b s3.
                          ensures_end P (content, hexdigest content) b s2 s3
                            (
                              refl,
                              λ c e. check_integrity-ok (hexdigest content) m.1 expected c passed e,
                              λ n e.
                                  receive_into-length m.0 s1 content s2 got
                                  ∙ check_target-ok target m.0 n fits e,
                            )

    receive_chunks-length :
        (m : VersionMetadata) (i n : ℕ) (s : S) (content : Bytes) (s' : S)
        → receive_chunks endpoint codec hexdigest real_index m i n s ≡ (ok content, s')
        → length content ≡ chunk_bytes m i n
    unfolding receive_chunks chunk_bytes
    receive_chunks-length m i zero s content s' h =
        ensures_end (λ (b : Bytes) (_ : S). length b ≡ 0) [] content s s' (omega arith) h
    receive_chunks-length m i (suc n) s content s' h =
        let start = i * m.shard_size in
        let size = min (start + m.shard_size) m.total_size - start in
        let P : Bytes → S → Type 0 = λ b _. length b ≡ size + chunk_bytes m (i + 1) n in
        ensures-continue P (receive endpoint size s) _
          (λ chunk s1 got.
            ensures-continue P (receive_chunks endpoint codec hexdigest real_index m (i + 1) n s1) _
              λ rest s2 later b s3. ensures_end P (chunk ++ rest) b s2 s3 (
                omega (
                  arith,
                  length-append chunk rest,
                  receive-length size s chunk s1 got,
                  receive_chunks-length m (i + 1) n s1 rest s2 later,
                )))
          content s' h

    -- A version: its metadata is that of a version of its name, the bytes are as many as it says,
    -- within the limit, and have its checksum.
    pub record IsVerifiedVersion (version : Text) (maximum : ℕ) (r : Bytes × VersionMetadata)
        : Type 0 where
      pub named : r.1.name ≡ version
      pub counted : r.1.shard_count ≡ count_shards r.1.total_size r.1.shard_size
      pub sized : length r.0 ≡ r.1.total_size
      pub limited : r.1.total_size ≤ maximum
      pub authentic : hexdigest r.0 ≡ r.1.checksum

    -- Where receiving fills a buffer and a fetch of a version returns, whatever the peer sent: the
    -- metadata has the requested name and the count of shards that its sizes need, the bytes are as
    -- many as it says and within the limit, and their digest is its checksum.
    pub exchange_version-IsVerified :
        (version : Text) (maximum : ℕ) (s : S) (r : Bytes × VersionMetadata) (s' : S)
        → exchange_version endpoint codec hexdigest real_index version maximum s ≡ (ok r, s')
        → IsVerifiedVersion version maximum r
    unfolding exchange_version
    exchange_version-IsVerified version maximum s =
        let P : Bytes × VersionMetadata → S → Type 0 = λ r _. IsVerifiedVersion version maximum r in
        ensures-continue P
          (ask endpoint codec (encode_named codec MessageType.get_version version) s) _
          λ frame s1 _. ensures-lift P (or_other (decode_metadata codec frame)) s1 _ λ response _.
            ensures-lift P (validate_metadata response version maximum) s1 _ λ m valid.
              ensures-continue P
                (receive_chunks endpoint codec hexdigest real_index m 0 m.shard_count s1) _
                λ content s2 got.
                  ensures-lift P (check_digest (hexdigest content) m.checksum) s2 _ λ _ passed b s3.
                    let (named, counted, limited, positive) =
                      validate_metadata-ok response version maximum m valid in
                    ensures_end P (content, m) b s2 s3
                      (record {
                        named = named;
                        counted = counted;
                        sized =
                            receive_chunks-length m 0 m.shard_count s1 content s2 got
                            ∙ chunk_bytes-total m positive counted;
                        limited = limited;
                        authentic = check_digest-ok (hexdigest content) m.checksum passed;
                      })
