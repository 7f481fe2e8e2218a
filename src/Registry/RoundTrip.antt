-- ===== src/Registry/RoundTrip.antt =====
-- litecast/registry/protocol.py: `pack_adapter`, and `split_adapter` of what it writes.
use litecast.Common.{
  ℕ, ◌+◌, ◌-◌, ◌≤◌, ◌<◌, ◌≡◌, refl, true, ◌&&◌, ◌++◌, ◌==◌, Option, Text, Bytes, pos, length,
  length-append, take-append, drop-append, drop-drop, slice, take, drop, leb, ltb, text_eq,
  text_eq_refl, ok, arith,
}
use litecast.Protocol.Json.{Json}
use litecast.Protocol.Words.{pack, unpack, length-pack, unpack-pack}
use litecast.Registry.Bundles.{
  require, magic, max_config_bytes, check_config, split_adapter, pack_adapter, Publication, verify,
}

-- A bundle whose header passes the tests.
split_adapter-parts :
    (loads : Bytes → Option Json) (raw config weights : Bytes)
    → (leb 16 (length raw) && text_eq (take 8 raw) magic) ≡ true
    → unpack (slice 8 16 raw) ≡ length config
    → ((ltb 0 (length config) && leb (length config) max_config_bytes)
        && ltb (16 + length config) (length raw))
      ≡ true
    → slice 16 (16 + length config) raw ≡ config
    → drop (16 + length config) raw ≡ weights
    → check_config loads config ≡ ok tt
    → split_adapter loads raw ≡ ok (config, weights)
unfolding split_adapter require
split_adapter-parts loads raw config weights h size fits front back lora =
    rw (h, size, fits, front, back, lora) refl

-- A publication of the bundle itself verifies it.
verify-own :
    (sha256 : Bytes → Text) (loads : Bytes → Option Json) (p : Publication) (raw : Bytes)
    (parts : Bytes × Bytes)
    → split_adapter loads raw ≡ ok parts
    → verify sha256 loads (record p { size = pos (length raw); digest = sha256 raw }) raw ≡ ok tt
unfolding verify require
verify-own sha256 loads p raw parts split =
    let same : (length raw == length raw) ≡ true = ground arith in
    rw (same, text_eq_refl (sha256 raw), split) refl

module _ (config weights : Bytes) where
  -- What is written for two files.
  abbrev bundle : Bytes
  bundle = magic ++ (pack 8 (length config) ++ (config ++ weights))

  bundle-length : length bundle ≡ 16 + length config + length weights
  bundle-length = omega (
    arith,
    length-append magic (pack 8 (length config) ++ (config ++ weights)),
    length-append (pack 8 (length config)) (config ++ weights),
    length-pack 8 (length config),
    length-append config weights,
  )

  behind_header : drop 16 bundle ≡ config ++ weights
  behind_header =
      drop-append 8 (pack 8 (length config)) (config ++ weights) (length-pack 8 (length config))

  size_field : length config ≤ max_config_bytes → unpack (slice 8 16 bundle) ≡ length config
  size_field small =
      rw
        (take-append 8 (pack 8 (length config)) (config ++ weights) (length-pack 8 (length config)))
        (unpack-pack 8 (length config) (omega arith))

  config_part : slice 16 (16 + length config) bundle ≡ config
  config_part =
      let e : 16 + length config - 16 ≡ length config = omega arith in
      rw (e, behind_header) (take-append (length config) config weights refl)

  weights_part : drop (16 + length config) bundle ≡ weights
  weights_part =
      rw (← drop-drop 16 (length config) bundle, behind_header)
        (drop-append (length config) config weights refl)

  module _ (loads : Bytes → Option Json) where
    split_adapter-written :
        0 < length config
        → length config ≤ max_config_bytes
        → 0 < length weights
        → check_config loads config ≡ ok tt
        → split_adapter loads bundle ≡ ok (config, weights)
    split_adapter-written some_config small some_weights lora =
        let total = bundle-length in
        split_adapter-parts loads bundle config weights (ground (arith, total, text_eq_refl magic))
          (size_field small) (ground (arith, total)) config_part weights_part lora

    -- If the configuration is that of a LoRA adapter, the files are not empty, and they fit within
    -- the limits, `pack_adapter` returns a bundle of at most `max_bytes` bytes, `split_adapter`
    -- gives the two files back, and a publication with the size and the digest of the bundle
    -- verifies it.
    pub split_adapter-pack_adapter :
        (sha256 : Bytes → Text) (max_bytes : ℕ) (p : Publication)
        → 0 < length config
        → length config ≤ max_config_bytes
        → 0 < length weights
        → 16 + length config + length weights ≤ max_bytes
        → check_config loads config ≡ ok tt
        → (raw : Bytes) × (pack_adapter loads config weights max_bytes ≡ ok raw)
          × (length raw ≤ max_bytes)
          × (split_adapter loads raw ≡ ok (config, weights))
          × (verify sha256 loads (record p { size = pos (length raw); digest = sha256 raw }) raw
              ≡ ok tt)
    unfolding pack_adapter verify require
    split_adapter-pack_adapter sha256 max_bytes p some_config small some_weights fits lora =
        let split = split_adapter-written some_config small some_weights lora in
        let within : leb (length config) max_config_bytes ≡ true = ground arith in
        let fits' : leb (length magic + 8 + length config + length weights) max_bytes ≡ true =
          ground arith in
        (
          bundle,
          rw (within, fits', split) refl,
          omega (arith, bundle-length),
          split,
          verify-own sha256 loads p bundle (config, weights) split,
        )
