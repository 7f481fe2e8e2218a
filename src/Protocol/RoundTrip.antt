-- ===== src/Protocol/RoundTrip.antt =====
-- litecast/protocol.py: `encode_frame`, and `decode_frame` of what it writes.
use litecast.Common.{
  drop-append, take-append, length-append, ℕ, ◌+◌, ◌^◌, ◌≤◌, ◌<◌, ◌≡◌, refl, ◌++◌, Bytes, pos,
  length, take, drop, slice, text_eq, Outcome, ok, ◌>>◌, arith,
}
use litecast.Protocol.Words.{pack, unpack, unpack-pack}
use litecast.Protocol.Frames.{
  WireError, MessageType, type_code, message_type_of, magic, current_version, header_size, Frame,
  encode_frame, decode_header, decode_frame,
}

pub message_type_of-type_code : (k : MessageType) → message_type_of (type_code k) ≡ ok k
unfolding message_type_of type_code
message_type_of-type_code MessageType.get_version = refl
message_type_of-type_code MessageType.version_metadata = refl
message_type_of-type_code MessageType.chunk_data = refl
message_type_of-type_code MessageType.error = refl
message_type_of-type_code MessageType.shutdown = refl
message_type_of-type_code MessageType.get_shard = refl
message_type_of-type_code MessageType.shard_metadata = refl
message_type_of-type_code MessageType.wait_version = refl
message_type_of-type_code MessageType.version_available = refl
message_type_of-type_code MessageType.get_shards = refl
message_type_of-type_code MessageType.shards_metadata = refl

type_code-lt : (k : MessageType) → type_code k < 256
unfolding type_code
type_code-lt MessageType.get_version = omega arith
type_code-lt _ = omega arith

-- The sixteen bytes of a header.
unfoldable pub header_bytes : MessageType → ℕ → ℕ → Bytes
header_bytes k flags size =
    magic ++ (pack 1 current_version ++ (pack 1 (type_code k) ++ (pack 2 flags ++ pack 8 size)))

pub length-header_bytes :
    (k : MessageType) (flags size : ℕ) → length (header_bytes k flags size) ≡ 16
unfolding header_bytes pack
length-header_bytes k flags size = refl

pub decode_header-header_bytes :
    (k : MessageType) (flags size limit : ℕ)
    → flags ≤ 0xffff
    → size ≤ limit
    → size < 2 ^ 64
    → decode_header (header_bytes k flags size) (pos limit)
      ≡ ok (record { kind = k; flags = flags; payload_size = size })
unfolding decode_header header_bytes pack text_eq
decode_header-header_bytes k flags size limit f s w =
    let raw = header_bytes k flags size in
    let version : unpack (slice 4 5 raw) ≡ 1 = unpack-pack 1 1 (omega arith) in
    let code : unpack (slice 5 6 raw) ≡ type_code k =
      unpack-pack 1 (type_code k) (omega (arith, type_code-lt k)) in
    let flag : unpack (slice 6 8 raw) ≡ flags = unpack-pack 2 flags (omega arith) in
    let payload : unpack (slice 8 16 raw) ≡ size = unpack-pack 8 size (omega arith) in
    rw (version, code, message_type_of-type_code k, payload, flag) (ground arith)

-- What `encode_frame` writes: the header, and the payload as it is.
pub encode_frame-eq :
    (k : MessageType) (body : Bytes) (flags limit : ℕ)
    → flags ≤ 0xffff
    → length body ≤ limit
    → length body < 2 ^ 64
    → encode_frame (type_code k) body (pos flags) (pos current_version) (pos limit)
      ≡ ok (header_bytes k flags (length body) ++ body)
unfolding encode_frame header_bytes
encode_frame-eq k body flags limit f s w = ground (arith, message_type_of-type_code k)

module _ (validate_message : Frame → Outcome WireError (Unit {0})) where
  -- A header and a payload of its size are decoded to the frame, if the payload is valid.
  pub decode_frame-eq :
      (k : MessageType) (body : Bytes) (flags limit : ℕ)
      → flags ≤ 0xffff
      → length body ≤ limit
      → length body < 2 ^ 64
      → let frame : Frame = record {
        message_type = k;
        payload = body;
        flags = flags;
        protocol_version = current_version;
      } in
        decode_frame validate_message (header_bytes k flags (length body) ++ body) (pos limit)
        ≡ (validate_message frame >> ok frame)
  unfolding decode_frame
  decode_frame-eq k body flags limit f s w =
      let head = header_bytes k flags (length body) in
      let raw = head ++ body in
      let size : length raw ≡ 16 + length body =
        omega (arith, length-append head body, length-header_bytes k flags (length body)) in
      let front : take header_size raw ≡ head =
        take-append 16 head body (length-header_bytes k flags (length body)) in
      let back : drop header_size raw ≡ body =
        drop-append 16 head body (length-header_bytes k flags (length body)) in
      rw (size, front, back, decode_header-header_bytes k flags (length body) limit f s w)
        (ground arith)

  -- A payload within the limits is framed, and the frame is decoded to what was framed, if the
  -- message is valid, or to the error of its check.
  pub decode_frame-encode_frame :
      (k : MessageType) (body : Bytes) (flags limit : ℕ)
      → flags ≤ 0xffff
      → length body ≤ limit
      → length body < 2 ^ 64
      → let frame : Frame = record {
        message_type = k;
        payload = body;
        flags = flags;
        protocol_version = current_version;
      } in
        (raw : Bytes) × (encode_frame
            (type_code k)
            body
            (pos flags)
            (pos current_version)
            (pos limit)
          ≡ ok raw)
        × (decode_frame validate_message raw (pos limit) ≡ (validate_message frame >> ok frame))
  decode_frame-encode_frame k body flags limit f s w = (
    header_bytes k flags (length body) ++ body,
    encode_frame-eq k body flags limit f s w,
    decode_frame-eq k body flags limit f s w,
  )
