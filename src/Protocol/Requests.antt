-- ===== src/Protocol/Requests.antt =====
-- Requests and chunks that are encoded, framed, read as a frame and decoded.
use litecast.Common.{
  inr, inl, ℕ, ◌≤◌, ◌≡◌, sym, ap, ◌∙◌, ◌++◌, some, Bytes, Text, ℤ, pos, negsuc, length, text_eq,
  Outcome, ok, arith, Outcome-cases, inl, inr,
}
use litecast.Protocol.Words.{pack, unpack, unpack-pack}
use litecast.Protocol.Json.{Codec, find_field, has_exactly}
use litecast.Protocol.Frames.{
  WireError, MessageType, Frame, decode_frame, max_payload, current_version,
}
use litecast.Protocol.RoundTrip.{header_bytes, message_type_of-type_code, decode_frame-eq}
use litecast.Protocol.Indices.{
  value_of, text_of, shard_request, index_of_json, frame_with, require_type, index_of,
}
use litecast.Protocol.Messages.{
  ignore, read_shard_request, check_version, load_object, encode_get_shard, decode_get_shard,
  encode_chunk_data, decode_chunk_data, validate_message,
}

abbrev pub frame_of_type : MessageType → Bytes → Frame
frame_of_type k payload = record {
  message_type = k;
  payload = payload;
  flags = 0;
  protocol_version = current_version;
}

frame_with-ok :
    (k : MessageType) (payload raw : Bytes)
    → frame_with k payload ≡ ok raw
    → (raw ≡ header_bytes k 0 (length payload) ++ payload) × (length payload ≤ max_payload)
unfolding frame_with header_bytes
frame_with-ok k payload raw sent = ground (arith, message_type_of-type_code k)

pub require_type_self :
    (k : MessageType) (payload : Bytes) → require_type k (frame_of_type k payload) ≡ ok tt
unfolding require_type
require_type_self k payload = ground arith

-- What a framed payload reads back as, where the reader's limit lets it pass.
pub frame_with-decode :
    (validate : Frame → Outcome WireError (Unit {0})) (k : MessageType) (payload raw : Bytes)
    (limit : ℕ)
    → frame_with k payload ≡ ok raw
    → length payload ≤ limit
    → validate (frame_of_type k payload) ≡ ok tt
    → decode_frame validate raw (pos limit) ≡ ok (frame_of_type k payload)
frame_with-decode validate k payload raw limit sent short valid =
    let (bytes, fits) = frame_with-ok k payload raw sent in
    rw (bytes, decode_frame-eq validate k payload 0 limit (omega arith) short (omega arith), valid)

index_of-ok : (z : ℤ) (i : ℕ) → index_of z ≡ ok i → (z ≡ pos i) × (i ≤ 0xffffffff)
unfolding index_of
index_of-ok (negsuc n) i h = cc
index_of-ok (pos n) i h = ground arith

encode_chunk_data-ok :
    (z : ℤ) (body raw : Bytes)
    → encode_chunk_data z body ≡ ok raw
    → (i : ℕ) × (index_of z ≡ ok i)
      × (frame_with MessageType.chunk_data (pack 4 i ++ body) ≡ ok raw)
unfolding encode_chunk_data
encode_chunk_data-ok z body raw h = elim (Outcome-cases (index_of z)) [
  | inl (e, refused) ↦ ground arith
  | inr (i, accepted) ↦ (i, accepted, ground arith)
]

chunk_frame : ℕ → Bytes → Frame
chunk_frame i body = frame_of_type MessageType.chunk_data (pack 4 i ++ body)

decode_chunk_data-chunk_frame :
    (i : ℕ) (body : Bytes) → i ≤ 0xffffffff → decode_chunk_data (chunk_frame i body) ≡ ok (i, body)
unfolding decode_chunk_data chunk_frame pack
decode_chunk_data-chunk_frame i body h =
    let number : unpack (pack 4 i) ≡ i = unpack-pack 4 i (omega arith) in
    rw (require_type_self MessageType.chunk_data (pack 4 i ++ body), number) (ground arith)

module _ (codec : Codec) where
  chunk_frame-valid : (i : ℕ) (body : Bytes) → validate_message codec (chunk_frame i body) ≡ ok tt
  unfolding validate_message chunk_frame pack
  chunk_frame-valid i body = ground arith

  -- A chunk that is encoded is read as one frame, and decoded to its index and its bytes.
  pub decode_chunk_data-encode_chunk_data :
      (z : ℤ) (body raw : Bytes)
      → encode_chunk_data z body ≡ ok raw
      → (i : ℕ) × (z ≡ pos i)
        × (frame : Frame) × (decode_frame (validate_message codec) raw (pos max_payload) ≡ ok frame)
        × (decode_chunk_data frame ≡ ok (i, body))
  unfolding chunk_frame
  decode_chunk_data-encode_chunk_data z body raw h =
      let (i, accepted, sent) = encode_chunk_data-ok z body raw h in
      let (same, fits) = index_of-ok z i accepted in
      (
        i,
        same,
        chunk_frame i body,
        frame_with-decode (validate_message codec) MessageType.chunk_data (pack 4 i ++ body) raw
            max_payload sent (frame_with-ok MessageType.chunk_data (pack 4 i ++ body) raw sent).1
            (chunk_frame-valid i body),
        decode_chunk_data-chunk_frame i body fits,
      )

  encode_get_shard-ok :
      (version : Text) (z : ℤ) (raw : Bytes)
      → encode_get_shard codec version z ≡ ok raw
      → (check_version codec version ≡ ok tt)
        × (i : ℕ) × (index_of z ≡ ok i)
        × (frame_with MessageType.get_shard (codec.dumps (shard_request version i)) ≡ ok raw)
  unfolding encode_get_shard
  encode_get_shard-ok version z raw h = elim (Outcome-cases (index_of z)) [
    | inl (e, refused) ↦ ground arith
    | inr (i, accepted) ↦ (ground arith, i, accepted, ground arith)
  ]

  read_shard_request-shard_request :
      (version : Text) (i : ℕ)
      → check_version codec version ≡ ok tt
      → index_of (pos i) ≡ ok i
      → (payload : Bytes) → codec.loads payload ≡ some (shard_request version i)
      → decode_get_shard codec (frame_of_type MessageType.get_shard payload) ≡ ok (version, i)
  unfolding decode_get_shard load_object read_shard_request shard_request has_exactly find_field
      text_eq index_of_json text_of value_of
  read_shard_request-shard_request version i v n payload l =
      rw (require_type_self MessageType.get_shard payload, load_object, l, v, n)

  -- The payload of a shard request that is encoded.
  pub encode_get_shard-frame :
      (version : Text) (i : ℕ) (raw : Bytes)
      → encode_get_shard codec version (pos i) ≡ ok raw
      → frame_with MessageType.get_shard (codec.dumps (shard_request version i)) ≡ ok raw
  encode_get_shard-frame version i raw h =
      let (named, k, accepted, sent) = encode_get_shard-ok version (pos i) raw h in
      let same : k ≡ i = ground (arith, index_of-ok (pos i) k accepted) in
      ap (λ (n : ℕ). frame_with MessageType.get_shard (codec.dumps (shard_request version n)))
        (sym same)
      ∙ sent

  -- A reader with a limit that the request keeps to.
  pub decode_get_shard-within :
      (version : Text) (i : ℕ) (raw : Bytes) (limit : ℕ)
      → encode_get_shard codec version (pos i) ≡ ok raw
      → codec.loads (codec.dumps (shard_request version i)) ≡ some (shard_request version i)
      → length (codec.dumps (shard_request version i)) ≤ limit
      → let frame : Frame =
          frame_of_type MessageType.get_shard (codec.dumps (shard_request version i)) in
        (decode_frame (validate_message codec) raw (pos limit) ≡ ok frame)
        × (decode_get_shard codec frame ≡ ok (version, i))
  unfolding validate_message ignore
  decode_get_shard-within version i raw limit h law short =
      let (named, k, accepted, sent) = encode_get_shard-ok version (pos i) raw h in
      let payload = codec.dumps (shard_request version i) in
      let same : k ≡ i = ground (arith, index_of-ok (pos i) k accepted) in
      let number : index_of (pos i) ≡ ok i = accepted ∙ ap ok same in
      let read = read_shard_request-shard_request version i named number payload law in
      (
        frame_with-decode (validate_message codec) MessageType.get_shard payload raw limit
            (encode_get_shard-frame version i raw h) short (rw read),
        read,
      )

  -- A shard request that is encoded is read as one frame, and decoded to its version and its
  -- index, if `json.loads` reverses `json.dumps` on the request.
  pub decode_get_shard-encode_get_shard :
      (version : Text) (i : ℕ) (raw : Bytes)
      → encode_get_shard codec version (pos i) ≡ ok raw
      → codec.loads (codec.dumps (shard_request version i)) ≡ some (shard_request version i)
      → (frame : Frame) × (decode_frame (validate_message codec) raw (pos max_payload) ≡ ok frame)
        × (decode_get_shard codec frame ≡ ok (version, i))
  decode_get_shard-encode_get_shard version i raw h law =
      let payload = codec.dumps (shard_request version i) in
      let sent = encode_get_shard-frame version i raw h in
      let (framed, read) =
        decode_get_shard-within version i raw max_payload h law
          (frame_with-ok MessageType.get_shard payload raw sent).1 in
      (frame_of_type MessageType.get_shard payload, framed, read)
