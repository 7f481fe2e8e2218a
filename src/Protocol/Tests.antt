-- ===== src/Protocol/Tests.antt =====
-- Frames and streams on small inputs, and the theorems about them at such inputs. The codec of the
-- tests takes a text for its own bytes and knows one JSON document.
use litecast.Common.{
  ℕ, ◌≡◌, refl, [], ◌∷◌, ◌++◌, some, Bytes, pos, codes, text_eq, is_empty, ok, raise, ◌>>◌, arith,
  take, drop,
}
use litecast.Protocol.Words.{pack, unpack}
use litecast.Protocol.Json.{
  integer, text, array, Items, end, item, object, field, done, Codec, find_field, has_exactly,
}
use litecast.Protocol.Frames.{
  protocol_error, type_error, MessageType, Frame, type_code, message_type_of, encode_frame,
  decode_header, decode_frame, max_payload,
}
use litecast.Protocol.Indices.{
  frame_with, require_type, index_of, indices_of, index_of_json, indices_of_items, count_items,
  all_hashable, contains, all_distinct, check_batch, check_items, items_of, text_of, value_of,
  shard_request, batch_request, items_of_json,
}
use litecast.Protocol.Messages.{
  check_version, encode_text, decode_text, load_object, encode_get_shard, decode_get_shard,
  decode_get_shards, read_shard_request, read_batch_request, encode_chunk_data, decode_chunk_data,
  validate_message,
}
use litecast.Protocol.Stream.{
  prepend, frame_of, checked, next_body, next_frame, drain, feed, FrameDecoder, decode_frames,
}
use litecast.Protocol.RoundTrip.{decode_frame-encode_frame}
use litecast.Protocol.Delivery.{after, encode_frames, feed-append, decode_frames-encode_frames}
use litecast.Protocol.Requests.{
  decode_chunk_data-encode_chunk_data, decode_get_shard-encode_get_shard,
}
use litecast.Protocol.Batches.{IsBatch, decode_get_shards-IsBatch}

program : Unit {0}
unfolding text_eq is_empty pack unpack find_field has_exactly type_code message_type_of encode_frame
    decode_header decode_frame frame_with require_type index_of indices_of index_of_json
    indices_of_items count_items all_hashable contains all_distinct check_batch check_items items_of
    text_of value_of shard_request batch_request items_of_json check_version encode_text decode_text
    load_object encode_get_shard decode_get_shard decode_get_shards read_shard_request
    read_batch_request encode_chunk_data decode_chunk_data validate_message prepend frame_of checked
    next_body next_frame drain feed decode_frames encode_frames
program = tt

-- `loads` knows the request for the shard 3 of `v1`.
abbrev single : Codec
single = record {
  encode = some;
  decode = some;
  dumps = λ j. 7 ∷ [];
  dumps_utf8 = λ j. some (7 ∷ []);
  loads = λ b. some (
      object (
        field (codes "index") (integer (pos 3))
          (field (codes "version") (text (codes "v1")) done)));
}

abbrev batch_of : Items → Codec
batch_of items = record single {
  loads = λ b. some (
      object
        (field (codes "version") (text (codes "v1")) (field (codes "indices") (array items) done)));
}

abbrev chunk : Frame
chunk = record {
  message_type = MessageType.chunk_data;
  payload = 0 ∷ 0 ∷ 1 ∷ 2 ∷ 5 ∷ 6 ∷ [];
  flags = 258;
  protocol_version = 1;
}

abbrev goodbye : Frame
goodbye = record {
  message_type = MessageType.shutdown;
  payload = [];
  flags = 0;
  protocol_version = 1;
}

abbrev wire : Bytes
wire =
    codes "SCST"
    ++ (1 ∷ 3 ∷ 1 ∷ 2 ∷ 0 ∷ 0 ∷ 0 ∷ 0 ∷ 0 ∷ 0 ∷ 0 ∷ 6 ∷ 0 ∷ 0 ∷ 1 ∷ 2 ∷ 5 ∷ 6 ∷ [])
    ++ codes "SCST"
    ++ (1 ∷ 5 ∷ 0 ∷ 0 ∷ 0 ∷ 0 ∷ 0 ∷ 0 ∷ 0 ∷ 0 ∷ 0 ∷ 0 ∷ [])

run_stream :
    (encode_frames (pos 100) (chunk ∷ goodbye ∷ []) ≡ ok wire)
    × (decode_frames (validate_message single) wire (pos 100) ≡ ok (chunk ∷ goodbye ∷ []))
    × (decode_frames (validate_message single) (take 30 wire) (pos 100) ≡ raise protocol_error)
    × (decode_chunk_data chunk ≡ ok (258, 5 ∷ 6 ∷ []))
unfolding program
run_stream = (refl, refl, refl, refl)

decode_frame-encode_frame_example :
    (raw : Bytes) × (encode_frame 3 chunk.payload (pos 258) (pos 1) (pos 100) ≡ ok raw)
    × (decode_frame (validate_message single) raw (pos 100)
        ≡ (validate_message single chunk >> ok chunk))
unfolding type_code
decode_frame-encode_frame_example =
    decode_frame-encode_frame (validate_message single) MessageType.chunk_data chunk.payload 258 100
      (omega arith) (omega arith) (omega arith)

decode_frames-encode_frames_example :
    (raw : Bytes) × (encode_frames (pos 100) (chunk ∷ goodbye ∷ []) ≡ ok raw)
    × (decode_frames (validate_message single) raw (pos 100) ≡ ok (chunk ∷ goodbye ∷ []))
unfolding program
decode_frames-encode_frames_example =
    decode_frames-encode_frames (validate_message single) 100 (chunk ∷ goodbye ∷ []) (
      record {
        versioned = refl;
        flagged = omega arith;
        sized = omega arith;
        wide = omega arith;
        valid = refl;
      },
      (
        record {
          versioned = refl;
          flagged = omega arith;
          sized = omega arith;
          wide = omega arith;
          valid = refl;
        },
        tt,
      ),
    )

abbrev fresh : FrameDecoder
fresh = record { maximum = 100; buffer = [] }

feed-append_example :
    feed (validate_message single) fresh (take 30 wire ++ drop 30 wire)
    ≡ after (chunk ∷ []) (
        feed
          (validate_message single)
          (feed (validate_message single) fresh (take 30 wire)).1
          (drop 30 wire))
unfolding program
feed-append_example =
    feed-append (validate_message single) fresh (take 30 wire) (drop 30 wire) (chunk ∷ []) refl

abbrev chunk_wire : Bytes
chunk_wire =
    codes "SCST" ++ (1 ∷ 3 ∷ 0 ∷ 0 ∷ 0 ∷ 0 ∷ 0 ∷ 0 ∷ 0 ∷ 0 ∷ 0 ∷ 6 ∷ 0 ∷ 0 ∷ 1 ∷ 2 ∷ 5 ∷ 6 ∷ [])

decode_chunk_data-encode_chunk_data_example :
    (i : ℕ) × (pos 258 ≡ pos i)
    × (frame : Frame) × (decode_frame (validate_message single) chunk_wire (pos max_payload)
        ≡ ok frame)
    × (decode_chunk_data frame ≡ ok (i, 5 ∷ 6 ∷ []))
unfolding program
decode_chunk_data-encode_chunk_data_example =
    decode_chunk_data-encode_chunk_data single (pos 258) (5 ∷ 6 ∷ []) chunk_wire refl

abbrev request_wire : Bytes
request_wire = codes "SCST" ++ (1 ∷ 6 ∷ 0 ∷ 0 ∷ 0 ∷ 0 ∷ 0 ∷ 0 ∷ 0 ∷ 0 ∷ 0 ∷ 1 ∷ 7 ∷ [])

decode_get_shard-encode_get_shard_example :
    (frame : Frame) × (decode_frame (validate_message single) request_wire (pos max_payload)
      ≡ ok frame)
    × (decode_get_shard single frame ≡ ok (codes "v1", 3))
unfolding program
decode_get_shard-encode_get_shard_example =
    decode_get_shard-encode_get_shard single (codes "v1") 3 request_wire refl refl

abbrev two : Items
two = item (integer (pos 4)) (item (integer (pos 2)) end)

abbrev batch_frame : Frame
batch_frame = record goodbye { message_type = MessageType.get_shards; payload = 7 ∷ [] }

decode_get_shards-IsBatch_example : IsBatch (4 ∷ 2 ∷ [])
unfolding program
decode_get_shards-IsBatch_example =
    decode_get_shards-IsBatch (batch_of two) batch_frame (codes "v1") (4 ∷ 2 ∷ []) refl

-- A nested list among the indices is refused by `set`, not by the protocol.
nested_list : decode_get_shards (batch_of (item (array end) end)) batch_frame ≡ raise type_error
unfolding program
nested_list = refl
