-- ===== src/Transport/Delivery.antt =====
-- litecast/transport/ucxx.py: `fetch_shard` on an endpoint whose peer is a `UCXXServer`. What
-- either side sends arrives in order.
use litecast.Common.{
  ℕ, ◌≤◌, ◌==◌, true, List, [], ◌∷◌, Option, none, some, Text, Bytes, pos, length, text_eq,
  text_eq_refl, is_empty, ok, if◌then◌else◌, ◌≡◌, refl, arith,
}
use litecast.Store.Read.{get_shard_with_checksum}
use litecast.Protocol.Json.{object, Fields, Codec, find_field, all_keys}
use litecast.Protocol.Frames.{MessageType, Frame, decode_frame, type_code}
use litecast.Protocol.Indices.{shard_request, frame_with}
use litecast.Protocol.Messages.{
  encode_get_shard, encode_shard_metadata, decode_shard_metadata, load_object, validate_message,
  ignore,
}
use litecast.Protocol.Requests.{
  frame_of_type, frame_with-decode, require_type_self, decode_get_shard-within,
}
use litecast.Streaming.Members.{mem}
use litecast.Transport.Wire.{
  Endpoint, max_metadata_size, max_shard_size, is_checksum, all_present, has_keys, is_text,
  checksum_of, demand, plain_int, as_index, equals_index, check_shard_metadata,
}
use litecast.Transport.Client.{
  or_other, is_error, check_integrity, check_target, send, receive_obj, receive, receive_into,
  receive_frame, refuse_error, ask, exchange_shard,
}
use litecast.Transport.Server.{
  Message, obj, raw, Moments, send_obj, send_nonempty, shard_fields, reply_shard, serve_shard,
  serve_kind, serve_request, receive_and_serve,
}

-- The two sides of a connection: the messages of the server that the client has not received. The
-- server receives a request where the client sends it.
unfoldable pub recv_message : ℕ → List Message → Option (Bytes × List Message)
recv_message n [] = none
recv_message n (obj bytes ∷ queue) = none
recv_message n (raw bytes ∷ queue) = if length bytes == n then some (bytes, queue) else none

unfoldable pub recv_object : List Message → Option (Bytes × List Message)
recv_object [] = none
recv_object (raw bytes ∷ queue) = none
recv_object (obj bytes ∷ queue) = some (bytes, queue)

unfoldable pub connected : Codec → (Bytes → Text) → Moments → ℕ → Endpoint (List Message)
unfolding receive_and_serve recv_message recv_object
connected codec hexdigest moments maximum = record {
  create = some [];
  send_obj =
      λ request queue. some (receive_and_serve codec hexdigest moments maximum request queue).1;
  recv_obj = recv_object;
  recv = recv_message;
}

recv_message-length :
    (n : ℕ) (queue : List Message) (bytes : Bytes) (rest : List Message)
    → recv_message n queue ≡ some (bytes, rest)
    → length bytes ≡ n
unfolding recv_message
recv_message-length n [] bytes rest h = absurd (cc)
recv_message-length n (obj first ∷ queue) bytes rest h = absurd (cc)
recv_message-length n (raw first ∷ queue) bytes rest h = ground arith

-- A receive fills its buffer.
pub connected-fills :
    (codec : Codec) (hexdigest : Bytes → Text) (moments : Moments) (maximum n : ℕ)
    (queue : List Message) (bytes : Bytes) (rest : List Message)
    → (connected codec hexdigest moments maximum).recv n queue ≡ some (bytes, rest)
    → length bytes ≡ n
unfolding connected
connected-fills codec hexdigest moments maximum n queue bytes rest h =
    recv_message-length n queue bytes rest h

check_shard_metadata-shard_fields :
    (real_index : Text → Option ℕ) (version : Text) (i size : ℕ) (checksum : Text)
    → size ≤ max_shard_size
    → is_checksum checksum ≡ true
    → check_shard_metadata real_index version i (shard_fields version i size checksum)
      ≡ ok (size, checksum)
unfolding check_shard_metadata shard_fields has_keys all_present is_text checksum_of demand
    plain_int as_index equals_index find_field all_keys mem text_eq
check_shard_metadata-shard_fields real_index version i size checksum small hex =
    rw (text_eq_refl version, hex) (ground arith)

module _ (codec : Codec) (hexdigest : Bytes → Text) where
  decode_shard_metadata-encode_shard_metadata :
      (fields : Fields) (reply : Bytes)
      → encode_shard_metadata codec MessageType.shard_metadata fields ≡ ok reply
      → codec.loads (codec.dumps (object fields)) ≡ some (object fields)
      → length (codec.dumps (object fields)) ≤ max_metadata_size
      → let frame : Frame =
          frame_of_type MessageType.shard_metadata (codec.dumps (object fields)) in
        (decode_frame (validate_message codec) reply (pos max_metadata_size) ≡ ok frame)
        × (decode_shard_metadata codec MessageType.shard_metadata frame ≡ ok fields)
  unfolding encode_shard_metadata decode_shard_metadata validate_message load_object ignore
  decode_shard_metadata-encode_shard_metadata fields reply h law short =
      let payload = codec.dumps (object fields) in
      let sent : frame_with MessageType.shard_metadata payload ≡ ok reply = ground arith in
      let typed = require_type_self MessageType.shard_metadata payload in
      (
        frame_with-decode (validate_message codec) MessageType.shard_metadata payload reply
            max_metadata_size sent short (rw (typed, load_object, law) refl),
        rw (typed, load_object, law) refl,
      )

  module _ (real_index : Text → Option ℕ) (moments : Moments) (maximum : ℕ) (version : Text) (i : ℕ)
      (shard checksum request reply : Bytes)
      (stored : get_shard_with_checksum hexdigest moments.first version (pos i)
        ≡ ok (shard, checksum))
      (asked : encode_get_shard codec version (pos i) ≡ ok request)
      (asked_law : codec.loads (codec.dumps (shard_request version i))
        ≡ some (shard_request version i))
      (asked_short : length (codec.dumps (shard_request version i)) ≤ max_metadata_size)
      (replied : encode_shard_metadata codec MessageType.shard_metadata
          (shard_fields version i (length shard) checksum)
        ≡ ok reply)
      (replied_law : codec.loads
          (codec.dumps (object (shard_fields version i (length shard) checksum)))
        ≡ some (object (shard_fields version i (length shard) checksum)))
      (replied_short : length
          (codec.dumps (object (shard_fields version i (length shard) checksum)))
        ≤ max_metadata_size)
      (small : length shard ≤ max_shard_size) (hex : is_checksum checksum ≡ true)
      (intact : hexdigest shard ≡ checksum) where
    replies : List Message
    replies = obj reply ∷ (if is_empty shard then [] else raw shard ∷ [])

    serve-replies : receive_and_serve codec hexdigest moments maximum request [] ≡ (ok tt, replies)
    unfolding receive_and_serve or_other serve_request serve_kind serve_shard reply_shard send_obj
        send_nonempty replies
    serve-replies =
        let (framed, read) =
          decode_get_shard-within codec version i request max_metadata_size asked asked_law
            asked_short in
        rw (framed, read, or_other, stored, replied) (ground arith)

    ask-replies :
        ask
          (connected codec hexdigest moments maximum)
          codec
          (encode_get_shard codec version (pos i))
          []
        ≡ (
          ok (
              frame_of_type MessageType.shard_metadata
                (codec.dumps (object (shard_fields version i (length shard) checksum)))),
          if is_empty shard then [] else raw shard ∷ [],
        )
    unfolding ask or_other send receive_frame receive_obj refuse_error is_error connected
        recv_object replies type_code
    ask-replies =
        let (framed, read) =
          decode_shard_metadata-encode_shard_metadata
            (shard_fields version i (length shard) checksum) reply replied replied_law
            replied_short in
        rw (asked, serve-replies, framed) refl

    receive_into-replies :
        receive_into
          (connected codec hexdigest moments maximum)
          (length shard)
          (if is_empty shard then [] else raw shard ∷ [])
        ≡ (ok shard, [])
    unfolding receive_into receive connected recv_message is_empty
    receive_into-replies =
        elim shard
          as (λ b.
            receive_into (connected codec hexdigest moments maximum) (length b)
              (if is_empty b then [] else raw b ∷ [])
            ≡ (ok b, [])) [ [] ↦ refl | b ∷ bs ↦ ground arith ]

    -- A client that is connected to a server receives a shard that the store of the server has, and
    -- no message is left over, if json.loads reverses json.dumps on the request and on the
    -- metadata, both are encoded and at most 16 KiB, the shard is at most 1 GiB, and the checksum
    -- of the store is the digest of the shard, in 64 lower hexadecimal digits.
    pub exchange_shard-connected :
        exchange_shard
          (connected codec hexdigest moments maximum)
          codec
          hexdigest
          real_index
          version
          i
          (some checksum)
          (some (length shard))
          []
        ≡ (ok (shard, checksum), [])
    unfolding exchange_shard or_other check_target check_integrity
    exchange_shard-connected =
        let (framed, read) =
          decode_shard_metadata-encode_shard_metadata
            (shard_fields version i (length shard) checksum) reply replied replied_law
            replied_short in
        let fits : check_target (some (length shard)) (length shard) ≡ ok tt = ground arith in
        let verified : check_integrity checksum checksum (some checksum) ≡ ok tt =
          ground (arith, text_eq_refl checksum) in
        rw
          (
            ask-replies,
            read,
            check_shard_metadata-shard_fields real_index version i (length shard) checksum small
                hex,
            fits,
            receive_into-replies,
            intact,
            verified,
          )
          refl
