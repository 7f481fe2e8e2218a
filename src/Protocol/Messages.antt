-- ===== src/Protocol/Messages.antt =====
-- litecast/protocol.py: the payload of each message, encoded and decoded, and the check of a
-- decoded frame.
use litecast.Protocol.Indices.{
  text_of, value_of, shard_request, batch_request, items_of_json, frame_with, require_type,
  index_of, indices_of, index_of_json, check_batch, check_items,
}
use litecast.Common.{
  ℕ, ◌-◌, ◌||◌, List, [], ◌++◌, none, some, Bytes, Text, ℤ, length, take, drop, codes, ltb,
  is_empty, Outcome, ok, raise, ◌>>=◌, ◌>>◌, if◌then◌else◌,
}
use litecast.Protocol.Words.{pack, unpack}
use litecast.Protocol.Json.{object, Fields, Codec, find_field, has_exactly}
use litecast.Protocol.Frames.{
  WireError, protocol_error, unicode_error, MessageType, Frame, max_payload, max_text,
  max_version_name,
}

module _ (codec : Codec) where
  open codec use {encode, decode, dumps, dumps_utf8, loads}

  unfoldable pub encode_text : Text → ℕ → Outcome WireError Bytes
  unfolding is_empty
  encode_text value maximum = elim (encode value) [
    | none ↦ raise unicode_error
    | some payload ↦
        if is_empty payload || ltb maximum (length payload)
        then raise protocol_error
        else ok payload
  ]

  unfoldable pub decode_text : Bytes → ℕ → Outcome WireError Text
  unfolding is_empty
  decode_text payload maximum =
      if is_empty payload || ltb maximum (length payload)
      then raise protocol_error
      else elim (decode payload) [ none ↦ raise protocol_error | some value ↦ ok value ]

  -- `not version or len(version.encode("utf-8")) > MAX_VERSION_NAME_SIZE`
  unfoldable pub check_version : Text → Outcome WireError (Unit {0})
  unfolding is_empty
  check_version version = if is_empty version then raise protocol_error else elim (encode version) [
    | none ↦ raise unicode_error
    | some bytes ↦ if ltb max_version_name (length bytes) then raise protocol_error else ok tt
  ]

  -- The three messages that carry a version name alone.
  unfoldable pub encode_named : MessageType → Text → Outcome WireError Bytes
  unfolding encode_text
  encode_named k version = do payload ← encode_text version max_version_name; frame_with k payload

  unfoldable pub decode_named : MessageType → Frame → Outcome WireError Text
  unfolding decode_text
  decode_named k frame = do require_type k frame; decode_text frame.payload max_version_name

  unfoldable pub encode_error : Text → Outcome WireError Bytes
  unfolding encode_text
  encode_error message = do
    payload ← encode_text message max_text
    frame_with MessageType.error payload

  unfoldable pub decode_error : Frame → Outcome WireError Text
  unfolding decode_text
  decode_error frame = do require_type MessageType.error frame; decode_text frame.payload max_text

  unfoldable pub load_object : Bytes → Outcome WireError Fields
  load_object payload = elim (loads payload) [
    | some (object fields) ↦ ok fields
    | _ ↦ raise protocol_error
  ]

  unfoldable pub encode_get_shard : Text → ℤ → Outcome WireError Bytes
  unfolding shard_request
  encode_get_shard version index = do
    check_version version
    i ← index_of index
    frame_with MessageType.get_shard (dumps (shard_request version i))

  -- The dictionary of a shard request, behind `json.loads`.
  unfoldable pub read_shard_request : Fields → Outcome WireError (Text × ℕ)
  unfolding text_of value_of index_of_json
  read_shard_request fields = do
    if has_exactly (codes "version") (codes "index") fields then ok tt else raise protocol_error
    version ← text_of (find_field (codes "version") fields)
    check_version version
    j ← value_of (find_field (codes "index") fields)
    index ← index_of_json j
    ok (version, index)

  unfoldable pub decode_get_shard : Frame → Outcome WireError (Text × ℕ)
  decode_get_shard frame = do
    require_type MessageType.get_shard frame
    fields ← load_object frame.payload
    read_shard_request fields

  unfoldable pub encode_get_shards : Text → List ℤ → Outcome WireError Bytes
  unfolding batch_request
  encode_get_shards version indices = do
    check_version version
    values ← indices_of indices
    checked ← check_batch values
    frame_with MessageType.get_shards (dumps (batch_request version checked))

  unfoldable pub read_batch_request : Fields → Outcome WireError (Text × List ℕ)
  unfolding text_of items_of_json
  read_batch_request fields = do
    if has_exactly (codes "version") (codes "indices") fields then ok tt else raise protocol_error
    version ← text_of (find_field (codes "version") fields)
    check_version version
    items ← items_of_json (find_field (codes "indices") fields)
    values ← check_items items
    ok (version, values)

  unfoldable pub decode_get_shards : Frame → Outcome WireError (Text × List ℕ)
  decode_get_shards frame = do
    require_type MessageType.get_shards frame
    fields ← load_object frame.payload
    read_batch_request fields

  check_text_size : Bytes → Outcome WireError (Unit {0})
  check_text_size payload = if ltb max_text (length payload) then raise protocol_error else ok tt

  -- `encode_shard_metadata` and `encode_shards_metadata`.
  unfoldable pub encode_shard_metadata : MessageType → Fields → Outcome WireError Bytes
  unfolding check_text_size
  encode_shard_metadata k metadata = do
    let payload = dumps (object metadata)
    check_text_size payload
    frame_with k payload

  -- `decode_shard_metadata` and `decode_shards_metadata`.
  unfoldable pub decode_shard_metadata : MessageType → Frame → Outcome WireError Fields
  decode_shard_metadata k frame = do require_type k frame; load_object frame.payload

  unfoldable pub encode_metadata : Fields → Outcome WireError Bytes
  unfolding check_text_size
  encode_metadata metadata = elim (dumps_utf8 (object metadata)) [
    | none ↦ raise protocol_error
    | some payload ↦ do check_text_size payload; frame_with MessageType.version_metadata payload
  ]

  unfoldable pub decode_metadata : Frame → Outcome WireError Fields
  unfolding check_text_size
  decode_metadata frame = do
    require_type MessageType.version_metadata frame
    check_text_size frame.payload
    load_object frame.payload

-- The prefix `!I` of a chunk.
unfoldable pub encode_chunk_data : ℤ → Bytes → Outcome WireError Bytes
encode_chunk_data index body = do
  i ← index_of index
  if ltb (max_payload - 4) (length body) then raise protocol_error else ok tt
  frame_with MessageType.chunk_data (pack 4 i ++ body)

check_prefix : Bytes → Outcome WireError (Unit {0})
check_prefix payload = if ltb (length payload) 4 then raise protocol_error else ok tt

unfoldable pub decode_chunk_data : Frame → Outcome WireError (ℕ × Bytes)
unfolding check_prefix
decode_chunk_data frame = do
  require_type MessageType.chunk_data frame
  check_prefix frame.payload
  ok (unpack (take 4 frame.payload), drop 4 frame.payload)

unfoldable pub encode_shutdown : Outcome WireError Bytes
encode_shutdown = frame_with MessageType.shutdown []

check_no_payload : Frame → Outcome WireError (Unit {0})
unfolding is_empty
check_no_payload frame = if is_empty frame.payload then ok tt else raise protocol_error

unfoldable pub decode_shutdown : Frame → Outcome WireError (Unit {0})
unfolding check_no_payload
decode_shutdown frame = do require_type MessageType.shutdown frame; check_no_payload frame

-- A call for its errors alone.
unfoldable pub ignore {ℓ} : {A : Type ℓ} → Outcome WireError A → Outcome WireError (Unit {0})
ignore (ok a) = ok tt
ignore (raise e) = raise e

module _ (codec : Codec) where
  validate_kind : MessageType → Frame → Outcome WireError (Unit {0})
  unfolding check_no_payload decode_text decode_get_shard decode_get_shards decode_named
      check_prefix decode_metadata decode_shard_metadata ignore
  validate_kind MessageType.shutdown frame = check_no_payload frame
  validate_kind MessageType.get_version frame =
      ignore (decode_text codec frame.payload max_version_name)
  validate_kind MessageType.get_shard frame = ignore (decode_get_shard codec frame)
  validate_kind MessageType.get_shards frame = ignore (decode_get_shards codec frame)
  validate_kind MessageType.wait_version frame =
      ignore (decode_named codec MessageType.wait_version frame)
  validate_kind MessageType.version_available frame =
      ignore (decode_named codec MessageType.version_available frame)
  validate_kind MessageType.chunk_data frame = check_prefix frame.payload
  validate_kind MessageType.version_metadata frame = ignore (decode_metadata codec frame)
  validate_kind MessageType.shard_metadata frame =
      ignore (decode_shard_metadata codec MessageType.shard_metadata frame)
  validate_kind MessageType.shards_metadata frame =
      ignore (decode_shard_metadata codec MessageType.shards_metadata frame)
  validate_kind MessageType.error frame = ignore (decode_text codec frame.payload max_text)

  unfoldable pub validate_message : Frame → Outcome WireError (Unit {0})
  unfolding validate_kind
  validate_message frame = validate_kind frame.message_type frame
