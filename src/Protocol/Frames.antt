-- ===== src/Protocol/Frames.antt =====
-- litecast/protocol.py: the header, and one frame. The payload check `_validate_message` is an
-- argument here; `Messages` has it.
use litecast.Common.{
  ◌*◌, ℕ, ◌+◌, ◌^◌, ◌++◌, Bytes, ℤ, pos, negsuc, length, take, drop, slice, codes, leb, ltb, ◌==◌,
  text_eq, Outcome, ok, raise, ◌>>=◌, ◌>>◌, if◌then◌else◌,
}
use litecast.Protocol.Words.{pack, unpack}

pub data WireError : Type 0 where
  protocol_error value_error struct_error unicode_error type_error : WireError

-- The aliases `METADATA` and `CLEAN_SHUTDOWN` are `version_metadata` and `shutdown`.
pub data MessageType : Type 0 where
  get_version version_metadata chunk_data error shutdown : MessageType
  get_shard shard_metadata wait_version version_available get_shards shards_metadata : MessageType

unfoldable pub type_code : MessageType → ℕ
type_code get_version = 1
type_code version_metadata = 2
type_code chunk_data = 3
type_code error = 4
type_code shutdown = 5
type_code get_shard = 6
type_code shard_metadata = 7
type_code wait_version = 8
type_code version_available = 9
type_code get_shards = 10
type_code shards_metadata = 11

-- `MessageType(code)`, where a code that is no member raises.
unfoldable pub message_type_of : ℕ → Outcome WireError MessageType
message_type_of code =
    if code == 1
    then ok get_version
    else if code == 2
    then ok version_metadata
    else if code == 3
    then ok chunk_data
    else if code == 4
    then ok error
    else if code == 5
    then ok shutdown
    else if code == 6
    then ok get_shard
    else if code == 7
    then ok shard_metadata
    else if code == 8
    then ok wait_version
    else if code == 9
    then ok version_available
    else if code == 10
    then ok get_shards
    else if code == 11
    then ok shards_metadata
    else raise protocol_error

abbrev pub magic : Bytes
magic = codes "SCST"

abbrev pub current_version : ℕ
current_version = 1

abbrev pub max_payload : ℕ
max_payload = 64 * 1024 * 1024

abbrev pub max_text : ℕ
max_text = 64 * 1024

abbrev pub max_version_name : ℕ
max_version_name = 1024

abbrev pub max_batch : ℕ
max_batch = 64

-- The size of the struct `!4sBBHQ`.
abbrev pub header_size : ℕ
header_size = 16

pub record Frame : Type 0 where
  pub message_type : MessageType
  pub payload : Bytes
  pub flags : ℕ
  pub protocol_version : ℕ

unfoldable pub validate_limit : ℤ → Outcome WireError ℕ
validate_limit (pos n) = ok n
validate_limit (negsuc n) = raise value_error

-- `0 <= value <= top`
unfoldable pub check_range : ℕ → ℤ → Outcome WireError ℕ
check_range top (negsuc n) = raise protocol_error
check_range top (pos n) = if leb n top then ok n else raise protocol_error

-- `HEADER.pack`; the fields before the size fit by the checks of the caller.
unfoldable pub pack_header : ℕ → ℕ → ℕ → ℕ → Outcome WireError Bytes
pack_header version code flags size =
    if ltb size (2 ^ 64)
    then ok (magic ++ (pack 1 version ++ (pack 1 code ++ (pack 2 flags ++ pack 8 size))))
    else raise struct_error

unfoldable pub encode_frame : ℕ → Bytes → ℤ → ℤ → ℤ → Outcome WireError Bytes
unfolding validate_limit check_range pack_header
encode_frame code body flags protocol_version max_payload_size = do
  limit ← validate_limit max_payload_size
  if ltb limit (length body) then raise protocol_error else ok tt
  kind ← message_type_of code
  flags' ← check_range 0xffff flags
  version' ← check_range 0xff protocol_version
  header ← pack_header version' (type_code kind) flags' (length body)
  ok (header ++ body)

pub record Header : Type 0 where
  pub kind : MessageType
  pub flags : ℕ
  pub payload_size : ℕ

unfoldable pub decode_header : Bytes → ℤ → Outcome WireError Header
unfolding validate_limit
decode_header raw max_payload_size = do
  if length raw == header_size then ok tt else raise protocol_error
  limit ← validate_limit max_payload_size
  if text_eq (take 4 raw) magic then ok tt else raise protocol_error
  if unpack (slice 4 5 raw) == current_version then ok tt else raise protocol_error
  kind ← message_type_of (unpack (slice 5 6 raw))
  let payload_size = unpack (slice 8 16 raw)
  if ltb limit payload_size then raise protocol_error else ok tt
  ok (record { kind = kind; flags = unpack (slice 6 8 raw); payload_size = payload_size })

module _ (validate_message : Frame → Outcome WireError (Unit {0})) where
  unfoldable pub decode_frame : Bytes → ℤ → Outcome WireError Frame
  decode_frame raw max_payload_size = do
    if ltb (length raw) header_size then raise protocol_error else ok tt
    header ← decode_header (take header_size raw) max_payload_size
    let expected = header_size + header.payload_size
    if ltb (length raw) expected then raise protocol_error else ok tt
    if ltb expected (length raw) then raise protocol_error else ok tt
    let frame : Frame = record {
      message_type = header.kind;
      payload = drop header_size raw;
      flags = header.flags;
      protocol_version = current_version;
    }
    validate_message frame
    ok frame
