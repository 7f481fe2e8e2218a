-- ===== src/Transport/Wire.antt =====
-- litecast/transport/ucxx.py: the errors of a transfer, the tests on the metadata of the peer, and
-- what the module uses of an endpoint of the library UCXX.
use litecast.Common.{
  ℕ, ◌*◌, Bool, true, false, ◌&&◌, List, [], ◌∷◌, Option, none, some, Text, Bytes, pos, negsuc,
  length, ◌==◌, leb, text_eq, codes, all_chars, is_lower_hex, Outcome, ok, raise, ◌>>=◌, ◌>>◌,
  if◌then◌else◌,
}
use litecast.Protocol.Json.{
  Json, null, boolean, integer, real, text, array, object, Fields, find_field, all_keys,
}
use litecast.Streaming.Members.{mem}
use litecast.Store.Types.{VersionMetadata}
use litecast.Store.Checks.{count_shards}

-- `other` is any other exception: of the protocol module, of the endpoint, or of a wait.
pub data TransportError : Type 0 where
  version_unavailable : Text → TransportError
  transport_protocol_error : TransportError
  transport_integrity_error : TransportError
  ucxx_unavailable : TransportError
  value_error : TransportError
  other : TransportError

abbrev pub max_metadata_size : ℕ
max_metadata_size = 16 * 1024

abbrev pub max_shard_size : ℕ
max_shard_size = 1024 * 1024 * 1024

abbrev pub max_shard_count : ℕ
max_shard_count = 1000000

-- An endpoint in a state `S`: `send_obj` and `recv_obj` of messages, `recv` into a buffer of a
-- length, and `create_endpoint`. `none` is an exception, a timeout too.
pub record Endpoint (S : Type 0) : Type 0 where
  pub create : Option S
  pub send_obj : Bytes → S → Option S
  pub recv_obj : S → Option (Bytes × S)
  pub recv : ℕ → S → Option (Bytes × S)

-- `^[0-9a-f]{64}$`
unfoldable pub is_checksum : Text → Bool
unfolding all_chars is_lower_hex
is_checksum s = all_chars is_lower_hex s && (length s == 64)

unfoldable pub all_present : List Text → Fields → Bool
unfolding find_field
all_present [] fields = true
all_present (name ∷ names) fields =
    elim (find_field name fields) [ none ↦ false | some _ ↦ true ] && all_present names fields

-- `set(value) == {...}`
unfoldable pub has_keys : List Text → Fields → Bool
unfolding all_keys mem all_present
has_keys names fields = all_keys (λ name. mem name names) fields && all_present names fields

unfoldable pub is_text : Text → Option Json → Bool
is_text expected (some (text value)) = text_eq value expected
is_text expected _ = false

unfoldable pub checksum_of : Option Json → Outcome TransportError Text
checksum_of (some (text value)) =
    if is_checksum value then ok value else raise transport_protocol_error
checksum_of _ = raise transport_protocol_error

unfoldable pub demand : Bool → Outcome TransportError (Unit {0})
demand true = ok tt
demand false = raise transport_protocol_error

-- `_plain_int`, which refuses a Boolean.
unfoldable pub plain_int : ℕ → ℕ → Option Json → Outcome TransportError ℕ
plain_int minimum maximum (some (integer (pos n))) =
    if leb minimum n && leb n maximum then ok n else raise transport_protocol_error
plain_int minimum maximum _ = raise transport_protocol_error

-- The number that a JSON value equals, for `==` and for the keys of a dictionary: `True` is 1.
-- `real_index` tells which number a float equals.
unfoldable pub as_index : (Text → Option ℕ) → Json → Option ℕ
as_index real_index null = none
as_index real_index (boolean true) = some 1
as_index real_index (boolean false) = some 0
as_index real_index (integer (pos n)) = some n
as_index real_index (integer (negsuc n)) = none
as_index real_index (real t) = real_index t
as_index real_index (text t) = none
as_index real_index (array items) = none
as_index real_index (object fields) = none

unfoldable pub equals_index : (Text → Option ℕ) → ℕ → Option Json → Bool
unfolding as_index
equals_index real_index n none = false
equals_index real_index n (some j) = elim (as_index real_index j) [ none ↦ false | some k ↦ k == n ]

-- `_validate_metadata`
unfoldable pub validate_metadata : Fields → Text → ℕ → Outcome TransportError VersionMetadata
unfolding demand plain_int checksum_of count_shards
validate_metadata value expected_name maximum = do
  demand (
      has_keys
        (codes "status"
          ∷ codes "name"
          ∷ codes "total_size"
          ∷ codes "shard_size"
          ∷ codes "shard_count"
          ∷ codes "checksum"
          ∷ [])
        value)
  demand (is_text (codes "ok") (find_field (codes "status") value))
  demand (is_text expected_name (find_field (codes "name") value))
  total_size ← plain_int 0 maximum (find_field (codes "total_size") value)
  shard_size ← plain_int 1 max_shard_size (find_field (codes "shard_size") value)
  shard_count ← plain_int 0 max_shard_count (find_field (codes "shard_count") value)
  demand (shard_count == count_shards total_size shard_size)
  checksum ← checksum_of (find_field (codes "checksum") value)
  ok (record {
    name = expected_name;
    total_size = total_size;
    shard_size = shard_size;
    shard_count = shard_count;
    checksum = checksum;
  })

-- The tests of `_exchange_shard` on the metadata of a shard.
unfoldable pub check_shard_metadata :
    (Text → Option ℕ) → Text → ℕ → Fields → Outcome TransportError (ℕ × Text)
unfolding demand plain_int checksum_of
check_shard_metadata real_index version index value = do
  demand (
      has_keys
        (codes "status" ∷ codes "version" ∷ codes "index" ∷ codes "size" ∷ codes "checksum" ∷ [])
        value)
  demand (is_text (codes "ok") (find_field (codes "status") value))
  demand (is_text version (find_field (codes "version") value))
  demand (equals_index real_index index (find_field (codes "index") value))
  size ← plain_int 0 max_shard_size (find_field (codes "size") value)
  checksum ← checksum_of (find_field (codes "checksum") value)
  ok (size, checksum)
