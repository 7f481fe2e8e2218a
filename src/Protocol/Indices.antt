-- ===== src/Protocol/Indices.antt =====
-- litecast/protocol.py: frames with default fields, the type of a frame, and shard indices.
use litecast.Common.{
  ℕ, suc, Bool, true, false, not, ◌&&◌, ◌||◌, List, [], ◌∷◌, Option, none, some, Bytes, Text, ℤ,
  pos, negsuc, length, codes, leb, ltb, ◌==◌, is_empty, Outcome, ok, raise, ◌>>=◌, if◌then◌else◌,
}
use litecast.Protocol.Json.{Json, integer, text, array, object, Items, end, item, done, field}
use litecast.Protocol.Frames.{
  WireError, protocol_error, type_error, MessageType, type_code, Frame, encode_frame, max_payload,
  max_batch, current_version,
}

-- `encode_frame` with its default flags, version and limit.
unfoldable pub frame_with : MessageType → Bytes → Outcome WireError Bytes
unfolding type_code encode_frame
frame_with k payload =
    encode_frame (type_code k) payload (pos 0) (pos current_version) (pos max_payload)

unfoldable pub require_type : MessageType → Frame → Outcome WireError (Unit {0})
unfolding type_code
require_type expected frame =
    if type_code frame.message_type == type_code expected then ok tt else raise protocol_error

-- `0 <= index <= 0xFFFFFFFF` of an index that is an `int`.
unfoldable pub index_of : ℤ → Outcome WireError ℕ
index_of (negsuc n) = raise protocol_error
index_of (pos n) = if leb n 0xffffffff then ok n else raise protocol_error

unfoldable pub indices_of : List ℤ → Outcome WireError (List ℕ)
indices_of [] = ok []
indices_of (z ∷ zs) = do i ← index_of z; is ← indices_of zs; ok (i ∷ is)

-- `isinstance(index, int) and not isinstance(index, bool)`, with the range.
unfoldable pub index_of_json : Json → Outcome WireError ℕ
index_of_json (integer z) = index_of z
index_of_json _ = raise protocol_error

unfoldable pub indices_of_items : Items → Outcome WireError (List ℕ)
indices_of_items end = ok []
indices_of_items (item j items) = do i ← index_of_json j; is ← indices_of_items items; ok (i ∷ is)

unfoldable pub count_items : Items → ℕ
count_items end = 0
count_items (item j items) = suc (count_items items)

is_hashable : Json → Bool
is_hashable (array items) = false
is_hashable (object fields) = false
is_hashable _ = true

unfoldable pub all_hashable : Items → Bool
unfolding is_hashable
all_hashable end = true
all_hashable (item j items) = is_hashable j && all_hashable items

unfoldable pub contains : ℕ → List ℕ → Bool
contains i [] = false
contains i (j ∷ js) = (i == j) || contains i js

-- `len(set(values)) == len(values)`
unfoldable pub all_distinct : List ℕ → Bool
all_distinct [] = true
all_distinct (i ∷ is) = not (contains i is) && all_distinct is

-- The tests on a batch of indices that are numbers.
unfoldable pub check_batch : List ℕ → Outcome WireError (List ℕ)
unfolding all_distinct is_empty
check_batch values =
    if is_empty values || (ltb max_batch (length values) || not (all_distinct values))
    then raise protocol_error
    else ok values

-- The tests on a decoded batch; a list or an object in it makes `set` raise a `TypeError`.
unfoldable pub check_items : Items → Outcome WireError (List ℕ)
check_items items =
    if count_items items == 0 || ltb max_batch (count_items items)
    then raise protocol_error
    else if not (all_hashable items)
    then raise type_error
    else (do values ← indices_of_items items; check_batch values)

unfoldable pub items_of : List ℕ → Items
items_of [] = end
items_of (i ∷ is) = item (integer (pos i)) (items_of is)

-- The fields of a decoded request, and the requests as they are encoded.
unfoldable pub text_of : Option Json → Outcome WireError Text
text_of (some (text value)) = ok value
text_of _ = raise protocol_error

unfoldable pub value_of : Option Json → Outcome WireError Json
value_of none = raise protocol_error
value_of (some j) = ok j

-- The keys of a dictionary that is sent stand in their order, as `json.dumps` writes them.
unfoldable pub shard_request : Text → ℕ → Json
shard_request version index =
    object
      (field (codes "index") (integer (pos index)) (field (codes "version") (text version) done))

unfoldable pub batch_request : Text → List ℕ → Json
unfolding items_of
batch_request version values = object (
    field (codes "indices") (array (items_of values)) (field (codes "version") (text version) done))

unfoldable pub items_of_json : Option Json → Outcome WireError Items
items_of_json (some (array items)) = ok items
items_of_json _ = raise protocol_error
