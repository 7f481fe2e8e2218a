-- ===== src/Transport/Server.antt =====
-- litecast/transport/ucxx.py: the replies of `UCXXServer`. A message is one object or one buffer
-- on the connection; a handler returns the messages that it sends, also those before a raise.
use litecast.Common.{
  ℕ, zero, suc, ◌+◌, Bool, true, false, not, ◌||◌, List, [], ◌∷◌, ◌++◌, none, some, Text, Bytes,
  pos, length, ltb, is_empty, codes, Outcome, ok, raise, if◌then◌else◌,
}
use litecast.Common.Effects.{Effect, ◌>>=◌, ◌>>◌, lift}
use litecast.Store.Types.{VersionMetadata, metadata_eq, CheckpointStore, StoreError}
use litecast.Store.Read
use litecast.Store.Read.{get_metadata, get_shard_with_checksum, shard_slice}
use litecast.Protocol.Json.{
  integer, text, object, array, Items, end, item, Fields, field, done, Codec,
}
use litecast.Protocol.Frames.{WireError, MessageType, Frame, decode_frame}
use litecast.Protocol.Indices.{items_of}
use litecast.Protocol.Messages.{
  encode_error, encode_named, decode_named, encode_metadata, encode_shard_metadata,
  decode_get_shard, decode_get_shards, validate_message,
}
use litecast.Streaming.Members.{mem}
use litecast.Transport.Wire.{TransportError, max_metadata_size, validate_metadata}
use litecast.Transport.Client.{or_other}

pub data Message : Type 0 where
  obj : Bytes → Message
  raw : Bytes → Message

-- What a request sees of the store while other threads change it: its state at the first, second
-- and third read, and when the shard of an index is read; and what a wait sees in its polls, up to
-- its deadline, of the versions that were notified.
pub record Moments : Type 0 where
  pub first : CheckpointStore
  pub second : CheckpointStore
  pub third : CheckpointStore
  pub at_index : ℕ → CheckpointStore
  pub polls : List (List Text)

-- What a handler sent so far.
abbrev pub Sending : Type 0 → Type 0
Sending A = Effect (List Message) TransportError A

unfoldable pub send_obj : Outcome WireError Bytes → Sending (Unit {0})
unfolding or_other
send_obj encoded = do bytes ← lift (or_other encoded); λ sent. (ok tt, sent ++ obj bytes ∷ [])

unfoldable pub send : Bytes → Sending (Unit {0})
send bytes sent = (ok tt, sent ++ raw bytes ∷ [])

-- `if shard: await endpoint.send(shard)`
unfoldable pub send_nonempty : Bytes → Sending (Unit {0})
unfolding is_empty send
send_nonempty shard = if is_empty shard then lift (ok tt) else send shard

-- The metadata of replies, the keys in the order in which `json.dumps` writes them.
unfoldable pub shard_fields : Text → ℕ → ℕ → Text → Fields
shard_fields version index size checksum = field (codes "checksum") (text checksum) (
    field (codes "index") (integer (pos index)) (
      field (codes "size") (integer (pos size))
        (field (codes "status") (text (codes "ok")) (field (codes "version") (text version) done))))

unfoldable pub metadata_message : VersionMetadata → Fields
metadata_message m = field (codes "checksum") (text m.checksum) (
    field (codes "name") (text m.name) (
      field (codes "shard_count") (integer (pos m.shard_count)) (
        field (codes "shard_size") (integer (pos m.shard_size)) (
          field (codes "status") (text (codes "ok"))
            (field (codes "total_size") (integer (pos m.total_size)) done)))))

abbrev pub Found : Type 0
Found = List (ℕ × Bytes × Text)

unfoldable pub found_items : Found → Items
found_items [] = end
found_items ((index, shard, checksum) ∷ found) =
    item
      (object (
        field (codes "checksum") (text checksum) (
          field (codes "index") (integer (pos index))
            (field (codes "size") (integer (pos (length shard))) done))))
      (found_items found)

unfoldable pub batch_fields : Text → Found → List ℕ → Fields
unfolding found_items items_of
batch_fields version found unavailable = field (codes "shards") (array (found_items found)) (
    field (codes "unavailable") (array (items_of unavailable))
      (field (codes "version") (text version) done))

-- The loop over the requested indices: what the store has, and what it refuses.
unfoldable pub look_up : (Bytes → Text) → (ℕ → CheckpointStore) → Text → List ℕ → Found × List ℕ
unfolding get_shard_with_checksum
look_up hexdigest at_index version [] = ([], [])
look_up hexdigest at_index version (i ∷ is) =
    let (found, unavailable) = look_up hexdigest at_index version is in
    elim (get_shard_with_checksum hexdigest (at_index i) version (pos i)) [
      | raise e ↦ (found, i ∷ unavailable)
      | ok (shard, checksum) ↦ ((i, shard, checksum) ∷ found, unavailable)
    ]

unfoldable pub send_found : Found → Sending (Unit {0})
unfolding send_nonempty
send_found [] = lift (ok tt)
send_found ((i, shard, checksum) ∷ found) = do send_nonempty shard; send_found found

unfoldable pub send_chunks : VersionMetadata → Bytes → ℕ → ℕ → Sending (Unit {0})
unfolding shard_slice send
send_chunks m content index zero = lift (ok tt)
send_chunks m content index (suc n) = do
  send (shard_slice m content index)
  send_chunks m content (index + 1) n

module _ (codec : Codec) (hexdigest : Bytes → Text) where
  -- What goes out for a shard that the store has, or refuses.
  unfoldable pub reply_shard : Text → ℕ → Outcome StoreError (Bytes × Text) → Sending (Unit {0})
  unfolding send_obj send_nonempty
  reply_shard version index (raise e) = send_obj (encode_error codec (codes "shard not available"))
  reply_shard version index (ok (shard, checksum)) = do
    send_obj (
        encode_shard_metadata codec MessageType.shard_metadata
          (shard_fields version index (length shard) checksum))
    send_nonempty shard

  unfoldable pub serve_shard : CheckpointStore → Frame → Sending (Unit {0})
  unfolding or_other reply_shard
  serve_shard store request = do
    (version, index) ← lift (or_other (decode_get_shard codec request))
    reply_shard version index (get_shard_with_checksum hexdigest store version (pos index))

  unfoldable pub serve_shards : (ℕ → CheckpointStore) → Frame → Sending (Unit {0})
  unfolding send_obj or_other
  serve_shards at_index request = do
    (version, indices) ← lift (or_other (decode_get_shards codec request))
    let (found, unavailable) = look_up hexdigest at_index version indices
    send_obj (
        encode_shard_metadata codec MessageType.shards_metadata
          (batch_fields version found unavailable))
    send_found found

  -- The version, its data and again its metadata are read from the store one after the other; it
  -- may change in between, so each read has a state of its own.
  unfoldable pub serve_version :
      CheckpointStore → CheckpointStore → CheckpointStore → ℕ → Frame → Sending (Unit {0})
  unfolding send_obj or_other
  serve_version first second third max_total_size request = do
    version ← lift (or_other (decode_named codec MessageType.get_version request))
    elim (get_metadata first version) [
      | none ↦ send_obj (encode_error codec (codes "version not found"))
      | some metadata ↦ elim (Read.get second version) [
        | none ↦ send_obj (encode_error codec (codes "version not found"))
        | some content ↦ elim (get_metadata third version) [
          | none ↦ send_obj (encode_error codec (codes "version not found"))
          | some again ↦
              if not (metadata_eq again metadata)
              then send_obj (encode_error codec (codes "version not found"))
              else if ltb max_total_size metadata.total_size
              then send_obj (encode_error codec (codes "version exceeds server limit"))
              else (do
                _ ← lift (validate_metadata (metadata_message metadata) version max_total_size)
                send_obj (encode_metadata codec (metadata_message metadata))
                send_chunks metadata content 0 metadata.shard_count)
        ]
      ]
    ]

  -- `polls` are the sets of available versions that the loop sees until its deadline.
  unfoldable pub wait_until : Text → List (List Text) → Bool
  wait_until version [] = false
  wait_until version (available ∷ polls) = mem version available || wait_until version polls

  unfoldable pub serve_wait : List (List Text) → Frame → Sending (Unit {0})
  unfolding send_obj or_other wait_until
  serve_wait polls request = do
    version ← lift (or_other (decode_named codec MessageType.wait_version request))
    if wait_until version polls
        then send_obj (encode_named codec MessageType.version_available version)
        else send_obj (encode_error codec (codes "version notification timed out"))

  unfoldable pub serve_kind : MessageType → Moments → ℕ → Frame → Sending (Unit {0})
  serve_kind MessageType.wait_version moments maximum request = serve_wait moments.polls request
  serve_kind MessageType.get_shards moments maximum request = serve_shards moments.at_index request
  serve_kind MessageType.get_shard moments maximum request = serve_shard moments.first request
  serve_kind _ moments maximum request =
      serve_version moments.first moments.second moments.third maximum request

  unfoldable pub serve_request : Moments → ℕ → Frame → Sending (Unit {0})
  unfolding serve_kind
  serve_request moments max_total_size request =
      serve_kind request.message_type moments max_total_size request

  unfoldable pub receive_and_serve : Moments → ℕ → Bytes → Sending (Unit {0})
  unfolding or_other
  receive_and_serve moments max_total_size bytes = do
    request ← lift (or_other (decode_frame (validate_message codec) bytes (pos max_metadata_size)))
    serve_request moments max_total_size request

  -- `_handle_endpoint`: the requests that arrive, until one is refused; `refuse` is the text of an
  -- exception, and goes out where no request was served before.
  unfoldable pub handle_endpoint :
      (TransportError → Text) → ℕ → Bool → List (Moments × Bytes) → List Message → List Message
  handle_endpoint refuse max_total_size served [] sent = sent
  handle_endpoint refuse max_total_size served ((moments, bytes) ∷ requests) sent =
      let result = receive_and_serve moments max_total_size bytes sent in
      let later = handle_endpoint refuse max_total_size true requests result.1 in
      elim result.0 [
        | ok _ ↦ later
        | raise e ↦
            if served then result.1 else (send_obj (encode_error codec (refuse e)) result.1).1
      ]
