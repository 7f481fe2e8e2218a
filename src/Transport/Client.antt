-- ===== src/Transport/Client.antt =====
-- litecast/transport/ucxx.py: the exchanges of `UCXXTransport` with its peer. A buffer that is
-- received into is the bytes that it holds afterwards; `targets` is given by the lengths.
use litecast.Common.{
  ℕ, zero, suc, ◌+◌, ◌-◌, ◌*◌, min, Bool, ◌&&◌, [], ◌++◌, Option, none, some, Text, Bytes, pos,
  ◌==◌, text_eq, Outcome, ok, raise, if◌then◌else◌,
}
use litecast.Common.Effects.{Effect, ◌>>=◌, ◌>>◌, lift}
use litecast.Store.Types.{VersionMetadata}
use litecast.Protocol.Json.{Codec}
use litecast.Protocol.Frames.{WireError, MessageType, type_code, Frame, decode_frame}
use litecast.Protocol.Messages.{
  encode_get_shard, encode_named, decode_error, decode_metadata, decode_shard_metadata,
  validate_message,
}
use litecast.Transport.Wire.{
  TransportError, version_unavailable, transport_protocol_error, transport_integrity_error, other,
  Endpoint, max_metadata_size, check_shard_metadata, validate_metadata,
}

-- An exception of another module.
unfoldable pub or_other {ℓ} : {E A : Type ℓ} → Outcome E A → Outcome TransportError A
or_other (ok a) = ok a
or_other (raise e) = raise other

unfoldable pub is_error : Frame → Bool
unfolding type_code
is_error frame = type_code frame.message_type == type_code MessageType.error

-- Where the digest is not the one advertised, or not the one expected.
unfoldable pub check_integrity : Text → Text → Option Text → Outcome TransportError (Unit {0})
check_integrity digest advertised none =
    if text_eq digest advertised then ok tt else raise transport_integrity_error
check_integrity digest advertised (some expected) =
    if text_eq digest advertised && text_eq digest expected
    then ok tt
    else raise transport_integrity_error

unfoldable pub check_digest : Text → Text → Outcome TransportError (Unit {0})
check_digest digest wanted =
    if text_eq digest wanted then ok tt else raise transport_integrity_error

unfoldable pub check_target : Option ℕ → ℕ → Outcome TransportError (Unit {0})
check_target none size = ok tt
check_target (some n) size = if n == size then ok tt else raise transport_protocol_error

module _ {S : Type 0} (endpoint : Endpoint S) where
  unfoldable pub send : Bytes → Effect S TransportError (Unit {0})
  send raw s = elim (endpoint.send_obj raw s) [ none ↦ (raise other, s) | some s' ↦ (ok tt, s') ]

  unfoldable pub receive_obj : Effect S TransportError Bytes
  receive_obj s = elim (endpoint.recv_obj s) [
    | none ↦ (raise other, s)
    | some (raw, s') ↦ (ok raw, s')
  ]

  -- `endpoint.recv` into a buffer of `n` bytes
  unfoldable pub receive : ℕ → Effect S TransportError Bytes
  receive n s = elim (endpoint.recv n s) [ none ↦ (raise other, s) | some (raw, s') ↦ (ok raw, s') ]

  -- `if data: await endpoint.recv(data)`
  unfoldable pub receive_into : ℕ → Effect S TransportError Bytes
  unfolding receive
  receive_into n = if n == 0 then lift (ok []) else receive n

  module _ (codec : Codec) where
    unfoldable pub receive_frame : Effect S TransportError Frame
    unfolding or_other
    receive_frame = do
      raw ← receive_obj
      lift (or_other (decode_frame (validate_message codec) raw (pos max_metadata_size)))

    -- An error frame of the peer ends the exchange.
    unfoldable pub refuse_error : Frame → Outcome TransportError (Unit {0})
    unfolding or_other is_error
    refuse_error frame =
        if is_error frame
        then elim (decode_error codec frame) [
          | ok message ↦ raise (version_unavailable message)
          | raise e ↦ raise other
        ]
        else ok tt

    -- A request and the metadata in its reply.
    unfoldable pub ask : Outcome WireError Bytes → Effect S TransportError Frame
    unfolding or_other
    ask encoded = do
      request ← lift (or_other encoded)
      send request
      frame ← receive_frame
      lift (refuse_error frame)
      lift (ok frame)

    module _ (hexdigest : Bytes → Text) (real_index : Text → Option ℕ) where
      unfoldable pub exchange_shard :
          Text → ℕ → Option Text → Option ℕ → Effect S TransportError (Bytes × Text)
      unfolding or_other
      exchange_shard version index expected_checksum target = do
        frame ← ask (encode_get_shard codec version (pos index))
        value ← lift (or_other (decode_shard_metadata codec MessageType.shard_metadata frame))
        (size, checksum) ← lift (check_shard_metadata real_index version index value)
        lift (check_target target size)
        content ← receive_into size
        lift (check_integrity (hexdigest content) checksum expected_checksum)
        lift (ok (content, hexdigest content))

      -- The chunks of a whole version, each into its slice.
      unfoldable pub receive_chunks : VersionMetadata → ℕ → ℕ → Effect S TransportError Bytes
      unfolding receive
      receive_chunks m index zero = lift (ok [])
      receive_chunks m index (suc n) = do
        let start = index * m.shard_size
        chunk ← receive (min (start + m.shard_size) m.total_size - start)
        rest ← receive_chunks m (index + 1) n
        lift (ok (chunk ++ rest))

      unfoldable pub exchange_version : Text → ℕ → Effect S TransportError (Bytes × VersionMetadata)
      unfolding or_other
      exchange_version version maximum = do
        frame ← ask (encode_named codec MessageType.get_version version)
        response ← lift (or_other (decode_metadata codec frame))
        metadata ← lift (validate_metadata response version maximum)
        content ← receive_chunks metadata 0 metadata.shard_count
        lift (check_digest (hexdigest content) metadata.checksum)
        lift (ok (content, metadata))
