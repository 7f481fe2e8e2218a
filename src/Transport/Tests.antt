-- ===== src/Transport/Tests.antt =====
-- A connection on small inputs, and the theorems about it at such inputs.
use litecast.Common.{
  ◌≡◌, refl, arith, true, false, none, some, List, [], ◌∷◌, ◌++◌, Text, ℕ, pos, codes, ok, raise,
}
use native.Mathlib.Decide.{ℕ_discrete}
use litecast.Common.Dict
use litecast.Common.{text_dec}
use litecast.Transport.Integrity.{
  exchange_shard-IsVerified, exchange_version-IsVerified, IsVerifiedVersion,
}
use litecast.Transport.Partition.{IsPartition, exchange_shards-IsPartition}
use litecast.Transport.Failures.{IsLeft, on_connection-IsLeft}
use litecast.Transport.Delivery.{exchange_shard-connected, connected-fills}
use litecast.Common.{text_eq, is_empty, all_chars, is_lower_hex}
use litecast.Store.Checks.{count_shards}
use litecast.Store.Types.{metadata_eq}
use litecast.Store.Read.{
  get_metadata, shard_slice, read_shard, shard_checksum, get_shard_with_checksum,
}
use litecast.Protocol.Words.{pack, unpack_from, unpack}
use litecast.Protocol.Json.{find_field, all_keys, has_exactly}
use litecast.Protocol.Frames.{
  type_code, message_type_of, validate_limit, check_range, pack_header, encode_frame, decode_header,
  decode_frame,
}
use litecast.Protocol.Indices.{
  frame_with, require_type, index_of, indices_of, index_of_json, indices_of_items, count_items,
  all_hashable, contains, all_distinct, check_batch, check_items, items_of, text_of, value_of,
  shard_request, batch_request, items_of_json,
}
use litecast.Protocol.Messages.{
  encode_text, decode_text, check_version, encode_named, decode_named, encode_error, decode_error,
  load_object, encode_get_shard, read_shard_request, decode_get_shard, encode_get_shards,
  read_batch_request, decode_get_shards, encode_shard_metadata, decode_shard_metadata,
  encode_metadata, decode_metadata, encode_chunk_data, decode_chunk_data, encode_shutdown,
  decode_shutdown, ignore, validate_message,
}
use litecast.Streaming.Members.{mem}
use litecast.Transport.Wire.{
  transport_integrity_error, is_checksum, all_present, has_keys, is_text, checksum_of, demand,
  plain_int, as_index, equals_index, validate_metadata, check_shard_metadata,
}
use litecast.Transport.Client.{
  or_other, is_error, check_integrity, check_digest, check_target, send, receive_obj, receive,
  receive_into, receive_frame, refuse_error, ask, exchange_shard, receive_chunks, exchange_version,
}
use litecast.Transport.Shards.{
  subset, disjoint, target_size, index_field, read_item, read_items, array_field, integer_in,
  read_unavailable, read_batch,
}
use litecast.Transport.Batch.{BatchResult, lookup_or_other, receive_shards, exchange_shards}
use litecast.Transport.Sessions.{
  finished, stopped, execute, on_executor, exchange_alone, discard_persistent, release,
  UcxxTransport, has_nul, validate_version, keep, persistent, one_shot, on_connection, exchange_on,
  require_open, natural_index, fetch_shard, close,
}
use litecast.Transport.Server.{
  Message, send_obj, send_nonempty, shard_fields, metadata_message, found_items, batch_fields,
  look_up, send_found, send_chunks, reply_shard, serve_shard, serve_shards, serve_version,
  wait_until, serve_wait, serve_kind, serve_request, receive_and_serve,
}
use litecast.Transport.Delivery.{exchange_shard-connected, recv_message, recv_object, connected}
use litecast.Store.Read
use litecast.Transport.Fixtures.{hex64, digest, five, plan, at_once, keyed, peer, no_real}

program : Unit {0}
unfolding text_dec ℕ_discrete Dict.get Read.get text_eq is_empty all_chars is_lower_hex count_shards
    metadata_eq get_metadata shard_slice read_shard shard_checksum get_shard_with_checksum pack
    unpack_from unpack find_field all_keys has_exactly type_code message_type_of validate_limit
    check_range pack_header encode_frame decode_header decode_frame frame_with require_type index_of
    indices_of index_of_json indices_of_items count_items all_hashable contains all_distinct
    check_batch check_items items_of text_of value_of shard_request batch_request items_of_json
    encode_text decode_text check_version encode_named decode_named encode_error decode_error
    load_object encode_get_shard read_shard_request decode_get_shard encode_get_shards
    read_batch_request decode_get_shards encode_shard_metadata decode_shard_metadata encode_metadata
    decode_metadata encode_chunk_data decode_chunk_data encode_shutdown decode_shutdown ignore
    validate_message mem is_checksum all_present has_keys is_text checksum_of demand plain_int
    as_index equals_index validate_metadata check_shard_metadata or_other is_error check_integrity
    check_digest check_target send receive_obj receive receive_into receive_frame refuse_error ask
    exchange_shard receive_chunks exchange_version subset disjoint target_size index_field read_item
    read_items array_field integer_in read_unavailable read_batch lookup_or_other receive_shards
    exchange_shards has_nul validate_version execute on_executor exchange_alone discard_persistent
    release keep persistent one_shot on_connection exchange_on require_open natural_index
    fetch_shard close send_obj send_nonempty shard_fields metadata_message found_items batch_fields
    look_up send_found send_chunks reply_shard serve_shard serve_shards serve_version wait_until
    serve_wait serve_kind serve_request receive_and_serve recv_message recv_object connected
program = tt

run_shard :
    exchange_shard peer keyed digest no_real (codes "v1") 2 (some hex64) (some 1) []
    ≡ (ok (5 ∷ [], hex64), [])
unfolding program
run_shard = refl

run_version : exchange_version peer keyed digest no_real (codes "v1") 100 [] ≡ (ok (five, plan), [])
unfolding program
run_version = refl

abbrev batch : BatchResult
batch = record { completed = (2, 5 ∷ []) ∷ []; unavailable = 7 ∷ [] }

run_batch :
    exchange_shards peer digest keyed no_real
      (codes "v1")
      ((2, 1) ∷ (7, 2) ∷ [])
      ((7, hex64) ∷ (2, hex64) ∷ [])
      []
    ≡ (ok batch, [])
unfolding program
run_batch = refl

exchange_shard-IsVerified_example :
    (hex64 ≡ hex64)
    × ((c : Text) → some hex64 ≡ some c → hex64 ≡ c)
    × ((n : ℕ) → some 1 ≡ some n → 1 ≡ n)
exchange_shard-IsVerified_example =
    exchange_shard-IsVerified peer (connected-fills keyed digest at_once 100) keyed digest no_real
      (codes "v1") 2 (some hex64) (some 1) [] (5 ∷ [], hex64) [] run_shard

exchange_version-IsVerified_example :
    IsVerifiedVersion peer
      (connected-fills keyed digest at_once 100)
      keyed
      digest
      no_real
      (codes "v1")
      100
      (five, plan)
exchange_version-IsVerified_example =
    exchange_version-IsVerified peer (connected-fills keyed digest at_once 100) keyed digest no_real
      (codes "v1") 100 [] (five, plan) [] run_version

exchange_shards-IsPartition_example :
    IsPartition peer
      (connected-fills keyed digest at_once 100)
      digest
      ((2, 1) ∷ (7, 2) ∷ [])
      ((7, hex64) ∷ (2, hex64) ∷ [])
      batch
exchange_shards-IsPartition_example =
    exchange_shards-IsPartition peer (connected-fills keyed digest at_once 100) digest keyed no_real
      (codes "v1") ((2, 1) ∷ (7, 2) ∷ []) ((7, hex64) ∷ (2, hex64) ∷ []) [] batch [] run_batch

abbrev fresh : UcxxTransport (List Message)
fresh = record { max_total_size = 100; executor = true; closed = false; connection = none }

-- The executor is stopped in the first call, and the last shard is fetched in the second.
abbrev fetched : UcxxTransport (List Message)
fetched = (fetch_shard finished peer keyed digest no_real (codes "v1") (pos 2) none none fresh).1

abbrev refused : UcxxTransport (List Message)
refused = (fetch_shard stopped peer keyed digest no_real (codes "v1") (pos 2) none none fetched).1

abbrev after_close : UcxxTransport (List Message)
after_close =
    (fetch_shard finished peer keyed digest no_real (codes "v1") (pos 2) none none
      (close finished refused)).1

abbrev linked : UcxxTransport (List Message)
linked = record { max_total_size = 100; executor = true; closed = false; connection = some [] }

-- A close whose coroutine does not run keeps the endpoint.
run_close : close stopped linked ≡ record linked { closed = true }
unfolding program
run_close = refl

run_mismatch :
    on_connection finished peer
      (exchange_shard peer keyed digest no_real (codes "v1") 2 (some (codes "0")) none)
      linked
    ≡ (raise transport_integrity_error, fresh)
unfolding program
run_mismatch = refl

-- A shard whose digest is not the expected one.
on_connection-IsLeft_example :
    IsLeft {S = List Message} finished transport_integrity_error (some []) none
on_connection-IsLeft_example =
    on_connection-IsLeft finished peer
      (exchange_shard peer keyed digest no_real (codes "v1") 2 (some (codes "0")) none) linked fresh
      transport_integrity_error run_mismatch

exchange_shard-connected_example :
    exchange_shard peer keyed digest no_real (codes "v1") 2 (some hex64) (some 1) []
    ≡ (ok (5 ∷ [], hex64), [])
unfolding program
exchange_shard-connected_example =
    exchange_shard-connected keyed digest no_real at_once 100 (codes "v1") 2 (5 ∷ []) hex64
      (codes "SCST" ++ (1 ∷ 6 ∷ 0 ∷ 0 ∷ 0 ∷ 0 ∷ 0 ∷ 0 ∷ 0 ∷ 0 ∷ 0 ∷ 12 ∷ codes "indexversion"))
      (codes "SCST" ++ (1 ∷ 7 ∷ 0 ∷ 0 ∷ 0 ∷ 0 ∷ 0 ∷ 0 ∷ 0 ∷ 0 ∷ 0 ∷ 13 ∷ codes "checksumindex"))
      refl refl refl (omega arith) refl refl (omega arith) (omega arith) refl refl
