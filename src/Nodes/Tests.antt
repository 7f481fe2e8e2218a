-- ===== src/Nodes/Tests.antt =====
-- A download of a batch from a middle that has one of its two shards; the other comes by HTTP.
use litecast.Common.{
  Outcome, ◌==◌, length, ◌≡◌, refl, arith, true, false, none, some, List, [], ◌∷◌, Text, Bytes, ℕ,
  pos, codes, ok,
}
use native.Mathlib.Decide.{ℕ_discrete}
use litecast.Common.Dict
use litecast.Common.{text_dec}
use litecast.Transport.Delivery.{connected-fills}
use litecast.Common.{text_eq, is_empty, all_chars, is_lower_hex}
use litecast.Store.Checks.{count_shards}
use litecast.Store.Types.{metadata_eq}
use litecast.Store.Read.{
  get_metadata, shard_slice, read_shard, shard_checksum, get_shard_with_checksum,
}
use litecast.Protocol.Words.{pack, unpack_from, unpack}
use litecast.Protocol.Json.{find_field, all_keys, has_exactly}
use litecast.Protocol.Frames.{
  type_code, message_type_of, validate_limit, check_range, pack_header, encode_frame, decode_header,
  decode_frame,
}
use litecast.Protocol.Indices.{
  frame_with, require_type, index_of, indices_of, index_of_json, indices_of_items, count_items,
  all_hashable, contains, all_distinct, check_items, items_of, text_of, value_of, shard_request,
  batch_request, items_of_json,
}
use litecast.Protocol.Messages.{
  encode_text, decode_text, check_version, encode_named, decode_named, encode_error, decode_error,
  load_object, encode_get_shard, read_shard_request, decode_get_shard, encode_get_shards,
  read_batch_request, decode_get_shards, encode_shard_metadata, decode_shard_metadata,
  encode_metadata, decode_metadata, encode_chunk_data, decode_chunk_data, encode_shutdown,
  decode_shutdown, ignore, validate_message,
}
use litecast.Streaming.Members.{mem}
use litecast.Transport.Wire.{
  is_checksum, all_present, has_keys, is_text, checksum_of, demand, plain_int, as_index,
  equals_index, validate_metadata, check_shard_metadata,
}
use litecast.Transport.Client.{
  or_other, is_error, check_integrity, check_digest, check_target, send, receive_obj, receive_into,
  receive_frame, refuse_error, ask, exchange_shard, receive_chunks, exchange_version,
}
use litecast.Transport.Shards.{
  subset, disjoint, target_size, index_field, read_item, read_items, array_field, integer_in,
  read_unavailable, read_batch,
}
use litecast.Transport.Batch.{lookup_or_other, receive_shards, exchange_shards}
use litecast.Transport.Sessions.{
  finished, stopped, execute, on_executor, exchange_alone, discard_persistent, release,
  UcxxTransport, has_nul, validate_version, keep, persistent, one_shot, on_connection, exchange_on,
  require_open, natural_index, fetch_shard, close,
}
use litecast.Transport.Server.{
  Message, send_obj, send_nonempty, shard_fields, metadata_message, found_items, batch_fields,
  look_up, send_found, send_chunks, reply_shard, serve_shard, serve_shards, serve_version,
  wait_until, serve_wait, serve_kind, serve_request, receive_and_serve,
}
use litecast.Transport.Delivery.{recv_message, recv_object, connected}
use litecast.Store.Read
use litecast.Transport.Client
use litecast.Transport.Sessions
use litecast.Protocol.Indices
use litecast.Transport.Fixtures.{hex64, digest, at_once, keyed, peer, no_real}
use litecast.Transport.Sessions.{
  finished, execute, on_executor, require_executor, fetch_shards_into,
}
use litecast.Streaming.Members.{mem}
use litecast.Protocol.Json.{done}
use litecast.Endpoints.Types.{EndpointMetadata}
use litecast.Endpoints.Parse.{Texts}
use litecast.Nodes.Download.{Download, NodeError, auto, checksum_at, expected_of}
use litecast.Nodes.Peers.{
  Outside, ClientState, length_fits, fill, accept_response, returned, without_digest, read_endpoint,
  remember, discover_endpoint_for, download_into_from, on_transport, fetch_into, by_ucxx,
  fetch_batch,
}
use litecast.Nodes.Coverage.{Fills}
use litecast.Nodes.Selected.{download_streaming-Fills}
use litecast.Nodes.Client.{
  usable, is_http, is_ucxx, discover_for, matching, by_http, or_http, try_owner, or_else,
  try_owners, receive_rounds, receive, receive_all, left, after_batch, receive_batch,
  receive_batches,
}
use litecast.Nodes.Batches.{add_to, first_of, group_by_owner, chunks, with_owner, batches_of}
use litecast.Nodes.Selected.{download_selected, check_root, finish, download_streaming}

program : Unit {0}
unfolding text_dec ℕ_discrete Dict.get Read.get text_eq is_empty all_chars is_lower_hex count_shards
    metadata_eq get_metadata shard_slice read_shard shard_checksum get_shard_with_checksum pack
    unpack_from unpack find_field all_keys has_exactly type_code message_type_of validate_limit
    check_range pack_header encode_frame decode_header decode_frame frame_with require_type index_of
    indices_of index_of_json indices_of_items count_items all_hashable contains all_distinct
    check_items items_of text_of value_of shard_request batch_request items_of_json encode_text
    decode_text check_version encode_named decode_named encode_error decode_error load_object
    encode_get_shard read_shard_request decode_get_shard encode_get_shards read_batch_request
    decode_get_shards encode_shard_metadata decode_shard_metadata encode_metadata decode_metadata
    encode_chunk_data decode_chunk_data encode_shutdown decode_shutdown ignore validate_message mem
    is_checksum all_present has_keys is_text checksum_of demand plain_int as_index equals_index
    validate_metadata check_shard_metadata or_other is_error check_integrity check_digest
    check_target send receive_obj receive_into receive_frame refuse_error ask exchange_shard
    receive_chunks exchange_version subset disjoint target_size index_field read_item read_items
    array_field integer_in read_unavailable read_batch lookup_or_other receive_shards
    exchange_shards has_nul validate_version execute on_executor keep persistent one_shot
    on_connection exchange_on require_open natural_index fetch_shard send_obj send_nonempty
    shard_fields metadata_message found_items batch_fields look_up send_found send_chunks
    reply_shard serve_shard serve_shards serve_version wait_until serve_wait serve_kind
    serve_request receive_and_serve recv_message recv_object connected Client.receive
    Sessions.check_batch Indices.check_batch require_executor fetch_shards_into checksum_at
    expected_of usable is_http is_ucxx discover_for matching by_http or_http try_owner or_else
    try_owners receive_rounds receive receive_all left after_batch receive_batch receive_batches
    add_to first_of group_by_owner chunks with_owner batches_of download_selected check_root finish
    download_streaming length_fits fill accept_response returned without_digest read_endpoint
    remember discover_endpoint_for download_into_from on_transport fetch_into by_ucxx fetch_batch
program = tt

abbrev middle : EndpointMetadata
middle = record {
  http_base_url = codes "http://a";
  ucxx = some (record { host = codes "a"; port = 13337; interface = none; verified_rdma = true });
  schema = 2;
  middle_id = none;
  capabilities = codes "get_shard" ∷ codes "get_shards" ∷ [];
}

abbrev plain : Texts
plain = record { encode = some; urlsplit = λ url. none; is_space = λ c. c == 32 }

abbrev outside : Outside (Unit {0}) (List Message)
outside = record {
  read_endpoints = λ base size w. (none, w);
  open_shard = λ server i w.
      (some (record { content_length = some (some (pos 2)); body = some (8 ∷ 9 ∷ []) }), w);
  network = λ host port w. peer;
  run = λ w. (finished, w);
  texts = plain;
  pairs = λ raw. none;
  codec = keyed;
  real_index = no_real;
  hexdigest = digest;
}

abbrev client : ClientState (Unit {0}) (List Message)
client = record {
  world = tt;
  endpoint_cache = (codes "a", middle) ∷ [];
  transports = λ host port lane. record {
    max_total_size = 100;
    executor = true;
    closed = false;
    connection = none;
  };
}

abbrev eight : Download
eight = record {
  name = codes "v1";
  shard_checksums = hex64 ∷ hex64 ∷ hex64 ∷ hex64 ∷ hex64 ∷ hex64 ∷ hex64 ∷ hex64 ∷ [];
  members = codes "a" ∷ [];
  replication_factor = pos 1;
  profiles = done;
  locality = [];
  transport = auto;
  rounds = 1;
  batch_size = 2;
  lanes = 1;
}

abbrev only : ℕ → Outcome NodeError (List Text)
only i = ok (codes "a" ∷ [])

abbrev received : List (ℕ × Bytes)
received = (2, 5 ∷ []) ∷ (7, 8 ∷ 9 ∷ []) ∷ []

abbrev after : ClientState (Unit {0}) (List Message)
after = (download_streaming outside eight only (λ raw. raw) none ((2, 1) ∷ (7, 2) ∷ []) client).1

run_download :
    download_streaming outside eight only (λ raw. raw) none ((2, 1) ∷ (7, 2) ∷ []) client
    ≡ (ok (some received), after)
unfolding program
run_download = refl

abbrev fills :
    (host : Text) (port : ℕ) (w : Unit {0}) (n : ℕ) (s : List Message) (raw : Bytes)
    (s' : List Message)
    → (outside.network host port w).recv n s ≡ some (raw, s')
    → length raw ≡ n
fills host port w = connected-fills keyed digest at_once 100

download_streaming-Fills_example : Fills outside eight fills only (2 ∷ 7 ∷ []) received
download_streaming-Fills_example =
    download_streaming-Fills outside eight only fills (λ raw. raw) none ((2, 1) ∷ (7, 2) ∷ [])
      client received after (omega arith) run_download
