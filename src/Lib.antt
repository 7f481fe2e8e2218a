-- ===== src/Lib.antt =====
-- litecast distributes checkpoints of model weights from publishers through CPU middle caches to
-- clients. This library models the parts of the Python package `litecast` that decide what is
-- stored and what goes over the wire.
--
-- Parts, and how they interact. An origin or a middle keeps complete and partial versions in a
-- `CheckpointStore` (litecast/store.py); servers and transports read its shards, and middles fill
-- it shard by shard. Peers on the UCXX data plane exchange frames (litecast/protocol.py): a
-- receiver feeds the bytes that arrive to a `FrameDecoder`, and answers requests for shards with
-- chunks. A publisher's shards are spread over the middles by `shard_owners`
-- (litecast/streaming.py), which every party computes for itself. Adapters travel as bundles of
-- their two files, named by a `Publication` (litecast/registry/protocol.py).
--
-- Files.
-- - `Common`: the shared names; numbers, `bytes` and `str` as lists of native numbers, `dict` as a
--   list of entries in the order of insertion (`Common/Dict.antt`), calls that return or raise
--   (`Common/Results.antt`), also over a state (`Common/Effects.antt`).
-- - `Store`: litecast/store.py. `Store/Types.antt` is `VersionMetadata`, `_StoredVersion` and the
--   state of `CheckpointStore`; `Store/Checks.antt` the validation of arguments;
--   `Store/Write.antt` `put`, `put_verified`, `begin_version`, `put_shard`, `put_verified_shard`,
--   `remove` and `clear`, each from a state to an outcome and the state behind it, also behind a
--   raise; `Store/Read.antt` the calls that only read. The other files of `Store/` hold the
--   proofs.
-- - `Protocol`: litecast/protocol.py. `Protocol/Words.antt` packs the numbers of the header and of
--   the chunk prefix, `Protocol/Frames.antt` is `MessageType`, `Frame`, `encode_frame`,
--   `decode_header` and `decode_frame`, `Protocol/Stream.antt` `FrameDecoder` and `decode_frames`,
--   `Protocol/Indices.antt` and `Protocol/Messages.antt` the messages and `_validate_message`,
--   `Protocol/Json.antt` the JSON values and the codec. The other files of `Protocol/` hold the
--   proofs.
-- - `Streaming`: the placement of shards in litecast/streaming.py. `Streaming/Members.antt` is
--   `canonical_members` and `canonical_member_profiles`, `Streaming/Owners.antt` `shard_owners`
--   and `order_owners_for_client`, `Streaming/Merkle.antt` `merkle_root`,
--   `Streaming/Manifest.antt` `ShardManifest` and `build_manifest`. The other files of
--   `Streaming/` hold the proofs.
-- - `Registry`: litecast/registry/protocol.py. `Registry/Bundles.antt` is `pack_adapter`,
--   `split_adapter`, `validate_run_id` and `Publication` with `verify`, `Registry/RoundTrip.antt`
--   the proofs.
--
-- - `Transport`: litecast/transport/ucxx.py. `Transport/Wire.antt` is the errors,
--   `_validate_metadata` and what the module uses of an endpoint; `Transport/Client.antt`
--   `_exchange_shard` and the exchange of `_fetch`, `Transport/Shards.antt` and
--   `Transport/Batch.antt` `_exchange_shards`, `Transport/Sessions.antt` the state and the calls
--   of `UCXXTransport` and of its executor, and `Transport/Server.antt` the replies of
--   `UCXXServer`. `Transport/Delivery.antt` connects the two sides. The other files of
--   `Transport/` hold the proofs.
-- - `Endpoints`: litecast/endpoints.py. `Endpoints/Types.antt` is `EndpointMetadata` and
--   `to_dict`, `Endpoints/Parse.antt` is `_parse_mapping` with the tests that it uses,
--   `Endpoints/Files.antt` the JSON that is read and written. The other files of `Endpoints/` hold
--   the proofs.
--
-- - `Nodes`: litecast/client_node.py and litecast/middle_node.py. `Nodes/Download.antt` is what a
--   download is given, `Nodes/Peers.antt` the endpoints and the transports that a client keeps and
--   `download_into_from` of litecast/client.py, `Nodes/Client.antt` `receive` and `receive_batch`
--   of `_download_streaming`, `Nodes/Batches.antt` its batches and `Nodes/Selected.antt` the
--   download of selected shards; `Nodes/Middle.antt` is the assignment of shards in
--   `_process_streaming_version`. The other files of `Nodes/` hold the proofs.
--
-- Choices. The lock of the store makes each call one step. The declared types of parameters are
-- taken for granted, so `isinstance` tests have no counterpart. A buffer is the bytes that it
-- holds when the call is made. The digest function of the package blake3 is a parameter. Sizes are
-- natural numbers; where the source subtracts, the difference stops at 0, and what is subtracted
-- is part of the count. The loops of the store run over lists. The loop of `merkle_root` has as
-- much fuel as the level has digests, and each round halves the level. The loop of
-- `FrameDecoder.feed` has as much fuel as its buffer has bytes; each round takes a header of
-- sixteen bytes at least, so any larger fuel gives the same (`Protocol/Feeding.antt`).
-- `str.encode`, `bytes.decode`, `json.dumps` and `json.loads` are the fields of a record that the
-- definitions take; a theorem that needs more of them says so in a hypothesis. Python's floats and
-- `math.log` are the record `Floats`, over any type of numbers: the ranking by score is computed,
-- and the proofs ask nothing of it.
--
-- An endpoint of UCXX is a record of its calls over a state of any type, and a timeout is one of
-- its exceptions. What another thread does to the store while a request is served is in `Moments`:
-- the state of the store at each read. A client tries the owners of a shard for as many rounds as
-- it is given, which stand for its deadline. What it reads by `urlopen`, what UCXX connects it to
-- and how its event loop runs a coroutine come from a record of operations over a state of any
-- type. A coroutine that the executor runs is not started, runs to its end, or is cancelled at any
-- state of the endpoint: `Run` in `Transport/Sessions.antt`. The loop of `wait_version` runs over
-- the polls up to its deadline.
--
-- Not modelled are the dictionaries of manifests; of the transports, the configuration of UCX, and
-- the threads of event loops and listeners; of the client, whole versions and the files that it
-- writes; of the middles, the fetches and their threads; and the modules of the origin and of the
-- registry's services, which are input and output, threads and external services.
pub mod Common
pub mod Endpoints
pub mod Nodes
pub mod Protocol
pub mod Registry
pub mod Store
pub mod Streaming
pub mod Transport
