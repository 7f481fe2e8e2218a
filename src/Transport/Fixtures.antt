-- ===== src/Transport/Fixtures.antt =====
-- A store on one side of a connection, for the runs at small inputs. Its codec writes an object as
-- its first two keys, and knows one document for each.
use litecast.Common.{none, some, List, [], ◌∷◌, ◌++◌, Text, Bytes, Option, ℕ, codes, if◌then◌else◌}
use litecast.Store.Types.{VersionMetadata, StoredVersion, CheckpointStore}
use litecast.Protocol.Json.{Json, object, field, Codec}
use litecast.Common.{text_eq}
use litecast.Protocol.Indices.{shard_request, batch_request}
use litecast.Transport.Wire.{Endpoint}
use litecast.Transport.Server.{Message, shard_fields, metadata_message, batch_fields}
use litecast.Transport.Delivery.{connected}
use litecast.Transport.Server.{Moments}

abbrev pub hex64 : Text
hex64 = codes "0123456789abcdef0123456789abcdef0123456789abcdef0123456789abcdef"

abbrev pub digest : Bytes → Text
digest content = hex64

abbrev pub five : Bytes
five = 1 ∷ 2 ∷ 3 ∷ 4 ∷ 5 ∷ []

abbrev pub plan : VersionMetadata
plan = record {
  name = codes "v1";
  total_size = 5;
  shard_size = 2;
  shard_count = 3;
  checksum = hex64;
}

abbrev pub stored : StoredVersion
stored = record { metadata = plan; content = some five; shards = []; shard_checksums = [] }

abbrev pub full : CheckpointStore
full = record { capacity = 8; size = 5; versions = (codes "v1", stored) ∷ [] }

abbrev pub at_once : Moments
at_once = record {
  first = full;
  second = full;
  third = full;
  at_index = λ _. full;
  polls = (codes "v1" ∷ []) ∷ [];
}

abbrev pub keys_of : Json → Bytes
keys_of (object (field k v (field key value rest))) = k ++ key
keys_of _ = []

-- The documents of an exchange about the last shard, or about a batch, of `v1`.
abbrev pub document : Bytes → Option Json
document key =
    if text_eq key (codes "indexversion")
    then some (shard_request (codes "v1") 2)
    else if text_eq key (codes "checksumindex")
    then some (object (shard_fields (codes "v1") 2 1 hex64))
    else if text_eq key (codes "indicesversion")
    then some (batch_request (codes "v1") (2 ∷ 7 ∷ []))
    else if text_eq key (codes "shardsunavailable")
    then some (object (batch_fields (codes "v1") ((2, 5 ∷ [], hex64) ∷ []) (7 ∷ [])))
    else if text_eq key (codes "checksumname")
    then some (object (metadata_message plan))
    else none

abbrev pub keyed : Codec
keyed = record {
  encode = some;
  decode = some;
  dumps = keys_of;
  dumps_utf8 = λ j. some (keys_of j);
  loads = document;
}

abbrev pub peer : Endpoint (List Message)
peer = connected keyed digest at_once 100

abbrev pub no_real : Text → Option ℕ
no_real t = none
