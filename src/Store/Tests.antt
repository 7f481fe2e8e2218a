-- ===== src/Store/Tests.antt =====
-- Runs of the store on small inputs, and the theorems about it at such inputs. The digest of the
-- tests is the length of the bytes.
use litecast.Common.{
  ◌+◌, ◌≤◌, ◌≡◌, refl, true, none, some, List, [], ◌∷◌, Text, Bytes, pos, length, text_dec, ok,
  raise, codes, text_eq, is_empty, lower,
}
use native.Mathlib.Decide.{ℕ_discrete}
use litecast.Common.Dict
use litecast.Store.Types.{
  version_too_large, VersionMetadata, metadata_eq, StoredVersion, CheckpointStore, init,
  shard_bytes, stored_bytes,
}
use litecast.Store.Checks.{
  validate_name, validate_shard_size, validate_shard_checksums, count_shards, check_put,
  check_put_verified, is_base16,
}
use litecast.Store.Write.{
  evict, pop_version, put, put_verified, texts_eq, check_begin, begin_existing, begin_new,
  begin_version, has_shard_size, check_shard_digest, evict_others, held_bytes, put_shard,
  put_verified_shard, remove, clear,
}
use litecast.Store.Read
use litecast.Store.Read.{get_shard, is_complete, available_shards, get_metadata}
use litecast.Store.Totals.{total_bytes}
use litecast.Store.Invariant.{IsSound}
use litecast.Store.Commands.{
  Command, store, start, add_shard, perform, run, run-init-IsSound, run-init-IsExact,
}
use litecast.Store.Contents.{
  StoresOrRaises, read_shards, put-StoresOrRaises, put_verified-StoresOrRaises,
}
use litecast.Store.Eviction.{Inserts, put-Inserts}
use litecast.Store.Shards.{read_shards-total}
use litecast.Store.Uploads.{get_shard-put_shard, put_shard-drift}

program : Unit {0}
unfolding Dict.get Dict.set Dict.remove text_dec text_eq is_empty lower init shard_bytes
    stored_bytes metadata_eq validate_name validate_shard_size validate_shard_checksums count_shards
    check_put check_put_verified is_base16 evict pop_version put put_verified texts_eq check_begin
    begin_existing begin_new begin_version has_shard_size check_shard_digest evict_others held_bytes
    put_shard put_verified_shard remove clear get_shard is_complete available_shards get_metadata
    Read.get total_bytes perform run read_shards ℕ_discrete
program = tt

abbrev digest : Bytes → Text
digest content = length content ∷ []

abbrev empty : CheckpointStore
empty = record { capacity = 8; size = 0; versions = [] }

abbrev five : Bytes
five = 1 ∷ 2 ∷ 3 ∷ 4 ∷ 5 ∷ []

-- A version of three bytes in two shards.
abbrev plan : VersionMetadata
plan = record {
  name = codes "v2";
  total_size = 3;
  shard_size = 2;
  shard_count = 2;
  checksum = codes "c";
}

abbrev calls : List Command
calls =
    store (codes "v1") five (pos 2) none []
    ∷ start plan ((2 ∷ []) ∷ (1 ∷ []) ∷ [])
    ∷ add_shard (codes "v2") (pos 1) (9 ∷ [])
    ∷ add_shard (codes "v2") (pos 0) (7 ∷ 8 ∷ [])
    ∷ []

abbrev last : CheckpointStore
last = run digest calls empty

run_calls :
    (last.size ≡ 8)
    × (is_complete last (codes "v2") ≡ true)
    × (read_shards last (codes "v2") 0 2 ≡ ok (7 ∷ 8 ∷ 9 ∷ []))
    × (get_shard last (codes "v1") (pos 2) ≡ ok (5 ∷ []))
    × (available_shards last (codes "v2") ≡ 0 ∷ 1 ∷ [])
unfolding program
run_calls = (refl, refl, refl, refl, refl)

-- The next version evicts the oldest one, and a version that is too large changes nothing.
run_evicts :
    (Read.get (perform digest (store (codes "v3") five (pos 5) none []) last) (codes "v1") ≡ none)
    × ((put digest (codes "v4") (0 ∷ 1 ∷ 2 ∷ 3 ∷ five) (pos 5) none [] last)
        ≡ (raise version_too_large, last))
unfolding program
run_evicts = (refl, refl)

run-init-IsSound_example : IsSound last × (last.capacity ≡ 8)
unfolding program
run-init-IsSound_example = run-init-IsSound digest calls 8 empty refl

run-init-IsExact_example : (total_bytes last.versions ≡ last.size) × (last.size ≤ 8)
unfolding program
run-init-IsExact_example = run-init-IsExact digest calls 8 empty refl (tt, (tt, (refl, (refl, tt))))

put-StoresOrRaises_example :
    StoresOrRaises (codes "v1") five empty (put digest (codes "v1") five (pos 2) none [] empty)
put-StoresOrRaises_example = put-StoresOrRaises (codes "v1") five (pos 2) [] empty digest none

abbrev hex64 : Text
hex64 = codes "00112233445566778899AABBCCDDEEFF00112233445566778899aabbccddeeff"

put_verified-StoresOrRaises_example :
    StoresOrRaises (codes "v1") five last (put_verified (codes "v1") five (pos 2) hex64 [] last)
put_verified-StoresOrRaises_example =
    put_verified-StoresOrRaises (codes "v1") five (pos 2) [] last hex64

-- A full store, where `v1` has to go.
put-Inserts_example :
    Inserts (codes "v3") five last (put digest (codes "v3") five (pos 5) none [] last).1
unfolding program
put-Inserts_example =
    put-Inserts digest (codes "v3") five (pos 5) none [] last run-init-IsSound_example.0 refl
      (record {
        name = codes "v3";
        total_size = 5;
        shard_size = 5;
        shard_count = 1;
        checksum = 5 ∷ [];
      })
      refl

abbrev both : StoredVersion
both = record {
  metadata = plan;
  content = none;
  shards = (1, 9 ∷ []) ∷ (0, 7 ∷ 8 ∷ []) ∷ [];
  shard_checksums = (2 ∷ []) ∷ (1 ∷ []) ∷ [];
}

read_shards-total_example :
    (b : Bytes) × (read_shards last (codes "v2") 0 2 ≡ ok b) × (length b ≡ 3)
unfolding program
read_shards-total_example =
    read_shards-total last (codes "v2") both refl run-init-IsSound_example.0 refl refl

-- The state before the last shard.
abbrev first_calls : List Command
first_calls =
    store (codes "v1") five (pos 2) none []
    ∷ start plan ((2 ∷ []) ∷ (1 ∷ []) ∷ [])
    ∷ add_shard (codes "v2") (pos 1) (9 ∷ [])
    ∷ []

abbrev before : CheckpointStore
before = run digest first_calls empty

before-IsSound : IsSound before
unfolding program
before-IsSound = (run-init-IsSound digest first_calls 8 empty refl).0

get_shard-put_shard_example :
    get_shard (put_shard digest (codes "v2") (pos 0) (7 ∷ 8 ∷ []) before).1 (codes "v2") (pos 1)
    ≡ get_shard before (codes "v2") (pos 1)
unfolding program
get_shard-put_shard_example =
    get_shard-put_shard digest (codes "v2") 0 1 (7 ∷ 8 ∷ []) (7 ∷ 8 ∷ []) before
      (record both { shards = (1, 9 ∷ []) ∷ [] }) before-IsSound refl refl refl

abbrev whole : StoredVersion
whole = record {
  metadata = record {
    name = codes "v1";
    total_size = 5;
    shard_size = 2;
    shard_count = 3;
    checksum = 5 ∷ [];
  };
  content = some five;
  shards = [];
  shard_checksums = [];
}

put_shard-drift_example :
    (put_shard digest (codes "v1") (pos 0) (1 ∷ 2 ∷ []) before).1.size
    ≡ total_bytes (put_shard digest (codes "v1") (pos 0) (1 ∷ 2 ∷ []) before).1.versions + 2
unfolding program
put_shard-drift_example =
    put_shard-drift digest (codes "v1") 0 (1 ∷ 2 ∷ []) (1 ∷ 2 ∷ []) five before whole before-IsSound
      refl refl refl refl refl
