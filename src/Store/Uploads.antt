-- ===== src/Store/Uploads.antt =====
-- litecast/store.py: `put_shard`, and `get_shard` after it, on a version in progress.
use litecast.Common.{
  ◌+◌, ℕ, ◌<◌, ◌≡◌, ap, sym, ◌∙◌, inl, inr, none, some, Text, Bytes, pos, length, text_dec, arith,
  Outcome, ok, raise, ◌==◌, if◌then◌else◌, Outcome-cases,
}
use native.Mathlib.Decide.{ℕ_discrete}
use mathlib.Core.Path.{subst}
use litecast.Common.Dict
use litecast.Store.Types.{StoreError, StoredVersion, CheckpointStore}
use litecast.Store.Write.{check_shard, put_shard_as, put_shard, insert_shard}
use litecast.Store.Read.{get_shard}
use litecast.Store.Totals.{total_bytes}
use litecast.Store.Invariant.{IsSound}
use litecast.Store.Partial.{IsPlaced, with_shard, check_shard-IsPlaced, check_shard-index}
use litecast.Store.Insert.{insert_shard-drift, insert_shard-find}

-- A call that returns was an insertion at its index.
put_shard_as-ok :
    (name : Text) (i : ℕ) (retained : Bytes) (digest : Text) (s : CheckpointStore)
    (stored : StoredVersion) (r : Bytes)
    → Dict.get text_dec name s.versions ≡ some stored
    → (put_shard_as name (pos i) retained digest s).0 ≡ ok r
    → (put_shard_as name (pos i) retained digest s ≡ insert_shard name i retained stored s)
      × IsPlaced stored (length retained) i
unfolding put_shard_as
put_shard_as-ok name i retained digest s stored r found h =
    elim (Outcome-cases (check_shard (pos i) (length retained) digest stored)) [
      | inl (e, refused) ↦
          let raised : put_shard_as name (pos i) retained digest s ≡ (raise e, s) =
            rw (found, put_shard_as, refused) in
          cc (h, ap (λ (x : Outcome StoreError Bytes × CheckpointStore). x.0) raised)
      | inr (k, accepted) ↦
          let same = check_shard-index i (length retained) digest stored k accepted in
          (
            rw (found, put_shard_as, accepted, same),
            subst (λ (n : ℕ). IsPlaced stored (length retained) n) same
                (check_shard-IsPlaced (pos i) (length retained) digest stored k accepted),
          )
    ]

module _ (stored : StoredVersion) (i : ℕ) (retained : Bytes) (j : ℕ) where
  read_shard-with_shard :
      stored.content ≡ none
      → i < stored.metadata.shard_count
      → (s s' : CheckpointStore) (name : Text) → Dict.get text_dec name s.versions ≡ some stored
      → Dict.get text_dec name s'.versions ≡ some (with_shard stored i retained)
      → get_shard s' name (pos j) ≡ (if i == j then ok retained else get_shard s name (pos j))
  unfolding get_shard
  read_shard-with_shard partial below s s' name found found' =
      rw (found, found', get_shard)
        (ground (arith, Dict.get-set ℕ_discrete i j retained stored.shards))

-- After a shard of a version in progress is accepted, `get_shard` returns it at its index, and at
-- every other index of the version what it returned before, an error too.
pub get_shard-put_shard :
    (hexdigest : Bytes → Text) (name : Text) (i j : ℕ) (retained r : Bytes) (s : CheckpointStore)
    (stored : StoredVersion)
    → IsSound s
    → Dict.get text_dec name s.versions ≡ some stored
    → stored.content ≡ none
    → (put_shard hexdigest name (pos i) retained s).0 ≡ ok r
    → get_shard (put_shard hexdigest name (pos i) retained s).1 name (pos j)
      ≡ (if i == j then ok retained else get_shard s name (pos j))
unfolding put_shard
get_shard-put_shard hexdigest name i j retained r s stored sound found partial h =
    let (done, placed) = put_shard_as-ok name i retained (hexdigest retained) s stored r found h in
    read_shard-with_shard stored i retained j partial placed.below s
      (put_shard_as name (pos i) retained (hexdigest retained) s).1 name found
      (rw done (
        insert_shard-find name i retained stored s found sound placed r
          (ap (λ (x : Outcome StoreError Bytes × CheckpointStore). x.0) (sym done) ∙ h)))

-- Where a version is stored whole and the running count is exact, a shard that `put_shard` accepts
-- at an index not put before is counted in `_size` and in no version: the count exceeds the bytes
-- held by the length of the shard.
pub put_shard-drift :
    (hexdigest : Bytes → Text) (name : Text) (i : ℕ) (retained r content : Bytes)
    (s : CheckpointStore) (stored : StoredVersion)
    → IsSound s
    → total_bytes s.versions ≡ s.size
    → Dict.get text_dec name s.versions ≡ some stored
    → stored.content ≡ some content
    → Dict.get ℕ_discrete i stored.shards ≡ none
    → (put_shard hexdigest name (pos i) retained s).0 ≡ ok r
    → (put_shard hexdigest name (pos i) retained s).1.size
      ≡ total_bytes (put_shard hexdigest name (pos i) retained s).1.versions + length retained
unfolding put_shard
put_shard-drift hexdigest name i retained r content s stored sound exact found whole absent h =
    let (done, placed) = put_shard_as-ok name i retained (hexdigest retained) s stored r found h in
    rw done (
      insert_shard-drift name i retained stored s found sound placed content whole absent exact r
        (ap (λ (x : Outcome StoreError Bytes × CheckpointStore). x.0) (sym done) ∙ h))
