-- ===== src/Store/Partial.antt =====
-- One shard that enters a version: the tests that it passed, and the size of the version.
use litecast.Common.{
  ℕ, ◌+◌, ◌<◌, ◌≡◌, ◌⊎◌, inl, inr, true, none, some, Text, Bytes, ℤ, pos, negsuc, length, arith,
  Option-cases, ok,
}
use native.Mathlib.Decide.{ℕ_discrete}
use litecast.Common.Dict
use litecast.Store.Types.{StoredVersion, stored_bytes}
use litecast.Store.Write.{held_bytes, has_shard_size, check_shard}
use litecast.Store.Totals.{shard_bytes-set}
use litecast.Store.Invariant.{IsConsistent, ShardsFit-get, ShardsFit-set, shard_size_unique}

-- What the tests of `_put_shard` have established.
pub record IsPlaced (stored : StoredVersion) (n i : ℕ) : Type 0 where
  pub sized : has_shard_size stored.metadata i n ≡ true
  pub below : i < stored.metadata.shard_count

pub check_shard-IsPlaced :
    (index : ℤ) (n : ℕ) (digest : Text) (stored : StoredVersion) (i : ℕ)
    → check_shard index n digest stored ≡ ok i
    → IsPlaced stored n i
unfolding check_shard
check_shard-IsPlaced (negsuc k) n digest stored i h = cc
check_shard-IsPlaced (pos k) n digest stored i h = ground arith

pub check_shard-index :
    (k n : ℕ) (digest : Text) (stored : StoredVersion) (i : ℕ)
    → check_shard (pos k) n digest stored ≡ ok i
    → i ≡ k
unfolding check_shard
check_shard-index k n digest stored i h = ground arith

module _ (stored : StoredVersion) (i : ℕ) (retained : Bytes) where
  abbrev pub held : ℕ
  held = held_bytes (Dict.get ℕ_discrete i stored.shards)

  abbrev pub with_shard : StoredVersion
  with_shard = record stored { shards = Dict.set ℕ_discrete i retained stored.shards }

  pub held-le :
      IsConsistent stored
      → IsPlaced stored (length retained) i
      → (held ≡ 0) ⊎ (held ≡ length retained)
  unfolding held_bytes
  held-le c p = elim (Option-cases (Dict.get ℕ_discrete i stored.shards)) [
    | inl absent ↦ inl (rw absent)
    | inr (b, found) ↦ inr (
        rw found (
          shard_size_unique stored.metadata i (length b) (length retained)
            (ShardsFit-get stored.metadata i stored.shards b c.shards_fit found) p.sized))
  ]

  pub held_absent : Dict.get ℕ_discrete i stored.shards ≡ none → held ≡ 0
  unfolding held_bytes
  held_absent absent = rw absent

  pub stored_bytes-in_progress :
      stored.content ≡ none → stored_bytes with_shard + held ≡ stored_bytes stored + length retained
  unfolding stored_bytes
  stored_bytes-in_progress e = rw (e, stored_bytes) (shard_bytes-set i retained stored.shards)

  pub stored_bytes-whole :
      (content : Bytes)
      → stored.content ≡ some content
      → stored_bytes with_shard ≡ stored_bytes stored
  unfolding stored_bytes
  stored_bytes-whole content e = rw (e, stored_bytes)

  pub with_shard-IsConsistent :
      IsConsistent stored → IsPlaced stored (length retained) i → IsConsistent with_shard
  with_shard-IsConsistent c p = record {
    positive = c.positive;
    shards_fit =
        ShardsFit-set stored.metadata i retained stored.shards p.sized p.below c.shards_fit;
    distinct = Dict.set-IsDistinct ℕ_discrete i retained stored.shards c.distinct;
    checksums = c.checksums;
    whole = c.whole;
  }
