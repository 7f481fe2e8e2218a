-- ===== src/Store/Invariant.antt =====
-- litecast/store.py: the invariant of the store, of the names, the versions and the bytes that they
-- hold.
use litecast.Common.{
  ℕ, ◌+◌, ◌-◌, ◌≤◌, ◌<◌, ◌≡◌, refl, ◌⊎◌, true, Option, none, some, List, [], ◌∷◌, Text, Bytes,
  length, text_dec, arith, if_both, ltb, text_eq, ◌&&◌, not,
}
use mathlib.Core.Logic.{if_pos, if_neg}
use native.Mathlib.Decide.{ℕ_discrete}
use litecast.Common.Dict
use litecast.Store.Types.{VersionMetadata, StoredVersion, CheckpointStore, stored_bytes}
use litecast.Store.Checks.{count_shards}
use litecast.Store.Write.{evict, evict_others, has_shard_size}
use litecast.Store.Totals.{Versions, total_bytes}

-- Each shard has the size that the metadata gives it, and an index below the count.
abbrev pub ShardsFit : VersionMetadata → List (ℕ × Bytes) → Type 0
ShardsFit m [] = Unit
ShardsFit m ((i, b) ∷ shards) =
    (has_shard_size m i (length b) ≡ true) × (i < m.shard_count) × ShardsFit m shards

-- A version that is stored whole has the metadata of its bytes.
abbrev pub WholeFits : VersionMetadata → Option Bytes → Type 0
WholeFits m none = Unit
WholeFits m (some content) =
    (m.total_size ≡ length content) × (m.shard_count ≡ count_shards m.total_size m.shard_size)

pub record IsConsistent (v : StoredVersion) : Type 0 where
  pub positive : 0 < v.metadata.shard_size
  pub shards_fit : ShardsFit v.metadata v.shards
  pub distinct : Dict.IsDistinct ℕ_discrete v.shards
  pub checksums : (v.shard_checksums ≡ []) ⊎ (length v.shard_checksums ≡ v.metadata.shard_count)
  pub whole : WholeFits v.metadata v.content

pub record IsSound (s : CheckpointStore) : Type 0 where
  pub distinct : Dict.IsDistinct text_dec s.versions
  pub consistent : Dict.All text_dec IsConsistent s.versions
  pub counted : total_bytes s.versions ≤ s.size
  pub within : total_bytes s.versions ≤ s.capacity

-- Two shards with the same index in one version have the same size.
pub shard_size_unique :
    (m : VersionMetadata) (i n k : ℕ)
    → has_shard_size m i n ≡ true
    → has_shard_size m i k ≡ true
    → n ≡ k
unfolding has_shard_size
shard_size_unique m i n k p q = ground arith

pub ShardsFit-get :
    (m : VersionMetadata) (i : ℕ) (shards : List (ℕ × Bytes)) (b : Bytes)
    → ShardsFit m shards
    → Dict.get ℕ_discrete i shards ≡ some b
    → has_shard_size m i (length b) ≡ true
unfolding Dict.get
ShardsFit-get m i [] b f h = cc
ShardsFit-get m i ((j, c) ∷ shards) b f h = ground (arith, ShardsFit-get m i shards b f.2)

pub ShardsFit-set :
    (m : VersionMetadata) (i : ℕ) (b : Bytes) (shards : List (ℕ × Bytes))
    → has_shard_size m i (length b) ≡ true
    → i < m.shard_count
    → ShardsFit m shards
    → ShardsFit m (Dict.set ℕ_discrete i b shards)
unfolding Dict.set
ShardsFit-set m i b [] p q f = (p, q, tt)
ShardsFit-set m i b ((j, c) ∷ shards) p q f = elim (ℕ_discrete j i) [
  | yes e ↦ rw (if_pos _ e) (rw e (p, q, f.2))
  | no e ↦ rw (if_neg _ e) (f.0, f.1, ShardsFit-set m i b shards p q f.2)
]

-- The loops of eviction leave a suffix of the versions.
pub evict-get-none :
    (name : Text) (need size : ℕ) (s : CheckpointStore) (d : Versions)
    → Dict.get text_dec name d ≡ none
    → Dict.get text_dec name (evict need size s d).versions ≡ none
unfolding evict Dict.get
evict-get-none name need size s [] h = refl
evict-get-none name need size s ((other, v) ∷ d) h =
    ground (arith, evict-get-none name need (size - stored_bytes v) s d)

module _ (P : Versions → Type 0)
    (tail : (e : Text × StoredVersion) (d : Versions) → P (e ∷ d) → P d) where
  pub evict-suffix :
      (need size : ℕ) (s : CheckpointStore) (d : Versions) → P d → P (evict need size s d).versions
  unfolding evict
  evict-suffix need size s [] h = h
  evict-suffix need size s ((other, v) ∷ d) h =
      if_both (λ (r : CheckpointStore). P r.versions) (ltb s.capacity (size + need)) _ _
        (evict-suffix need (size - stored_bytes v) s d (tail (other, v) d h)) h

  pub evict_others-suffix :
      (name : Text) (need held size : ℕ) (s : CheckpointStore) (d : Versions)
      → P d
      → P (evict_others name need held size s d).versions
  unfolding evict_others
  evict_others-suffix name need held size s [] h = h
  evict_others-suffix name need held size s ((other, v) ∷ d) h =
      if_both (λ (r : CheckpointStore). P r.versions)
        (ltb (s.capacity + held) (size + need) && not (text_eq other name)) _ _
        (evict_others-suffix name need held (size - stored_bytes v) s d (tail (other, v) d h)) h

pub evict-IsDistinct :
    (need size : ℕ) (s : CheckpointStore) (d : Versions)
    → Dict.IsDistinct text_dec d
    → Dict.IsDistinct text_dec (evict need size s d).versions
evict-IsDistinct = evict-suffix (Dict.IsDistinct text_dec) (λ e d h. h.1)

pub evict-IsConsistent :
    (need size : ℕ) (s : CheckpointStore) (d : Versions)
    → Dict.All text_dec IsConsistent d
    → Dict.All text_dec IsConsistent (evict need size s d).versions
evict-IsConsistent = evict-suffix (Dict.All text_dec IsConsistent) (λ e d h. h.1)

pub evict_others-IsDistinct :
    (name : Text) (need held size : ℕ) (s : CheckpointStore) (d : Versions)
    → Dict.IsDistinct text_dec d
    → Dict.IsDistinct text_dec (evict_others name need held size s d).versions
evict_others-IsDistinct = evict_others-suffix (Dict.IsDistinct text_dec) (λ e d h. h.1)

pub evict_others-IsConsistent :
    (name : Text) (need held size : ℕ) (s : CheckpointStore) (d : Versions)
    → Dict.All text_dec IsConsistent d
    → Dict.All text_dec IsConsistent (evict_others name need held size s d).versions
evict_others-IsConsistent = evict_others-suffix (Dict.All text_dec IsConsistent) (λ e d h. h.1)
