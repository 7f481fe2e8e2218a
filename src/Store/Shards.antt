-- ===== src/Store/Shards.antt =====
-- litecast/store.py: the shards of a version in progress, and `is_complete`.
use litecast.Common.{
  ℕ, zero, suc, ◌+◌, ◌*◌, ◌≤◌, ◌<◌, ◌≡◌, refl, sym, ◌∙◌, inl, inr, min, true, none, some, List, [],
  ◌∷◌, ◌++◌, Text, Bytes, pos, length, text_dec, arith, ok, lt→ltb, ◌==◌, Option-cases,
  length-append, ==_iff,
}
use mathlib.Core.Logic.{if_pos, if_neg}
use native.Mathlib.Decide.{ℕ_discrete}
use litecast.Common.Dict
use litecast.Store.Types.{VersionMetadata, StoredVersion, CheckpointStore}
use litecast.Store.Write.{check_index, has_shard_size}
use litecast.Store.Read.{get_shard, read_shard, is_complete}
use litecast.Store.Contents.{read_shards}
use Prim.Native.Nat.{max}
use litecast.Store.Invariant.{ShardsFit, ShardsFit-get, IsConsistent, IsSound}

-- The indices of the shards lie below `n`.
abbrev Below : ℕ → List (ℕ × Bytes) → Type 0
Below n [] = Unit
Below n ((i, b) ∷ shards) = (i < n) × Below n shards

ShardsFit-Below :
    (m : VersionMetadata) (shards : List (ℕ × Bytes))
    → ShardsFit m shards
    → Below m.shard_count shards
ShardsFit-Below m [] f = tt
ShardsFit-Below m ((i, b) ∷ shards) f = (f.1, ShardsFit-Below m shards f.2)

remove-Below :
    (n k : ℕ) (shards : List (ℕ × Bytes))
    → Below n shards
    → Below n (Dict.remove ℕ_discrete k shards)
unfolding Dict.remove
remove-Below n k [] h = tt
remove-Below n k ((i, b) ∷ shards) h = elim (ℕ_discrete i k) [
  | yes e ↦ rw (if_pos _ e) h.1
  | no e ↦ rw (if_neg _ e) (h.0, remove-Below n k shards h.1)
]

Below-pred :
    (n : ℕ) (shards : List (ℕ × Bytes))
    → Dict.get ℕ_discrete n shards ≡ none
    → Below (suc n) shards
    → Below n shards
unfolding Dict.get
Below-pred n [] a h = tt
Below-pred n ((i, b) ∷ shards) a h = elim (ℕ_discrete i n) [
  | yes e ↦ absurd (ground arith)
  | no e ↦ (omega arith, Below-pred n shards (ground arith) h.1)
]

length-remove-le :
    (k : ℕ) (shards : List (ℕ × Bytes))
    → length shards ≤ suc (length (Dict.remove ℕ_discrete k shards))
unfolding Dict.remove
length-remove-le k [] = omega arith
length-remove-le k ((i, b) ∷ shards) = ground (arith, length-remove-le k shards)

-- At most `n` different indices lie below `n`.
length-le_of_Below :
    (n : ℕ) (shards : List (ℕ × Bytes))
    → Dict.IsDistinct ℕ_discrete shards
    → Below n shards
    → length shards ≤ n
length-le_of_Below zero [] d h = omega arith
length-le_of_Below zero ((i, b) ∷ shards) d h = absurd (omega arith)
length-le_of_Below (suc n) shards d h =
    let rest = Dict.remove ℕ_discrete n shards in
    omega (
      arith,
      length-remove-le n shards,
      length-le_of_Below n rest (Dict.remove-IsDistinct ℕ_discrete n shards d) (
          Below-pred n rest (Dict.get-remove_self ℕ_discrete n shards d)
            (remove-Below (suc n) n shards h)),
    )

-- As many different indices below `n` as there are: none is missing.
none_missing :
    (n i : ℕ) (shards : List (ℕ × Bytes))
    → Dict.IsDistinct ℕ_discrete shards
    → Below n shards
    → length shards ≡ n
    → i < n
    → (b : Bytes) × (Dict.get ℕ_discrete i shards ≡ some b)
none_missing n i shards d h full below = elim (Option-cases (Dict.get ℕ_discrete i shards)) [
  | inl absent ↦
      absurd (omega (arith, length-le_of_Below n ((i, []) ∷ shards) (absent, d) (below, h)))
  | inr found ↦ found
]

has_shard_size-eq :
    (m : VersionMetadata) (i n : ℕ)
    → has_shard_size m i n ≡ true
    → n + i * m.shard_size ≡ min (m.shard_size + i * m.shard_size) m.total_size
unfolding has_shard_size
has_shard_size-eq m i n h = (==_iff _ _).0 h

module _ (s : CheckpointStore) (name : Text) (stored : StoredVersion)
    (found : Dict.get text_dec name s.versions ≡ some stored) (sound : IsSound s)
    (partial : stored.content ≡ none) (complete : is_complete s name ≡ true) where
  consistent : IsConsistent stored
  consistent = Dict.All-get text_dec IsConsistent name s.versions stored found sound.consistent

  all_shards : length stored.shards ≡ stored.metadata.shard_count
  unfolding is_complete
  all_shards =
      let counted : is_complete s name ≡ (length stored.shards == stored.metadata.shard_count) =
        rw (found, is_complete, partial) in
      (==_iff _ _).0 (sym counted ∙ complete)

  shard_at :
      (i : ℕ)
      → i < stored.metadata.shard_count
      → (b : Bytes) × (get_shard s name (pos i) ≡ ok b)
        × (has_shard_size stored.metadata i (length b) ≡ true)
  unfolding get_shard
  shard_at i below =
      let (b, here) =
        none_missing stored.metadata.shard_count i stored.shards consistent.distinct
          (ShardsFit-Below stored.metadata stored.shards consistent.shards_fit) all_shards below in
      (
        b,
        rw (found, get_shard, check_index, lt→ltb _ _ below, read_shard, partial, here),
        ShardsFit-get stored.metadata i stored.shards b consistent.shards_fit here,
      )

  read_shards-length :
      (n i : ℕ)
      → i + n ≤ stored.metadata.shard_count
      → (b : Bytes) × (read_shards s name i n ≡ ok b)
        × (length b + i * stored.metadata.shard_size
            ≡ max
                (i * stored.metadata.shard_size)
                (min ((i + n) * stored.metadata.shard_size) stored.metadata.total_size))
  unfolding read_shards
  read_shards-length zero i h = ([], refl, omega arith)
  read_shards-length (suc n) i h =
      let (shard, here, sized) = shard_at i (omega arith) in
      let (rest, there, counted) = read_shards-length n (i + 1) (omega arith) in
      (
        shard ++ rest,
        rw (here, there),
        omega (
          arith,
          length-append shard rest,
          counted,
          has_shard_size-eq stored.metadata i (length shard) sized,
        ),
      )

  -- A version in progress that `is_complete` has every shard, whatever count its metadata has, and
  -- the shards join to as many bytes as their count and their size make, but no more than the total.
  pub read_shards-total :
      (b : Bytes) × (read_shards s name 0 stored.metadata.shard_count ≡ ok b)
      × (length b
          ≡ min
              (stored.metadata.shard_count * stored.metadata.shard_size)
              stored.metadata.total_size)
  read_shards-total =
      let m = stored.metadata in
      let (b, read, sized) = read_shards-length m.shard_count 0 (omega arith) in
      (b, read, omega (arith, sized))
