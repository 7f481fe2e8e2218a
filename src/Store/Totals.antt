-- ===== src/Store/Totals.antt =====
-- What the versions of the store hold together, under the changes of its dictionary, and the two
-- eviction loops.
use litecast.Common.{
  ℕ, ◌+◌, ◌-◌, ◌≤◌, ◌≡◌, refl, ◌⊎◌, inr, none, some, List, [], ◌∷◌, Text, Bytes, length, text_dec,
  text_eq_iff, arith,
}
use native.Mathlib.Decide.{ℕ_discrete}
use litecast.Common.Dict
use litecast.Store.Types.{StoredVersion, CheckpointStore, stored_bytes, shard_bytes}
use litecast.Store.Write.{evict, evict_others, held_bytes}

abbrev pub Versions : Type 0
Versions = List (Text × StoredVersion)

unfoldable pub total_bytes : Versions → ℕ
total_bytes [] = 0
total_bytes ((name, v) ∷ versions) = stored_bytes v + total_bytes versions

pub total-remove :
    (name : Text) (d : Versions) (v : StoredVersion)
    → Dict.get text_dec name d ≡ some v
    → total_bytes (Dict.remove text_dec name d) + stored_bytes v ≡ total_bytes d
unfolding total_bytes Dict.get Dict.remove
total-remove name [] v h = cc
total-remove name ((other, w) ∷ d) v h = ground (arith, total-remove name d v)

pub total-set-some :
    (name : Text) (v : StoredVersion) (d : Versions) (w : StoredVersion)
    → Dict.get text_dec name d ≡ some w
    → total_bytes (Dict.set text_dec name v d) + stored_bytes w ≡ total_bytes d + stored_bytes v
unfolding total_bytes Dict.get Dict.set
total-set-some name v [] w h = cc
total-set-some name v ((other, u) ∷ d) w h = ground (arith, total-set-some name v d w)

pub total-set-none :
    (name : Text) (v : StoredVersion) (d : Versions)
    → Dict.get text_dec name d ≡ none
    → total_bytes (Dict.set text_dec name v d) ≡ total_bytes d + stored_bytes v
unfolding total_bytes Dict.get Dict.set
total-set-none name v [] h = omega arith
total-set-none name v ((other, w) ∷ d) h = ground (arith, total-set-none name v d)

pub shard_bytes-set :
    (i : ℕ) (b : Bytes) (shards : List (ℕ × Bytes))
    → shard_bytes (Dict.set ℕ_discrete i b shards) + held_bytes (Dict.get ℕ_discrete i shards)
      ≡ shard_bytes shards + length b
unfolding shard_bytes held_bytes Dict.get Dict.set
shard_bytes-set i b [] = omega arith
shard_bytes-set i b ((j, c) ∷ shards) = ground (arith, shard_bytes-set i b shards)

-- The difference between the running count and the bytes held stays as it is.
pub evict-total :
    (slack need size : ℕ) (s : CheckpointStore) (d : Versions)
    → total_bytes d + slack ≡ size
    → total_bytes (evict need size s d).versions + slack ≡ (evict need size s d).size
unfolding evict total_bytes
evict-total slack need size s [] h = h
evict-total slack need size s ((name, v) ∷ d) h =
    ground (arith, evict-total slack need (size - stored_bytes v) s d)

pub evict-fits :
    (need size : ℕ) (s : CheckpointStore) (d : Versions)
    → ((evict need size s d).size + need ≤ s.capacity) ⊎ ((evict need size s d).versions ≡ [])
unfolding evict
evict-fits need size s [] = inr refl
evict-fits need size s ((name, v) ∷ d) = ground (arith, evict-fits need (size - stored_bytes v) s d)

pub evict-capacity :
    (need size : ℕ) (s : CheckpointStore) (d : Versions)
    → (evict need size s d).capacity ≡ s.capacity
unfolding evict
evict-capacity need size s [] = refl
evict-capacity need size s ((name, v) ∷ d) =
    ground (arith, evict-capacity need (size - stored_bytes v) s d)

module _ (name : Text) (need held : ℕ) where
  pub evict_others-total :
      (slack size : ℕ) (s : CheckpointStore) (d : Versions)
      → total_bytes d + slack ≡ size
      → total_bytes (evict_others name need held size s d).versions + slack
        ≡ (evict_others name need held size s d).size
  unfolding evict_others total_bytes
  evict_others-total slack size s [] h = h
  evict_others-total slack size s ((oldest, v) ∷ d) h =
      ground (arith, evict_others-total slack (size - stored_bytes v) s d)

  pub evict_others-capacity :
      (size : ℕ) (s : CheckpointStore) (d : Versions)
      → (evict_others name need held size s d).capacity ≡ s.capacity
  unfolding evict_others
  evict_others-capacity size s [] = refl
  evict_others-capacity size s ((oldest, v) ∷ d) =
      ground (arith, evict_others-capacity (size - stored_bytes v) s d)

  -- The version that receives the shard is never evicted.
  pub evict_others-get :
      (size : ℕ) (s : CheckpointStore) (d : Versions)
      → Dict.get text_dec name (evict_others name need held size s d).versions
        ≡ Dict.get text_dec name d
  unfolding evict_others Dict.get
  evict_others-get size s [] = refl
  evict_others-get size s ((oldest, v) ∷ d) =
      ground (arith, evict_others-get (size - stored_bytes v) s d, text_eq_iff oldest name)
