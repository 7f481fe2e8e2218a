-- ===== src/Store/Insert.antt =====
-- `_put_shard` behind its tests: eviction, the change of the entry, and the invariant.
use litecast.Store.Partial.{
  IsPlaced, held, with_shard, held-le, stored_bytes-in_progress, stored_bytes-whole,
  with_shard-IsConsistent, held_absent,
}
use litecast.Common.{
  ap, ltb_false→le, ltb, Bool-cases, ℕ, ◌+◌, ◌-◌, ◌≤◌, ◌≡◌, ◌⊎◌, inl, inr, none, some, Text, Bytes,
  length, text_dec, arith, Option-cases, Outcome, ok, raise, ◌∙◌,
}
use native.Mathlib.Decide.{ℕ_discrete}
use litecast.Common.Dict
use litecast.Store.Types.{
  version_too_large, StoreError, StoredVersion, CheckpointStore, stored_bytes,
}
use litecast.Store.Write.{evict_others, insert_shard}
use litecast.Store.Totals.{
  total_bytes, total-set-some, evict_others-total, evict_others-capacity, evict_others-get,
}
use litecast.Store.Invariant.{
  IsConsistent, IsSound, evict_others-IsDistinct, evict_others-IsConsistent, evict_others-suffix,
}

-- The steps of `insert_shard`, at the entry of the name that it changes.
module _ (name : Text) (i : ℕ) (retained : Bytes) (stored : StoredVersion) (s : CheckpointStore)
    (found : Dict.get text_dec name s.versions ≡ some stored) (sound : IsSound s)
    (placed : IsPlaced stored (length retained) i) where
  abbrev left : CheckpointStore
  left = evict_others name (length retained) (held stored i retained) s.size s s.versions

  consistent : IsConsistent stored
  consistent = Dict.All-get text_dec IsConsistent name s.versions stored found sound.consistent

  left-get : Dict.get text_dec name left.versions ≡ some stored
  left-get =
      evict_others-get name (length retained) (held stored i retained) s.size s s.versions ∙ found

  left-total :
      (slack : ℕ)
      → total_bytes s.versions + slack ≡ s.size
      → total_bytes left.versions + slack ≡ left.size
  left-total slack h =
      evict_others-total name (length retained) (held stored i retained) slack s.size s s.versions h

  left-le : total_bytes left.versions ≤ total_bytes s.versions
  unfolding total_bytes
  left-le =
      evict_others-suffix (λ d. total_bytes d ≤ total_bytes s.versions) (λ e d h. omega arith) name
        (length retained) (held stored i retained) s.size s s.versions (omega arith)

  set-total :
      total_bytes (Dict.set text_dec name (with_shard stored i retained) left.versions)
        + stored_bytes stored
      ≡ total_bytes left.versions + stored_bytes (with_shard stored i retained)
  set-total = total-set-some name (with_shard stored i retained) left.versions stored left-get

  -- The entry grows by the difference of the sizes, or not at all where it is whole.
  growth :
      (stored_bytes (with_shard stored i retained) + held stored i retained
        ≡ stored_bytes stored + length retained)
      ⊎ (stored_bytes (with_shard stored i retained) ≡ stored_bytes stored)
  growth = elim (Option-cases stored.content) [
    | inl partial ↦ inl (stored_bytes-in_progress stored i retained partial)
    | inr (content, whole) ↦ inr (stored_bytes-whole stored i retained content whole)
  ]

  abbrev inserted : CheckpointStore
  inserted = record left {
    versions = Dict.set text_dec name (with_shard stored i retained) left.versions;
    size = left.size + length retained - held stored i retained;
  }

  inserted-counted : total_bytes inserted.versions ≤ inserted.size
  inserted-counted =
      let slack = s.size - total_bytes s.versions in
      omega (
        arith,
        left-total slack (omega (arith, sound.counted)),
        set-total,
        growth,
        held-le stored i retained consistent placed,
      )

  inserted-within :
      left.size + length retained ≤ s.capacity + held stored i retained
      → total_bytes inserted.versions ≤ s.capacity
  inserted-within room = omega (
    arith,
    left-total (s.size - total_bytes s.versions) (omega (arith, sound.counted)),
    set-total,
    growth,
    held-le stored i retained consistent placed,
    left-le,
    sound.within,
  )

  inserted-exact :
      stored.content ≡ none
      → total_bytes s.versions ≡ s.size
      → total_bytes inserted.versions ≡ inserted.size
  inserted-exact partial exact = omega (
    arith,
    left-total 0 (omega arith),
    set-total,
    stored_bytes-in_progress stored i retained partial,
    held-le stored i retained consistent placed,
  )

  left-capacity : left.capacity ≡ s.capacity
  left-capacity =
      evict_others-capacity name (length retained) (held stored i retained) s.size s s.versions

  left-IsSound : IsSound left
  left-IsSound = record {
    distinct =
        evict_others-IsDistinct name (length retained) (held stored i retained) s.size s s.versions
          sound.distinct;
    consistent =
        evict_others-IsConsistent name (length retained) (held stored i retained) s.size s
          s.versions sound.consistent;
    counted =
        omega (arith, left-total (s.size - total_bytes s.versions) (omega (arith, sound.counted)));
    within = omega (arith, left-le, sound.within, left-capacity);
  }

  inserted-IsSound :
      left.size + length retained ≤ s.capacity + held stored i retained → IsSound inserted
  inserted-IsSound room = record {
    distinct =
        Dict.set-IsDistinct text_dec name (with_shard stored i retained) left.versions
          left-IsSound.distinct;
    consistent =
        Dict.All-set text_dec IsConsistent name (with_shard stored i retained) left.versions
          (with_shard-IsConsistent stored i retained consistent placed) left-IsSound.consistent;
    counted = inserted-counted;
    within = omega (arith, inserted-within room, left-capacity);
  }

  -- An insertion either raises behind the evictions, or returns the state above.
  insert_shard-cases :
      (insert_shard name i retained stored s ≡ (raise version_too_large, left))
      ⊎ ((insert_shard name i retained stored s ≡ (ok retained, inserted))
          × (left.size + length retained ≤ s.capacity + held stored i retained))
  unfolding insert_shard
  insert_shard-cases =
      elim (Bool-cases
        (ltb (left.capacity + held stored i retained) (left.size + length retained))) [
          | inl full ↦ inl (rw full)
          | inr room ↦ inr (rw room, omega (arith, left-capacity, ltb_false→le _ _ room))
        ]

  pub insert_shard-IsSound : IsSound (insert_shard name i retained stored s).1
  insert_shard-IsSound = elim insert_shard-cases [
    | inl full ↦ rw full left-IsSound
    | inr (done, room) ↦ rw done (inserted-IsSound room)
  ]

  pub insert_shard-exact :
      stored.content ≡ none
      → total_bytes s.versions ≡ s.size
      → total_bytes (insert_shard name i retained stored s).1.versions
        ≡ (insert_shard name i retained stored s).1.size
  insert_shard-exact partial exact = elim insert_shard-cases [
    | inl full ↦ rw full (omega (arith, left-total 0 (omega arith)))
    | inr (done, room) ↦ rw done (inserted-exact partial exact)
  ]

  pub insert_shard-capacity : (insert_shard name i retained stored s).1.capacity ≡ s.capacity
  insert_shard-capacity = elim insert_shard-cases [
    | inl full ↦ rw full left-capacity
    | inr (done, room) ↦ rw done left-capacity
  ]

  -- A shard that enters a version stored whole is counted and held nowhere.
  pub insert_shard-drift :
      (content : Bytes)
      → stored.content ≡ some content
      → Dict.get ℕ_discrete i stored.shards ≡ none
      → total_bytes s.versions ≡ s.size
      → (r : Bytes) → (insert_shard name i retained stored s).0 ≡ ok r
      → (insert_shard name i retained stored s).1.size
        ≡ total_bytes (insert_shard name i retained stored s).1.versions + length retained
  insert_shard-drift content whole absent exact r h = elim insert_shard-cases [
    | inl full ↦ cc (h, ap (λ (x : Outcome StoreError Bytes × CheckpointStore). x.0) full)
    | inr (done, room) ↦ rw done (
        omega (
          arith,
          left-total 0 (omega arith),
          set-total,
          stored_bytes-whole stored i retained content whole,
          held_absent stored i retained absent,
        ))
  ]

  -- After an insertion that returns, the name has its version with the shard.
  pub insert_shard-find :
      (r : Bytes)
      → (insert_shard name i retained stored s).0 ≡ ok r
      → Dict.get text_dec name (insert_shard name i retained stored s).1.versions
        ≡ some (with_shard stored i retained)
  insert_shard-find r h = elim insert_shard-cases [
    | inl full ↦ cc (h, ap (λ (x : Outcome StoreError Bytes × CheckpointStore). x.0) full)
    | inr (done, room) ↦
        rw done (Dict.get-set_self text_dec name (with_shard stored i retained) left.versions)
  ]
