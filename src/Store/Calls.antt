-- ===== src/Store/Calls.antt =====
-- Each call that changes the store: the invariant, the capacity and the running count.
use litecast.Common.{
  Option, none, Outcome-cases, ℕ, ◌≡◌, refl, ◌⊎◌, inl, inr, none, some, List, Text, Bytes, ℤ, pos,
  length, text_dec, arith, Option-cases, Outcome, ok, raise,
}
use litecast.Common.Dict
use litecast.Store.Types.{StoreError, VersionMetadata, StoredVersion, CheckpointStore, init}
use litecast.Store.Write.{insert_shard, complete, check_shard, put_shard_as, remove}
use litecast.Store.Totals.{total-remove, total_bytes}
use litecast.Store.Invariant.{IsConsistent, IsSound}
use litecast.Store.Whole.{
  store_complete-total, store_complete-capacity, IsChecked, store_complete-IsSound,
}
use litecast.Store.Partial.{IsPlaced, check_shard-IsPlaced}
use litecast.Store.Insert.{insert_shard-IsSound, insert_shard-exact, insert_shard-capacity}

pub complete-IsSound :
    (checked : Outcome StoreError (VersionMetadata × List Text)) (name : Text) (content : Bytes)
    (s : CheckpointStore)
    → ((m : VersionMetadata) (cs : List Text)
        → checked ≡ ok (m, cs)
        → IsChecked s.capacity name content m cs)
    → IsSound s
    → IsSound (complete checked content s).1
unfolding complete
complete-IsSound (raise e) name content s c h = h
complete-IsSound (ok (m, cs)) name content s c h =
    store_complete-IsSound s m content cs (c m cs refl) h

pub remove-IsSound : (name : Text) (s : CheckpointStore) → IsSound s → IsSound (remove name s).1
unfolding remove
remove-IsSound name s h = elim (Option-cases (Dict.get text_dec name s.versions)) [
  | inl absent ↦ rw (absent, remove) h
  | inr (v, found) ↦
      rw (found, remove)
        (record {
          distinct = Dict.remove-IsDistinct text_dec name s.versions h.distinct;
          consistent = Dict.All-remove text_dec IsConsistent name s.versions h.consistent;
          counted = omega (arith, total-remove name s.versions v found, h.counted);
          within = omega (arith, total-remove name s.versions v found, h.within);
        })
]

pub init-IsSound : (capacity : ℕ) (s : CheckpointStore) → init (pos capacity) ≡ ok s → IsSound s
unfolding init total_bytes
init-IsSound capacity s h = ground arith

pub init-capacity :
    (capacity : ℕ) (s : CheckpointStore) → init (pos capacity) ≡ ok s → s.capacity ≡ capacity
unfolding init
init-capacity capacity s h = ground arith

pub init-exact :
    (capacity : ℕ) (s : CheckpointStore)
    → init (pos capacity) ≡ ok s
    → total_bytes s.versions ≡ s.size
unfolding init total_bytes
init-exact capacity s h = ground arith

pub complete-capacity :
    (checked : Outcome StoreError (VersionMetadata × List Text)) (content : Bytes)
    (s : CheckpointStore)
    → (complete checked content s).1.capacity ≡ s.capacity
unfolding complete
complete-capacity (raise e) content s = refl
complete-capacity (ok (m, cs)) content s = store_complete-capacity s m content cs

pub complete-exact :
    (checked : Outcome StoreError (VersionMetadata × List Text)) (content : Bytes)
    (s : CheckpointStore)
    → Dict.IsDistinct text_dec s.versions
    → total_bytes s.versions ≡ s.size
    → total_bytes (complete checked content s).1.versions ≡ (complete checked content s).1.size
unfolding complete
complete-exact (raise e) content s d h = h
complete-exact (ok (m, cs)) content s d h =
    omega (arith, store_complete-total s m content cs 0 d (omega arith))

-- A call of `_put_shard` raises before it changes anything, or is an insertion.
pub put_shard_as-cases :
    (name : Text) (index : ℤ) (retained : Bytes) (digest : Text) (s : CheckpointStore)
    → ((put_shard_as name index retained digest s).1 ≡ s)
      ⊎ ((stored : StoredVersion) × (i : ℕ) × (Dict.get text_dec name s.versions ≡ some stored)
          × IsPlaced stored (length retained) i
          × (put_shard_as name index retained digest s ≡ insert_shard name i retained stored s))
unfolding put_shard_as
put_shard_as-cases name index retained digest s =
    elim (Option-cases (Dict.get text_dec name s.versions)) [
      | inl absent ↦ inl (rw (absent, put_shard_as))
      | inr (stored, found) ↦
          elim (Outcome-cases (check_shard index (length retained) digest stored)) [
            | inl (e, refused) ↦ inl (rw (found, put_shard_as, refused))
            | inr (i, accepted) ↦ inr (
              stored,
              i,
              found,
              check_shard-IsPlaced index (length retained) digest stored i accepted,
              rw (found, put_shard_as, accepted),
            )
          ]
    ]

pub put_shard_as-IsSound :
    (name : Text) (index : ℤ) (retained : Bytes) (digest : Text) (s : CheckpointStore)
    → IsSound s
    → IsSound (put_shard_as name index retained digest s).1
put_shard_as-IsSound name index retained digest s h =
    elim (put_shard_as-cases name index retained digest s) [
      | inl same ↦ rw same h
      | inr (stored, i, found, placed, done) ↦
          rw done (insert_shard-IsSound name i retained stored s found h placed)
    ]

pub put_shard_as-capacity :
    (name : Text) (index : ℤ) (retained : Bytes) (digest : Text) (s : CheckpointStore)
    → IsSound s
    → (put_shard_as name index retained digest s).1.capacity ≡ s.capacity
put_shard_as-capacity name index retained digest s h =
    elim (put_shard_as-cases name index retained digest s) [
      | inl same ↦ rw same
      | inr (stored, i, found, placed, done) ↦
          rw done (insert_shard-capacity name i retained stored s found h placed)
    ]

-- No version, or one that is not stored whole.
abbrev pub IsPartial : Option StoredVersion → Type 0
IsPartial none = Unit
IsPartial (some v) = v.content ≡ none

IsPartial-some :
    (o : Option StoredVersion) (v : StoredVersion) → o ≡ some v → IsPartial o → v.content ≡ none
IsPartial-some none v h p = cc
IsPartial-some (some w) v h p = ground arith

pub put_shard_as-exact :
    (name : Text) (index : ℤ) (retained : Bytes) (digest : Text) (s : CheckpointStore)
    → IsPartial (Dict.get text_dec name s.versions)
    → IsSound s
    → total_bytes s.versions ≡ s.size
    → total_bytes (put_shard_as name index retained digest s).1.versions
      ≡ (put_shard_as name index retained digest s).1.size
put_shard_as-exact name index retained digest s t h e =
    elim (put_shard_as-cases name index retained digest s) [
      | inl same ↦ rw same e
      | inr (stored, i, found, placed, done) ↦ rw done (
          insert_shard-exact name i retained stored s found h placed
            (IsPartial-some _ stored found t) e)
    ]

pub remove-capacity : (name : Text) (s : CheckpointStore) → (remove name s).1.capacity ≡ s.capacity
unfolding remove
remove-capacity name s = ground arith

pub remove-exact :
    (name : Text) (s : CheckpointStore)
    → total_bytes s.versions ≡ s.size
    → total_bytes (remove name s).1.versions ≡ (remove name s).1.size
unfolding remove
remove-exact name s h = elim (Option-cases (Dict.get text_dec name s.versions)) [
  | inl absent ↦ rw (absent, remove) h
  | inr (v, found) ↦ rw (found, remove) (omega (arith, total-remove name s.versions v found))
]
