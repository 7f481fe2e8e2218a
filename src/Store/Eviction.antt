-- ===== src/Store/Eviction.antt =====
-- litecast/store.py: the versions that `put` and `put_verified` evict.
use litecast.Common.{
  ℕ, suc, ◌+◌, ◌-◌, ◌<◌, ◌≡◌, refl, sym, ap, ◌⊎◌, inl, inr, Option, some, List, [], ◌∷◌, ◌++◌, Text,
  Bytes, ℤ, length, drop, ltb, text_dec, ltb→lt, arith, Outcome, ok, raise, Option-cases,
  Bool-cases,
}
use litecast.Common.Dict
use mathlib.Core.Path.{subst}
use litecast.Store.Types.{StoreError, VersionMetadata, StoredVersion, CheckpointStore, stored_bytes}
use litecast.Store.Write.{evict, pop_version, complete, store_complete, put}
use litecast.Store.Totals.{Versions, total_bytes}
use litecast.Store.Invariant.{IsSound, evict-get-none}
use litecast.Store.Whole.{
  IsChecked, pop_version-total, pop_version-get-none, pop_version-capacity, check_put-IsChecked,
}

-- `kept` is `old` without its `k` first entries, and with one entry more `need` bytes would not
-- have fitted.
pub record EvictsOldest (capacity need : ℕ) (old kept : Versions) : Type 0 where
  pub count : ℕ
  pub oldest : kept ≡ drop count old
  pub needed :
      (count ≡ 0) ⊎ ((j : ℕ) × (count ≡ suc j) × (capacity < total_bytes (drop j old) + need))

EvictsOldest-cons :
    (capacity need : ℕ) (e : Text × StoredVersion) (d kept : Versions)
    → capacity < total_bytes (e ∷ d) + need
    → EvictsOldest capacity need d kept
    → EvictsOldest capacity need (e ∷ d) kept
EvictsOldest-cons capacity need e d kept full r = record {
  count = suc r.count;
  oldest = r.oldest;
  needed = elim r.needed [
    | inl start ↦ inr (0, ap suc start, full)
    | inr (j, next, more) ↦ inr (suc j, ap suc next, more)
  ];
}

evict-EvictsOldest :
    (need size : ℕ) (s : CheckpointStore) (d : Versions)
    → total_bytes d ≡ size
    → EvictsOldest s.capacity need d (evict need size s d).versions
unfolding evict total_bytes
evict-EvictsOldest need size s [] h = record { count = 0; oldest = refl; needed = inl refl }
evict-EvictsOldest need size s ((name, v) ∷ d) h =
    elim (Bool-cases (ltb s.capacity (size + need))) [
      | inl full ↦
          rw (full, evict)
            (EvictsOldest-cons s.capacity need (name, v) d _ (omega (arith, ltb→lt _ _ full))
              (evict-EvictsOldest need (size - stored_bytes v) s d (omega arith)))
      | inr room ↦ rw (room, evict) (record { count = 0; oldest = refl; needed = inl refl })
    ]

-- The versions behind a `put` of `name`: those that are left, and the new one, the newest.
pub record Inserts (name : Text) (content : Bytes) (s s' : CheckpointStore) : Type 0 where
  pub kept : Versions
  pub stored : StoredVersion
  pub order : s'.versions ≡ kept ++ (name, stored) ∷ []
  pub holds : stored.content ≡ some content
  pub evicts : EvictsOldest s.capacity (length content) (Dict.remove text_dec name s.versions) kept

pop_version-versions :
    (name : Text) (s : CheckpointStore)
    → (pop_version name s).versions ≡ Dict.remove text_dec name s.versions
unfolding pop_version
pop_version-versions name s = elim (Option-cases (Dict.get text_dec name s.versions)) [
  | inl absent ↦ rw (absent, pop_version) (sym (Dict.remove_absent text_dec name s.versions absent))
  | inr (v, found) ↦ rw (found, pop_version)
]

store_complete-Inserts :
    (s : CheckpointStore) (m : VersionMetadata) (content : Bytes) (cs : List Text)
    → Dict.IsDistinct text_dec s.versions
    → total_bytes s.versions ≡ s.size
    → Inserts m.name content s (store_complete m content cs s)
unfolding store_complete
store_complete-Inserts s m content cs distinct exact =
    let popped = pop_version m.name s in
    let left = evict (length content) popped.size popped popped.versions in
    let stored : StoredVersion = record {
      metadata = m;
      content = some content;
      shards = [];
      shard_checksums = cs;
    } in
    let balance : total_bytes popped.versions ≡ popped.size =
      omega (arith, pop_version-total s m.name 0 (omega arith)) in
    let evicted = evict-EvictsOldest (length content) popped.size popped popped.versions balance in
    record {
      kept = left.versions;
      stored = stored;
      order = Dict.set_absent text_dec m.name stored left.versions (
          evict-get-none m.name (length content) popped.size popped popped.versions
            (pop_version-get-none s m.name distinct));
      holds = refl;
      evicts =
          subst (λ (d : Versions). EvictsOldest s.capacity (length content) d left.versions)
            (pop_version-versions m.name s)
            (subst (λ (c : ℕ). EvictsOldest c (length content) popped.versions left.versions)
              (pop_version-capacity s m.name) evicted);
    }

complete-Inserts :
    (checked : Outcome StoreError (VersionMetadata × List Text)) (s : CheckpointStore) (name : Text)
    (content : Bytes)
    → ((m : VersionMetadata) (cs : List Text)
        → checked ≡ ok (m, cs)
        → IsChecked s.capacity name content m cs)
    → Dict.IsDistinct text_dec s.versions
    → total_bytes s.versions ≡ s.size
    → (m : VersionMetadata) → (complete checked content s).0 ≡ ok m
    → Inserts name content s (complete checked content s).1
unfolding complete
complete-Inserts (raise e) s name content c d h m p = cc
complete-Inserts (ok (n, cs)) s name content c d h m p =
    subst (λ (k : Text). Inserts k content s (store_complete n content cs s)) (c n cs refl).named
      (store_complete-Inserts s n content cs d h)

-- In a sound store whose count is exact, a `put` that returns keeps the other versions in their
-- order but for the oldest, of which it evicts only as many as are in the way, and the stored
-- version is the newest.
pub put-Inserts :
    (hexdigest : Bytes → Text) (name : Text) (content : Bytes) (shard_size : ℤ)
    (checksum : Option Text) (checksums : List Text) (s : CheckpointStore)
    → IsSound s
    → total_bytes s.versions ≡ s.size
    → (m : VersionMetadata) → (put hexdigest name content shard_size checksum checksums s).0 ≡ ok m
    → Inserts name content s (put hexdigest name content shard_size checksum checksums s).1
unfolding put
put-Inserts hexdigest name content shard_size checksum checksums s sound exact m h =
    complete-Inserts _ s name content
      (check_put-IsChecked hexdigest s.capacity name content shard_size checksum checksums)
      sound.distinct exact m h
