-- ===== src/Store/Whole.antt =====
-- litecast/store.py: `put` and `put_verified`, their tests and the invariant.
use litecast.Common.{
  ap, ◌-◌, refl, ℕ, suc, ◌+◌, ◌≤◌, ◌<◌, ◌≡◌, ◌⊎◌, inl, inr, Option, none, some, List, [], ◌∷◌, Text,
  Bytes, ℤ, pos, length, text_dec, arith, Option-cases, ok, ◌∙◌,
}
use litecast.Common.Dict
use litecast.Store.Types.{VersionMetadata, CheckpointStore, stored_bytes}
use litecast.Store.Checks.{count_shards, check_put, check_put_verified, validate_shard_checksums}
use litecast.Store.Write.{evict, pop_version, store_complete}
use litecast.Store.Totals.{
  evict-fits, total_bytes, total-remove, total-set-none, evict-total, evict-capacity,
}
use litecast.Store.Invariant.{
  evict-IsDistinct, evict-IsConsistent, IsSound, IsConsistent, evict-get-none,
}

-- What the validation of `put` and of `put_verified` leaves true of its result.
pub record IsChecked (capacity : ℕ) (name : Text) (content : Bytes) (m : VersionMetadata)
    (checksums : List Text) : Type 0 where
  pub named : m.name ≡ name
  pub sized : m.total_size ≡ length content
  pub positive : 0 < m.shard_size
  pub counted : m.shard_count ≡ count_shards m.total_size m.shard_size
  pub fits : length content ≤ capacity
  pub checksummed : (checksums ≡ []) ⊎ (length checksums ≡ m.shard_count)

validate_shard_checksums-length :
    (checksums : List Text) (n : ℕ) (cs : List Text)
    → validate_shard_checksums checksums n ≡ ok cs
    → (cs ≡ []) ⊎ (length cs ≡ n)
unfolding validate_shard_checksums
validate_shard_checksums-length [] n cs h = ground arith
validate_shard_checksums-length (c ∷ checksums) n cs h = ground arith

pub check_put-IsChecked :
    (hexdigest : Bytes → Text) (capacity : ℕ) (name : Text) (content : Bytes) (shard_size : ℤ)
    (checksum : Option Text) (shard_checksums : List Text) (m : VersionMetadata) (cs : List Text)
    → check_put hexdigest capacity name content shard_size checksum shard_checksums ≡ ok (m, cs)
    → IsChecked capacity name content m cs
unfolding check_put
check_put-IsChecked hexdigest capacity name content (pos (suc n)) checksum shard_checksums m cs h =
    ground (
      arith,
      validate_shard_checksums-length shard_checksums (count_shards (length content) (suc n)) cs,
    )
check_put-IsChecked hexdigest capacity name content _ checksum shard_checksums m cs h = ground arith

pub check_put_verified-IsChecked :
    (capacity : ℕ) (name : Text) (content : Bytes) (shard_size : ℤ) (checksum : Text)
    (shard_checksums : List Text) (m : VersionMetadata) (cs : List Text)
    → check_put_verified capacity name content shard_size checksum shard_checksums ≡ ok (m, cs)
    → IsChecked capacity name content m cs
unfolding check_put_verified
check_put_verified-IsChecked capacity name content (pos (suc n)) checksum shard_checksums m cs h =
    ground (
      arith,
      validate_shard_checksums-length shard_checksums (count_shards (length content) (suc n)) cs,
    )
check_put_verified-IsChecked capacity name content _ checksum shard_checksums m cs h = ground arith

module _ (s : CheckpointStore) (name : Text) where
  pub pop_version-total :
      (slack : ℕ)
      → total_bytes s.versions + slack ≡ s.size
      → total_bytes (pop_version name s).versions + slack ≡ (pop_version name s).size
  unfolding pop_version
  pop_version-total slack h = elim (Option-cases (Dict.get text_dec name s.versions)) [
    | inl absent ↦ rw (absent, pop_version) h
    | inr (v, found) ↦ rw (found, pop_version) (omega (arith, total-remove name s.versions v found))
  ]

  pub pop_version-get-none :
      Dict.IsDistinct text_dec s.versions
      → Dict.get text_dec name (pop_version name s).versions ≡ none
  unfolding pop_version
  pop_version-get-none d = elim (Option-cases (Dict.get text_dec name s.versions)) [
    | inl absent ↦ rw (absent, pop_version) absent
    | inr (v, found) ↦ rw (found, pop_version) (Dict.get-remove_self text_dec name s.versions d)
  ]

  pub pop_version-capacity : (pop_version name s).capacity ≡ s.capacity
  unfolding pop_version
  pop_version-capacity = ground arith

  pub pop_version-IsDistinct :
      Dict.IsDistinct text_dec s.versions → Dict.IsDistinct text_dec (pop_version name s).versions
  unfolding pop_version
  pop_version-IsDistinct d = elim (Option-cases (Dict.get text_dec name s.versions)) [
    | inl absent ↦ rw (absent, pop_version) d
    | inr (v, found) ↦ rw (found, pop_version) (Dict.remove-IsDistinct text_dec name s.versions d)
  ]

  pub pop_version-IsConsistent :
      Dict.All text_dec IsConsistent s.versions
      → Dict.All text_dec IsConsistent (pop_version name s).versions
  unfolding pop_version
  pop_version-IsConsistent a = elim (Option-cases (Dict.get text_dec name s.versions)) [
    | inl absent ↦ rw (absent, pop_version) a
    | inr (v, found) ↦
        rw (found, pop_version) (Dict.All-remove text_dec IsConsistent name s.versions a)
  ]

total-nil : total_bytes [] ≡ 0
unfolding total_bytes
total-nil = refl

whole-IsConsistent :
    (m : VersionMetadata) (content : Bytes) (cs : List Text) {capacity : ℕ} {name : Text}
    → IsChecked capacity name content m cs
    → IsConsistent
        (record { metadata = m; content = some content; shards = []; shard_checksums = cs })
whole-IsConsistent m content cs c = record {
  positive = c.positive;
  shards_fit = tt;
  distinct = tt;
  checksums = c.checksummed;
  whole = (c.sized, c.counted);
}

-- Storing a whole version.
module _ (s : CheckpointStore) (m : VersionMetadata) (content : Bytes) (cs : List Text) where
  pub store_complete-total :
      (slack : ℕ)
      → Dict.IsDistinct text_dec s.versions
      → total_bytes s.versions + slack ≡ s.size
      → total_bytes (store_complete m content cs s).versions + slack
        ≡ (store_complete m content cs s).size
  unfolding store_complete stored_bytes
  store_complete-total slack d h =
      let popped = pop_version m.name s in
      let left = evict (length content) popped.size popped popped.versions in
      omega (
        arith,
        evict-total slack (length content) popped.size popped popped.versions
            (pop_version-total s m.name slack h),
        total-set-none m.name
            (record { metadata = m; content = some content; shards = []; shard_checksums = cs })
            left.versions
            (evict-get-none m.name (length content) popped.size popped popped.versions
              (pop_version-get-none s m.name d)),
      )

  pub store_complete-capacity : (store_complete m content cs s).capacity ≡ s.capacity
  unfolding store_complete
  store_complete-capacity =
      let popped = pop_version m.name s in
      evict-capacity (length content) popped.size popped popped.versions
      ∙ pop_version-capacity s m.name

  store_complete-within :
      Dict.IsDistinct text_dec s.versions
      → total_bytes s.versions ≤ s.size
      → length content ≤ s.capacity
      → total_bytes (store_complete m content cs s).versions ≤ s.capacity
  unfolding store_complete stored_bytes
  store_complete-within d counted fits =
      let popped = pop_version m.name s in
      let left = evict (length content) popped.size popped popped.versions in
      let slack = s.size - total_bytes s.versions in
      let balance =
        evict-total slack (length content) popped.size popped popped.versions
          (pop_version-total s m.name slack (omega arith)) in
      let added =
        total-set-none m.name
          (record { metadata = m; content = some content; shards = []; shard_checksums = cs })
          left.versions
          (evict-get-none m.name (length content) popped.size popped popped.versions
            (pop_version-get-none s m.name d)) in
      elim (evict-fits (length content) popped.size popped popped.versions) [
        | inl room ↦ omega (arith, balance, added, pop_version-capacity s m.name)
        | inr none_left ↦ omega (arith, added, ap total_bytes none_left, total-nil)
      ]

  -- A validated whole version leaves a sound store sound.
  pub store_complete-IsSound :
      {name : Text}
      → IsChecked s.capacity name content m cs
      → IsSound s
      → IsSound (store_complete m content cs s)
  unfolding store_complete
  store_complete-IsSound c h =
      let popped = pop_version m.name s in
      record {
        distinct = Dict.set-IsDistinct text_dec m.name _ _ (
            evict-IsDistinct (length content) popped.size popped popped.versions
              (pop_version-IsDistinct s m.name h.distinct));
        consistent =
            Dict.All-set text_dec IsConsistent m.name _ _ (whole-IsConsistent m content cs c) (
              evict-IsConsistent (length content) popped.size popped popped.versions
                (pop_version-IsConsistent s m.name h.consistent));
        counted = omega (
          arith,
          store_complete-total (s.size - total_bytes s.versions) h.distinct (omega arith),
        );
        within = rw store_complete-capacity (store_complete-within h.distinct h.counted c.fits);
      }
