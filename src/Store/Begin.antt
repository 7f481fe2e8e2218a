-- ===== src/Store/Begin.antt =====
-- litecast/store.py: `begin_version`, and the entry of a version in progress.
use litecast.Common.{
  sym, ap, ◌∙◌, ◌<◌, ◌≡◌, refl, ◌⊎◌, inl, inr, true, none, some, List, [], Text, length, text_dec,
  arith, Option-cases, Outcome-cases, ok, text_eq_iff,
}
use litecast.Common.Dict
use litecast.Store.Types.{
  VersionMetadata, metadata_eq, StoredVersion, CheckpointStore, stored_bytes, shard_bytes,
}
use litecast.Store.Checks.{validate_name, validate_shard_size}
use litecast.Store.Write.{check_begin, begin_existing, begin_new, begin_version}
use litecast.Store.Totals.{total_bytes, total-set-some, total-set-none}
use litecast.Store.Invariant.{IsConsistent, IsSound}

pub check_begin-ok :
    (m : VersionMetadata) (cs : List Text) (u : Unit {0})
    → check_begin m cs ≡ ok u
    → (0 < m.shard_size) × (length cs ≡ m.shard_count)
unfolding check_begin validate_name validate_shard_size
check_begin-ok m cs u h = ground arith

-- Equal metadata are equal in each field.
pub metadata_eq→eq : (m n : VersionMetadata) → metadata_eq m n ≡ true → m ≡ n
unfolding metadata_eq
metadata_eq→eq m n h = ground (arith, text_eq_iff m.name n.name, text_eq_iff m.checksum n.checksum)

module _ (m : VersionMetadata) (cs : List Text) (s : CheckpointStore) where
  abbrev replaced : StoredVersion → CheckpointStore
  replaced v = record s { versions = Dict.set text_dec m.name v s.versions }

  abbrev fresh : StoredVersion
  fresh = record { metadata = m; content = none; shards = []; shard_checksums = cs }

  -- On a name that is there, the state stays, or the entry takes the checksums.
  begin_existing-cases :
      (existing : StoredVersion)
      → ((begin_existing m cs existing s).1 ≡ s)
        ⊎ (((begin_existing m cs existing s).1
              ≡ replaced (record existing { shard_checksums = cs }))
            × (existing.metadata ≡ m))
  unfolding begin_existing
  begin_existing-cases existing = ground (arith, metadata_eq→eq existing.metadata m)

  replaced-IsSound :
      (v : StoredVersion)
      → IsConsistent v
      → total_bytes (replaced v).versions ≡ total_bytes s.versions
      → IsSound s
      → IsSound (replaced v)
  replaced-IsSound v c same h = record {
    distinct = Dict.set-IsDistinct text_dec m.name v s.versions h.distinct;
    consistent = Dict.All-set text_dec IsConsistent m.name v s.versions c h.consistent;
    counted = omega (arith, h.counted);
    within = omega (arith, h.within);
  }

  checksums-total :
      (existing : StoredVersion)
      → Dict.get text_dec m.name s.versions ≡ some existing
      → total_bytes (replaced (record existing { shard_checksums = cs })).versions
        ≡ total_bytes s.versions
  unfolding stored_bytes
  checksums-total existing found =
      let v : StoredVersion = record existing { shard_checksums = cs } in
      omega (arith, total-set-some m.name v s.versions existing found)

  fresh-total :
      Dict.get text_dec m.name s.versions ≡ none
      → total_bytes (replaced fresh).versions ≡ total_bytes s.versions
  unfolding stored_bytes shard_bytes
  fresh-total absent = omega (arith, total-set-none m.name fresh s.versions absent)

  checksums-IsConsistent :
      (existing : StoredVersion)
      → existing.metadata ≡ m
      → length cs ≡ m.shard_count
      → IsConsistent existing
      → IsConsistent (record existing { shard_checksums = cs })
  checksums-IsConsistent existing same sized c = record {
    positive = c.positive;
    shards_fit = c.shards_fit;
    distinct = c.distinct;
    checksums = inr (sized ∙ ap (λ (n : VersionMetadata). n.shard_count) (sym same));
    whole = c.whole;
  }

  begin_existing-IsSound :
      (existing : StoredVersion)
      → Dict.get text_dec m.name s.versions ≡ some existing
      → length cs ≡ m.shard_count
      → IsSound s
      → IsSound (begin_existing m cs existing s).1
  begin_existing-IsSound existing found sized h = elim (begin_existing-cases existing) [
    | inl same ↦ rw same h
    | inr (changed, same) ↦ rw changed (
        replaced-IsSound _
          (checksums-IsConsistent existing same sized
            (Dict.All-get text_dec IsConsistent m.name s.versions existing found h.consistent))
          (checksums-total existing found) h)
  ]

  begin_new-IsSound :
      0 < m.shard_size
      → length cs ≡ m.shard_count
      → Dict.get text_dec m.name s.versions ≡ none
      → IsSound s
      → IsSound (begin_new m cs s).1
  unfolding begin_new
  begin_new-IsSound positive sized absent h =
      replaced-IsSound fresh
        (record {
          positive = positive;
          shards_fit = tt;
          distinct = tt;
          checksums = inr sized;
          whole = tt;
        })
        (fresh-total absent) h

  pub begin_version-IsSound : IsSound s → IsSound (begin_version m cs s).1
  unfolding begin_version
  begin_version-IsSound h = elim (Outcome-cases (check_begin m cs)) [
    | inl (e, refused) ↦ rw (refused, begin_version) h
    | inr (u, accepted) ↦
        let (positive, sized) = check_begin-ok m cs u accepted in
        elim (Option-cases (Dict.get text_dec m.name s.versions)) [
          | inl absent ↦
              rw (accepted, begin_version, absent) (begin_new-IsSound positive sized absent h)
          | inr (v, found) ↦
              rw (accepted, begin_version, found) (begin_existing-IsSound v found sized h)
        ]
  ]

  begin_existing-total :
      (existing : StoredVersion)
      → Dict.get text_dec m.name s.versions ≡ some existing
      → (total_bytes (begin_existing m cs existing s).1.versions ≡ total_bytes s.versions)
        × ((begin_existing m cs existing s).1.size ≡ s.size)
  begin_existing-total existing found = elim (begin_existing-cases existing) [
    | inl same ↦ rw same (refl, refl)
    | inr (changed, same) ↦ rw changed (checksums-total existing found, refl)
  ]

  -- `begin_version` reserves no bytes.
  pub begin_version-total :
      (total_bytes (begin_version m cs s).1.versions ≡ total_bytes s.versions)
      × ((begin_version m cs s).1.size ≡ s.size)
  unfolding begin_version begin_new
  begin_version-total = elim (Outcome-cases (check_begin m cs)) [
    | inl (e, refused) ↦ rw (refused, begin_version) (refl, refl)
    | inr (u, accepted) ↦ elim (Option-cases (Dict.get text_dec m.name s.versions)) [
      | inl absent ↦ rw (accepted, begin_version, absent, begin_new) (fresh-total absent, refl)
      | inr (v, found) ↦ rw (accepted, begin_version, found) (begin_existing-total v found)
    ]
  ]

  pub begin_version-capacity : (begin_version m cs s).1.capacity ≡ s.capacity
  unfolding begin_version begin_new begin_existing
  begin_version-capacity = ground arith
