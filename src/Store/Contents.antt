-- ===== src/Store/Contents.antt =====
-- What can be read after `put`, `put_verified` and the insertion of a shard.
use litecast.Common.{
  ℕ, zero, suc, ◌+◌, ◌≤◌, ◌<◌, ◌≡◌, refl, ap, ◌∙◌, ◌⊎◌, inl, inr, true, Option, some, List, [],
  ◌++◌, Text, Bytes, ℤ, pos, text_dec, arith, Outcome, ok, raise, ◌>>=◌, lt→ltb,
}
use litecast.Common.Dict
use litecast.Store.Types.{StoreError, VersionMetadata, StoredVersion, CheckpointStore}
use litecast.Store.Write.{complete, store_complete, put, put_verified, check_index}
use litecast.Store.Read
use litecast.Store.Read.{get_metadata, get_shard, read_shard, shard_slice, is_complete}
use litecast.Store.Whole.{IsChecked, check_put-IsChecked, check_put_verified-IsChecked}
use litecast.Store.Slices.{join_slices, join_slices-eq}

-- What a reader gets who asks for `n` shards from the index `i` on and joins them.
unfoldable pub read_shards : CheckpointStore → Text → ℕ → ℕ → Outcome StoreError Bytes
unfolding get_shard
read_shards s name i zero = ok []
read_shards s name i (suc n) = do
  shard ← get_shard s name (pos i)
  rest ← read_shards s name (i + 1) n
  ok (shard ++ rest)

module _ (s : CheckpointStore) (name : Text) (stored : StoredVersion) (content : Bytes)
    (found : Dict.get text_dec name s.versions ≡ some stored)
    (whole : stored.content ≡ some content) where
  get_shard-whole :
      (i : ℕ)
      → i < stored.metadata.shard_count
      → get_shard s name (pos i) ≡ ok (shard_slice stored.metadata content i)
  unfolding get_shard
  get_shard-whole i below = rw (found, get_shard, check_index, lt→ltb _ _ below, read_shard, whole)

  get-whole : Read.get s name ≡ some content
  unfolding Read.get
  get-whole = rw (found, Read.get) whole

  get_metadata-whole : get_metadata s name ≡ some stored.metadata
  unfolding get_metadata
  get_metadata-whole = rw (found, get_metadata)

  is_complete-whole : is_complete s name ≡ true
  unfolding is_complete
  is_complete-whole = rw (found, is_complete, whole)

  read_shards-join :
      (n i : ℕ)
      → i + n ≤ stored.metadata.shard_count
      → read_shards s name i n ≡ ok (join_slices stored.metadata content i n)
  unfolding read_shards join_slices
  read_shards-join zero i h = refl
  read_shards-join (suc n) i h =
      rw (get_shard-whole i (omega arith), read_shards-join n (i + 1) (omega arith))

-- A version stored whole reads back: whole, by its metadata, and shard by shard.
pub record ReadsBack (s : CheckpointStore) (name : Text) (content : Bytes) (m : VersionMetadata)
    : Type 0 where
  pub whole : Read.get s name ≡ some content
  pub described : get_metadata s name ≡ some m
  pub complete : is_complete s name ≡ true
  pub by_shards : read_shards s name 0 m.shard_count ≡ ok content

store_complete-ReadsBack :
    (s : CheckpointStore) (name : Text) (content : Bytes) (m : VersionMetadata) (cs : List Text)
    → IsChecked s.capacity name content m cs
    → ReadsBack (store_complete m content cs s) name content m
unfolding store_complete
store_complete-ReadsBack s name content m cs c =
    let s' = store_complete m content cs s in
    let stored : StoredVersion = record {
      metadata = m;
      content = some content;
      shards = [];
      shard_checksums = cs;
    } in
    let found : Dict.get text_dec name s'.versions ≡ some stored =
      rw (← c.named) (Dict.get-set_self text_dec m.name stored _) in
    record {
      whole = get-whole s' name stored content found refl;
      described = get_metadata-whole s' name stored content found refl;
      complete = is_complete-whole s' name stored content found refl;
      by_shards =
          read_shards-join s' name stored content found refl m.shard_count 0 (omega arith)
          ∙ ap ok (join_slices-eq m content c.positive c.sized c.counted);
    }

-- A call returns metadata under which the version reads back, or raises and changes nothing.
abbrev pub StoresOrRaises :
    Text → Bytes → CheckpointStore → Outcome StoreError VersionMetadata × CheckpointStore → Type 0
StoresOrRaises name content s r =
    ((m : VersionMetadata) × (r.0 ≡ ok m) × ReadsBack r.1 name content m)
    ⊎ ((e : StoreError) × (r.0 ≡ raise e) × (r.1 ≡ s))

complete-StoresOrRaises :
    (checked : Outcome StoreError (VersionMetadata × List Text)) (s : CheckpointStore) (name : Text)
    (content : Bytes)
    → ((m : VersionMetadata) (cs : List Text)
        → checked ≡ ok (m, cs)
        → IsChecked s.capacity name content m cs)
    → StoresOrRaises name content s (complete checked content s)
unfolding complete
complete-StoresOrRaises (raise e) s name content c = inr (e, refl, refl)
complete-StoresOrRaises (ok (m, cs)) s name content c =
    inl (m, refl, store_complete-ReadsBack s name content m cs (c m cs refl))

module _ (name : Text) (content : Bytes) (shard_size : ℤ) (checksums : List Text)
    (s : CheckpointStore) where
  -- A `put` stores the bytes, and then `get`, `get_metadata`, `is_complete` and the shards read in
  -- order give them back under the returned metadata, or it raises and changes nothing.
  pub put-StoresOrRaises :
      (hexdigest : Bytes → Text) (checksum : Option Text)
      → StoresOrRaises name content s (put hexdigest name content shard_size checksum checksums s)
  unfolding put
  put-StoresOrRaises hexdigest checksum =
      complete-StoresOrRaises _ s name content
        (check_put-IsChecked hexdigest s.capacity name content shard_size checksum checksums)

  -- The same of `put_verified`.
  pub put_verified-StoresOrRaises :
      (checksum : Text)
      → StoresOrRaises name content s (put_verified name content shard_size checksum checksums s)
  unfolding put_verified
  put_verified-StoresOrRaises checksum =
      complete-StoresOrRaises _ s name content
        (check_put_verified-IsChecked s.capacity name content shard_size checksum checksums)
