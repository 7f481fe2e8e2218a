-- ===== src/Store/Commands.antt =====
-- litecast/store.py: sequences of calls on one store, those that raise among them.
use litecast.Store.Calls.{
  IsPartial, complete-IsSound, remove-IsSound, init-IsSound, init-capacity, init-exact,
  complete-capacity, complete-exact, put_shard_as-IsSound, put_shard_as-capacity,
  put_shard_as-exact, remove-capacity, remove-exact,
}
use litecast.Common.{
  ◌∙◌, lower, ℕ, ◌≤◌, ◌≡◌, refl, Option, List, [], ◌∷◌, Text, Bytes, ℤ, pos, text_dec, arith, ok,
}
use litecast.Common.Dict
use litecast.Store.Types.{VersionMetadata, CheckpointStore, init}
use litecast.Store.Write.{
  put, put_verified, begin_version, put_shard, put_verified_shard, remove, clear,
}
use litecast.Store.Totals.{total_bytes}
use litecast.Store.Invariant.{IsSound}
use litecast.Store.Begin.{begin_version-IsSound, begin_version-total, begin_version-capacity}
use litecast.Store.Whole.{check_put_verified-IsChecked, check_put-IsChecked}

pub data Command : Type 0 where
  store : Text → Bytes → ℤ → Option Text → List Text → Command
  store_verified : Text → Bytes → ℤ → Text → List Text → Command
  start : VersionMetadata → List Text → Command
  add_shard : Text → ℤ → Bytes → Command
  add_verified_shard : Text → ℤ → Bytes → Text → Command
  discard : Text → Command
  discard_all : Command

module _ (hexdigest : Bytes → Text) where
  -- The state after one call, whether it returned or raised.
  unfoldable pub perform : Command → CheckpointStore → CheckpointStore
  unfolding put put_verified put_shard put_verified_shard
  perform (store name content shard_size checksum checksums) s =
      (put hexdigest name content shard_size checksum checksums s).1
  perform (store_verified name content shard_size checksum checksums) s =
      (put_verified name content shard_size checksum checksums s).1
  perform (start metadata checksums) s = (begin_version metadata checksums s).1
  perform (add_shard name index content) s = (put_shard hexdigest name index content s).1
  perform (add_verified_shard name index content checksum) s =
      (put_verified_shard name index content checksum s).1
  perform (discard name) s = (remove name s).1
  perform discard_all s = clear s

  unfoldable pub run : List Command → CheckpointStore → CheckpointStore
  run [] s = s
  run (c ∷ cs) s = run cs (perform c s)

  -- The running count is the number of bytes held.
  abbrev pub IsExact : CheckpointStore → Type 0
  IsExact s = total_bytes s.versions ≡ s.size

  -- The call puts no shard into a version that is stored whole.
  abbrev pub Targets : Command → CheckpointStore → Type 0
  Targets (add_shard name _ _) s = IsPartial (Dict.get text_dec name s.versions)
  Targets (add_verified_shard name _ _ _) s = IsPartial (Dict.get text_dec name s.versions)
  Targets _ s = Unit

  abbrev pub AllTarget : List Command → CheckpointStore → Type 0
  AllTarget [] s = Unit
  AllTarget (c ∷ cs) s = Targets c s × AllTarget cs (perform c s)

  perform-IsSound : (c : Command) (s : CheckpointStore) → IsSound s → IsSound (perform c s)
  unfolding perform clear total_bytes
  perform-IsSound (store name content shard_size checksum checksums) s h =
      complete-IsSound _ name content s
        (check_put-IsChecked hexdigest s.capacity name content shard_size checksum checksums) h
  perform-IsSound (store_verified name content shard_size checksum checksums) s h =
      complete-IsSound _ name content s
        (check_put_verified-IsChecked s.capacity name content shard_size checksum checksums) h
  perform-IsSound (start metadata checksums) s h = begin_version-IsSound metadata checksums s h
  perform-IsSound (add_shard name index content) s h =
      put_shard_as-IsSound name index content (hexdigest content) s h
  perform-IsSound (add_verified_shard name index content checksum) s h =
      put_shard_as-IsSound name index content (lower checksum) s h
  perform-IsSound (discard name) s h = remove-IsSound name s h
  perform-IsSound discard_all s h = record {
    distinct = tt;
    consistent = tt;
    counted = omega arith;
    within = omega arith;
  }

  run-IsSound : (cs : List Command) (s : CheckpointStore) → IsSound s → IsSound (run cs s)
  unfolding run
  run-IsSound [] s h = h
  run-IsSound (c ∷ cs) s h = run-IsSound cs (perform c s) (perform-IsSound c s h)

  perform-capacity :
      (c : Command) (s : CheckpointStore) → IsSound s → (perform c s).capacity ≡ s.capacity
  unfolding perform clear
  perform-capacity (store name content shard_size checksum checksums) s h =
      complete-capacity _ content s
  perform-capacity (store_verified name content shard_size checksum checksums) s h =
      complete-capacity _ content s
  perform-capacity (start metadata checksums) s h = begin_version-capacity metadata checksums s
  perform-capacity (add_shard name index content) s h =
      put_shard_as-capacity name index content (hexdigest content) s h
  perform-capacity (add_verified_shard name index content checksum) s h =
      put_shard_as-capacity name index content (lower checksum) s h
  perform-capacity (discard name) s h = remove-capacity name s
  perform-capacity discard_all s h = refl

  run-capacity :
      (cs : List Command) (s : CheckpointStore) → IsSound s → (run cs s).capacity ≡ s.capacity
  unfolding run
  run-capacity [] s h = refl
  run-capacity (c ∷ cs) s h =
      run-capacity cs (perform c s) (perform-IsSound c s h) ∙ perform-capacity c s h

  perform-IsExact :
      (c : Command) (s : CheckpointStore)
      → Targets c s
      → IsSound s
      → IsExact s
      → IsExact (perform c s)
  unfolding perform clear total_bytes
  perform-IsExact (store name content shard_size checksum checksums) s t h e =
      complete-exact _ content s h.distinct e
  perform-IsExact (store_verified name content shard_size checksum checksums) s t h e =
      complete-exact _ content s h.distinct e
  perform-IsExact (start metadata checksums) s t h e =
      omega (arith, begin_version-total metadata checksums s)
  perform-IsExact (add_shard name index content) s t h e =
      put_shard_as-exact name index content (hexdigest content) s t h e
  perform-IsExact (add_verified_shard name index content checksum) s t h e =
      put_shard_as-exact name index content (lower checksum) s t h e
  perform-IsExact (discard name) s t h e = remove-exact name s e
  perform-IsExact discard_all s t h e = refl

  run-IsExact :
      (cs : List Command) (s : CheckpointStore)
      → AllTarget cs s
      → IsSound s
      → IsExact s
      → IsExact (run cs s)
  unfolding run
  run-IsExact [] s t h e = e
  run-IsExact (c ∷ cs) s t h e =
      run-IsExact cs (perform c s) t.1 (perform-IsSound c s h) (perform-IsExact c s t.0 h e)

  -- From a new store of a given capacity, after any calls, whatever they raise: names stand once,
  -- every version is consistent, the bytes held are at most the running count and at most the
  -- capacity, and the capacity is the given one.
  pub run-init-IsSound :
      (cs : List Command) (capacity : ℕ) (s : CheckpointStore)
      → init (pos capacity) ≡ ok s
      → IsSound (run cs s) × ((run cs s).capacity ≡ capacity)
  run-init-IsSound cs capacity s h =
      let sound = init-IsSound capacity s h in
      (run-IsSound cs s sound, run-capacity cs s sound ∙ init-capacity capacity s h)

  -- From a new store, after calls that put no shard into a version that is stored whole, the
  -- running count is the number of bytes held, and at most the capacity.
  pub run-init-IsExact :
      (cs : List Command) (capacity : ℕ) (s : CheckpointStore)
      → init (pos capacity) ≡ ok s
      → AllTarget cs s
      → (total_bytes (run cs s).versions ≡ (run cs s).size) × ((run cs s).size ≤ capacity)
  run-init-IsExact cs capacity s h t =
      let sound = init-IsSound capacity s h in
      let exact = run-IsExact cs s t sound (init-exact capacity s h) in
      (
        exact,
        omega (
          arith,
          (run-IsSound cs s sound).within,
          run-capacity cs s sound,
          init-capacity capacity s h,
        ),
      )
