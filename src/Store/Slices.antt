-- ===== src/Store/Slices.antt =====
-- litecast/store.py: the slices that `get_shard` makes of a whole version.
use litecast.Common.{
  ℕ, zero, suc, ◌+◌, ◌-◌, ◌*◌, ◌≤◌, ◌<◌, ◌≡◌, sym, ap, ◌∙◌, min, List, [], ◌∷◌, ◌++◌, Bytes, length,
  take, drop, arith, drop_of_length-le, length-drop, drop-drop, take-append-drop,
}
use litecast.Store.Types.{VersionMetadata}
use litecast.Store.Checks.{count_shards}
use litecast.Store.Read.{shard_slice}
use native.Mathlib.Nat.{div-add-mod, mod-lt}

take-min {ℓ} : {A : Type ℓ} (n : ℕ) (xs : List A) → take (min n (length xs)) xs ≡ take n xs
take-min zero xs = let e : min 0 (length xs) ≡ 0 = omega arith in rw e
take-min (suc n) [] = let e : min (suc n) 0 ≡ 0 = omega arith in rw e
take-min (suc n) (x ∷ xs) =
    let e : min (suc n) (suc (length xs)) ≡ suc (min n (length xs)) = omega arith in
    rw e (ap (◌∷◌ x) (take-min n xs))

-- The concatenation of `n` slices from the slice `i` on.
unfoldable pub join_slices : VersionMetadata → Bytes → ℕ → ℕ → Bytes
join_slices m content i zero = []
join_slices m content i (suc n) = shard_slice m content i ++ join_slices m content (i + 1) n

module _ (m : VersionMetadata) (content : Bytes) (sized : m.total_size ≡ length content) where
  pub shard_slice-take :
      (i : ℕ) → shard_slice m content i ≡ take m.shard_size (drop (i * m.shard_size) content)
  unfolding shard_slice
  shard_slice-take i =
      let rest = drop (i * m.shard_size) content in
      let same : min (i * m.shard_size + m.shard_size) m.total_size - i * m.shard_size
          ≡ min m.shard_size (length rest) =
        omega (arith, sized, length-drop (i * m.shard_size) content) in
      rw same (take-min m.shard_size rest)

  join_slices-drop :
      (n i : ℕ)
      → length content ≤ (i + n) * m.shard_size
      → join_slices m content i n ≡ drop (i * m.shard_size) content
  unfolding join_slices
  join_slices-drop zero i h = sym (drop_of_length-le (i * m.shard_size) content (grind arith))
  join_slices-drop (suc n) i h =
      let next : (i + 1) * m.shard_size ≡ i * m.shard_size + m.shard_size = omega arith in
      rw
        (
          shard_slice-take,
          join_slices-drop n (i + 1) (grind arith),
          next,
          ← drop-drop (i * m.shard_size) m.shard_size content,
        )
        (take-append-drop m.shard_size (drop (i * m.shard_size) content))

pub count_shards-covers : (total size : ℕ) → 0 < size → total ≤ count_shards total size * size
unfolding count_shards
count_shards-covers total size h =
    ground (arith, div-add-mod (total + size - 1) size, mod-lt (total + size - 1) h)

covers_whole :
    (m : VersionMetadata) (content : Bytes)
    → 0 < m.shard_size
    → m.total_size ≡ length content
    → m.shard_count ≡ count_shards m.total_size m.shard_size
    → length content ≤ m.shard_count * m.shard_size
covers_whole m content positive sized counted =
    rw (← sized, counted) (count_shards-covers m.total_size m.shard_size positive)

-- The slices of a version that is stored whole, joined in order, are its bytes.
pub join_slices-eq :
    (m : VersionMetadata) (content : Bytes)
    → 0 < m.shard_size
    → m.total_size ≡ length content
    → m.shard_count ≡ count_shards m.total_size m.shard_size
    → join_slices m content 0 m.shard_count ≡ content
join_slices-eq m content positive sized counted =
    join_slices-drop m content sized m.shard_count 0
      (omega (arith, covers_whole m content positive sized counted))
    ∙ (let e : 0 * m.shard_size ≡ 0 = omega arith in rw e)
