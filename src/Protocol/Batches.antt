-- ===== src/Protocol/Batches.antt =====
-- litecast/protocol.py: the indices of a batched shard request that is decoded.
use litecast.Common.{
  bind_returns, ℕ, ◌≤◌, ◌<◌, ◌≡◌, ◌≢◌, ap, ◌∙◌, true, false, List, [], ◌∷◌, Text, pos, codes,
  length, is_empty, ok, arith, Outcome-cases, inl, inr,
}
use mathlib.Core.Path.{subst}
use litecast.Protocol.Json.{Json, integer, Items, end, item, Fields, Codec, find_field}
use litecast.Protocol.Frames.{Frame}
use litecast.Protocol.Indices.{
  items_of_json, index_of, index_of_json, indices_of_items, check_batch, check_items, all_distinct,
  contains,
}
use litecast.Protocol.Messages.{load_object, read_batch_request, decode_get_shards}

abbrev pub NotIn : ℕ → List ℕ → Type 0
NotIn i [] = Unit
NotIn i (j ∷ js) = (i ≢ j) × NotIn i js

abbrev pub Distinct : List ℕ → Type 0
Distinct [] = Unit
Distinct (i ∷ is) = NotIn i is × Distinct is

abbrev pub AllU32 : List ℕ → Type 0
AllU32 [] = Unit
AllU32 (i ∷ is) = (i ≤ 0xffffffff) × AllU32 is

pub record IsBatch (is : List ℕ) : Type 0 where
  pub nonempty : 0 < length is
  pub bounded : length is ≤ 64
  pub distinct : Distinct is
  pub fits : AllU32 is

contains-NotIn : (i : ℕ) (js : List ℕ) → contains i js ≡ false → NotIn i js
unfolding contains
contains-NotIn i [] h = tt
contains-NotIn i (j ∷ js) h = (ground arith, contains-NotIn i js (ground arith))

pub all_distinct-Distinct : (is : List ℕ) → all_distinct is ≡ true → Distinct is
unfolding all_distinct
all_distinct-Distinct [] h = tt
all_distinct-Distinct (i ∷ is) h =
    (contains-NotIn i is (ground arith), all_distinct-Distinct is (ground arith))

check_batch-ok :
    (values is : List ℕ)
    → check_batch values ≡ ok is
    → (values ≡ is) × (0 < length is) × (length is ≤ 64) × (all_distinct is ≡ true)
unfolding check_batch is_empty
check_batch-ok [] is h = cc
check_batch-ok (v ∷ values) is h = ground arith

index_of_json-le : (j : Json) (i : ℕ) → index_of_json j ≡ ok i → i ≤ 0xffffffff
unfolding index_of_json index_of
index_of_json-le (integer (pos n)) i h = ground arith
index_of_json-le _ i h = ground arith

indices_of_items-AllU32 : (items : Items) (is : List ℕ) → indices_of_items items ≡ ok is → AllU32 is
unfolding indices_of_items
indices_of_items-AllU32 end is h = subst AllU32 {x = []} (ground arith) tt
indices_of_items-AllU32 (item j items) is h =
    let (i, first, more) = bind_returns (index_of_json j) _ is h in
    let (js, others, all) = bind_returns (indices_of_items items) _ is more in
    subst AllU32 {x = i ∷ js} (ground arith)
      (index_of_json-le j i first, indices_of_items-AllU32 items js others)

check_items-IsBatch : (items : Items) (is : List ℕ) → check_items items ≡ ok is → IsBatch is
unfolding check_items
check_items-IsBatch items is h =
    let (values, read, checked) =
      bind_returns (indices_of_items items) check_batch is (ground arith) in
    let (same, some_entry, few, different) = check_batch-ok values is checked in
    record {
      nonempty = some_entry;
      bounded = few;
      distinct = all_distinct-Distinct is different;
      fits = subst AllU32 same (indices_of_items-AllU32 items values read);
    }

module _ (codec : Codec) where
  read_batch_request-IsBatch :
      (fields : Fields) (version : Text) (is : List ℕ)
      → read_batch_request codec fields ≡ ok (version, is)
      → IsBatch is
  unfolding read_batch_request
  read_batch_request-IsBatch fields version is h =
      elim (Outcome-cases (items_of_json (find_field (codes "indices") fields))) [
        | inl (e, refused) ↦ absurd (ground arith)
        | inr (items, found) ↦ elim (Outcome-cases (check_items items)) [
          | inl (e, refused) ↦ absurd (ground arith)
          | inr (values, checked) ↦
              let same : values ≡ is = ground arith in
              check_items-IsBatch items is (checked ∙ ap ok same)
        ]
      ]

  -- The indices of a batched request that `decode_get_shards` accepts, from any payload: at least
  -- one and at most 64, each at most 2^32 - 1, and no two the same.
  pub decode_get_shards-IsBatch :
      (frame : Frame) (version : Text) (is : List ℕ)
      → decode_get_shards codec frame ≡ ok (version, is)
      → IsBatch is
  unfolding decode_get_shards
  decode_get_shards-IsBatch frame version is h =
      elim (Outcome-cases (load_object codec frame.payload)) [
        | inl (e, refused) ↦ absurd (ground arith)
        | inr (fields, read) ↦ read_batch_request-IsBatch fields version is (ground arith)
      ]
