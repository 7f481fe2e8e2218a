-- ===== src/Transport/Shards.antt =====
-- litecast/transport/ucxx.py: the tests of `_exchange_shards` on the metadata of a batch.
use litecast.Common.{
  ℕ, Bool, true, not, ◌&&◌, List, [], ◌∷◌, ◌++◌, map, Option, none, some, Text, pos, codes, Outcome,
  ok, raise, ◌>>=◌, ◌>>◌, if◌then◌else◌,
}
use native.Mathlib.Decide.{ℕ_discrete}
use litecast.Common.Dict
use litecast.Protocol.Json.{
  Json, null, boolean, real, text, integer, object, array, Items, end, item, Fields, find_field,
}
use litecast.Protocol.Indices.{contains, all_distinct}
use litecast.Transport.Wire.{
  TransportError, transport_protocol_error, other, demand, has_keys, is_text, checksum_of, as_index,
  equals_index,
}

-- The buffers by their indices, with the length of each.
abbrev pub Targets : Type 0
Targets = List (ℕ × ℕ)

abbrev pub keys {ℓ} : {V : Type ℓ} → List (ℕ × V) → List ℕ
keys d = map (λ e. e.0) d

-- Every index of the first list is in the second.
unfoldable pub subset : List ℕ → List ℕ → Bool
unfolding contains
subset [] js = true
subset (i ∷ is) js = contains i js && subset is js

unfoldable pub disjoint : List ℕ → List ℕ → Bool
unfolding contains
disjoint [] js = true
disjoint (i ∷ is) js = not (contains i js) && disjoint is js

unfoldable pub target_size : Targets → ℕ → Outcome TransportError ℕ
target_size targets i = elim (Dict.get ℕ_discrete i targets) [
  | none ↦ raise transport_protocol_error
  | some n ↦ ok n
]

module _ (real_index : Text → Option ℕ) where
  -- `item["index"] not in targets`, which raises on a list or an object.
  unfoldable pub index_field : Option Json → Outcome TransportError ℕ
  unfolding as_index
  index_field none = raise transport_protocol_error
  index_field (some (array items)) = raise other
  index_field (some (object fields)) = raise other
  index_field (some j) = elim (as_index real_index j) [
    | none ↦ raise transport_protocol_error
    | some i ↦ ok i
  ]

  -- One entry of `shards`, behind those seen.
  unfoldable pub read_item : Targets → List ℕ → Json → Outcome TransportError (ℕ × Text)
  unfolding index_field target_size demand
  read_item targets seen (object fields) = do
    demand (has_keys (codes "index" ∷ codes "size" ∷ codes "checksum" ∷ []) fields)
    i ← index_field (find_field (codes "index") fields)
    n ← target_size targets i
    demand (not (contains i seen))
    demand (equals_index real_index n (find_field (codes "size") fields))
    checksum ← checksum_of (find_field (codes "checksum") fields)
    ok (i, checksum)
  read_item targets seen null = raise transport_protocol_error
  read_item targets seen (boolean b) = raise transport_protocol_error
  read_item targets seen (integer z) = raise transport_protocol_error
  read_item targets seen (real t) = raise transport_protocol_error
  read_item targets seen (text t) = raise transport_protocol_error
  read_item targets seen (array items) = raise transport_protocol_error

  unfoldable pub read_items : Targets → List ℕ → Items → Outcome TransportError (List (ℕ × Text))
  read_items targets seen end = ok []
  read_items targets seen (item j items) = do
    entry ← read_item targets seen j
    rest ← read_items targets (entry.0 ∷ seen) items
    ok (entry ∷ rest)

unfoldable pub array_field : Option Json → Outcome TransportError Items
array_field (some (array items)) = ok items
array_field _ = raise transport_protocol_error

-- The entries of `unavailable`: integers among the targets.
unfoldable pub integer_in : Targets → Json → Outcome TransportError ℕ
integer_in targets (integer (pos n)) =
    if contains n (keys targets) then ok n else raise transport_protocol_error
integer_in targets _ = raise transport_protocol_error

unfoldable pub read_unavailable : Targets → Items → Outcome TransportError (List ℕ)
unfolding integer_in
read_unavailable targets end = ok []
read_unavailable targets (item j items) = do
  i ← integer_in targets j
  rest ← read_unavailable targets items
  ok (i ∷ rest)

-- The indices that can be received, with their checksums, and those that are not available.
unfoldable pub read_batch :
    (Text → Option ℕ) → Text → Targets → Fields → Outcome TransportError (List (ℕ × Text) × List ℕ)
unfolding demand array_field
read_batch real_index version targets value = do
  demand (has_keys (codes "version" ∷ codes "shards" ∷ codes "unavailable" ∷ []) value)
  demand (is_text version (find_field (codes "version") value))
  shards ← array_field (find_field (codes "shards") value)
  missing ← array_field (find_field (codes "unavailable") value)
  available ← read_items real_index targets [] shards
  unavailable ← read_unavailable targets missing
  demand (all_distinct unavailable)
  demand (
      subset (keys targets) (keys available ++ unavailable)
      && subset (keys available ++ unavailable) (keys targets))
  demand (disjoint (keys available) unavailable)
  ok (available, unavailable)
