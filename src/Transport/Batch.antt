-- ===== src/Transport/Batch.antt =====
-- litecast/transport/ucxx.py: `_exchange_shards`, which fetches several shards in one exchange.
use litecast.Common.{
  ℕ, List, [], ◌∷◌, Option, none, some, Text, Bytes, pos, Outcome, ok, raise, map,
}
use native.Mathlib.Decide.{ℕ_discrete}
use litecast.Common.Dict
use litecast.Common.Effects.{Effect, ◌>>=◌, ◌>>◌, lift}
use litecast.Protocol.Json.{Codec}
use litecast.Protocol.Frames.{MessageType}
use litecast.Protocol.Messages.{encode_get_shards, decode_shard_metadata}
use litecast.Transport.Wire.{TransportError, other, Endpoint}
use litecast.Transport.Client.{or_other, ask, receive_into, check_integrity}
use litecast.Transport.Shards.{Targets, keys, read_batch}

-- What a batch leaves: the shards received, in the order of the reply, and the other indices.
pub record BatchResult : Type 0 where
  pub completed : List (ℕ × Bytes)
  pub unavailable : List ℕ

-- `d[index]`
unfoldable pub lookup_or_other : {V : Type 0} → ℕ → List (ℕ × V) → Outcome TransportError V
lookup_or_other i d = elim (Dict.get ℕ_discrete i d) [ none ↦ raise other | some v ↦ ok v ]

module _ {S : Type 0} (endpoint : Endpoint S) (hexdigest : Bytes → Text) where
  -- The loop over the available shards.
  unfoldable pub receive_shards :
      Targets → List (ℕ × Text) → List (ℕ × Text) → Effect S TransportError (List (ℕ × Bytes))
  unfolding lookup_or_other
  receive_shards targets expected [] = lift (ok [])
  receive_shards targets expected ((i, checksum) ∷ available) = do
    size ← lift (lookup_or_other i targets)
    content ← receive_into endpoint size
    wanted ← lift (lookup_or_other i expected)
    lift (check_integrity (hexdigest content) checksum (some wanted))
    rest ← receive_shards targets expected available
    lift (ok ((i, content) ∷ rest))

  unfoldable pub exchange_shards :
      Codec
      → (Text → Option ℕ)
      → Text
      → Targets
      → List (ℕ × Text)
      → Effect S TransportError BatchResult
  unfolding or_other
  exchange_shards codec real_index version targets expected = do
    frame ← ask endpoint codec (encode_get_shards codec version (map pos (keys targets)))
    value ← lift (or_other (decode_shard_metadata codec MessageType.shards_metadata frame))
    (available, unavailable) ← lift (read_batch real_index version targets value)
    received ← receive_shards targets expected available
    lift (ok (record { completed = received; unavailable = unavailable }))
