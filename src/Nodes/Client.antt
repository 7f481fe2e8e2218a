-- ===== src/Nodes/Client.antt =====
-- litecast/client_node.py: `_download_streaming`. A buffer is the bytes that it holds after a
-- fetch. The batches run one after the other, in the order in which they are submitted.
use litecast.Common.{
  ℕ, zero, suc, Bool, true, false, ◌+◌, ◌&&◌, List, [], ◌∷◌, ◌++◌, Option, none, some, Text, Bytes,
  text_eq, codes, Outcome, ok, raise, if◌then◌else◌,
}
use native.Mathlib.Decide.{ℕ_discrete}
use litecast.Common.Dict
use litecast.Common.Effects.{Effect, ◌>>=◌, lift}
use litecast.Streaming.Members.{Floats, mem}
use litecast.Streaming.Owners.{shard_owners, order_owners_for_client}
use litecast.Endpoints.Types.{UcxxEndpoint, EndpointMetadata}
use litecast.Nodes.Peers.{
  Outside, ClientState, discover_endpoint_for, download_into_from, by_ucxx, fetch_batch,
}
use litecast.Transport.Batch.{BatchResult}
use litecast.Nodes.Download.{
  TransportMode, auto, ucxx, http, NodeError, placement_error, unavailable, Download, checksum_at,
  expected_of,
}
use litecast.Transport.Shards.{Targets}

-- The data plane of an owner, where it is verified and has a capability.
unfoldable pub usable : Text → Option EndpointMetadata → Option UcxxEndpoint
unfolding mem
usable capability none = none
usable capability (some endpoint) = elim endpoint.ucxx [
  | none ↦ none
  | some u ↦ if u.verified_rdma && mem capability endpoint.capabilities then some u else none
]

unfoldable pub is_http : TransportMode → Bool
is_http http = true
is_http auto = false
is_http ucxx = false

unfoldable pub is_ucxx : TransportMode → Bool
is_ucxx ucxx = true
is_ucxx auto = false
is_ucxx http = false

module _ {F : Type 0} (floats : Floats F) (digest : Bytes → Bytes)
    (encode : Text → Option Bytes) where
  -- The owners of a shard, those in the locality of the client first.
  unfoldable pub owners_of : Download → ℕ → Outcome NodeError (List Text)
  unfolding shard_owners order_owners_for_client
  owners_of d i =
      elim (shard_owners floats digest encode d.name i d.members d.replication_factor d.profiles) [
        | raise e ↦ raise (placement_error e)
        | ok owners ↦ ok (order_owners_for_client owners d.profiles d.locality)
      ]

module _ {W S : Type 0} (outside : Outside W S) (d : Download) where
  unfoldable pub discover_for : Text → ClientState W S → Option EndpointMetadata × ClientState W S
  unfolding is_http discover_endpoint_for
  discover_for owner c =
      if is_http d.transport then (none, c) else discover_endpoint_for outside owner c

  -- The bytes that were downloaded, where they have the checksum, which is read behind them.
  unfoldable pub matching :
      Outcome NodeError Text
      → Option Bytes × ClientState W S
      → Outcome NodeError (Option Bytes) × ClientState W S
  matching checksum (none, c) = (ok none, c)
  matching (raise e) (some raw, c) = (raise e, c)
  matching (ok checksum) (some raw, c) =
      (ok (if text_eq (outside.hexdigest raw) checksum then some raw else none), c)

  unfoldable pub by_http :
      Text → ℕ → ℕ → Outcome NodeError Text → Effect (ClientState W S) NodeError (Option Bytes)
  unfolding matching is_ucxx download_into_from
  by_http owner i size checksum c =
      if is_ucxx d.transport
      then (ok none, c)
      else matching checksum (download_into_from outside owner i size c)

  -- What follows the fetch by UCXX.
  unfoldable pub or_http :
      Text
      → ℕ
      → ℕ
      → Outcome NodeError Text
      → Option Bytes × ClientState W S
      → Outcome NodeError (Option Bytes) × ClientState W S
  unfolding by_http
  or_http owner i size checksum (some raw, c) = (ok (some raw), c)
  or_http owner i size checksum (none, c) = by_http owner i size checksum c

  -- The body of the loop over the owners.
  unfoldable pub try_owner :
      ℕ → ℕ → Outcome NodeError Text → Text → Effect (ClientState W S) NodeError (Option Bytes)
  unfolding discover_for usable by_ucxx or_http by_http
  try_owner i size checksum owner c =
      let (endpoint, c') = discover_for owner c in
      elim (usable (codes "get_shard") endpoint) [
        | some u ↦ or_http owner i size checksum (by_ucxx outside d u i size checksum c')
        | none ↦ by_http owner i size checksum c'
      ]

  unfoldable pub or_else :
      {A : Type 0}
      → (Bytes → A)
      → Option Bytes
      → Effect (ClientState W S) NodeError A
      → Effect (ClientState W S) NodeError A
  or_else done (some raw) rest = lift (ok (done raw))
  or_else done none rest = rest

  unfoldable pub try_owners :
      ℕ → ℕ → Outcome NodeError Text → List Text → Effect (ClientState W S) NodeError (Option Bytes)
  unfolding try_owner or_else
  try_owners i size checksum [] = lift (ok none)
  try_owners i size checksum (owner ∷ owners) = do
    tried ← try_owner i size checksum owner
    or_else some tried (try_owners i size checksum owners)

  unfoldable pub receive_rounds :
      ℕ
      → ℕ
      → ℕ
      → Outcome NodeError Text
      → List Text
      → Effect (ClientState W S) NodeError (ℕ × Bytes)
  unfolding try_owners or_else
  receive_rounds zero i size checksum owners = lift (raise unavailable)
  receive_rounds (suc n) i size checksum owners = do
    tried ← try_owners i size checksum owners
    or_else (λ raw. (i, raw)) tried (receive_rounds n i size checksum owners)

  module _ (owners : ℕ → Outcome NodeError (List Text)) where
    -- `receive`, with the length of the target.
    unfoldable pub receive : ℕ × ℕ → Effect (ClientState W S) NodeError (ℕ × Bytes)
    unfolding checksum_at
    receive (i, size) = do
      holders ← lift (owners i)
      receive_rounds d.rounds i size (checksum_at d i) holders

    unfoldable pub receive_all : Targets → Effect (ClientState W S) NodeError (List (ℕ × Bytes))
    receive_all [] = lift (ok [])
    receive_all (target ∷ targets) = do
      first ← receive target
      rest ← receive_all targets
      lift (ok (first ∷ rest))

    -- The targets of the indices that a batch left.
    unfoldable pub left : Targets → List ℕ → Targets
    left targets [] = []
    left targets (i ∷ is) =
        let rest = left targets is in
        elim (Dict.get ℕ_discrete i targets) [ none ↦ rest | some size ↦ (i, size) ∷ rest ]

    -- The end of `receive_batch`, behind the fetch of the batch.
    unfoldable pub after_batch :
        Targets
        → Option BatchResult × ClientState W S
        → Outcome NodeError (List (ℕ × Bytes)) × ClientState W S
    unfolding left
    after_batch targets (none, c) = receive_all targets c
    after_batch targets (some result, c) =
        (do
          rest ← receive_all (left targets result.unavailable)
          lift (ok (result.completed ++ rest)))
          c

    -- A batch with the lane of its transport.
    unfoldable pub receive_batch :
        ℕ → Text × Targets → Effect (ClientState W S) NodeError (List (ℕ × Bytes))
    unfolding discover_for usable after_batch expected_of fetch_batch
    receive_batch lane (owner, targets) c =
        let (endpoint, c1) = discover_for owner c in
        elim (usable (codes "get_shards") endpoint) [
          | some u ↦
              (do
                expected ← lift (expected_of d targets)
                λ c2. after_batch targets (fetch_batch outside d u lane targets expected c2))
                c1
          | none ↦ receive_all targets c1
        ]

    unfoldable pub receive_batches :
        ℕ → List (Text × Targets) → Effect (ClientState W S) NodeError (List (ℕ × Bytes))
    receive_batches lane [] = lift (ok [])
    receive_batches lane (batch ∷ batches) = do
      first ← receive_batch lane batch
      rest ← receive_batches (lane + 1) batches
      lift (ok (first ++ rest))
