-- ===== src/Nodes/Peers.antt =====
-- litecast/client_node.py: the endpoints that a client has discovered and the transports that it
-- keeps; litecast/client.py: `download_into_from`.
use litecast.Common.{
  ℕ, ◌+◌, ◌%◌, Bool, true, false, ◌&&◌, List, Option, none, some, Text, Bytes, ℤ, pos, negsuc,
  length, ◌==◌, text_eq, text_dec, Outcome, ok, raise, if◌then◌else◌,
}
use litecast.Common.Dict
use litecast.Common.Effects.{Effect}
use litecast.Protocol.Json.{Json, Codec}
use litecast.Endpoints.Types.{UcxxEndpoint, EndpointMetadata}
use litecast.Endpoints.Parse.{Texts, max_json_size}
use litecast.Endpoints.Files.{parse_endpoint_metadata}
use litecast.Transport.Wire.{TransportError, Endpoint}
use litecast.Transport.Shards.{Targets}
use litecast.Transport.Batch.{BatchResult}
use litecast.Transport.Sessions.{Run, UcxxTransport, fetch_shard, fetch_shards_into}
use litecast.Nodes.Download.{NodeError, Download}

-- A response of `urlopen`: the integer of its header `Content-Length`, where it has the header and
-- `int` reads it, and its body, where no read of it raises.
pub record Response : Type 0 where
  pub content_length : Option (Option ℤ)
  pub body : Option Bytes

-- What the client uses of libraries, over the state of the world outside it. `read_endpoints` is
-- `urlopen` of the endpoints file of a server and `read` of as many bytes of it, `open_shard` is
-- `urlopen` of a shard's file; `none` is an exception. `network` is what UCXX connects to at a host
-- and a port, and `run` how the event loop runs the next coroutine.
pub record Outside (W S : Type 0) : Type 0 where
  pub read_endpoints : Text → ℕ → W → Option Bytes × W
  pub open_shard : Text → ℕ → W → Option Response × W
  pub network : Text → ℕ → W → Endpoint S
  pub run : W → Run S × W
  pub texts : Texts
  pub pairs : Bytes → Option Json
  pub codec : Codec
  pub real_index : Text → Option ℕ
  pub hexdigest : Bytes → Text

-- The state of a `ClientNode`, and of the world. A transport that no call has made yet is the one
-- that `__init__` makes; the transports are by host, port and lane.
pub record ClientState (W S : Type 0) : Type 0 where
  pub world : W
  pub endpoint_cache : List (Text × EndpointMetadata)
  pub transports : Text → ℕ → ℕ → UcxxTransport S

abbrev pub with_transport :
    {S : Type 0}
    → (Text → ℕ → ℕ → UcxxTransport S)
    → Text
    → ℕ
    → ℕ
    → UcxxTransport S
    → Text
    → ℕ
    → ℕ
    → UcxxTransport S
with_transport transports host port lane t h p l =
    if text_eq h host && (p == port) && (l == lane) then t else transports h p l

unfoldable pub length_fits : ℕ → Option (Option ℤ) → Bool
length_fits size none = true
length_fits size (some none) = false
length_fits size (some (some (pos n))) = n == size
length_fits size (some (some (negsuc n))) = false

-- The body fills the buffer, and nothing follows.
unfoldable pub fill : ℕ → Option Bytes → Option Bytes
fill size none = none
fill size (some body) = if length body == size then some body else none

unfoldable pub accept_response : ℕ → Option Response → Option Bytes
unfolding length_fits fill
accept_response size none = none
accept_response size (some r) = if length_fits size r.content_length then fill size r.body else none

-- `except Exception`
unfoldable pub returned : {A : Type 0} → Outcome TransportError A → Option A
returned (ok a) = some a
returned (raise e) = none

unfoldable pub without_digest : {C : Type 0} → Option (Bytes × Text) × C → Option Bytes × C
without_digest (none, c) = (none, c)
without_digest (some (content, digest), c) = (some content, c)

module _ {W S : Type 0} (outside : Outside W S) where
  unfoldable pub read_endpoint : Option Bytes → Option EndpointMetadata
  read_endpoint none = none
  read_endpoint (some raw) =
      elim (parse_endpoint_metadata outside.texts outside.pairs raw max_json_size) [
        | raise e ↦ none
        | ok endpoint ↦ some endpoint
      ]

  unfoldable pub remember :
      Text → Option EndpointMetadata → ClientState W S → Option EndpointMetadata × ClientState W S
  unfolding Dict.set
  remember base none c = (none, c)
  remember base (some endpoint) c = (
    some endpoint,
    record c { endpoint_cache = Dict.set text_dec base endpoint c.endpoint_cache },
  )

  unfoldable pub discover_endpoint_for :
      Text → ClientState W S → Option EndpointMetadata × ClientState W S
  unfolding read_endpoint remember
  discover_endpoint_for base c = elim (Dict.get text_dec base c.endpoint_cache) [
    | some endpoint ↦ (some endpoint, c)
    | none ↦
        let (payload, world) = outside.read_endpoints base (max_json_size + 1) c.world in
        remember base (read_endpoint payload) (record c { world = world })
  ]

  unfoldable pub download_into_from :
      Text → ℕ → ℕ → ClientState W S → Option Bytes × ClientState W S
  unfolding accept_response
  download_into_from server i size c =
      let (response, world) = outside.open_shard server i c.world in
      (accept_response size response, record c { world = world })

  -- A call on the transport that `_ucxx_transport_for` picks by a hint.
  unfoldable pub on_transport :
      {A : Type 0}
      → ℕ
      → UcxxEndpoint
      → ℕ
      → (Run S → Endpoint S → Effect (UcxxTransport S) TransportError A)
      → ClientState W S
      → Option A × ClientState W S
  unfolding returned
  on_transport lanes u hint call c =
      let lane = hint % lanes in
      let (run, world) = outside.run c.world in
      let (result, t) =
        call run (outside.network u.host u.port world) (c.transports u.host u.port lane) in
      (
        returned result,
        record c { world = world; transports = with_transport c.transports u.host u.port lane t },
      )

  module _ (d : Download) where
    unfoldable pub fetch_into :
        UcxxEndpoint → ℕ → ℕ → Text → ClientState W S → Option Bytes × ClientState W S
    unfolding without_digest on_transport fetch_shard
    fetch_into u i size checksum c = without_digest (
        on_transport d.lanes u i
          (λ run endpoint.
            fetch_shard run endpoint outside.codec outside.hexdigest outside.real_index d.name
              (pos i) (some checksum) (some size))
          c)

    -- `fetch` in `receive`, where reading the checksum may raise.
    unfoldable pub by_ucxx :
        UcxxEndpoint
        → ℕ
        → ℕ
        → Outcome NodeError Text
        → ClientState W S
        → Option Bytes × ClientState W S
    unfolding fetch_into
    by_ucxx u i size (raise e) c = (none, c)
    by_ucxx u i size (ok checksum) c = fetch_into u i size checksum c

    unfoldable pub fetch_batch :
        UcxxEndpoint
        → ℕ
        → Targets
        → List (ℕ × Text)
        → ClientState W S
        → Option BatchResult × ClientState W S
    unfolding on_transport fetch_shards_into
    fetch_batch u lane targets expected = on_transport d.lanes u lane (λ run endpoint.
        fetch_shards_into run endpoint outside.codec outside.hexdigest outside.real_index d.name
          targets expected)
