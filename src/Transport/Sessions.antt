-- ===== src/Transport/Sessions.antt =====
-- litecast/transport/ucxx.py: `UCXXTransport`, its calls and the endpoint that it keeps between
-- them, and the `UCXXEventLoopExecutor` that runs them. A call that owns no event loop uses an
-- endpoint of its own.
use litecast.Common.{
  ℕ, Bool, true, false, not, ◌&&◌, ◌||◌, List, [], ◌∷◌, Option, none, some, Text, Bytes, ℤ, pos,
  negsuc, length, ◌==◌, ltb, text_eq, is_empty, Outcome, ok, raise, if◌then◌else◌,
}
use litecast.Common.Effects.{Effect, ◌>>=◌, ◌>>◌, lift}
use litecast.Store.Types.{VersionMetadata}
use litecast.Protocol.Json.{Codec}
use litecast.Protocol.Frames.{MessageType}
use litecast.Protocol.Messages.{encode_named, decode_named}
use litecast.Transport.Wire.{
  TransportError, version_unavailable, transport_protocol_error, transport_integrity_error,
  ucxx_unavailable, value_error, other, Endpoint,
}
use litecast.Transport.Client.{or_other, ask, exchange_shard, exchange_version}
use litecast.Transport.Shards.{Targets, keys, subset}
use litecast.Transport.Batch.{BatchResult, exchange_shards}

-- `executor` tells that the transport owns an event loop, `connection` is `_persistent_endpoint`.
pub record UcxxTransport (S : Type 0) : Type 0 where
  pub max_total_size : ℕ
  pub executor : Bool
  pub closed : Bool
  pub connection : Option S

-- How the executor runs a coroutine: its loop is stopped, so the coroutine does not start; the
-- coroutine runs to its end; or `result_timeout` passes and the coroutine is cancelled, which leaves
-- in `_persistent_endpoint` what stands there at that moment.
pub data Run (S : Type 0) : Type 0 where
  stopped : Run S
  finished : Run S
  timed_out : Option S → Run S

abbrev pub max_version_size : ℕ
max_version_size = 1024

unfoldable pub has_nul : Text → Bool
has_nul [] = false
has_nul (c ∷ s) = (c == 0) || has_nul s

unfoldable pub validate_version : (Text → Option Bytes) → Text → Outcome TransportError (Unit {0})
unfolding is_empty has_nul
validate_version encode version =
    if is_empty version then raise transport_protocol_error else elim (encode version) [
      | none ↦ raise other
      | some bytes ↦
          if ltb max_version_size (length bytes) || has_nul version
          then raise transport_protocol_error
          else ok tt
    ]

module _ {S A : Type 0} where
  -- `UCXXEventLoopExecutor.__call__` of a coroutine.
  unfoldable pub execute :
      Run S → Effect (Option S) TransportError A → Effect (Option S) TransportError A
  execute stopped coroutine connection = (raise ucxx_unavailable, connection)
  execute finished coroutine connection = coroutine connection
  execute (timed_out left) coroutine connection = (raise other, left)

  -- The end of an exchange on the endpoint that is kept, where it is not cancelled: after any
  -- exception but that the peer does not have the version, the endpoint is discarded.
  unfoldable pub keep : Outcome TransportError A × S → Outcome TransportError A × Option S
  keep (ok a, s) = (ok a, some s)
  keep (raise (version_unavailable message), s) = (raise (version_unavailable message), some s)
  keep (raise transport_protocol_error, s) = (raise transport_protocol_error, none)
  keep (raise transport_integrity_error, s) = (raise transport_integrity_error, none)
  keep (raise ucxx_unavailable, s) = (raise ucxx_unavailable, none)
  keep (raise value_error, s) = (raise ucxx_unavailable, none)
  keep (raise other, s) = (raise ucxx_unavailable, none)

  unfoldable pub persistent :
      Endpoint S → Effect S TransportError A → Effect (Option S) TransportError A
  unfolding keep
  persistent endpoint exchange (some s) = keep (exchange s)
  persistent endpoint exchange none = elim endpoint.create [
    | none ↦ (raise ucxx_unavailable, none)
    | some s ↦ keep (exchange s)
  ]

  -- An exchange on an endpoint of its own, which is closed after it.
  unfoldable pub one_shot : Endpoint S → Effect S TransportError A → Outcome TransportError A
  unfolding persistent
  one_shot endpoint exchange = (persistent endpoint exchange none).0

  -- A coroutine that the executor runs, with the endpoint that is kept.
  unfoldable pub on_executor :
      Run S → Effect (Option S) TransportError A → Effect (UcxxTransport S) TransportError A
  unfolding execute
  on_executor run coroutine t =
      let (result, connection) = execute run coroutine t.connection in
      (result, record t { connection = connection })

  unfoldable pub on_connection :
      Run S → Endpoint S → Effect S TransportError A → Effect (UcxxTransport S) TransportError A
  unfolding on_executor persistent
  on_connection run endpoint exchange = on_executor run (persistent endpoint exchange)

  unfoldable pub exchange_on :
      Run S → Endpoint S → Effect S TransportError A → Effect (UcxxTransport S) TransportError A
  unfolding on_connection one_shot
  exchange_on run endpoint exchange t =
      if t.executor then on_connection run endpoint exchange t else (one_shot endpoint exchange, t)

  -- The same, on an endpoint of its own in either case.
  unfoldable pub exchange_alone :
      Run S → Endpoint S → Effect S TransportError A → Effect (UcxxTransport S) TransportError A
  unfolding execute one_shot
  exchange_alone run endpoint exchange t =
      if t.executor
      then ((execute run (λ connection. (one_shot endpoint exchange, connection)) none).0, t)
      else (one_shot endpoint exchange, t)

unfoldable pub require_open : {S : Type 0} → Effect (UcxxTransport S) TransportError (Unit {0})
require_open t = (if t.closed then raise ucxx_unavailable else ok tt, t)

unfoldable pub require_executor : {S : Type 0} → Effect (UcxxTransport S) TransportError (Unit {0})
require_executor t = (if t.executor then ok tt else raise ucxx_unavailable, t)

-- The batch has targets, and a checksum for each of them and for no other.
unfoldable pub check_batch : Targets → List (ℕ × Text) → Outcome TransportError (Unit {0})
unfolding is_empty subset
check_batch targets expected =
    if is_empty targets
      || not (subset (keys targets) (keys expected) && subset (keys expected) (keys targets))
    then raise value_error
    else ok tt

unfoldable pub natural_index : ℤ → Outcome TransportError ℕ
natural_index (pos n) = ok n
natural_index (negsuc n) = raise value_error

-- The limit of a call, or that of the transport.
unfoldable pub limit_of : {S : Type 0} → Option ℤ → Effect (UcxxTransport S) TransportError ℕ
unfolding natural_index
limit_of none t = (ok t.max_total_size, t)
limit_of (some z) t = (natural_index z, t)

module _ {S : Type 0} (endpoint : Endpoint S) (codec : Codec) where
  unfoldable pub exchange_wait : Text → Effect S TransportError (Unit {0})
  unfolding or_other
  exchange_wait version = do
    frame ← ask endpoint codec (encode_named codec MessageType.wait_version version)
    available ← lift (or_other (decode_named codec MessageType.version_available frame))
    lift (if text_eq available version then ok tt else raise transport_protocol_error)

module _ {S : Type 0} (run : Run S) (endpoint : Endpoint S) (codec : Codec)
    (hexdigest : Bytes → Text) (real_index : Text → Option ℕ) where
  unfoldable pub fetch_version :
      Text → Option ℤ → Effect (UcxxTransport S) TransportError (Bytes × VersionMetadata)
  unfolding require_open validate_version exchange_alone limit_of
  fetch_version version maximum = do
    require_open
    lift (validate_version codec.encode version)
    limit ← limit_of maximum
    exchange_alone run endpoint (exchange_version endpoint codec hexdigest real_index version limit)

  -- `fetch_shard`, and with the length of a target `fetch_shard_into`.
  unfoldable pub fetch_shard :
      Text → ℤ → Option Text → Option ℕ → Effect (UcxxTransport S) TransportError (Bytes × Text)
  unfolding require_open validate_version natural_index exchange_on
  fetch_shard version index expected_checksum target = do
    require_open
    lift (validate_version codec.encode version)
    i ← lift (natural_index index)
    exchange_on run endpoint
        (exchange_shard endpoint codec hexdigest real_index version i expected_checksum target)

  unfoldable pub fetch_shards_into :
      Text → Targets → List (ℕ × Text) → Effect (UcxxTransport S) TransportError BatchResult
  unfolding require_open validate_version check_batch require_executor on_connection
  fetch_shards_into version targets expected = do
    require_open
    lift (validate_version codec.encode version)
    lift (check_batch targets expected)
    require_executor
    on_connection run endpoint
        (exchange_shards endpoint hexdigest codec real_index version targets expected)

  unfoldable pub wait_for_version : Text → Effect (UcxxTransport S) TransportError (Unit {0})
  unfolding require_open validate_version require_executor on_connection exchange_wait
  wait_for_version version = do
    require_open
    lift (validate_version codec.encode version)
    require_executor
    on_connection run endpoint (exchange_wait endpoint codec version)

-- `_warm_persistent`, of which an exception reaches the caller as it is.
unfoldable pub warm_persistent :
    {S : Type 0} → Endpoint S → Effect (Option S) TransportError (Unit {0})
warm_persistent endpoint (some s) = (ok tt, some s)
warm_persistent endpoint none = elim endpoint.create [
  | none ↦ (raise other, none)
  | some s ↦ (ok tt, some s)
]

unfoldable pub warm :
    {S : Type 0} → Run S → Endpoint S → Effect (UcxxTransport S) TransportError (Unit {0})
unfolding require_open on_executor warm_persistent
warm run endpoint = do
  require_open
  λ t. if t.executor then on_executor run (warm_persistent endpoint) t else (ok tt, t)

unfoldable pub discard_persistent : {S : Type 0} → Effect (Option S) TransportError (Unit {0})
discard_persistent connection = (ok tt, none)

-- What `close` leaves of the endpoint: an exception of the executor is not seen by the caller.
unfoldable pub release : {S : Type 0} → Run S → Option S → Option S
unfolding execute discard_persistent
release run none = none
release run (some s) = (execute run discard_persistent (some s)).1

unfoldable pub close : {S : Type 0} → Run S → UcxxTransport S → UcxxTransport S
unfolding release
close run t = record t {
  closed = true;
  connection = if t.executor then release run t.connection else t.connection;
}
