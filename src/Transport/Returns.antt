-- ===== src/Transport/Returns.antt =====
-- litecast/transport/ucxx.py: what a call on a transport returns, and what its exchange returns.
use litecast.Common.{
  ℕ, ℤ, List, Option, none, some, Text, Bytes, Outcome, ok, raise, ◌≡◌, refl, arith, length,
  Option-cases, Bool-cases, inl, inr, if◌then◌else◌,
}
use litecast.Common.Effects.{Effect, ensures-lift}
use litecast.Protocol.Json.{Codec}
use litecast.Transport.Wire.{
  TransportError, version_unavailable, transport_protocol_error, transport_integrity_error,
  ucxx_unavailable, value_error, other, Endpoint,
}
use litecast.Transport.Shards.{Targets}
use litecast.Transport.Client.{exchange_shard}
use litecast.Transport.Batch.{BatchResult, exchange_shards}
use litecast.Transport.Integrity.{exchange_shard-IsVerified}
use litecast.Transport.Partition.{IsPartition, exchange_shards-IsPartition}
use litecast.Transport.Sessions.{
  Run, stopped, finished, timed_out, UcxxTransport, execute, on_executor, keep, persistent,
  one_shot, on_connection, exchange_on, require_open, require_executor, validate_version,
  natural_index, check_batch, fetch_shard, fetch_shards_into,
}

module _ {S A : Type 0} where
  -- The exchange, begun in some state of the endpoint, returns the value.
  abbrev pub Returns : Effect S TransportError A → A → Type 0
  Returns exchange a = (s : S) × (s' : S) × (exchange s ≡ (ok a, s'))

  keep-ok :
      (r : Outcome TransportError A × S) (a : A) (connection : Option S)
      → keep r ≡ (ok a, connection)
      → (s' : S) × (r ≡ (ok a, s'))
  unfolding keep
  keep-ok (ok b, s) a c h = (s, cc)
  keep-ok (raise (version_unavailable message), s) a c h = absurd (cc)
  keep-ok (raise transport_protocol_error, s) a c h = absurd (cc)
  keep-ok (raise transport_integrity_error, s) a c h = absurd (cc)
  keep-ok (raise ucxx_unavailable, s) a c h = absurd (cc)
  keep-ok (raise value_error, s) a c h = absurd (cc)
  keep-ok (raise other, s) a c h = absurd (cc)

  persistent-ok :
      (endpoint : Endpoint S) (exchange : Effect S TransportError A) (before after : Option S)
      (a : A)
      → persistent endpoint exchange before ≡ (ok a, after)
      → Returns exchange a
  unfolding persistent
  persistent-ok endpoint exchange (some s) after a h =
      let (s', returned) = keep-ok (exchange s) a after h in (s, s', returned)
  persistent-ok endpoint exchange none after a h = elim (Option-cases endpoint.create) [
    | inl absent ↦ absurd (ground arith)
    | inr (s, opened) ↦
        let (s', returned) = keep-ok (exchange s) a after (ground arith) in (s, s', returned)
  ]

  execute-ok :
      (run : Run S) (coroutine : Effect (Option S) TransportError A) (before after : Option S)
      (a : A)
      → execute run coroutine before ≡ (ok a, after)
      → coroutine before ≡ (ok a, after)
  unfolding execute
  execute-ok stopped coroutine before after a h = absurd (cc)
  execute-ok finished coroutine before after a h = h
  execute-ok (timed_out left) coroutine before after a h = absurd (cc)

  on_connection-ok :
      (run : Run S) (endpoint : Endpoint S) (exchange : Effect S TransportError A)
      (t t' : UcxxTransport S) (a : A)
      → on_connection run endpoint exchange t ≡ (ok a, t')
      → Returns exchange a
  unfolding on_connection on_executor
  on_connection-ok run endpoint exchange t t' a h =
      persistent-ok endpoint exchange t.connection t'.connection a
        (execute-ok run (persistent endpoint exchange) t.connection t'.connection a (cc))

  exchange_on-ok :
      (run : Run S) (endpoint : Endpoint S) (exchange : Effect S TransportError A)
      (t t' : UcxxTransport S) (a : A)
      → exchange_on run endpoint exchange t ≡ (ok a, t')
      → Returns exchange a
  unfolding exchange_on one_shot
  exchange_on-ok run endpoint exchange t t' a h = elim (Bool-cases t.executor) [
    | inl owned ↦ on_connection-ok run endpoint exchange t t' a (ground arith)
    | inr alone ↦
        persistent-ok endpoint exchange none (persistent endpoint exchange none).1 a (ground arith)
  ]

module _ {S : Type 0} (endpoint : Endpoint S)
    (fills : (n : ℕ) (s : S) (raw : Bytes) (s' : S)
      → endpoint.recv n s ≡ some (raw, s')
      → length raw ≡ n)
    (run : Run S) (codec : Codec) (hexdigest : Bytes → Text) (real_index : Text → Option ℕ) where
  -- A fetch of a shard that returns, through any executor and in any state of the transport: its
  -- bytes have the digest that is expected, and the length of the target.
  pub fetch_shard-digest :
      (version : Text) (index : ℤ) (checksum : Text) (size : ℕ) (t : UcxxTransport S)
      (r : Bytes × Text) (t' : UcxxTransport S)
      → fetch_shard run endpoint codec hexdigest real_index version index
          (some checksum)
          (some size)
          t
        ≡ (ok r, t')
      → (hexdigest r.0 ≡ checksum) × (length r.0 ≡ size)
  unfolding fetch_shard require_open
  fetch_shard-digest version index checksum size t =
      let P : Bytes × Text → UcxxTransport S → Type 0 =
        λ r _. (hexdigest r.0 ≡ checksum) × (length r.0 ≡ size) in
      ensures-lift P (if t.closed then raise ucxx_unavailable else ok tt) t _ λ _ _.
        ensures-lift P (validate_version codec.encode version) t _ λ _ _.
          ensures-lift P (natural_index index) t _ λ i _ r t' h.
            let exchange =
              exchange_shard endpoint codec hexdigest real_index version i (some checksum)
                (some size) in
            let (s, s', returned) = exchange_on-ok run endpoint exchange t t' r h in
            let (_, authentic, sized) =
              exchange_shard-IsVerified endpoint fills codec hexdigest real_index version i
                (some checksum) (some size) s r s' returned in
            (authentic checksum refl, sized size refl)

  -- The same of a batch that returns: it partitions its targets, as `IsPartition` says.
  pub fetch_shards_into-IsPartition :
      (version : Text) (targets : Targets) (expected : List (ℕ × Text)) (t : UcxxTransport S)
      (r : BatchResult) (t' : UcxxTransport S)
      → fetch_shards_into run endpoint codec hexdigest real_index version targets expected t
        ≡ (ok r, t')
      → IsPartition endpoint fills hexdigest targets expected r
  unfolding fetch_shards_into require_open require_executor
  fetch_shards_into-IsPartition version targets expected t =
      let P : BatchResult → UcxxTransport S → Type 0 =
        λ r _. IsPartition endpoint fills hexdigest targets expected r in
      ensures-lift P (if t.closed then raise ucxx_unavailable else ok tt) t _ λ _ _.
        ensures-lift P (validate_version codec.encode version) t _ λ _ _.
          ensures-lift P (check_batch targets expected) t _ λ _ _.
            ensures-lift P (if t.executor then ok tt else raise ucxx_unavailable) t _ λ _ _ r t' h.
              let exchange =
                exchange_shards endpoint hexdigest codec real_index version targets expected in
              let (s, s', returned) = on_connection-ok run endpoint exchange t t' r h in
              exchange_shards-IsPartition endpoint fills hexdigest codec real_index version targets
                expected s r s' returned
