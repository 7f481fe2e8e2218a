-- ===== src/Transport/Later.antt =====
-- litecast/transport/ucxx.py: what one call on a transport, other than `close`, leaves of it.
use litecast.Common.{
  Bool, true, false, Option, none, Outcome, ok, raise, if◌then◌else◌, ◌≡◌, refl, arith,
}
use litecast.Common.Effects.{Effect, continue}
use litecast.Transport.Wire.{TransportError, ucxx_unavailable, Endpoint}
use litecast.Transport.Sessions.{
  Run, on_executor, persistent, exchange_alone, execute, warm, warm_persistent, one_shot,
  UcxxTransport, on_connection, exchange_on, require_open, require_executor,
}

-- What holds of every call but `close`: it leaves a closed transport as it is, and changes nothing
-- but the endpoint of one that has an executor.
pub record IsLater {S : Type 0} (t t' : UcxxTransport S) : Type 0 where
  pub closed : t.closed ≡ true → t' ≡ t
  pub kind : t'.executor ≡ t.executor
  pub limit : t'.max_total_size ≡ t.max_total_size
  pub same : t'.closed ≡ t.closed
  pub owned : t.executor ≡ false → t'.connection ≡ t.connection

pub IsLater-refl : {S : Type 0} (t : UcxxTransport S) → IsLater t t
IsLater-refl t = record {
  closed = λ _. refl;
  kind = refl;
  same = refl;
  limit = refl;
  owned = λ _. refl;
}

-- A call that is refused leaves the transport as it is.
module _ {S : Type 0} where
  pub lift-IsLater :
      {A B : Type 0} (r : Outcome TransportError A)
      (rest : A → Effect (UcxxTransport S) TransportError B) (t : UcxxTransport S)
      → ((a : A) → r ≡ ok a → IsLater t (rest a t).1)
      → IsLater t (continue (r, t) rest).1
  lift-IsLater (ok a) rest t h = h a refl
  lift-IsLater (raise e) rest t h = IsLater-refl t

  pub open-IsLater :
      {B : Type 0} (rest : Effect (UcxxTransport S) TransportError B) (t : UcxxTransport S)
      → (t.closed ≡ false → IsLater t (rest t).1)
      → IsLater t (continue (require_open t) (λ _. rest)).1
  unfolding require_open
  open-IsLater rest t h =
      lift-IsLater (if t.closed then raise ucxx_unavailable else ok tt) (λ _. rest) t
        (λ _ live. h (ground arith))

  pub owned-IsLater :
      {B : Type 0} (rest : Effect (UcxxTransport S) TransportError B) (t : UcxxTransport S)
      → (t.executor ≡ true → IsLater t (rest t).1)
      → IsLater t (continue (require_executor t) (λ _. rest)).1
  unfolding require_executor
  owned-IsLater rest t h =
      lift-IsLater (if t.executor then ok tt else raise ucxx_unavailable) (λ _. rest) t
        (λ _ owned. h (ground arith))

  on_executor-IsLater :
      {A : Type 0} (run : Run S) (coroutine : Effect (Option S) TransportError A)
      (t : UcxxTransport S)
      → t.closed ≡ false
      → t.executor ≡ true
      → IsLater t (on_executor run coroutine t).1
  unfolding on_executor
  on_executor-IsLater run coroutine t live owned = record {
    closed = λ shut. absurd (cc);
    kind = refl;
    same = refl;
    limit = refl;
    owned = λ alone. absurd (cc);
  }

  pub on_connection-IsLater :
      {A : Type 0} (run : Run S) (endpoint : Endpoint S) (exchange : Effect S TransportError A)
      (t : UcxxTransport S)
      → t.closed ≡ false
      → t.executor ≡ true
      → IsLater t (on_connection run endpoint exchange t).1
  unfolding on_connection
  on_connection-IsLater run endpoint exchange t live owned =
      on_executor-IsLater run (persistent endpoint exchange) t live owned

  if_owned-IsLater :
      {A : Type 0} (call : Effect (UcxxTransport S) TransportError A) (r : Outcome TransportError A)
      (t : UcxxTransport S)
      → (t.executor ≡ true → IsLater t (call t).1)
      → IsLater t (if t.executor then call t else (r, t)).1
  if_owned-IsLater call r t h = either t.executor h
    where
      either :
          (b : Bool)
          → (b ≡ true → IsLater t (call t).1)
          → IsLater t (if b then call t else (r, t)).1
      either true later = later refl
      either false later = IsLater-refl t

  pub exchange_on-IsLater :
      {A : Type 0} (run : Run S) (endpoint : Endpoint S) (exchange : Effect S TransportError A)
      (t : UcxxTransport S)
      → t.closed ≡ false
      → IsLater t (exchange_on run endpoint exchange t).1
  unfolding exchange_on
  exchange_on-IsLater run endpoint exchange t live =
      if_owned-IsLater (on_connection run endpoint exchange) (one_shot endpoint exchange) t
        (λ owned. on_connection-IsLater run endpoint exchange t live owned)

  pub exchange_alone-IsLater :
      {A : Type 0} (run : Run S) (endpoint : Endpoint S) (exchange : Effect S TransportError A)
      (t : UcxxTransport S)
      → IsLater t (exchange_alone run endpoint exchange t).1
  unfolding exchange_alone
  exchange_alone-IsLater run endpoint exchange t =
      if_owned-IsLater
        (λ u. ((execute run (λ connection. (one_shot endpoint exchange, connection)) none).0, u))
        (one_shot endpoint exchange) t (λ _. IsLater-refl t)

  pub warm-IsLater :
      (run : Run S) (endpoint : Endpoint S) (t : UcxxTransport S)
      → IsLater t (warm run endpoint t).1
  unfolding warm
  warm-IsLater run endpoint t = open-IsLater _ t λ live.
      if_owned-IsLater (on_executor run (warm_persistent endpoint)) (ok tt) t
        (λ owned. on_executor-IsLater run (warm_persistent endpoint) t live owned)
