-- ===== src/Transport/Lifecycle.antt =====
-- litecast/transport/ucxx.py: the endpoint that a transport keeps, along any calls on it.
use litecast.Common.{ℕ, true, false, Option, none, Text, Bytes, List, ℤ, ◌≡◌}
use litecast.Protocol.Json.{Codec}
use litecast.Transport.Wire.{Endpoint}
use litecast.Transport.Shards.{Targets}
use litecast.Transport.Sessions.{
  Run, warm, UcxxTransport, fetch_version, fetch_shard, fetch_shards_into, wait_for_version, close,
}

-- One call on a transport, with any arguments, in any run of the executor.
module _ {S : Type 0} (endpoint : Endpoint S) (codec : Codec) (hexdigest : Bytes → Text)
    (real_index : Text → Option ℕ) where
  pub data Step : UcxxTransport S → UcxxTransport S → Type 0 where
    version_fetched :
        (run : Run S) (version : Text) (maximum : Option ℤ) (t : UcxxTransport S)
        → Step t (fetch_version run endpoint codec hexdigest real_index version maximum t).1
    shard_fetched :
        (run : Run S) (version : Text) (index : ℤ) (expected : Option Text) (target : Option ℕ)
        (t : UcxxTransport S)
        → Step t
            (fetch_shard run endpoint codec hexdigest real_index version index expected target t).1
    shards_fetched :
        (run : Run S) (version : Text) (targets : Targets) (expected : List (ℕ × Text))
        (t : UcxxTransport S)
        → Step t
            (fetch_shards_into run endpoint codec hexdigest real_index version targets expected t).1
    version_awaited :
        (run : Run S) (version : Text) (t : UcxxTransport S)
        → Step t (wait_for_version run endpoint codec hexdigest real_index version t).1
    warmed : (run : Run S) (t : UcxxTransport S) → Step t (warm run endpoint t).1
    closing : (run : Run S) (t : UcxxTransport S) → Step t (close run t)

  pub data Steps : UcxxTransport S → UcxxTransport S → Type 0 where
    start : (t : UcxxTransport S) → Steps t t
    next : (t t' t'' : UcxxTransport S) → Steps t t' → Step t' t'' → Steps t t''

  -- What every call leaves: which kind of transport it is and its limit; that it is closed; that a
  -- closed transport has no endpoint; and that one without an executor keeps none.
  pub record IsKept (t t' : UcxxTransport S) : Type 0 where
    pub kind : t'.executor ≡ t.executor
    pub limit : t'.max_total_size ≡ t.max_total_size
    pub shut : t.closed ≡ true → t'.closed ≡ true
    pub released : t.closed ≡ true → t.connection ≡ none → t'.connection ≡ none
    pub alone : t.executor ≡ false → t'.connection ≡ t.connection
