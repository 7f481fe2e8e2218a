-- ===== src/Transport/Failures.antt =====
-- litecast/transport/ucxx.py: what a failed exchange leaves of the endpoint that is kept.
use litecast.Common.{
  sym, Bool, true, false, Option, none, some, Text, Outcome, ok, raise, ◌≡◌, ◌≢◌, refl, arith,
  Option-cases, inl, inr,
}
use litecast.Common.Effects.{Effect}
use litecast.Transport.Wire.{
  TransportError, ucxx_unavailable, Endpoint, version_unavailable, transport_protocol_error,
  transport_integrity_error, value_error, other,
}
use litecast.Transport.Sessions.{
  stopped, finished, timed_out, timed_out, on_executor, execute, Run, UcxxTransport, keep,
  persistent, on_connection,
}

-- The exceptions that a caller sees.
unfoldable pub is_reported : TransportError → Bool
is_reported (version_unavailable message) = true
is_reported transport_protocol_error = true
is_reported transport_integrity_error = true
is_reported ucxx_unavailable = true
is_reported value_error = false
is_reported other = false

abbrev pub IsDiscarded : {S : Type 0} → TransportError → Option S → Type 0
IsDiscarded e connection =
    (is_reported e ≡ true)
    × (((message : Text) → e ≢ version_unavailable message) → connection ≡ none)

-- What an exception of a call leaves, by how the executor ran the exchange.
unfoldable pub IsLeft : {S : Type 0} → Run S → TransportError → Option S → Option S → Type 0
IsLeft stopped e before after = (e ≡ ucxx_unavailable) × (after ≡ before)
IsLeft finished e before after = IsDiscarded e after
IsLeft (timed_out left) e before after = (e ≡ other) × (after ≡ left)

module _ {S A : Type 0} where
  keep-IsDiscarded :
      (r : Outcome TransportError A × S) (e : TransportError) (connection : Option S)
      → keep r ≡ (raise e, connection)
      → IsDiscarded e connection
  unfolding keep is_reported
  keep-IsDiscarded (ok a, s) e c h = absurd (cc)
  keep-IsDiscarded (raise (version_unavailable message), s) e c h =
      let reason : version_unavailable message ≡ e = cc in
      (rw (← reason) refl, λ known. absurd (known message (cc)))
  keep-IsDiscarded (raise transport_protocol_error, s) e c h =
      let reason : transport_protocol_error ≡ e = cc in (rw (← reason) refl, λ _. cc)
  keep-IsDiscarded (raise transport_integrity_error, s) e c h =
      let reason : transport_integrity_error ≡ e = cc in (rw (← reason) refl, λ _. cc)
  keep-IsDiscarded (raise ucxx_unavailable, s) e c h =
      let reason : ucxx_unavailable ≡ e = cc in (rw (← reason) refl, λ _. cc)
  keep-IsDiscarded (raise value_error, s) e c h =
      let reason : ucxx_unavailable ≡ e = cc in (rw (← reason) refl, λ _. cc)
  keep-IsDiscarded (raise other, s) e c h =
      let reason : ucxx_unavailable ≡ e = cc in (rw (← reason) refl, λ _. cc)

  persistent-IsDiscarded :
      (endpoint : Endpoint S) (exchange : Effect S TransportError A) (before : Option S)
      (e : TransportError) (connection : Option S)
      → persistent endpoint exchange before ≡ (raise e, connection)
      → IsDiscarded e connection
  unfolding persistent is_reported
  persistent-IsDiscarded endpoint exchange (some s) e c h = keep-IsDiscarded (exchange s) e c h
  persistent-IsDiscarded endpoint exchange none e c h = elim (Option-cases endpoint.create) [
    | inl absent ↦
        let reason : ucxx_unavailable ≡ e = ground arith in (rw (← reason) refl, λ _. ground arith)
    | inr (s, opened) ↦ keep-IsDiscarded (exchange s) e c (ground arith)
  ]

  execute-IsLeft :
      (run : Run S) (endpoint : Endpoint S) (exchange : Effect S TransportError A)
      (before : Option S) (e : TransportError) (after : Option S)
      → execute run (persistent endpoint exchange) before ≡ (raise e, after)
      → IsLeft run e before after
  unfolding execute IsLeft
  execute-IsLeft stopped endpoint exchange before e after h =
      let reason : ucxx_unavailable ≡ e = cc in
      let same : before ≡ after = cc in (sym reason, sym same)
  execute-IsLeft finished endpoint exchange before e after h =
      persistent-IsDiscarded endpoint exchange before e after h
  execute-IsLeft (timed_out left) endpoint exchange before e after h =
      let reason : other ≡ e = cc in let same : left ≡ after = cc in (sym reason, sym same)

  -- A call with an exchange on the endpoint that is kept, and that raises. If the loop of the
  -- executor is stopped, it raises ucxx_unavailable and keeps the endpoint as it was. If the
  -- exchange runs to its end, it raises one of four exceptions, and after any but that the peer
  -- does not have the version, no endpoint is kept. If the result is not there in time, it raises
  -- another exception, and keeps what the cancelled exchange left, which may be an endpoint.
  pub on_connection-IsLeft :
      (run : Run S) (endpoint : Endpoint S) (exchange : Effect S TransportError A)
      (t t' : UcxxTransport S) (e : TransportError)
      → on_connection run endpoint exchange t ≡ (raise e, t')
      → IsLeft run e t.connection t'.connection
  unfolding on_connection on_executor
  on_connection-IsLeft run endpoint exchange t t' e h =
      execute-IsLeft run endpoint exchange t.connection e t'.connection (cc)
