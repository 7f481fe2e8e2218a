-- ===== src/Nodes/Authentic.antt =====
-- litecast/client_node.py: the checksums of the buffers that a download fills.
use litecast.Common.{
  ◌↔◌, ℕ, zero, suc, true, List, [], ◌∷◌, ◌++◌, Option, none, some, Text, Bytes, length, pos,
  text_eq, text_eq→eq, codes, Outcome, ok, raise, Bool, false, if◌then◌else◌, Bool-cases,
  Option-cases, inl, inr, ◌≡◌, refl, sym, ap, ◌%◌,
}
use native.Mathlib.Decide.{ℕ_discrete}
use litecast.Common.Dict
use litecast.Common.Effects.{Effect, ensures-continue, ensures_end}
use litecast.Protocol.Indices.{contains}
use litecast.Endpoints.Types.{UcxxEndpoint}
use litecast.Transport.Wire.{TransportError}
use litecast.Transport.Batch.{BatchResult}
use litecast.Transport.Shards.{Targets, keys}
use litecast.Transport.Partition.{AllVerified}
use litecast.Transport.Returns.{fetch_shard-digest, fetch_shards_into-IsPartition}
use litecast.Transport.Sessions.{fetch_shard, fetch_shards_into}
use litecast.Nodes.Download.{Download, NodeError}
use litecast.Nodes.Peers.{
  Outside, ClientState, returned, without_digest, on_transport, fetch_into, by_ucxx, fetch_batch,
  download_into_from,
}
use litecast.Nodes.Client.{
  usable, is_ucxx, discover_for, matching, by_http, or_http, try_owner, or_else, try_owners,
  receive_rounds,
}

-- Each buffer has the checksum that is expected at its index.
abbrev pub AllExpected : (Bytes → Text) → List (ℕ × Text) → List (ℕ × Bytes) → Type 0
AllExpected hexdigest expected [] = Unit
AllExpected hexdigest expected ((i, raw) ∷ received) =
    (Dict.get ℕ_discrete i expected ≡ some (hexdigest raw))
    × AllExpected hexdigest expected received

same_tests : (a b : Bool) → (a ≡ true ↔ b ≡ true) → a ≡ b
same_tests true true h = refl
same_tests false false h = refl
same_tests true false h = sym (h.0 refl)
same_tests false true h = h.1 refl

module _ {W S : Type 0} (outside : Outside W S) (d : Download)
    (fills : (host : Text) (port : ℕ) (w : W) (n : ℕ) (s : S) (raw : Bytes) (s' : S)
      → (outside.network host port w).recv n s ≡ some (raw, s')
      → length raw ≡ n) where
  HasDigest : Outcome NodeError Text → Option Bytes → ClientState W S → Type 0
  HasDigest checksum none c = Unit
  HasDigest checksum (some raw) c = checksum ≡ ok (outside.hexdigest raw)

  without_digest-HasDigest :
      (r : Outcome TransportError (Bytes × Text)) (checksum : Text) (c c' : ClientState W S)
      → ((v : Bytes × Text) → r ≡ ok v → outside.hexdigest v.0 ≡ checksum)
      → HasDigest (ok checksum) (without_digest (returned r, c)).0 c'
  unfolding HasDigest without_digest returned
  without_digest-HasDigest (raise e) checksum c c' h = tt
  without_digest-HasDigest (ok (content, digest)) checksum c c' h =
      ap ok (sym (h (content, digest) refl))

  fetch_into-HasDigest :
      (u : UcxxEndpoint) (i size : ℕ) (checksum : Text) (c c' : ClientState W S)
      → HasDigest (ok checksum) (fetch_into outside d u i size checksum c).0 c'
  unfolding fetch_into on_transport without_digest HasDigest
  fetch_into-HasDigest u i size checksum c c' =
      let (run, world) = outside.run c.world in
      let endpoint = outside.network u.host u.port world in
      let t = c.transports u.host u.port (i % d.lanes) in
      let r =
        fetch_shard run endpoint outside.codec outside.hexdigest outside.real_index d.name (pos i)
          (some checksum) (some size) t in
      without_digest-HasDigest r.0 checksum _ c' (λ v e.
        (fetch_shard-digest endpoint (fills u.host u.port world) run outside.codec outside.hexdigest
          outside.real_index d.name (pos i) checksum size t v r.1 (ap (λ o. (o, r.1)) e)).0)

  by_ucxx-HasDigest :
      (u : UcxxEndpoint) (i size : ℕ) (checksum : Outcome NodeError Text) (c c' : ClientState W S)
      → HasDigest checksum (by_ucxx outside d u i size checksum c).0 c'
  unfolding by_ucxx HasDigest
  by_ucxx-HasDigest u i size (raise e) c c' = tt
  by_ucxx-HasDigest u i size (ok checksum) c c' = fetch_into-HasDigest u i size checksum c c'

  if-HasDigest :
      (raw : Bytes) (checksum : Text) (b : Bool) (c : ClientState W S)
      → text_eq (outside.hexdigest raw) checksum ≡ b
      → HasDigest (ok checksum) (if b then some raw else none) c
  unfolding HasDigest
  if-HasDigest raw checksum true c same =
      ap ok (sym (text_eq→eq (outside.hexdigest raw) checksum same))
  if-HasDigest raw checksum false c other = tt

  matching-HasDigest :
      (checksum : Outcome NodeError Text) (r : Option Bytes × ClientState W S) (o : Option Bytes)
      (c : ClientState W S)
      → matching outside d checksum r ≡ (ok o, c)
      → HasDigest checksum o c
  unfolding matching HasDigest
  matching-HasDigest checksum (none, s) o c h = ensures_end (HasDigest checksum) none o s c tt h
  matching-HasDigest (raise e) (some raw, s) o c h = absurd (cc)
  matching-HasDigest (ok checksum) (some raw, s) o c h =
      ensures_end (HasDigest (ok checksum))
        (if text_eq (outside.hexdigest raw) checksum then some raw else none) o s c
        (if-HasDigest raw checksum (text_eq (outside.hexdigest raw) checksum) s refl) h

  by_http-HasDigest :
      (owner : Text) (i size : ℕ) (checksum : Outcome NodeError Text) (s : ClientState W S)
      (o : Option Bytes) (c : ClientState W S)
      → by_http outside d owner i size checksum s ≡ (ok o, c)
      → HasDigest checksum o c
  unfolding by_http HasDigest
  by_http-HasDigest owner i size checksum s o c = elim (Bool-cases (is_ucxx d.transport)) [
    | inl only ↦ rw only (ensures_end (HasDigest checksum) none o s c tt)
    | inr other ↦
        rw other (matching-HasDigest checksum (download_into_from outside owner i size s) o c)
  ]

  or_http-HasDigest :
      (owner : Text) (i size : ℕ) (checksum : Outcome NodeError Text)
      (r : Option Bytes × ClientState W S)
      → HasDigest checksum r.0 r.1
      → (o : Option Bytes) (c : ClientState W S)
      → or_http outside d owner i size checksum r ≡ (ok o, c)
      → HasDigest checksum o c
  unfolding or_http HasDigest
  or_http-HasDigest owner i size checksum (some raw, s) good o c =
      ensures_end (HasDigest checksum) (some raw) o s c good
  or_http-HasDigest owner i size checksum (none, s) good o c =
      by_http-HasDigest owner i size checksum s o c

  try_owner-HasDigest :
      (i size : ℕ) (checksum : Outcome NodeError Text) (owner : Text) (s : ClientState W S)
      (o : Option Bytes) (c : ClientState W S)
      → try_owner outside d i size checksum owner s ≡ (ok o, c)
      → HasDigest checksum o c
  unfolding try_owner HasDigest
  try_owner-HasDigest i size checksum owner s o c =
      let found = discover_for outside d owner s in
      elim (Option-cases (usable (codes "get_shard") found.0)) [
        | inl without ↦
            rw (try_owner, without) (by_http-HasDigest owner i size checksum found.1 o c)
        | inr (u, with_ucxx) ↦
            rw (try_owner, with_ucxx)
              (or_http-HasDigest owner i size checksum (by_ucxx outside d u i size checksum found.1)
                (by_ucxx-HasDigest u i size checksum found.1
                  (by_ucxx outside d u i size checksum found.1).1)
                o c)
      ]

  -- What is behind a trial that ended with nothing or with the bytes of the shard.
  or_else-holds :
      {A : Type 0} (P : A → ClientState W S → Type 0) (checksum : Outcome NodeError Text)
      (done : Bytes → A) (tried : Option Bytes) (rest : Effect (ClientState W S) NodeError A)
      (s : ClientState W S)
      → HasDigest checksum tried s
      → ((raw : Bytes) → checksum ≡ ok (outside.hexdigest raw) → P (done raw) s)
      → ((a : A) (c : ClientState W S) → rest s ≡ (ok a, c) → P a c)
      → (a : A) (c : ClientState W S) → or_else outside d done tried rest s ≡ (ok a, c)
      → P a c
  unfolding or_else HasDigest
  or_else-holds P checksum done (some raw) rest s good here later a c =
      ensures_end P (done raw) a s c (here raw good)
  or_else-holds P checksum done none rest s good here later a c = later a c

  try_owners-HasDigest :
      (i size : ℕ) (checksum : Outcome NodeError Text) (owners : List Text) (s : ClientState W S)
      (o : Option Bytes) (c : ClientState W S)
      → try_owners outside d i size checksum owners s ≡ (ok o, c)
      → HasDigest checksum o c
  unfolding try_owners HasDigest
  try_owners-HasDigest i size checksum [] s = λ o c. ensures_end (HasDigest checksum) none o s c tt
  try_owners-HasDigest i size checksum (owner ∷ owners) s =
      ensures-continue (HasDigest checksum) (try_owner outside d i size checksum owner s) _
        λ tried s1 got.
          or_else-holds (HasDigest checksum) checksum some tried
            (try_owners outside d i size checksum owners) s1
            (try_owner-HasDigest i size checksum owner s tried s1 got) (λ raw good. good)
            (try_owners-HasDigest i size checksum owners s1)

  -- What was received is the shard at its index, with its checksum.
  abbrev pub IsShard : ℕ → Outcome NodeError Text → ℕ × Bytes → ClientState W S → Type 0
  IsShard i checksum r c = (r.0 ≡ i) × (checksum ≡ ok (outside.hexdigest r.1))

  pub receive_rounds-IsShard :
      (n i size : ℕ) (checksum : Outcome NodeError Text) (owners : List Text) (s : ClientState W S)
      (r : ℕ × Bytes) (c : ClientState W S)
      → receive_rounds outside d n i size checksum owners s ≡ (ok r, c)
      → IsShard i checksum r c
  unfolding receive_rounds
  receive_rounds-IsShard zero i size checksum owners s = λ r c h. absurd (cc)
  receive_rounds-IsShard (suc n) i size checksum owners s =
      ensures-continue (IsShard i checksum) (try_owners outside d i size checksum owners s) _
        λ tried s1 got.
          or_else-holds (IsShard i checksum) checksum (λ raw. (i, raw)) tried
            (receive_rounds outside d n i size checksum owners) s1
            (try_owners-HasDigest i size checksum owners s tried s1 got) (λ raw good. (refl, good))
            (receive_rounds-IsShard n i size checksum owners s1)

  AllVerified-AllExpected :
      (u : UcxxEndpoint) (w : W) (targets : Targets) (expected : List (ℕ × Text))
      (received : List (ℕ × Bytes))
      → AllVerified
          (outside.network u.host u.port w)
          (fills u.host u.port w)
          outside.hexdigest
          targets
          expected
          received
      → AllExpected outside.hexdigest expected received
  AllVerified-AllExpected u w targets expected [] h = tt
  AllVerified-AllExpected u w targets expected ((i, raw) ∷ received) h =
      (h.1, AllVerified-AllExpected u w targets expected received h.2)

  returned-some :
      {A : Type 0} (r : Outcome TransportError A) (a : A) → returned r ≡ some a → r ≡ ok a
  unfolding returned
  returned-some (ok b) a h = cc
  returned-some (raise e) a h = absurd (cc)

  -- A batch that returns has the checksums that are expected, and the indices of its targets.
  pub fetch_batch-covers :
      (u : UcxxEndpoint) (lane : ℕ) (targets : Targets) (expected : List (ℕ × Text))
      (c : ClientState W S) (r : BatchResult)
      → (fetch_batch outside d u lane targets expected c).0 ≡ some r
      → AllExpected outside.hexdigest expected r.completed
        × ((i : ℕ) → contains i (keys r.completed ++ r.unavailable) ≡ contains i (keys targets))
  unfolding fetch_batch on_transport
  fetch_batch-covers u lane targets expected c r h =
      let (run, world) = outside.run c.world in
      let endpoint = outside.network u.host u.port world in
      let t = c.transports u.host u.port (lane % d.lanes) in
      let result =
        fetch_shards_into run endpoint outside.codec outside.hexdigest outside.real_index d.name
          targets expected t in
      let parts =
        fetch_shards_into-IsPartition endpoint (fills u.host u.port world) run outside.codec
          outside.hexdigest outside.real_index d.name targets expected t r result.1
          (ap (λ o. (o, result.1)) (returned-some result.0 r h)) in
      (
        AllVerified-AllExpected u world targets expected r.completed parts.verified,
        λ i. same_tests _ _ (parts.same_indices i),
      )
