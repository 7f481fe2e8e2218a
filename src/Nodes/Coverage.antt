-- ===== src/Nodes/Coverage.antt =====
-- litecast/client_node.py: the indices whose buffers the batches of a download fill.
use litecast.Common.{
  ◌+◌, length, ℕ, true, List, [], ◌∷◌, ◌++◌, Option, none, some, Text, Bytes, get_elem?, codes,
  Outcome, ok, ensures-bind, ensures_ok, Option-cases, inl, inr, ◌≡◌, refl, sym, ap, ◌∙◌, arith,
}
use native.Mathlib.Decide.{ℕ_discrete}
use litecast.Common.Dict
use mathlib.Core.Logic.{if_pos, if_neg}
use litecast.Common.Effects.{ensures-continue, ensures-lift, ensures_end}
use litecast.Protocol.Indices.{contains}
use litecast.Transport.Batch.{BatchResult}
use litecast.Transport.Shards.{Targets, keys}
use litecast.Transport.Partition.{contains-append}
use litecast.Nodes.Download.{Download, NodeError, checksum_at, expected_of}
use litecast.Nodes.Client.{
  usable, discover_for, receive, receive_all, left, after_batch, receive_batch, receive_batches,
}
use litecast.Nodes.Peers.{Outside, ClientState, fetch_batch}
use litecast.Nodes.Authentic.{AllExpected, fetch_batch-covers, receive_rounds-IsShard}

get-contains :
    (i : ℕ) (targets : Targets)
    → contains i (keys targets) ≡ true
    → (size : ℕ) × (Dict.get ℕ_discrete i targets ≡ some size)
unfolding contains Dict.get
get-contains i [] h = absurd (cc)
get-contains i ((j, size) ∷ targets) h = elim (ℕ_discrete j i) [
  | yes same ↦ (size, if_pos (ℕ_discrete j i) same (some size) (Dict.get ℕ_discrete i targets))
  | no other ↦
      let (found, at_i) = get-contains i targets (ground arith) in
      (found, if_neg (ℕ_discrete j i) other (some size) (Dict.get ℕ_discrete i targets) ∙ at_i)
]

-- Every index of the list is one of the targets.
abbrev IsAmong : Targets → List ℕ → Type 0
IsAmong targets [] = Unit
IsAmong targets (i ∷ is) = (contains i (keys targets) ≡ true) × IsAmong targets is

contains-IsAmong :
    (targets : Targets) (is : List ℕ)
    → ((i : ℕ) → contains i is ≡ true → contains i (keys targets) ≡ true)
    → IsAmong targets is
unfolding contains
contains-IsAmong targets [] h = tt
contains-IsAmong targets (i ∷ is) h =
    (h i (ground arith), contains-IsAmong targets is (λ j c. h j (ground arith)))

keys-append : (a b : List (ℕ × Bytes)) → keys (a ++ b) ≡ keys a ++ keys b
keys-append [] b = refl
keys-append ((i, raw) ∷ a) b = ap (◌∷◌ i) (keys-append a b)

module _ {W S : Type 0} (outside : Outside W S) (d : Download)
    (fills : (host : Text) (port : ℕ) (w : W) (n : ℕ) (s : S) (raw : Bytes) (s' : S)
      → (outside.network host port w).recv n s ≡ some (raw, s')
      → length raw ≡ n)
    (owners : ℕ → Outcome NodeError (List Text)) where
  left-keys :
      (targets : Targets) (is : List ℕ)
      → IsAmong targets is
      → keys (left outside d owners targets is) ≡ is
  unfolding left
  left-keys targets [] h = refl
  left-keys targets (i ∷ is) h =
      let (size, found) = get-contains i targets h.0 in
      rw (left, found) (ap (◌∷◌ i) (left-keys targets is h.1))

  -- Each buffer has the checksum of its shard in the manifest.
  abbrev pub AllAuthentic : List (ℕ × Bytes) → Type 0
  AllAuthentic [] = Unit
  AllAuthentic ((i, raw) ∷ received) =
      (get_elem? d.shard_checksums i ≡ some (outside.hexdigest raw)) × AllAuthentic received

  AllAuthentic-append :
      (a b : List (ℕ × Bytes)) → AllAuthentic a → AllAuthentic b → AllAuthentic (a ++ b)
  AllAuthentic-append [] b h k = k
  AllAuthentic-append ((i, raw) ∷ a) b h k = (h.0, AllAuthentic-append a b h.1 k)

  checksum_at-ok :
      (i : ℕ) (c : Text) → checksum_at d i ≡ ok c → get_elem? d.shard_checksums i ≡ some c
  unfolding checksum_at
  checksum_at-ok i c h = elim (Option-cases (get_elem? d.shard_checksums i)) [
    | inl absent ↦ absurd (cc)
    | inr (found, at_i) ↦ cc
  ]

  -- What fills the buffers of some indices.
  pub record Fills (indices : List ℕ) (received : List (ℕ × Bytes)) : Type 0 where
    pub authentic : AllAuthentic received
    pub same : (i : ℕ) → contains i (keys received) ≡ contains i indices

  receive-authentic :
      (target : ℕ × ℕ) (s : ClientState W S) (r : ℕ × Bytes) (s' : ClientState W S)
      → receive outside d owners target s ≡ (ok r, s')
      → (r.0 ≡ target.0) × (get_elem? d.shard_checksums r.0 ≡ some (outside.hexdigest r.1))
  unfolding receive
  receive-authentic (i, size) s =
      let P : ℕ × Bytes → ClientState W S → Type 0 =
        λ r _. (r.0 ≡ i) × (get_elem? d.shard_checksums r.0 ≡ some (outside.hexdigest r.1)) in
      ensures-lift P (owners i) s _ λ holders _ r s' h.
        let (same, digest) =
          receive_rounds-IsShard outside d fills d.rounds i size (checksum_at d i) holders s r s'
            h in
        (same, rw same (checksum_at-ok i (outside.hexdigest r.1) digest))

  receive_all-Fills :
      (targets : Targets) (s : ClientState W S) (received : List (ℕ × Bytes)) (s' : ClientState W S)
      → receive_all outside d owners targets s ≡ (ok received, s')
      → Fills (keys targets) received
  unfolding receive_all contains
  receive_all-Fills [] s =
      let P : List (ℕ × Bytes) → ClientState W S → Type 0 = λ r _. Fills [] r in
      λ r s'. ensures_end P [] r s s' (record { authentic = tt; same = λ i. refl })
  receive_all-Fills (target ∷ targets) s =
      let P : List (ℕ × Bytes) → ClientState W S → Type 0 =
        λ r _. Fills (target.0 ∷ keys targets) r in
      ensures-continue P (receive outside d owners target s) _ λ first s1 got.
        ensures-continue P (receive_all outside d owners targets s1) _ λ rest s2 later b s3.
          let (same, good) = receive-authentic target s first s1 got in
          let others = receive_all-Fills targets s1 rest s2 later in
          ensures_end P (first ∷ rest) b s2 s3 (record {
            authentic = (good, others.authentic);
            same = λ i. rw (same, others.same i) refl;
          })

  Fills-append :
      (is js : List ℕ) (a b : List (ℕ × Bytes))
      → Fills is a
      → Fills js b
      → Fills (is ++ js) (a ++ b)
  Fills-append is js a b h k = record {
    authentic = AllAuthentic-append a b h.authentic k.authentic;
    same = λ i.
        rw
          (
            keys-append a b,
            contains-append i (keys a) (keys b),
            contains-append i is js,
            h.same i,
            k.same i,
          )
          refl;
  }

  -- The expected checksums are those of the manifest.
  AreListed : List (ℕ × Text) → Type 0
  AreListed [] = Unit
  AreListed ((i, c) ∷ expected) = (get_elem? d.shard_checksums i ≡ some c) × AreListed expected

  expected_of-AreListed :
      (targets : Targets) (expected : List (ℕ × Text))
      → expected_of d targets ≡ ok expected
      → AreListed expected
  unfolding expected_of AreListed
  expected_of-AreListed [] = λ b. ensures_ok AreListed [] b tt
  expected_of-AreListed ((i, size) ∷ targets) =
      ensures-bind AreListed (checksum_at d i) _ λ c known.
        ensures-bind AreListed (expected_of d targets) _ λ rest later b.
          ensures_ok AreListed ((i, c) ∷ rest) b
            (checksum_at-ok i c known, expected_of-AreListed targets rest later)

  AreListed-get :
      (expected : List (ℕ × Text)) (i : ℕ) (c : Text)
      → AreListed expected
      → Dict.get ℕ_discrete i expected ≡ some c
      → get_elem? d.shard_checksums i ≡ some c
  unfolding AreListed Dict.get
  AreListed-get [] i c h found = absurd (cc)
  AreListed-get ((j, c') ∷ expected) i c h found = elim (ℕ_discrete j i) [
    | yes same ↦
        rw (← same) h.0
        ∙ (sym (if_pos (ℕ_discrete j i) same (some c') (Dict.get ℕ_discrete i expected)) ∙ found)
    | no other ↦
        AreListed-get expected i c h.1
          (sym (if_neg (ℕ_discrete j i) other (some c') (Dict.get ℕ_discrete i expected)) ∙ found)
  ]

  AllExpected-AllAuthentic :
      (expected : List (ℕ × Text)) (received : List (ℕ × Bytes))
      → AreListed expected
      → AllExpected outside.hexdigest expected received
      → AllAuthentic received
  AllExpected-AllAuthentic expected [] h k = tt
  AllExpected-AllAuthentic expected ((i, raw) ∷ received) h k = (
    AreListed-get expected i (outside.hexdigest raw) h k.0,
    AllExpected-AllAuthentic expected received h k.1,
  )

  tried-Fills :
      (targets : Targets) (expected : List (ℕ × Text))
      (tried : Option BatchResult × ClientState W S)
      → ((r : BatchResult)
          → tried.0 ≡ some r
          → AllExpected outside.hexdigest expected r.completed
            × ((i : ℕ)
                → contains i (keys r.completed ++ r.unavailable) ≡ contains i (keys targets)))
      → (received : List (ℕ × Bytes)) (s' : ClientState W S) → expected_of d targets ≡ ok expected
      → after_batch outside d owners targets tried ≡ (ok received, s')
      → Fills (keys targets) received
  unfolding after_batch
  tried-Fills targets expected (none, s1) covers received s' known h =
      receive_all-Fills targets s1 received s' h
  tried-Fills targets expected (some result, s1) covers received s' known h =
      let P : List (ℕ × Bytes) → ClientState W S → Type 0 = λ r _. Fills (keys targets) r in
      let (as_expected, covered) = covers result refl in
      let among : IsAmong targets result.unavailable =
        contains-IsAmong targets result.unavailable (λ i c.
          ground
            (arith, covered i, contains-append i (keys result.completed) result.unavailable)) in
      let rest_targets = left outside d owners targets result.unavailable in
      ensures-continue P (receive_all outside d owners rest_targets s1) _
        (λ rest s2 got b s3.
          let others = receive_all-Fills rest_targets s1 rest s2 got in
          let first : Fills (keys result.completed) result.completed = record {
            authentic =
                AllExpected-AllAuthentic expected result.completed
                  (expected_of-AreListed targets expected known) as_expected;
            same = λ i. refl;
          } in
          let both =
            Fills-append (keys result.completed) (keys rest_targets) result.completed rest first
              others in
          ensures_end P (result.completed ++ rest) b s2 s3 (record {
            authentic = both.authentic;
            same = λ i. both.same i ∙ rw (left-keys targets result.unavailable among) (covered i);
          }))
        received s' h

  -- The shards of a batch, and what is received in the place of those that it left.
  receive_batch-Fills :
      (lane : ℕ) (batch : Text × Targets) (s : ClientState W S) (received : List (ℕ × Bytes))
      (s' : ClientState W S)
      → receive_batch outside d owners lane batch s ≡ (ok received, s')
      → Fills (keys batch.1) received
  unfolding receive_batch
  receive_batch-Fills lane (owner, targets) s received s' =
      let P : List (ℕ × Bytes) → ClientState W S → Type 0 = λ r _. Fills (keys targets) r in
      let found = discover_for outside d owner s in
      elim (Option-cases (usable (codes "get_shards") found.0)) [
        | inl without ↦
            rw (receive_batch, without) (λ h. receive_all-Fills targets found.1 received s' h)
        | inr (u, with_ucxx) ↦
            rw (receive_batch, with_ucxx)
              (λ h.
                ensures-lift P (expected_of d targets) found.1 _
                  (λ expected known b s3 k.
                    tried-Fills targets expected
                      (fetch_batch outside d u lane targets expected found.1)
                      (λ r. fetch_batch-covers outside d fills u lane targets expected found.1 r) b
                      s3 known k)
                  received s' h)
      ]

  -- The indices of batches, in their order.
  abbrev pub batch_indices : List (Text × Targets) → List ℕ
  batch_indices [] = []
  batch_indices (batch ∷ batches) = keys batch.1 ++ batch_indices batches

  -- A download that returns: the buffers of the batches are filled, and no others, each with the
  -- bytes that have the checksum of its shard.
  pub receive_batches-Fills :
      (lane : ℕ) (batches : List (Text × Targets)) (s : ClientState W S)
      (received : List (ℕ × Bytes)) (s' : ClientState W S)
      → receive_batches outside d owners lane batches s ≡ (ok received, s')
      → Fills (batch_indices batches) received
  unfolding receive_batches
  receive_batches-Fills lane [] s =
      let P : List (ℕ × Bytes) → ClientState W S → Type 0 = λ r _. Fills [] r in
      λ r s'. ensures_end P [] r s s' (record { authentic = tt; same = λ i. refl })
  receive_batches-Fills lane (batch ∷ batches) s =
      let P : List (ℕ × Bytes) → ClientState W S → Type 0 =
        λ r _. Fills (keys batch.1 ++ batch_indices batches) r in
      ensures-continue P (receive_batch outside d owners lane batch s) _ λ first s1 got.
        ensures-continue P (receive_batches outside d owners (lane + 1) batches s1) _
          λ rest s2 later b s3. ensures_end P (first ++ rest) b s2 s3 (
            Fills-append (keys batch.1) (batch_indices batches) first rest
              (receive_batch-Fills lane batch s first s1 got)
              (receive_batches-Fills (lane + 1) batches s1 rest s2 later))
