-- ===== src/Nodes/Selected.antt =====
-- litecast/client_node.py: `_download_streaming` of selected shards, by a client that was given its
-- `ucxx_executor`: none is made for the download and closed after it.
use litecast.Common.{
  inr, inl, Outcome-cases, length, ℕ, List, [], ◌∷◌, ◌++◌, ◌<◌, Option, none, some, Text, Bytes,
  Outcome, ok, raise, if◌then◌else◌, text_eq, ◌≡◌, refl, sym, ap, ◌∙◌, arith,
}
use litecast.Common.Effects.{Effect, ◌>>=◌, lift, ensures-lift}
use litecast.Protocol.Indices.{contains}
use litecast.Streaming.Merkle.{merkle_root}
use litecast.Transport.Shards.{Targets, keys}
use litecast.Nodes.Download.{NodeError, placement_error, Download}
use litecast.Nodes.Client.{is_ucxx, receive_batches}
use litecast.Nodes.Peers.{Outside, ClientState}
use litecast.Nodes.Coverage.{Fills, batch_indices, receive_batches-Fills}
use litecast.Nodes.Batches.{group_by_owner, batches_of}
use litecast.Nodes.Grouping.{keys-append, flatten, IsBatching-batches_of}

module _ {W S : Type 0} (outside : Outside W S) (d : Download)
    (owners : ℕ → Outcome NodeError (List Text)) where
  -- The batches, and what they leave in the buffers.
  unfoldable pub download_selected : Targets → Effect (ClientState W S) NodeError (List (ℕ × Bytes))
  download_selected selected = do
    groups ← lift (group_by_owner owners selected [])
    receive_batches outside d owners 0 (batches_of d.batch_size groups)

  -- The end of `_download_streaming`: an exception of a batch is raised in the mode `ucxx` alone,
  -- and the root of the manifest has to be that of its checksums.
  unfoldable pub check_root :
      (Bytes → Bytes)
      → Option Text
      → List (ℕ × Bytes)
      → Outcome NodeError (Option (List (ℕ × Bytes)))
  unfolding merkle_root
  check_root digest none received = ok (some received)
  check_root digest (some root) received = elim (merkle_root digest d.shard_checksums) [
    | raise e ↦ raise (placement_error e)
    | ok computed ↦ if text_eq computed root then ok (some received) else ok none
  ]

  unfoldable pub finish :
      (Bytes → Bytes)
      → Option Text
      → Outcome NodeError (List (ℕ × Bytes)) × ClientState W S
      → Outcome NodeError (Option (List (ℕ × Bytes))) × ClientState W S
  unfolding is_ucxx check_root
  finish digest root (raise e, s) = (if is_ucxx d.transport then raise e else ok none, s)
  finish digest root (ok received, s) = (check_root digest root received, s)

  unfoldable pub download_streaming :
      (Bytes → Bytes)
      → Option Text
      → Targets
      → Effect (ClientState W S) NodeError (Option (List (ℕ × Bytes)))
  unfolding finish download_selected
  download_streaming digest root selected s = finish digest root (download_selected selected s)

  module _
      (fills : (host : Text) (port : ℕ) (w : W) (n : ℕ) (s : S) (raw : Bytes) (s' : S)
        → (outside.network host port w).recv n s ≡ some (raw, s')
        → length raw ≡ n) where
    batch_indices-flatten :
        (batches : List (Text × Targets))
        → batch_indices outside d fills owners batches ≡ keys (flatten batches)
    batch_indices-flatten [] = refl
    batch_indices-flatten (batch ∷ batches) =
        ap (λ (is : List ℕ). keys batch.1 ++ is) (batch_indices-flatten batches)
        ∙ sym (keys-append batch.1 (flatten batches))

    download_selected-Fills :
        (selected : Targets) (s : ClientState W S) (received : List (ℕ × Bytes))
        (s' : ClientState W S)
        → 0 < d.batch_size
        → download_selected selected s ≡ (ok received, s')
        → Fills outside d fills owners (keys selected) received
    unfolding download_selected
    download_selected-Fills selected s received s' positive =
        let P : List (ℕ × Bytes) → ClientState W S → Type 0 =
          λ r _. Fills outside d fills owners (keys selected) r in
        ensures-lift P (group_by_owner owners selected []) s _
          (λ groups grouped r s1 h.
            let batches = batches_of d.batch_size groups in
            let filled = receive_batches-Fills outside d fills owners 0 batches s r s1 h in
            let formed =
              IsBatching-batches_of owners selected d.batch_size groups positive grouped in
            record {
              authentic = filled.authentic;
              same = λ i.
                  filled.same i
                  ∙ (ap (λ (is : List ℕ). contains i is) (batch_indices-flatten batches)
                      ∙ formed.same i);
            })
          received s'

    check_root-some :
        (digest : Bytes → Bytes) (root : Option Text) (received r : List (ℕ × Bytes))
        → check_root digest root received ≡ ok (some r)
        → received ≡ r
    unfolding check_root
    check_root-some digest none received r h = cc
    check_root-some digest (some root) received r h =
        elim (Outcome-cases (merkle_root digest d.shard_checksums)) [
          | inl (e, failed) ↦ absurd (cc)
          | inr (computed, known) ↦ ground arith
        ]

    finish-some :
        (digest : Bytes → Bytes) (root : Option Text)
        (r : Outcome NodeError (List (ℕ × Bytes)) × ClientState W S) (received : List (ℕ × Bytes))
        (s' : ClientState W S)
        → finish digest root r ≡ (ok (some received), s')
        → r ≡ (ok received, s')
    unfolding finish
    finish-some digest root (raise e, s) received s' h = absurd (ground arith)
    finish-some digest root (ok got, s) received s' h =
        let same = check_root-some digest root got received (cc) in cc

    -- Where receiving fills a buffer and a batch may have an index at least, whatever the peers
    -- send, a download that returns the buffers of the selected shards has filled these, and no
    -- others, each with bytes that have the checksum of its shard.
    pub download_streaming-Fills :
        (digest : Bytes → Bytes) (root : Option Text) (selected : Targets) (s : ClientState W S)
        (received : List (ℕ × Bytes)) (s' : ClientState W S)
        → 0 < d.batch_size
        → download_streaming digest root selected s ≡ (ok (some received), s')
        → Fills outside d fills owners (keys selected) received
    unfolding download_streaming
    download_streaming-Fills digest root selected s received s' positive h =
        download_selected-Fills selected s received s' positive
          (finish-some digest root (download_selected selected s) received s' h)
