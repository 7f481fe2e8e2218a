-- ===== src/Nodes/Download.antt =====
-- litecast/client_node.py: what a download is given.
use litecast.Common.{ℕ, List, [], ◌∷◌, none, some, Text, ℤ, get_elem?, Outcome, ok, raise, ◌>>=◌}
use litecast.Protocol.Json.{Fields}
use litecast.Streaming.Members.{PlacementError}
use litecast.Transport.Shards.{Targets}

pub data TransportMode : Type 0 where
  auto : TransportMode
  ucxx : TransportMode
  http : TransportMode

pub data NodeError : Type 0 where
  placement_error : PlacementError → NodeError
  index_error : NodeError
  unavailable : NodeError

-- What the download uses of its manifest and of its client: `rounds` is how often `receive` tries
-- the owners until its deadline.
pub record Download : Type 0 where
  pub name : Text
  pub shard_checksums : List Text
  pub members : List Text
  pub replication_factor : ℤ
  pub profiles : Fields
  pub locality : Text
  pub transport : TransportMode
  pub rounds : ℕ
  pub batch_size : ℕ
  pub lanes : ℕ

unfoldable pub checksum_at : Download → ℕ → Outcome NodeError Text
checksum_at d i = elim (get_elem? d.shard_checksums i) [ none ↦ raise index_error | some c ↦ ok c ]

-- `checksums` of a batch.
unfoldable pub expected_of : Download → Targets → Outcome NodeError (List (ℕ × Text))
unfolding checksum_at
expected_of d [] = ok []
expected_of d ((i, size) ∷ targets) = do
  checksum ← checksum_at d i
  rest ← expected_of d targets
  ok ((i, checksum) ∷ rest)
