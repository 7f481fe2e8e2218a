-- ===== src/Nodes/Batches.antt =====
-- litecast/client_node.py: how `_download_streaming` forms its batches.
use litecast.Common.{
  ℕ, zero, suc, List, [], ◌∷◌, ◌++◌, Text, length, take, drop, text_dec, Outcome, ok, raise, ◌>>=◌,
}
use mathlib.Core.Logic.{ite}
use litecast.Transport.Shards.{Targets}
use litecast.Nodes.Download.{NodeError, index_error}

abbrev pub Groups : Type 0
Groups = List (Text × Targets)

-- `groups.setdefault(owner, []).append(index)`
unfoldable pub add_to : Text → ℕ × ℕ → Groups → Groups
add_to owner target [] = (owner, target ∷ []) ∷ []
add_to owner target ((o, targets) ∷ groups) =
    ite (text_dec o owner) ((o, targets ++ target ∷ []) ∷ groups)
      ((o, targets) ∷ add_to owner target groups)

-- `owners[0]`
unfoldable pub first_of : List Text → Outcome NodeError Text
first_of [] = raise index_error
first_of (owner ∷ owners) = ok owner

-- The groups of the indices, behind those of the indices before.
unfoldable pub group_by_owner :
    (ℕ → Outcome NodeError (List Text)) → Targets → Groups → Outcome NodeError Groups
unfolding add_to first_of
group_by_owner owners [] groups = ok groups
group_by_owner owners ((i, size) ∷ targets) groups = do
  holders ← owners i
  owner ← first_of holders
  group_by_owner owners targets (add_to owner (i, size) groups)

-- The slices of a list by a step, of which the list has at most as many as elements.
unfoldable pub chunks : ℕ → ℕ → Targets → List Targets
chunks zero size targets = []
chunks (suc fuel) size [] = []
chunks (suc fuel) size (target ∷ targets) =
    take size (target ∷ targets) ∷ chunks fuel size (drop size (target ∷ targets))

unfoldable pub with_owner : Text → List Targets → List (Text × Targets)
with_owner owner [] = []
with_owner owner (batch ∷ batches) = (owner, batch) ∷ with_owner owner batches

unfoldable pub batches_of : ℕ → Groups → List (Text × Targets)
unfolding chunks with_owner
batches_of size [] = []
batches_of size ((owner, targets) ∷ groups) =
    with_owner owner (chunks (length targets) size targets) ++ batches_of size groups
