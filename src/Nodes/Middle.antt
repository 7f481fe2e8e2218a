-- ===== src/Nodes/Middle.antt =====
-- litecast/middle_node.py: which shards of a version a middle fetches, and from whom.
use litecast.Common.{
  ℕ, zero, suc, ◌+◌, List, [], ◌∷◌, Text, text_eq, Outcome, ok, raise, ◌>>=◌, if◌then◌else◌,
}
use litecast.Streaming.Members.{mem}
use litecast.Nodes.Download.{NodeError, index_error}

-- The indices with the source of each.
pub record Assignments : Type 0 where
  pub primaries : List (ℕ × Text)
  pub replicas : List (ℕ × Text)

-- `owners[0]` and `owners[1:]`
unfoldable pub head_of : List Text → Outcome NodeError (Text × List Text)
head_of [] = raise index_error
head_of (owner ∷ others) = ok (owner, others)

unfoldable pub add_role : Text → Text → ℕ → Text → List Text → Assignments → Assignments
unfolding mem
add_role middle_id upstream i owner others rest =
    if text_eq owner middle_id
    then record rest { primaries = (i, upstream) ∷ rest.primaries }
    else if mem middle_id others
    then record rest { replicas = (i, owner) ∷ rest.replicas }
    else rest

-- The loop over `n` shards from the shard `i` on.
unfoldable pub assign :
    Text → Text → (ℕ → Outcome NodeError (List Text)) → ℕ → ℕ → Outcome NodeError Assignments
unfolding head_of add_role
assign middle_id upstream owners i zero = ok (record { primaries = []; replicas = [] })
assign middle_id upstream owners i (suc n) = do
  holders ← owners i
  (owner, others) ← head_of holders
  rest ← assign middle_id upstream owners (i + 1) n
  ok (add_role middle_id upstream i owner others rest)
