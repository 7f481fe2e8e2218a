-- ===== src/Nodes/MiddleTests.antt =====
-- The shards of a middle among two others, and the theorem about them.
use litecast.Common.{
  ℕ, zero, suc, ◌≡◌, refl, arith, List, [], ◌∷◌, Text, codes, text_eq, ok, Outcome,
}
use litecast.Protocol.Indices.{contains}
use litecast.Streaming.Members.{mem}
use litecast.Nodes.Download.{NodeError}
use litecast.Nodes.Middle.{Assignments, head_of, add_role, assign}
use litecast.Nodes.Assignment.{HasRole, assign-HasRole}

program : Unit {0}
unfolding text_eq mem contains head_of add_role assign
program = tt

abbrev placed : ℕ → Outcome NodeError (List Text)
placed zero = ok (codes "a" ∷ codes "b" ∷ [])
placed (suc zero) = ok (codes "b" ∷ codes "a" ∷ [])
placed (suc (suc i)) = ok (codes "b" ∷ codes "c" ∷ [])

abbrev assigned : Assignments
assigned = record { primaries = (0, codes "o") ∷ []; replicas = (1, codes "b") ∷ [] }

run_assign : assign (codes "a") (codes "o") placed 0 3 ≡ ok assigned
unfolding program
run_assign = refl

assign-HasRole_example : HasRole (codes "a") (codes "o") placed 1 assigned
assign-HasRole_example =
    assign-HasRole (codes "a") (codes "o") placed 3 0 assigned run_assign 1 (omega arith)
      (omega arith)
