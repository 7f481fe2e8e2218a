-- ===== src/Nodes/Assignment.antt =====
-- litecast/middle_node.py: the role of a middle for a shard, by its place among the owners.
use litecast.Common.{
  ℕ, zero, suc, ◌+◌, ◌<◌, ◌≤◌, false, not, ◌&&◌, ◌==◌, List, [], ◌∷◌, Text, text_eq, Outcome, ok,
  ensures-bind, ensures_ok, Bool-cases, inl, inr, ◌≡◌, refl, ap, ◌∙◌, arith,
}
use mathlib.Core.Path.{subst}
use litecast.Protocol.Indices.{contains}
use litecast.Streaming.Members.{mem}
use litecast.Transport.Shards.{keys}
use litecast.Nodes.Download.{NodeError}
use litecast.Nodes.Middle.{Assignments, head_of, add_role, assign}

module _ (middle_id upstream : Text) (owners : ℕ → Outcome NodeError (List Text)) where
  -- The role of the middle for a shard is that of its place among the owners.
  pub record HasRole (k : ℕ) (a : Assignments) : Type 0 where
    pub owner : Text
    pub others : List Text
    pub owned : owners k ≡ ok (owner ∷ others)
    pub primary : contains k (keys a.primaries) ≡ text_eq owner middle_id
    pub replica :
        contains k (keys a.replicas) ≡ (not (text_eq owner middle_id) && mem middle_id others)

  IsBehind : ℕ → Assignments → Type 0
  IsBehind i a =
      (k : ℕ)
      → k < i
      → (contains k (keys a.primaries) ≡ false) × (contains k (keys a.replicas) ≡ false)

  add_role-IsBehind :
      (i : ℕ) (owner : Text) (others : List Text) (rest : Assignments)
      → IsBehind (i + 1) rest
      → IsBehind i (add_role middle_id upstream i owner others rest)
  unfolding add_role IsBehind contains
  add_role-IsBehind i owner others rest h k below =
      let apart = h k (omega arith) in
      elim (Bool-cases (text_eq owner middle_id)) [
        | inl mine ↦ rw mine (ground (arith, apart), apart.1)
        | inr not_first ↦ rw not_first (elim (Bool-cases (mem middle_id others)) [
          | inl held ↦ rw held (apart.0, ground (arith, apart))
          | inr unheld ↦ rw unheld apart
        ])
      ]

  head_of-ok :
      (holders : List Text) (r : Text × List Text) → head_of holders ≡ ok r → holders ≡ r.0 ∷ r.1
  unfolding head_of
  head_of-ok [] r h = absurd (cc)
  head_of-ok (owner ∷ others) r h =
      ensures_ok (λ (r : Text × List Text). owner ∷ others ≡ r.0 ∷ r.1) (owner, others) r refl h

  assign-IsBehind :
      (n i : ℕ) (a : Assignments) → assign middle_id upstream owners i n ≡ ok a → IsBehind i a
  unfolding assign IsBehind contains
  assign-IsBehind zero i = λ a.
      ensures_ok (IsBehind i) (record { primaries = []; replicas = [] }) a (λ k below. (refl, refl))
  assign-IsBehind (suc n) i = ensures-bind (IsBehind i) (owners i) _ λ holders _.
      ensures-bind (IsBehind i) (head_of holders) _ λ r _.
        ensures-bind (IsBehind i) (assign middle_id upstream owners (i + 1) n) _ λ rest later b.
          ensures_ok (IsBehind i) (add_role middle_id upstream i r.0 r.1 rest) b
            (add_role-IsBehind i r.0 r.1 rest (assign-IsBehind n (i + 1) rest later))

  here-HasRole :
      (i : ℕ) (owner : Text) (others : List Text) (rest : Assignments)
      → owners i ≡ ok (owner ∷ others)
      → IsBehind (i + 1) rest
      → HasRole i (add_role middle_id upstream i owner others rest)
  unfolding add_role IsBehind contains
  here-HasRole i owner others rest held behind =
      let apart = behind i (omega arith) in
      record {
        owner = owner;
        others = others;
        owned = held;
        primary = elim (Bool-cases (text_eq owner middle_id)) [
          | inl mine ↦ rw mine (ground arith)
          | inr not_first ↦ rw not_first (elim (Bool-cases (mem middle_id others)) [
            | inl kept ↦ rw kept apart.0
            | inr unheld ↦ rw unheld apart.0
          ])
        ];
        replica = elim (Bool-cases (text_eq owner middle_id)) [
          | inl mine ↦ rw mine apart.1
          | inr not_first ↦ rw not_first (elim (Bool-cases (mem middle_id others)) [
            | inl kept ↦ rw kept (ground arith)
            | inr unheld ↦ rw unheld apart.1
          ])
        ];
      }

  later-HasRole :
      (i k : ℕ) (owner : Text) (others : List Text) (rest : Assignments)
      → i < k
      → HasRole k rest
      → HasRole k (add_role middle_id upstream i owner others rest)
  unfolding add_role contains
  later-HasRole i k owner others rest after role = record {
    owner = role.owner;
    others = role.others;
    owned = role.owned;
    primary = elim (Bool-cases (text_eq owner middle_id)) [
      | inl mine ↦ rw mine (ground (arith, role.primary))
      | inr not_first ↦ rw not_first (elim (Bool-cases (mem middle_id others)) [
        | inl kept ↦ rw kept role.primary
        | inr unheld ↦ rw unheld role.primary
      ])
    ];
    replica = elim (Bool-cases (text_eq owner middle_id)) [
      | inl mine ↦ rw mine role.replica
      | inr not_first ↦ rw not_first (elim (Bool-cases (mem middle_id others)) [
        | inl kept ↦ rw kept (ground (arith, role.replica))
        | inr unheld ↦ rw unheld role.replica
      ])
    ];
  }

  role :
      (n i k : ℕ) (owner : Text) (others : List Text) (rest : Assignments)
      → i ≤ k
      → k < i + suc n
      → owners i ≡ ok (owner ∷ others)
      → IsBehind (i + 1) rest
      → (i + 1 ≤ k → k < (i + 1) + n → HasRole k rest)
      → HasRole k (add_role middle_id upstream i owner others rest)
  role n i k owner others rest from below held behind later = elim (Bool-cases (i == k)) [
    | inl here ↦
        let same : i ≡ k = ground arith in
        subst (λ (k : ℕ). HasRole k (add_role middle_id upstream i owner others rest)) same
          (here-HasRole i owner others rest held behind)
    | inr apart ↦
        let past : i < k = ground arith in
        later-HasRole i k owner others rest past (later (omega arith) (omega arith))
  ]

  -- Where the loop over n shards from i on returns, each of these shards has owners, it is among
  -- the primaries of the middle just where the middle is its first owner, and among the replicas
  -- just where it is another owner.
  pub assign-HasRole :
      (n i : ℕ) (a : Assignments)
      → assign middle_id upstream owners i n ≡ ok a
      → (k : ℕ) → i ≤ k
      → k < i + n
      → HasRole k a
  unfolding assign
  assign-HasRole zero i a h k from below = absurd (omega arith)
  assign-HasRole (suc n) i a h k from below =
      let P : Assignments → Type 0 = HasRole k in
      ensures-bind P (owners i) _
        (λ holders held. ensures-bind P (head_of holders) _ λ r split.
          ensures-bind P (assign middle_id upstream owners (i + 1) n) _ λ rest later b.
            ensures_ok P (add_role middle_id upstream i r.0 r.1 rest) b (
              role n i k r.0 r.1 rest from below (held ∙ ap ok (head_of-ok holders r split))
                (assign-IsBehind n (i + 1) rest later) (assign-HasRole n (i + 1) rest later k)))
        a h
