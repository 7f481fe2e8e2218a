-- ===== src/Nodes/Grouping.antt =====
-- litecast/client_node.py: the indices of the batches that a download forms.
use litecast.Common.{
  ◌<◌, ℕ, zero, suc, ◌==◌, ◌||◌, ◌≤◌, List, [], ◌∷◌, ◌++◌, Text, length, take, drop, text_dec,
  length-drop, length-take, take-append-drop, Outcome, ok, ensures-bind, ensures_ok, ◌≡◌, refl, sym,
  ap, ◌∙◌, arith,
}
use mathlib.Core.Logic.{if_pos, if_neg}
use mathlib.Core.List.{append_assoc}
use litecast.Protocol.Indices.{contains}
use litecast.Transport.Shards.{Targets, keys}
use litecast.Transport.Partition.{contains-append}
use litecast.Nodes.Download.{NodeError}
use litecast.Nodes.Batches.{
  Groups, add_to, first_of, group_by_owner, chunks, with_owner, batches_of,
}

-- The targets of groups or batches, in their order.
abbrev pub flatten : List (Text × Targets) → Targets
flatten [] = []
flatten (group ∷ groups) = group.1 ++ flatten groups

pub keys-append : (a b : Targets) → keys (a ++ b) ≡ keys a ++ keys b
keys-append [] b = refl
keys-append (t ∷ a) b = ap (◌∷◌ t.0) (keys-append a b)

contains-keys :
    (k : ℕ) (a b : Targets)
    → contains k (keys (a ++ b)) ≡ (contains k (keys a) || contains k (keys b))
contains-keys k a b = rw (keys-append a b) (contains-append k (keys a) (keys b))

-- Adding a target to its group adds its index, and takes none away.
add_to-contains :
    (owner : Text) (target : ℕ × ℕ) (groups : Groups) (k : ℕ)
    → contains k (keys (flatten (add_to owner target groups)))
      ≡ ((k == target.0) || contains k (keys (flatten groups)))
unfolding add_to contains
add_to-contains owner target [] k = refl
add_to-contains owner target ((o, targets) ∷ groups) k = elim (text_dec o owner) [
  | yes same ↦ ground (
    arith,
    if_pos (text_dec o owner) same ((o, targets ++ target ∷ []) ∷ groups)
        ((o, targets) ∷ add_to owner target groups),
    contains-keys k (targets ++ target ∷ []) (flatten groups),
    contains-keys k targets (target ∷ []),
    contains-keys k targets (flatten groups),
  )
  | no other ↦ ground (
    arith,
    if_neg (text_dec o owner) other ((o, targets ++ target ∷ []) ∷ groups)
        ((o, targets) ∷ add_to owner target groups),
    contains-keys k targets (flatten (add_to owner target groups)),
    add_to-contains owner target groups k,
    contains-keys k targets (flatten groups),
  )
]

group_by_owner-contains :
    (owners : ℕ → Outcome NodeError (List Text)) (targets : Targets) (groups : Groups) (k : ℕ)
    (r : Groups)
    → group_by_owner owners targets groups ≡ ok r
    → contains k (keys (flatten r))
      ≡ (contains k (keys targets) || contains k (keys (flatten groups)))
unfolding group_by_owner contains
group_by_owner-contains owners [] groups k = λ r.
    ensures_ok (λ (r : Groups). contains k (keys (flatten r)) ≡ contains k (keys (flatten groups)))
      groups r refl
group_by_owner-contains owners ((i, size) ∷ targets) groups k =
    let P : Groups → Type 0 = λ r.
      contains k (keys (flatten r))
      ≡ (((k == i) || contains k (keys targets)) || contains k (keys (flatten groups))) in
    ensures-bind P (owners i) _ λ holders _. ensures-bind P (first_of holders) _ λ owner _ r h.
      ground (
        arith,
        group_by_owner-contains owners targets (add_to owner (i, size) groups) k r h,
        add_to-contains owner (i, size) groups k,
      )

-- The slices join to the list, and none is longer than the step.
join : List Targets → Targets
join [] = []
join (batch ∷ batches) = batch ++ join batches

abbrev pub AllWithin : ℕ → List (Text × Targets) → Type 0
AllWithin size [] = Unit
AllWithin size (batch ∷ batches) = (length batch.1 ≤ size) × AllWithin size batches

chunks-join :
    (fuel size : ℕ) (targets : Targets)
    → length targets ≤ fuel
    → join (chunks fuel (suc size) targets) ≡ targets
unfolding chunks join
chunks-join zero size [] h = refl
chunks-join zero size (t ∷ targets) h = absurd (omega arith)
chunks-join (suc fuel) size [] h = refl
chunks-join (suc fuel) size (t ∷ targets) h =
    let rest = drop (suc size) (t ∷ targets) in
    let shorter : length rest ≤ fuel = omega (arith, length-drop size targets) in
    ap (λ (b : Targets). take (suc size) (t ∷ targets) ++ b) (chunks-join fuel size rest shorter)
    ∙ take-append-drop (suc size) (t ∷ targets)

with_owner-flatten :
    (owner : Text) (batches : List Targets) → flatten (with_owner owner batches) ≡ join batches
unfolding with_owner join
with_owner-flatten owner [] = refl
with_owner-flatten owner (batch ∷ batches) =
    ap (λ (b : Targets). batch ++ b) (with_owner-flatten owner batches)

flatten-append : (a b : List (Text × Targets)) → flatten (a ++ b) ≡ flatten a ++ flatten b
flatten-append [] b = refl
flatten-append (batch ∷ a) b =
    ap (λ (c : Targets). batch.1 ++ c) (flatten-append a b)
    ∙ sym (append_assoc batch.1 (flatten a) (flatten b))

batches_of-flatten :
    (size : ℕ) (groups : Groups) → flatten (batches_of (suc size) groups) ≡ flatten groups
unfolding batches_of
batches_of-flatten size [] = refl
batches_of-flatten size ((owner, targets) ∷ groups) =
    rw
      (
        flatten-append (with_owner owner (chunks (length targets) (suc size) targets))
            (batches_of (suc size) groups),
        with_owner-flatten owner (chunks (length targets) (suc size) targets),
        chunks-join (length targets) size targets (omega arith),
        batches_of-flatten size groups,
      )
      refl

length-chunks :
    (fuel size : ℕ) (owner : Text) (targets : Targets)
    → AllWithin size (with_owner owner (chunks fuel size targets))
unfolding chunks with_owner
length-chunks zero size owner targets = tt
length-chunks (suc fuel) size owner [] = tt
length-chunks (suc fuel) size owner (t ∷ targets) = (
  omega (arith, length-take size (t ∷ targets)),
  length-chunks fuel size owner (drop size (t ∷ targets)),
)

AllWithin-append :
    (size : ℕ) (a b : List (Text × Targets))
    → AllWithin size a
    → AllWithin size b
    → AllWithin size (a ++ b)
AllWithin-append size [] b h k = k
AllWithin-append size (batch ∷ a) b h k = (h.0, AllWithin-append size a b h.1 k)

batches_of-AllWithin : (size : ℕ) (groups : Groups) → AllWithin size (batches_of size groups)
unfolding batches_of
batches_of-AllWithin size [] = tt
batches_of-AllWithin size ((owner, targets) ∷ groups) =
    AllWithin-append size (with_owner owner (chunks (length targets) size targets))
      (batches_of size groups) (length-chunks (length targets) size owner targets)
      (batches_of-AllWithin size groups)

-- The batches of the groups of some targets have their indices, and no others, and at most as many
-- as a batch may have.
pub record IsBatching (size : ℕ) (targets : Targets) (batches : List (Text × Targets))
    : Type 0 where
  pub same : (k : ℕ) → contains k (keys (flatten batches)) ≡ contains k (keys targets)
  pub within : AllWithin size batches

batches_of-IsBatching :
    (owners : ℕ → Outcome NodeError (List Text)) (targets : Targets) (size : ℕ) (groups : Groups)
    → group_by_owner owners targets [] ≡ ok groups
    → IsBatching (suc size) targets (batches_of (suc size) groups)
unfolding contains
batches_of-IsBatching owners targets size groups h = record {
  same = λ k.
      rw (batches_of-flatten size groups)
        (group_by_owner-contains owners targets [] k groups h ∙ ground arith);
  within = batches_of-AllWithin (suc size) groups;
}

pub IsBatching-batches_of :
    (owners : ℕ → Outcome NodeError (List Text)) (targets : Targets) (size : ℕ) (groups : Groups)
    → 0 < size
    → group_by_owner owners targets [] ≡ ok groups
    → IsBatching size targets (batches_of size groups)
IsBatching-batches_of owners targets zero groups positive h = absurd (omega arith)
IsBatching-batches_of owners targets (suc size) groups positive h =
    batches_of-IsBatching owners targets size groups h
