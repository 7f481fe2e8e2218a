-- ===== src/Transport/Partition.antt =====
-- litecast/transport/ucxx.py: what `_exchange_shards` leaves of a batch.
use litecast.Common.{
  ◌↔◌, sym, ℕ, true, false, not, ◌&&◌, ◌||◌, List, [], ◌∷◌, ◌++◌, Option, some, Text, Bytes, length,
  ◌==◌, ok, ensures-bind, ensures-then, ensures_ok, Bool-cases, Option-cases, inl, inr, codes, ◌≡◌,
  refl, arith, map, ap, ◌∙◌, pos,
}
use native.Mathlib.Decide.{ℕ_discrete}
use litecast.Common.Dict
use litecast.Common.Effects.{ensures-continue, ensures_end, ensures-lift}
use litecast.Protocol.Json.{
  Json, null, boolean, integer, real, text, array, object, Items, end, item, Fields, Codec,
  find_field,
}
use litecast.Protocol.Frames.{MessageType}
use litecast.Protocol.Indices.{contains, all_distinct}
use litecast.Protocol.Messages.{encode_get_shards, decode_shard_metadata}
use litecast.Protocol.Batches.{Distinct, all_distinct-Distinct}
use litecast.Transport.Wire.{Endpoint, demand, has_keys, is_text, checksum_of, equals_index}
use litecast.Transport.Metadata.{demand-ok}
use litecast.Transport.Client.{or_other, ask, receive_into, check_integrity}
use litecast.Transport.Integrity.{check_integrity-ok, receive_into-length}
use litecast.Transport.Shards.{
  Targets, keys, subset, disjoint, index_field, target_size, read_item, read_items, array_field,
  read_unavailable, read_batch,
}
use litecast.Transport.Batch.{BatchResult, lookup_or_other, receive_shards, exchange_shards}

subset-contains :
    (is js : List ℕ) (k : ℕ) → subset is js ≡ true → contains k is ≡ true → contains k js ≡ true
unfolding subset contains
subset-contains [] js k h c = cc
subset-contains (i ∷ is) js k h c = elim (Bool-cases (k == i)) [
  | inl same ↦ ground (arith)
  | inr other ↦ subset-contains is js k (ground arith) (ground arith)
]

pub contains-append :
    (k : ℕ) (is js : List ℕ) → contains k (is ++ js) ≡ (contains k is || contains k js)
unfolding contains
contains-append k [] js = refl
contains-append k (i ∷ is) js = ground (arith, contains-append k is js)

all_distinct-append :
    (is js : List ℕ)
    → all_distinct is ≡ true
    → all_distinct js ≡ true
    → disjoint is js ≡ true
    → all_distinct (is ++ js) ≡ true
unfolding all_distinct disjoint
all_distinct-append [] js h k d = k
all_distinct-append (i ∷ is) js h k d =
    ground
      (arith, contains-append i is js, all_distinct-append is js (ground arith) k (ground arith))

-- A list apart from `i ∷ is` is apart from `is` and does not have `i`.
disjoint_of_cons :
    (js : List ℕ) (i : ℕ) (is : List ℕ)
    → disjoint js (i ∷ is) ≡ true
    → (contains i js ≡ false) × (disjoint js is ≡ true)
unfolding disjoint contains
disjoint_of_cons [] i is h = (refl, refl)
disjoint_of_cons (j ∷ js) i is h =
    let rest = disjoint_of_cons js i is (ground arith) in
    (ground (arith, rest), ground (arith, rest))

module _ (real_index : Text → Option ℕ) where
  read_item-new :
      (targets : Targets) (seen : List ℕ) (j : Json) (entry : ℕ × Text)
      → read_item real_index targets seen j ≡ ok entry
      → contains entry.0 seen ≡ false
  unfolding read_item
  read_item-new targets seen (object fields) entry h =
      let P : ℕ × Text → Type 0 = λ e. contains e.0 seen ≡ false in
      ensures-then P
        (demand (has_keys (codes "index" ∷ codes "size" ∷ codes "checksum" ∷ []) fields)) _
        (λ _. ensures-bind P (index_field real_index (find_field (codes "index") fields)) _ λ i _.
          ensures-bind P (target_size targets i) _ λ n _.
            ensures-then P (demand (not (contains i seen))) _ λ new.
              ensures-then P (demand (equals_index real_index n (find_field (codes "size") fields)))
                _
                λ _.
                  ensures-bind P (checksum_of (find_field (codes "checksum") fields)) _
                    λ checksum _ b.
                      ensures_ok P (i, checksum) b
                        (ground (arith, demand-ok (not (contains i seen)) new)))
        entry h
  read_item-new targets seen null entry h = absurd (cc)
  read_item-new targets seen (boolean b) entry h = absurd (cc)
  read_item-new targets seen (integer z) entry h = absurd (cc)
  read_item-new targets seen (real t) entry h = absurd (cc)
  read_item-new targets seen (text t) entry h = absurd (cc)
  read_item-new targets seen (array items) entry h = absurd (cc)

  IsNew : List ℕ → List (ℕ × Text) → Type 0
  IsNew seen entries = (all_distinct (keys entries) ≡ true) × (disjoint (keys entries) seen ≡ true)

  read_items-IsNew :
      (targets : Targets) (seen : List ℕ) (items : Items) (entries : List (ℕ × Text))
      → read_items real_index targets seen items ≡ ok entries
      → IsNew seen entries
  unfolding read_items IsNew all_distinct disjoint
  read_items-IsNew targets seen end = λ b. ensures_ok (IsNew seen) [] b (refl, refl)
  read_items-IsNew targets seen (item j items) =
      let P = IsNew seen in
      ensures-bind P (read_item real_index targets seen j) _ λ entry first.
        ensures-bind P (read_items real_index targets (entry.0 ∷ seen) items) _ λ rest later b.
          let (distinct, apart) = read_items-IsNew targets (entry.0 ∷ seen) items rest later in
          let (absent, others) = disjoint_of_cons (keys rest) entry.0 seen apart in
          ensures_ok P (entry ∷ rest) b
            (ground arith, ground (arith, read_item-new targets seen j entry first))

read_items-all_distinct :
    (real_index : Text → Option ℕ) (targets : Targets) (items : Items) (entries : List (ℕ × Text))
    → read_items real_index targets [] items ≡ ok entries
    → all_distinct (keys entries) ≡ true
unfolding IsNew
read_items-all_distinct real_index targets items entries h =
    (read_items-IsNew real_index targets [] items entries h).0

-- What `read_batch` accepts: indices that are distinct, and those of the targets.
pub record IsSplit (targets : Targets) (r : List (ℕ × Text) × List ℕ) : Type 0 where
  pub distinct : all_distinct (keys r.0 ++ r.1) ≡ true
  pub within : subset (keys r.0 ++ r.1) (keys targets) ≡ true
  pub covers : subset (keys targets) (keys r.0 ++ r.1) ≡ true

split :
    (targets : Targets) (available : List (ℕ × Text)) (unavailable : List ℕ)
    → all_distinct (keys available) ≡ true
    → all_distinct unavailable ≡ true
    → (subset (keys targets) (keys available ++ unavailable)
        && subset (keys available ++ unavailable) (keys targets))
      ≡ true
    → disjoint (keys available) unavailable ≡ true
    → IsSplit targets (available, unavailable)
split targets available unavailable h k same apart = record {
  distinct = all_distinct-append (keys available) unavailable h k apart;
  within = ground arith;
  covers = ground arith;
}

read_batch-IsSplit :
    (real_index : Text → Option ℕ) (version : Text) (targets : Targets) (value : Fields)
    (r : List (ℕ × Text) × List ℕ)
    → read_batch real_index version targets value ≡ ok r
    → IsSplit targets r
unfolding read_batch
read_batch-IsSplit real_index version targets value =
    let P = IsSplit targets in
    let entry = λ (key : Text). find_field key value in
    ensures-then P
      (demand (has_keys (codes "version" ∷ codes "shards" ∷ codes "unavailable" ∷ []) value)) _
      λ _. ensures-then P (demand (is_text version (entry (codes "version")))) _ λ _.
        ensures-bind P (array_field (entry (codes "shards"))) _ λ shards _.
          ensures-bind P (array_field (entry (codes "unavailable"))) _ λ missing _.
            ensures-bind P (read_items real_index targets [] shards) _ λ available read.
              ensures-bind P (read_unavailable targets missing) _ λ unavailable _.
                let joined = keys available ++ unavailable in
                let same_keys = subset (keys targets) joined && subset joined (keys targets) in
                ensures-then P (demand (all_distinct unavailable)) _ λ once.
                  ensures-then P (demand same_keys) _ λ same.
                    ensures-then P (demand (disjoint (keys available) unavailable)) _ λ apart b.
                      ensures_ok P (available, unavailable) b
                        (split targets available unavailable
                          (read_items-all_distinct real_index targets shards available read)
                          (demand-ok (all_distinct unavailable) once) (demand-ok same_keys same)
                          (demand-ok (disjoint (keys available) unavailable) apart))

lookup_or_other-ok :
    {V : Type 0} (i : ℕ) (d : List (ℕ × V)) (v : V)
    → lookup_or_other i d ≡ ok v
    → Dict.get ℕ_discrete i d ≡ some v
unfolding lookup_or_other
lookup_or_other-ok i d v h = elim (Option-cases (Dict.get ℕ_discrete i d)) [
  | inl absent ↦ absurd (cc)
  | inr (found, at_i) ↦ cc
]

module _ {S : Type 0} (endpoint : Endpoint S)
    (fills : (n : ℕ) (s : S) (raw : Bytes) (s' : S)
      → endpoint.recv n s ≡ some (raw, s')
      → length raw ≡ n)
    (hexdigest : Bytes → Text) where
  -- Each buffer has the length of its target, and the digest that is expected of it.
  abbrev pub AllVerified : Targets → List (ℕ × Text) → List (ℕ × Bytes) → Type 0
  AllVerified targets expected [] = Unit
  AllVerified targets expected ((i, content) ∷ received) =
      (Dict.get ℕ_discrete i targets ≡ some (length content))
      × (Dict.get ℕ_discrete i expected ≡ some (hexdigest content))
      × AllVerified targets expected received

  receive_shards-AllVerified :
      (targets : Targets) (expected available : List (ℕ × Text)) (s : S)
      (received : List (ℕ × Bytes)) (s' : S)
      → receive_shards endpoint hexdigest targets expected available s ≡ (ok received, s')
      → (keys received ≡ keys available) × AllVerified targets expected received
  unfolding receive_shards
  receive_shards-AllVerified targets expected [] s = λ b s'.
      ensures_end
        (λ (b : List (ℕ × Bytes)) (_ : S).
          (keys b ≡ keys {V = Text} []) × AllVerified targets expected b)
        [] b s s' (refl, tt)
  receive_shards-AllVerified targets expected ((i, checksum) ∷ available) s =
      let P : List (ℕ × Bytes) → S → Type 0 =
        λ b _. (keys b ≡ i ∷ keys available) × AllVerified targets expected b in
      ensures-lift P (lookup_or_other i targets) s _ λ size sized.
        ensures-continue P (receive_into endpoint size s) _ λ content s1 got.
          ensures-lift P (lookup_or_other i expected) s1 _ λ wanted asked.
            ensures-lift P (check_integrity (hexdigest content) checksum (some wanted)) s1 _
              λ _ passed.
                ensures-continue P (receive_shards endpoint hexdigest targets expected available s1)
                  _
                  λ rest s2 later b s3.
                    let (same, verified) =
                      receive_shards-AllVerified targets expected available s1 rest s2 later in
                    ensures_end P ((i, content) ∷ rest) b s2 s3 (
                      ap (λ is. i ∷ is) same,
                      (
                        lookup_or_other-ok i targets size sized
                            ∙ ap some
                                (sym (receive_into-length endpoint fills size s content s1 got)),
                        lookup_or_other-ok i expected wanted asked
                            ∙ ap some (
                                sym (
                                  check_integrity-ok (hexdigest content) checksum (some wanted)
                                    wanted passed refl)),
                        verified,
                      ),
                    )

  -- A batch: each index of the targets is once completed or unavailable, and no other is; what
  -- is completed has the length of its target and the expected digest.
  pub record IsPartition (targets : Targets) (expected : List (ℕ × Text)) (r : BatchResult)
      : Type 0 where
    pub distinct : Distinct (keys r.completed ++ r.unavailable)
    pub same_indices :
        (i : ℕ)
        → contains i (keys r.completed ++ r.unavailable) ≡ true ↔ contains i (keys targets) ≡ true
    pub verified : AllVerified targets expected r.completed

  -- Where receiving fills a buffer and a batch returns, whatever the peer sent: the completed and
  -- the unavailable indices are distinct, and together those of the targets, and each completed
  -- shard has the length of its target and the expected digest.
  pub exchange_shards-IsPartition :
      (codec : Codec) (real_index : Text → Option ℕ) (version : Text) (targets : Targets)
      (expected : List (ℕ × Text)) (s : S) (r : BatchResult) (s' : S)
      → exchange_shards endpoint hexdigest codec real_index version targets expected s ≡ (ok r, s')
      → IsPartition targets expected r
  unfolding exchange_shards
  exchange_shards-IsPartition codec real_index version targets expected s =
      let P : BatchResult → S → Type 0 = λ r _. IsPartition targets expected r in
      ensures-continue P
        (ask endpoint codec (encode_get_shards codec version (map pos (keys targets))) s) _
        λ frame s1 _.
          ensures-lift P (or_other (decode_shard_metadata codec MessageType.shards_metadata frame))
            s1 _
            λ value _.
              ensures-lift P (read_batch real_index version targets value) s1 _ λ batch accepted.
                ensures-continue P (receive_shards endpoint hexdigest targets expected batch.0 s1) _
                  λ received s2 got b s3.
                    let apart =
                      read_batch-IsSplit real_index version targets value batch accepted in
                    let (same, verified) =
                      receive_shards-AllVerified targets expected batch.0 s1 received s2 got in
                    let all_keys : keys received ++ batch.1 ≡ keys batch.0 ++ batch.1 =
                      ap (λ is. is ++ batch.1) same in
                    ensures_end P (record { completed = received; unavailable = batch.1 }) b s2 s3
                      (record {
                        distinct =
                            rw all_keys
                              (all_distinct-Distinct (keys batch.0 ++ batch.1) apart.distinct);
                        same_indices = λ i. rw all_keys (
                          subset-contains (keys batch.0 ++ batch.1) (keys targets) i apart.within,
                          subset-contains (keys targets) (keys batch.0 ++ batch.1) i apart.covers,
                        );
                        verified = verified;
                      })
