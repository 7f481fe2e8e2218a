-- ===== src/Streaming/Owners.antt =====
-- litecast/streaming.py: `shard_owners` and `order_owners_for_client`.
use litecast.Common.{
  ℕ, zero, suc, ◌+◌, ◌*◌, ◌/◌, ◌%◌, ◌^◌, min, Bool, false, not, ◌&&◌, List, [], ◌∷◌, ◌++◌, map,
  Option, none, some, Text, Bytes, ℤ, pos, negsuc, length, ◌==◌, ltb, text_eq, text_dec, is_empty,
  codes, Outcome, ok, raise, ◌>>=◌, if◌then◌else◌,
}
use litecast.Common.Dict
use litecast.Protocol.Json.{Fields, find_field, object, text}
use litecast.Streaming.Members.{
  PlacementError, value_error, unicode_error, key_error, Floats, mem, Profile, canonical_members,
  canonical_member_profiles,
}

digits : ℕ → ℕ → Text
digits zero n = []
digits (suc fuel) n =
    let front = digits fuel (n / 10) in
    if ltb n 10 then (b'0' + n) ∷ [] else front ++ (b'0' + n % 10) ∷ []

-- `str(n)`; a number has at most as many digits as one more than its value.
unfoldable pub decimal : ℕ → Text
unfolding digits
decimal n = digits (n + 1) n

-- `int.from_bytes(digest, "big")`, with `n` for the bytes before.
unfoldable pub from_bytes : ℕ → Bytes → ℕ
from_bytes n [] = n
from_bytes n (b ∷ bytes) = from_bytes (n * 256 + b) bytes

-- Insertion behind the members of a higher score; of equal scores the earlier stays in front.
module _ {F : Type 0} (less : F → F → Bool) where
  unfoldable pub insert_ranked : Text × F → List (Text × F) → List (Text × F)
  insert_ranked x [] = x ∷ []
  insert_ranked x (y ∷ ys) = if less x.1 y.1 then y ∷ insert_ranked x ys else x ∷ y ∷ ys

  -- `sorted(..., key=..., reverse=True)`, which is stable.
  unfoldable pub sort_descending : List (Text × F) → List (Text × F)
  unfolding insert_ranked
  sort_descending [] = []
  sort_descending (x ∷ xs) = insert_ranked x (sort_descending xs)

-- The state in which the first loop of `shard_owners` ends: it returned, or it went over all.
pub data Selection : Type 0 where
  full : List Text → Selection
  short : List Text → Selection

-- The loop over distinct failure domains. `domains` are those of the members selected.
module _ (count : ℕ) (domain_of : Text → Text) where
  unfoldable pub select_diverse : List Text → List Text → List Text → Selection
  unfolding is_empty
  select_diverse [] selected domains = short selected
  select_diverse (m ∷ ranked) selected domains =
      let domain = domain_of m in
      let skipped = select_diverse ranked selected domains in
      let domains' = if is_empty domain then domains else domain ∷ domains in
      let later = select_diverse ranked (selected ++ m ∷ []) domains' in
      if not (is_empty domain) && mem domain domains
      then skipped
      else if length (selected ++ m ∷ []) == count
      then full (selected ++ m ∷ [])
      else later

-- The second loop, which fills up.
unfoldable pub fill_up : ℕ → List Text → List Text → List Text
fill_up count [] selected = selected
fill_up count (m ∷ ranked) selected =
    let selected' = if mem m selected then selected else selected ++ m ∷ [] in
    let later = fill_up count ranked selected' in
    if length selected' == count then selected' else later

unfoldable pub choose : ℕ → (Text → Text) → List Text → List Text
unfolding select_diverse fill_up
choose count domain_of ranked = elim (select_diverse count domain_of ranked [] []) [
  | full selected ↦ selected
  | short selected ↦ fill_up count ranked selected
]

unfoldable pub check_factor : ℤ → Outcome PlacementError ℕ
check_factor (negsuc _) = raise value_error
check_factor (pos zero) = raise value_error
check_factor (pos (suc n)) = ok (suc n)

-- `profile_map[member]`
unfoldable pub profile_of :
    {F : Type 0} → List (Text × Profile F) → Text → Outcome PlacementError (Profile F)
profile_of profiles member = elim (Dict.get text_dec member profiles) [
  | none ↦ raise key_error
  | some profile ↦ ok profile
]

-- `profile_map[member][3]`, where the member is there.
unfoldable pub domain_of : {F : Type 0} → List (Text × Profile F) → Text → Text
domain_of profiles member = elim (Dict.get text_dec member profiles) [
  | none ↦ []
  | some profile ↦ profile.failure_domain
]

module _ {F : Type 0} (floats : Floats F) (digest : Bytes → Bytes)
    (encode : Text → Option Bytes) where
  unfoldable pub weighted_score : Text → ℕ → Text → Profile F → Outcome PlacementError F
  unfolding decimal from_bytes
  weighted_score version shard_index member profile =
      elim (encode (version ++ (0 ∷ decimal shard_index) ++ (0 ∷ member))) [
        | none ↦ raise unicode_error
        | some raw ↦ do
          uniform ←
              floats.divide (floats.from_int (from_bytes 0 (digest raw) + 1))
                (floats.from_int (2 ^ 256 + 1))
          weight ←
              floats.divide (floats.times profile.bandwidth profile.capacity)
                (floats.plus (floats.from_int 1) profile.load)
          logarithm ← floats.log uniform
          floats.divide weight (floats.negate logarithm)
      ]

  -- The keys of the sort, computed first.
  unfoldable pub score_all :
      Text → ℕ → List (Text × Profile F) → List Text → Outcome PlacementError (List (Text × F))
  score_all version shard_index profiles [] = ok []
  score_all version shard_index profiles (m ∷ members) = do
    profile ← profile_of profiles m
    score ← weighted_score version shard_index m profile
    rest ← score_all version shard_index profiles members
    ok ((m, score) ∷ rest)

  unfoldable pub shard_owners :
      Text → ℕ → List Text → ℤ → Fields → Outcome PlacementError (List Text)
  unfolding check_factor choose
  shard_owners version shard_index members replication_factor member_profiles = do
    canonical ← canonical_members members
    factor ← check_factor replication_factor
    let count = min factor (length canonical)
    profiles ← canonical_member_profiles floats canonical member_profiles
    scored ← score_all version shard_index profiles canonical
    let ranked = map (λ e. e.0) (sort_descending floats.less scored)
    ok (choose count (domain_of profiles) ranked)

-- `member_profiles.get(member, {}).get("locality") == client_locality`, of a mapping of mappings.
unfoldable pub has_locality : Fields → Text → Text → Bool
has_locality profiles locality member = elim (find_field member profiles) [
  | some (object profile) ↦ elim (find_field (codes "locality") profile) [
    | some (text s) ↦ text_eq s locality
    | _ ↦ false
  ]
  | _ ↦ false
]

-- The sort on a Boolean key, false before true, in reverse.
unfoldable pub order_owners_for_client : List Text → Fields → Text → List Text
unfolding sort_descending is_empty
order_owners_for_client owners profiles client_locality =
    if is_empty client_locality
    then owners
    else map (λ e. e.0)
        (sort_descending (λ a b. not a && b)
          (map (λ m. (m, has_locality profiles client_locality m)) owners))
