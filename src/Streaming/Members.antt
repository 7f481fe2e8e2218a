-- ===== src/Streaming/Members.antt =====
-- litecast/streaming.py: `canonical_members` and `canonical_member_profiles`. Python's floats are a
-- parameter, with the operations on them that the module uses.
use litecast.Common.{
  ℕ, Bool, true, false, not, ◌&&◌, ◌||◌, List, [], ◌∷◌, map, none, some, Text, ◌==◌, text_eq,
  is_empty, codes, Outcome, ok, raise, ◌>>=◌, ◌>>◌, if◌then◌else◌,
}
use litecast.Protocol.Json.{
  Json, null, boolean, integer, real, text, array, object, Fields, done, find_field, all_keys,
}

pub data PlacementError : Type 0 where
  value_error : PlacementError
  type_error : PlacementError
  unicode_error : PlacementError
  overflow_error : PlacementError
  zero_division_error : PlacementError
  key_error : PlacementError
  index_error : PlacementError

-- `read` is `float(value)`, `from_int` the conversion of an integer, and `divide` raises on zero.
pub record Floats (F : Type 0) : Type 0 where
  pub read : Json → Outcome PlacementError F
  pub from_int : ℕ → F
  pub is_finite : F → Bool
  pub less : F → F → Bool
  pub at_most : F → F → Bool
  pub plus : F → F → F
  pub times : F → F → F
  pub negate : F → F
  pub log : F → Outcome PlacementError F
  pub divide : F → F → Outcome PlacementError F

-- `text.rstrip("/")`
unfoldable pub rstrip_slash : Text → Text
unfolding is_empty
rstrip_slash [] = []
rstrip_slash (c ∷ s) =
    let rest = rstrip_slash s in if (c == b'/') && is_empty rest then [] else c ∷ rest

unfoldable pub mem : Text → List Text → Bool
mem x [] = false
mem x (y ∷ ys) = text_eq x y || mem x ys

unfoldable pub any_empty : List Text → Bool
unfolding is_empty
any_empty [] = false
any_empty (x ∷ xs) = is_empty x || any_empty xs

-- `len(set(xs)) == len(xs)`
unfoldable pub no_duplicates : List Text → Bool
no_duplicates [] = true
no_duplicates (x ∷ xs) = not (mem x xs) && no_duplicates xs

unfoldable pub canonical_members : List Text → Outcome PlacementError (List Text)
unfolding is_empty
canonical_members members =
    let result = map rstrip_slash members in
    if is_empty result || (any_empty result || not (no_duplicates result))
    then raise value_error
    else ok result

pub record Profile (F : Type 0) : Type 0 where
  pub bandwidth : F
  pub capacity : F
  pub load : F
  pub failure_domain : Text
  pub locality : Text

-- `profile.get(key, default)`, read further by `read` where the key is there.
get_or {ℓ} : {A : Type ℓ} → A → (Json → A) → Text → Fields → A
get_or default read key fields = elim (find_field key fields) [ none ↦ default | some v ↦ read v ]

read_text : Json → Outcome PlacementError Text
read_text (text s) = ok s
read_text null = raise type_error
read_text (boolean b) = raise type_error
read_text (integer i) = raise type_error
read_text (real s) = raise type_error
read_text (array items) = raise type_error
read_text (object fields) = raise type_error

-- The fields of a profile that is a mapping.
read_mapping : Json → Outcome PlacementError Fields
read_mapping (object fields) = ok fields
read_mapping null = raise type_error
read_mapping (boolean b) = raise type_error
read_mapping (integer i) = raise type_error
read_mapping (real s) = raise type_error
read_mapping (text s) = raise type_error
read_mapping (array items) = raise type_error

is_profile_field : Text → Bool
is_profile_field name = mem name (
    codes "bandwidth"
    ∷ codes "capacity"
    ∷ codes "load"
    ∷ codes "failure_domain"
    ∷ codes "locality"
    ∷ [])

module _ {F : Type 0} (floats : Floats F) where
  positive_float : F → Outcome PlacementError F
  positive_float x =
      if not (floats.is_finite x) || floats.at_most x (floats.from_int 0)
      then raise value_error
      else ok x

  nonnegative_float : F → Outcome PlacementError F
  nonnegative_float x =
      if not (floats.is_finite x) || floats.less x (floats.from_int 0)
      then raise value_error
      else ok x

  -- `float(profile.get(key, default))`
  number_field : ℕ → Text → Fields → Outcome PlacementError F
  number_field default = get_or (ok (floats.from_int default)) floats.read

  -- The body of the loop of `canonical_member_profiles`.
  unfoldable pub canonical_profile : Text → Fields → Outcome PlacementError (Profile F)
  unfolding get_or read_text read_mapping is_profile_field positive_float nonnegative_float
      number_field
  canonical_profile member profiles = do
    profile ← get_or (ok done) read_mapping member profiles
    if all_keys is_profile_field profile then ok tt else raise value_error
    bandwidth' ← number_field 1 (codes "bandwidth") profile
    bandwidth ← positive_float bandwidth'
    capacity' ← number_field 1 (codes "capacity") profile
    capacity ← positive_float capacity'
    load' ← number_field 0 (codes "load") profile
    load ← nonnegative_float load'
    failure_domain ← get_or (ok member) read_text (codes "failure_domain") profile
    locality ← get_or (ok []) read_text (codes "locality") profile
    ok (record {
      bandwidth = bandwidth;
      capacity = capacity;
      load = load;
      failure_domain = failure_domain;
      locality = locality;
    })

  unfoldable pub profiles_of : List Text → Fields → Outcome PlacementError (List (Text × Profile F))
  profiles_of [] profiles = ok []
  profiles_of (member ∷ members) profiles = do
    profile ← canonical_profile member profiles
    rest ← profiles_of members profiles
    ok ((member, profile) ∷ rest)

  unfoldable pub canonical_member_profiles :
      List Text → Fields → Outcome PlacementError (List (Text × Profile F))
  unfolding canonical_members profiles_of
  canonical_member_profiles members profiles = do
    canonical ← canonical_members members
    if all_keys (λ name. mem name canonical) profiles then ok tt else raise value_error
    profiles_of canonical profiles
