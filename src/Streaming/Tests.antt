-- ===== src/Streaming/Tests.antt =====
-- The placement of shards on a small membership, and the theorems about it there. The floats of
-- the tests are whole numbers, with rounding down.
use litecast.Common.{
  arith, Bytes, zero, suc, drop, ap, map, ◌⊎◌, ℕ, ◌+◌, ◌*◌, ◌/◌, true, ◌≡◌, refl, List, [], ◌∷◌,
  ◌++◌, some, Text, pos, codes, text_eq, is_empty, ltb, leb, ◌==◌, if◌then◌else◌, Outcome, ok,
  raise, min, length, text_dec, not,
}
use litecast.Common.Dict
use litecast.Protocol.Json.{Json, integer, text, object, Fields, field, done, find_field, all_keys}
use litecast.Streaming.Members.{
  PlacementError, value_error, type_error, zero_division_error, Floats, rstrip_slash, mem,
  any_empty, no_duplicates, canonical_members, Profile, canonical_profile, profiles_of,
  canonical_member_profiles,
}
use litecast.Streaming.Owners.{
  decimal, from_bytes, insert_ranked, sort_descending, select_diverse, fill_up, choose,
  check_factor, profile_of, domain_of, weighted_score, score_all, shard_owners, has_locality,
  order_owners_for_client,
}
use litecast.Streaming.Placement.{shard_owners-IsPlacement}
use litecast.Streaming.Diversity.{IsDiverse, distinct_domains}
use litecast.Streaming.Merkle.{
  fromhex, hex_digit, hex, leaf, node, next_level, reduce, leaves, root_of, merkle_root,
}
use litecast.Streaming.Levels.{Collision}
use litecast.Streaming.Binding.{merkle_root-IsBinding, merkle_root-returns}
use litecast.Streaming.Locality.{select, order_owners_for_client-eq}

program : Unit {0}
unfolding text_eq is_empty find_field all_keys Dict.get text_dec rstrip_slash mem any_empty
    no_duplicates canonical_members canonical_profile profiles_of canonical_member_profiles decimal
    from_bytes insert_ranked sort_descending select_diverse fill_up choose check_factor profile_of
    domain_of weighted_score score_all shard_owners has_locality order_owners_for_client select
    distinct_domains fromhex hex_digit hex leaf node next_level reduce leaves root_of merkle_root
program = tt

read_whole : Json → Outcome PlacementError ℕ
read_whole (integer (pos n)) = ok n
read_whole _ = raise type_error

abbrev whole : Floats ℕ
whole = record {
  read = read_whole;
  from_int = λ n. n;
  is_finite = λ x. true;
  less = ltb;
  at_most = leb;
  plus = λ x y. x + y;
  times = λ x y. x * y;
  negate = λ x. x;
  log = λ x. ok (x + 1);
  divide = λ x y. if y == 0 then raise zero_division_error else ok (x / y);
}

abbrev given : List Text
given = codes "http://a/" ∷ codes "http://b" ∷ codes "http://c" ∷ []

abbrev members : List Text
members = codes "http://a" ∷ codes "http://b" ∷ codes "http://c" ∷ []

-- `b` and `c` stand in one rack, and both have a higher bandwidth than `a`.
abbrev topology : Fields
topology =
    field (codes "http://b")
      (object (
        field (codes "bandwidth") (integer (pos 9))
          (field (codes "failure_domain") (text (codes "rack")) done)))
      (field (codes "http://c")
        (object (
          field (codes "bandwidth") (integer (pos 5)) (
            field (codes "failure_domain") (text (codes "rack"))
              (field (codes "locality") (text (codes "east")) done))))
        done)

run_placement :
    (shard_owners whole (λ raw. raw) some (codes "v1") 12 given (pos 2) topology
      ≡ ok (codes "http://b" ∷ codes "http://a" ∷ []))
    × (shard_owners whole (λ raw. raw) some (codes "v1") 12 given (pos 9) topology
        ≡ ok (codes "http://b" ∷ codes "http://a" ∷ codes "http://c" ∷ []))
    × (shard_owners whole (λ raw. raw) some (codes "v1") 12 given (pos 0) topology
        ≡ raise value_error)
    × (canonical_members (codes "http://a//" ∷ codes "http://a" ∷ []) ≡ raise value_error)
    × (decimal 120 ≡ codes "120")
    × (order_owners_for_client members topology (codes "east")
        ≡ codes "http://c" ∷ codes "http://a" ∷ codes "http://b" ∷ [])
unfolding program read_whole
run_placement = (refl, refl, refl, refl, refl, refl)

abbrev shard_profiles : List (Text × Profile ℕ)
shard_profiles =
    (
      codes "http://a",
      record {
        bandwidth = 1;
        capacity = 1;
        load = 0;
        failure_domain = codes "http://a";
        locality = [];
      },
    )
    ∷ (
      codes "http://b",
      record {
        bandwidth = 9;
        capacity = 1;
        load = 0;
        failure_domain = codes "rack";
        locality = [];
      },
    )
    ∷ (
      codes "http://c",
      record {
        bandwidth = 5;
        capacity = 1;
        load = 0;
        failure_domain = codes "rack";
        locality = codes "east";
      },
    )
    ∷ []

shard_owners-IsPlacement_example :
    (owners : List Text) × (shard_owners whole
        (λ raw. raw)
        some
        (codes "v1")
        12
        given
        (pos 2)
        topology
      ≡ ok owners)
    × (length owners ≡ min 2 (length members))
    × (no_duplicates owners ≡ true)
    × ((x : Text) → mem x owners ≡ true → mem x members ≡ true)
    × IsDiverse (domain_of shard_profiles) owners members
unfolding program read_whole
shard_owners-IsPlacement_example =
    shard_owners-IsPlacement whole (λ raw. raw) some (codes "v1") 12 given members 1 topology
      shard_profiles ((codes "http://a", 1) ∷ (codes "http://b", 9) ∷ (codes "http://c", 5) ∷ [])
      refl refl refl

order_owners_for_client-eq_example :
    order_owners_for_client members topology (codes "east")
    ≡ select (has_locality topology (codes "east")) members
      ++ select (λ m. not (has_locality topology (codes "east") m)) members
unfolding is_empty
order_owners_for_client-eq_example = order_owners_for_client-eq members topology (codes "east") refl

-- A digest of two bytes, which are those behind the label.
fit : ℕ → Bytes → Bytes
fit zero bytes = []
fit (suc n) [] = 0 ∷ fit n []
fit (suc n) (b ∷ bytes) = b ∷ fit n bytes

length-fit : (n : ℕ) (bytes : Bytes) → length (fit n bytes) ≡ n
unfolding fit
length-fit zero bytes = refl
length-fit (suc n) [] = ap suc (length-fit n [])
length-fit (suc n) (b ∷ bytes) = ap suc (length-fit n bytes)

abbrev two_bytes : Bytes → Bytes
two_bytes raw = fit 2 (drop 14 raw)

abbrev checksums : List Text
checksums = codes "0a0b" ∷ codes "0c0d" ∷ codes "0e0f" ∷ []

abbrev in_capitals : List Text
in_capitals = codes "0A0B" ∷ codes "0C0D" ∷ codes "0E0F" ∷ []

run_merkle :
    (merkle_root two_bytes checksums ≡ ok (codes "0a0b"))
    × (reduce (λ raw. raw) 0 [] ≡ [])
    × (length (next_level two_bytes (two_bytes [] ∷ two_bytes [] ∷ two_bytes [] ∷ [])) ≡ 2)
    × (merkle_root two_bytes (codes "xy" ∷ []) ≡ raise value_error)
unfolding program fit
run_merkle = (refl, refl, refl, refl)

merkle_root-IsBinding_example :
    (map fromhex checksums ≡ map fromhex in_capitals) ⊎ Collision two_bytes
unfolding program fit
merkle_root-IsBinding_example =
    merkle_root-IsBinding two_bytes 2 (λ x. length-fit 2 (drop 14 x)) checksums in_capitals
      (codes "0a0b") refl refl refl

merkle_root-returns_example :
    (top : Bytes) × (reduce two_bytes 2
        (leaf two_bytes (10 ∷ 11 ∷ []) ∷ leaf two_bytes (255 ∷ 0 ∷ []) ∷ [])
      ≡ top ∷ [])
    × (merkle_root two_bytes (hex (10 ∷ 11 ∷ []) ∷ hex (255 ∷ 0 ∷ []) ∷ []) ≡ ok (hex top))
merkle_root-returns_example =
    merkle_root-returns two_bytes ((10 ∷ 11 ∷ []) ∷ (255 ∷ 0 ∷ []) ∷ [])
      ((omega arith, (omega arith, tt)), ((omega arith, (omega arith, tt)), tt)) (omega arith)
