-- ===== src/Streaming/Locality.antt =====
-- litecast/streaming.py: `order_owners_for_client`, compared with a stable partition.
use litecast.Common.{
  Bool, true, false, not, ◌&&◌, List, [], ◌∷◌, ◌++◌, map, Text, is_empty, if◌then◌else◌, Bool-cases,
  ◌≡◌, refl, ap, inl, inr, arith,
}
use litecast.Protocol.Json.{Fields}
use litecast.Streaming.Owners.{
  insert_ranked, sort_descending, has_locality, order_owners_for_client,
}
use litecast.Streaming.Membership.{names}

-- The elements that satisfy the test, in their order.
unfoldable pub select : (Text → Bool) → List Text → List Text
select test [] = []
select test (x ∷ xs) = let rest = select test xs in if test x then x ∷ rest else rest

module _ (test : Text → Bool) where
  keyed : List Text → List (Text × Bool)
  keyed = map (λ m. (m, test m))

  names-keyed : (xs : List Text) → names (keyed xs) ≡ xs
  unfolding keyed
  names-keyed [] = refl
  names-keyed (x ∷ xs) = ap (◌∷◌ x) (names-keyed xs)

  insert_true :
      (x : Text) (ys : List (Text × Bool))
      → test x ≡ true
      → insert_ranked (λ a b. not a && b) (x, test x) ys ≡ (x, test x) ∷ ys
  unfolding insert_ranked
  insert_true x [] local = refl
  insert_true x (y ∷ ys) local = ground arith

  insert_false :
      (x : Text) (xs ys : List Text)
      → test x ≡ false
      → insert_ranked
          (λ a b. not a && b)
          (x, test x)
          (keyed (select test xs ++ select (λ m. not (test m)) ys))
        ≡ keyed (select test xs ++ x ∷ select (λ m. not (test m)) ys)
  unfolding insert_ranked select keyed
  insert_false x [] [] other = refl
  insert_false x [] (y ∷ ys) other = ground (arith, insert_false x [] ys other)
  insert_false x (y ∷ xs) ys other = ground (arith, insert_false x xs ys other)

  sort-partition :
      (xs : List Text)
      → sort_descending (λ a b. not a && b) (keyed xs)
        ≡ keyed (select test xs ++ select (λ m. not (test m)) xs)
  unfolding sort_descending select keyed
  sort-partition [] = refl
  sort-partition (x ∷ xs) = elim (Bool-cases (test x)) [
    | inl local ↦ ground (
      arith,
      sort-partition xs,
      insert_true x (keyed (select test xs ++ select (λ m. not (test m)) xs)) local,
    )
    | inr other ↦ ground (arith, sort-partition xs, insert_false x xs xs other)
  ]

-- For a client that names its locality, the owners of that locality come first, and within both
-- groups the owners keep their order.
pub order_owners_for_client-eq :
    (owners : List Text) (profiles : Fields) (client_locality : Text)
    → is_empty client_locality ≡ false
    → order_owners_for_client owners profiles client_locality
      ≡ select (has_locality profiles client_locality) owners
        ++ select (λ m. not (has_locality profiles client_locality m)) owners
unfolding order_owners_for_client keyed
order_owners_for_client-eq owners profiles client_locality named =
    let test = has_locality profiles client_locality in
    rw (named, sort-partition test owners) (names-keyed test _)
