-- ===== src/Streaming/Membership.antt =====
-- litecast/streaming.py: lists of members without duplicates.
use litecast.Common.{
  ℕ, suc, ◌<◌, Bool, true, false, not, ◌||◌, List, [], ◌∷◌, ◌++◌, map, Text, length, text_eq,
  text_eq_refl, text_eq→eq, ok, Bool-cases, ◌≡◌, refl, inl, inr, arith, is_empty,
}
use litecast.Streaming.Members.{mem, no_duplicates, any_empty, rstrip_slash, canonical_members}
use litecast.Streaming.Owners.{insert_ranked, sort_descending}

pub text_eq_sym : (s t : List ℕ) → text_eq s t ≡ text_eq t s
unfolding text_eq
text_eq_sym [] [] = refl
text_eq_sym (a ∷ s) (b ∷ t) = ground (arith, text_eq_sym s t)
text_eq_sym [] (b ∷ t) = refl
text_eq_sym (a ∷ s) [] = refl

pub mem-append : (x : Text) (xs ys : List Text) → mem x (xs ++ ys) ≡ (mem x xs || mem x ys)
unfolding mem
mem-append x [] ys = refl
mem-append x (y ∷ xs) ys = ground (arith, mem-append x xs ys)

-- A new element at the end.
pub no_duplicates-append :
    (m : Text) (xs : List Text)
    → mem m xs ≡ false
    → no_duplicates xs ≡ true
    → no_duplicates (xs ++ m ∷ []) ≡ true
unfolding mem no_duplicates
no_duplicates-append m [] new h = refl
no_duplicates-append m (y ∷ xs) new h =
    ground (arith, no_duplicates-append m xs, mem-append y xs (m ∷ []), text_eq_sym y m)

pub mem-map :
    (f : Text → Text) (x : Text) (xs : List Text) → mem x xs ≡ true → mem (f x) (map f xs) ≡ true
unfolding mem
mem-map f x [] h = h
mem-map f x (y ∷ xs) h = elim (Bool-cases (text_eq x y)) [
  | inl same ↦ rw (text_eq→eq x y same, text_eq_refl (f y)) refl
  | inr other ↦ ground (arith, mem-map f x xs)
]

abbrev pub names {ℓ} : {F : Type ℓ} → List (Text × F) → List Text
names scored = map (λ e. e.0) scored

module _ {F : Type 0} (less : F → F → Bool) where
  mem-insert_ranked :
      (x : Text) (y : Text × F) (ys : List (Text × F))
      → mem x (names (insert_ranked less y ys)) ≡ (text_eq x y.0 || mem x (names ys))
  unfolding mem insert_ranked
  mem-insert_ranked x y [] = refl
  mem-insert_ranked x y (z ∷ ys) = ground (arith, mem-insert_ranked x y ys)

  pub mem-sort_descending :
      (x : Text) (ys : List (Text × F)) → mem x (names (sort_descending less ys)) ≡ mem x (names ys)
  unfolding mem sort_descending
  mem-sort_descending x [] = refl
  mem-sort_descending x (y ∷ ys) =
      rw (mem-insert_ranked x y (sort_descending less ys), mem-sort_descending x ys) refl

  insert_ranked-no_duplicates :
      (y : Text × F) (ys : List (Text × F))
      → mem y.0 (names ys) ≡ false
      → no_duplicates (names ys) ≡ true
      → no_duplicates (names (insert_ranked less y ys)) ≡ true
  unfolding mem insert_ranked no_duplicates
  insert_ranked-no_duplicates y [] new h = refl
  insert_ranked-no_duplicates y (z ∷ ys) new h =
      ground
        (arith, insert_ranked-no_duplicates y ys, mem-insert_ranked z.0 y ys, text_eq_sym y.0 z.0)

  pub sort_descending-no_duplicates :
      (ys : List (Text × F))
      → no_duplicates (names ys) ≡ true
      → no_duplicates (names (sort_descending less ys)) ≡ true
  unfolding no_duplicates sort_descending
  sort_descending-no_duplicates [] h = refl
  sort_descending-no_duplicates (y ∷ ys) h =
      insert_ranked-no_duplicates y (sort_descending less ys)
        (ground (arith, mem-sort_descending y.0 ys))
        (sort_descending-no_duplicates ys (ground arith))

  length-insert_ranked :
      (y : Text × F) (ys : List (Text × F))
      → length (names (insert_ranked less y ys)) ≡ suc (length (names ys))
  unfolding insert_ranked
  length-insert_ranked y [] = refl
  length-insert_ranked y (z ∷ ys) = ground (arith, length-insert_ranked y ys)

  pub length-sort_descending :
      (ys : List (Text × F)) → length (names (sort_descending less ys)) ≡ length (names ys)
  unfolding sort_descending
  length-sort_descending [] = refl
  length-sort_descending (y ∷ ys) =
      rw (length-insert_ranked y (sort_descending less ys), length-sort_descending ys) refl

length_pos : (xs : List Text) → is_empty xs ≡ false → 0 < length xs
unfolding is_empty
length_pos [] h = absurd (ground arith)
length_pos (x ∷ xs) h = omega arith

-- What a membership that is accepted satisfies.
pub canonical_members-returns :
    (members canonical : List Text)
    → canonical_members members ≡ ok canonical
    → (no_duplicates canonical ≡ true) × (0 < length canonical)
unfolding canonical_members
canonical_members-returns members canonical h =
    let result = map rstrip_slash members in
    elim (Bool-cases (is_empty result || (any_empty result || not (no_duplicates result)))) [
      | inl bad ↦ absurd (ground arith)
      | inr good ↦ (ground arith, length_pos canonical (ground arith))
    ]
