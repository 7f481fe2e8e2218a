-- ===== src/Streaming/Levels.antt =====
-- litecast/streaming.py: the rounds of `merkle_root`.
use litecast.Common.{
  ℕ, zero, suc, ◌+◌, ◌/◌, ◌≤◌, ◌<◌, List, [], ◌∷◌, ◌++◌, Bytes, length, take, drop, take-append,
  drop-append, true, false, ltb, codes, text_dec, Bool-cases, ◌≡◌, ◌≢◌, ◌⊎◌, refl, sym, ap, ◌∙◌,
  inl, inr, arith,
}
use litecast.Streaming.Merkle.{node, next_level, reduce}

-- The digests of a level have as many bytes each.
abbrev pub AllSized : ℕ → List Bytes → Type 0
AllSized n [] = Unit
AllSized n (a ∷ level) = (length a ≡ n) × AllSized n level

module _ (digest : Bytes → Bytes) where
  -- Two different byte strings with one digest.
  abbrev pub Collision : Type 0
  Collision = (x y : Bytes) × (digest x ≡ digest y) × (x ≢ y)

  pub same_or_collision : (x y : Bytes) → digest x ≡ digest y → (x ≡ y) ⊎ Collision
  same_or_collision x y h = elim (text_dec x y) [
    | yes same ↦ inl same
    | no other ↦ inr (x, y, h, other)
  ]

  module _ (n : ℕ) (sized : (x : Bytes) → length (digest x) ≡ n) where
    node-injective :
        (a b c d : Bytes)
        → length a ≡ n
        → length c ≡ n
        → node digest a b ≡ node digest c d
        → ((a ≡ c) × (b ≡ d)) ⊎ Collision
    unfolding node
    node-injective a b c d ha hc h =
        elim (same_or_collision (codes "litecast-node" ++ 0 ∷ (a ++ b))
          (codes "litecast-node" ++ 0 ∷ (c ++ d)) h) [
            | inr found ↦ inr found
            | inl same ↦
                let tails : a ++ b ≡ c ++ d = ap (drop 14) same in
                inl (
                  sym (take-append n a b ha) ∙ ap (take n) tails ∙ take-append n c d hc,
                  sym (drop-append n a b ha) ∙ ap (drop n) tails ∙ drop-append n c d hc,
                )
          ]

    next_level-injective :
        (s t : List Bytes)
        → AllSized n s
        → AllSized n t
        → length s ≡ length t
        → next_level digest s ≡ next_level digest t
        → (s ≡ t) ⊎ Collision
    unfolding next_level
    next_level-injective [] [] hs ht e h = inl refl
    next_level-injective (a ∷ []) (c ∷ []) hs ht e h = elim (node-injective a a c c hs.0 ht.0 cc) [
      | inr found ↦ inr found
      | inl same ↦ inl (ap (λ x. x ∷ []) same.0)
    ]
    next_level-injective (a ∷ b ∷ s) (c ∷ d ∷ t) hs ht e h =
        elim (node-injective a b c d hs.0 ht.0 cc) [
          | inr found ↦ inr found
          | inl same ↦ elim (next_level-injective s t hs.1.1 ht.1.1 (omega arith) cc) [
            | inr found ↦ inr found
            | inl rest ↦ inl (cc (same.0, same.1, rest))
          ]
        ]
    next_level-injective [] (c ∷ t) hs ht e h = absurd (omega arith)
    next_level-injective (a ∷ s) [] hs ht e h = absurd (omega arith)
    next_level-injective (a ∷ []) (c ∷ d ∷ t) hs ht e h = absurd (omega arith)
    next_level-injective (a ∷ b ∷ s) (c ∷ []) hs ht e h = absurd (omega arith)

    next_level-AllSized : (s : List Bytes) → AllSized n (next_level digest s)
    unfolding next_level node
    next_level-AllSized [] = tt
    next_level-AllSized (a ∷ []) = (sized _, tt)
    next_level-AllSized (a ∷ b ∷ s) = (sized _, next_level-AllSized s)

  -- A round halves the level, and rounds up.
  length-next_level : (s : List Bytes) → length (next_level digest s) ≡ (length s + 1) / 2
  unfolding next_level
  length-next_level [] = omega arith
  length-next_level (a ∷ []) = omega arith
  length-next_level (a ∷ b ∷ s) = omega (arith, length-next_level s)

  -- As many rounds as the level has digests leave one.
  pub reduce-length :
      (fuel : ℕ) (s : List Bytes)
      → 0 < length s
      → length s ≤ fuel
      → length (reduce digest fuel s) ≡ 1
  unfolding reduce
  reduce-length zero s some_leaf enough = absurd (omega arith)
  reduce-length (suc fuel) s some_leaf enough =
      let shrinks = length-next_level s in
      elim (Bool-cases (ltb 1 (length s))) [
        | inl more ↦ rw more (
            reduce-length fuel (next_level digest s) (ground (arith, shrinks))
              (ground (arith, shrinks)))
        | inr one ↦ rw one (ground arith)
      ]

  module _ (n : ℕ) (sized : (x : Bytes) → length (digest x) ≡ n) where
    pub reduce-injective :
        (fuel : ℕ) (s t : List Bytes)
        → AllSized n s
        → AllSized n t
        → length s ≡ length t
        → reduce digest fuel s ≡ reduce digest fuel t
        → (s ≡ t) ⊎ Collision
    unfolding reduce
    reduce-injective zero s t hs ht e h = inl h
    reduce-injective (suc fuel) s t hs ht e h = elim (Bool-cases (ltb 1 (length s))) [
      | inl more ↦
          let more' : ltb 1 (length t) ≡ true = rw (← e) more in
          let e' : length (next_level digest s) ≡ length (next_level digest t) =
            rw (length-next_level s, length-next_level t, e) refl in
          elim (reduce-injective fuel (next_level digest s) (next_level digest t)
            (next_level-AllSized n sized s) (next_level-AllSized n sized t) e'
            (ground (arith, h))) [
              | inr found ↦ inr found
              | inl same ↦ next_level-injective n sized s t hs ht e same
            ]
      | inr one ↦ let one' : ltb 1 (length t) ≡ false = rw (← e) one in inl (ground (arith, h))
    ]
