-- ===== src/Streaming/Diversity.antt =====
-- litecast/streaming.py: the failure domains of the owners that the first loop of `shard_owners`
-- picks.
use litecast.Common.{
  text_eq_refl, ℕ, Bool, true, false, not, ◌&&◌, ◌||◌, List, [], ◌∷◌, ◌++◌, map, Text, length,
  text_eq, text_eq→eq, is_empty, ◌==◌, Bool-cases, ◌≡◌, ap, inl, inr, arith, ◌⊎◌,
}
use litecast.Streaming.Members.{mem}
use litecast.Streaming.Owners.{Selection, full, short, select_diverse}
use litecast.Streaming.Membership.{text_eq_sym, mem-map}

same_emptiness : (s t : Text) → text_eq s t ≡ true → is_empty s ≡ is_empty t
same_emptiness s t h = ap is_empty (text_eq→eq s t h)

module _ (domain : Text → Text) where
  -- No two of the members stand in the same failure domain, where they have one.
  unfoldable pub distinct_domains : List Text → Bool
  distinct_domains [] = true
  distinct_domains (m ∷ s) =
      (is_empty (domain m) || not (mem (domain m) (map domain s))) && distinct_domains s

  mem-snoc :
      (e : Text) (m : Text) (s : List Text)
      → mem e (map domain (s ++ m ∷ [])) ≡ (mem e (map domain s) || text_eq e (domain m))
  unfolding mem
  mem-snoc e m [] = ground arith
  mem-snoc e m (y ∷ s) = ground (arith, mem-snoc e m s)

  distinct_domains-snoc :
      (m : Text) (s : List Text)
      → (is_empty (domain m) || not (mem (domain m) (map domain s))) ≡ true
      → distinct_domains s ≡ true
      → distinct_domains (s ++ m ∷ []) ≡ true
  unfolding distinct_domains mem
  distinct_domains-snoc m [] new h = ground arith
  distinct_domains-snoc m (y ∷ s) new h = ground (
    arith,
    distinct_domains-snoc m s,
    mem-snoc (domain y) m s,
    text_eq_sym (domain y) (domain m),
    same_emptiness (domain y) (domain m),
  )

  -- The failure domain of every member of `ranked` is that of a member of `s`.
  abbrev pub Covers : List Text → List Text → Type 0
  Covers s ranked = (x : Text) → mem x ranked ≡ true → mem (domain x) (map domain s) ≡ true

  abbrev pub IsSpread : List Text → List Text → Selection → Type 0
  IsSpread ranked selected (full s) = distinct_domains s ≡ true
  IsSpread ranked selected (short s) =
      Covers s ranked
      × ((e : Text) → mem e (map domain selected) ≡ true → mem e (map domain s) ≡ true)

  Covers-cons :
      (m : Text) (s ranked : List Text)
      → mem (domain m) (map domain s) ≡ true
      → Covers s ranked
      → Covers s (m ∷ ranked)
  unfolding mem
  Covers-cons m s ranked found h x e = elim (Bool-cases (text_eq x m)) [
    | inl same ↦ cc (found, ap (λ y. mem (domain y) (map domain s)) (text_eq→eq x m same))
    | inr other ↦ h x (ground arith)
  ]

  IsSpread-cons :
      (m : Text) (ranked selected after : List Text) (r : Selection)
      → ((e : Text) → mem e (map domain selected) ≡ true → mem e (map domain after) ≡ true)
      → mem (domain m) (map domain after) ≡ true
      → IsSpread ranked after r
      → IsSpread (m ∷ ranked) selected r
  IsSpread-cons m ranked selected after (full s) keeps found h = h
  IsSpread-cons m ranked selected after (short s) keeps found h =
      (Covers-cons m s ranked (h.1 (domain m) found) h.0, λ e p. h.1 e (keeps e p))

  pub select_diverse-IsSpread :
      (count : ℕ) (ranked selected domains : List Text)
      → ((e : Text) → is_empty e ≡ false → mem e domains ≡ mem e (map domain selected))
      → distinct_domains selected ≡ true
      → IsSpread ranked selected (select_diverse count domain ranked selected domains)
  unfolding select_diverse mem
  select_diverse-IsSpread count [] selected domains known h = (λ x e. cc, λ e p. p)
  select_diverse-IsSpread count (m ∷ ranked) selected domains known h =
      let e = domain m in
      elim (Bool-cases (not (is_empty e) && mem e domains)) [
        | inl repeated ↦ rw repeated (
            IsSpread-cons m ranked selected selected _ (λ x p. p) (ground (arith, known e))
              (select_diverse-IsSpread count ranked selected domains known h))
        | inr fresh ↦
            let distinct : distinct_domains (selected ++ m ∷ []) ≡ true =
              distinct_domains-snoc m selected (ground (arith, known e)) h in
            elim (Bool-cases (length (selected ++ m ∷ []) == count)) [
              | inl all ↦ rw (fresh, all) distinct
              | inr more ↦
                  rw (fresh, more)
                    (IsSpread-cons m ranked selected (selected ++ m ∷ []) _
                      (λ x p. ground (arith, mem-snoc x m selected))
                      (ground (arith, mem-snoc e m selected, text_eq_refl e))
                      (select_diverse-IsSpread count ranked (selected ++ m ∷ []) _
                        (λ x p.
                          ground
                            (arith, known x p, mem-snoc x m selected, same_emptiness x (domain m)))
                        distinct))
            ]
      ]

  -- Either no two owners share a failure domain, or every ranked member's domain has an owner.
  unfoldable pub IsDiverse : List Text → List Text → Type 0
  IsDiverse owners ranked = (distinct_domains owners ≡ true) ⊎ Covers owners ranked

  pub covers_mono :
      (s s' : List Text)
      → ((x : Text) → mem x s ≡ true → mem x s' ≡ true)
      → (e : Text) → mem e (map domain s) ≡ true
      → mem e (map domain s') ≡ true
  unfolding mem
  covers_mono [] s' keeps e p = cc
  covers_mono (y ∷ s) s' keeps e p = elim (Bool-cases (text_eq e (domain y))) [
    | inl same ↦
        rw (text_eq→eq e (domain y) same)
          (mem-map domain y s' (keeps y (ground (arith, text_eq_refl y))))
    | inr other ↦ covers_mono s s' (λ x q. keeps x (ground arith)) e (ground arith)
  ]
