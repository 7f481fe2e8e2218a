-- ===== src/Streaming/Selection.antt =====
-- litecast/streaming.py: the two loops of `shard_owners` over the ranked members.
use litecast.Common.{
  ℕ, suc, ◌+◌, ◌≤◌, ◌<◌, true, false, not, ◌&&◌, ◌||◌, List, [], ◌∷◌, ◌++◌, Text, length,
  length-append, text_eq, text_eq_refl, text_eq→eq, is_empty, ◌==◌, if◌then◌else◌, Bool-cases, ◌≡◌,
  refl, ap, inl, inr, arith,
}
use litecast.Streaming.Members.{mem, no_duplicates}
use litecast.Streaming.Owners.{Selection, full, short, select_diverse, fill_up}
use litecast.Streaming.Membership.{text_eq_sym, mem-append, no_duplicates-append}

pub length-snoc : (m : Text) (xs : List Text) → length (xs ++ m ∷ []) ≡ suc (length xs)
length-snoc m xs = omega (arith, length-append xs (m ∷ []))

-- A ranked member other than `m` is not selected when `m` is.
apart-snoc :
    (m x : Text) (ranked selected : List Text)
    → mem m ranked ≡ false
    → mem x selected ≡ false
    → mem x ranked ≡ true
    → mem x (selected ++ m ∷ []) ≡ false
unfolding mem
apart-snoc m x ranked selected new old e = elim (Bool-cases (text_eq x m)) [
  | inl same ↦ absurd (cc (new, e, ap (λ y. mem y ranked) (text_eq→eq x m same)))
  | inr other ↦ ground (arith, mem-append x selected (m ∷ []))
]

-- The members in `xs` are among those in `ys` or those in `zs`.
abbrev pub Within : List Text → List Text → List Text → Type 0
Within xs ys zs = (x : Text) → mem x xs ≡ true → (mem x ys || mem x zs) ≡ true

module _ (count : ℕ) (domain_of : Text → Text) where
  -- The result of the first loop on `ranked` behind the members selected.
  abbrev pub IsSelection : List Text → List Text → Selection → Type 0
  IsSelection ranked selected (full s) =
      (length s ≡ count) × (no_duplicates s ≡ true) × Within s selected ranked
  IsSelection ranked selected (short s) =
      (length s < count) × (no_duplicates s ≡ true) × Within s selected ranked

  -- What holds behind a member that is skipped or selected holds with it in front.
  Within-cons :
      (m : Text) (s selected ranked : List Text)
      → Within s selected ranked
      → Within s selected (m ∷ ranked)
  unfolding mem
  Within-cons m s selected ranked h x e = ground (arith, h x e)

  Within-snoc :
      (m : Text) (s selected ranked : List Text)
      → Within s (selected ++ m ∷ []) ranked
      → Within s selected (m ∷ ranked)
  unfolding mem
  Within-snoc m s selected ranked h x e = ground (arith, h x e, mem-append x selected (m ∷ []))

  weaken :
      (before after ranked ranked' : List Text) (r : Selection)
      → ((s : List Text) → Within s after ranked → Within s before ranked')
      → IsSelection ranked after r
      → IsSelection ranked' before r
  weaken before after ranked ranked' (full s) f h = (h.0, h.1, f s h.2)
  weaken before after ranked ranked' (short s) f h = (h.0, h.1, f s h.2)

  pub select_diverse-IsSelection :
      (ranked selected domains : List Text)
      → no_duplicates ranked ≡ true
      → no_duplicates selected ≡ true
      → ((x : Text) → mem x ranked ≡ true → mem x selected ≡ false)
      → length selected < count
      → IsSelection ranked selected (select_diverse count domain_of ranked selected domains)
  unfolding select_diverse no_duplicates mem
  select_diverse-IsSelection [] selected domains d h apart few = (few, h, λ x e. ground arith)
  select_diverse-IsSelection (m ∷ ranked) selected domains d h apart few =
      let domain = domain_of m in
      let new : mem m selected ≡ false = apart m (rw (text_eq_refl m) refl) in
      let distinct : no_duplicates (selected ++ m ∷ []) ≡ true =
        no_duplicates-append m selected new h in
      elim (Bool-cases (not (is_empty domain) && mem domain domains)) [
        | inl repeated ↦ rw repeated (
            weaken selected selected ranked (m ∷ ranked) _ (λ s. Within-cons m s selected ranked)
              (select_diverse-IsSelection ranked selected domains (ground arith) h
                (λ x e. apart x (ground arith)) few))
        | inr fresh ↦ elim (Bool-cases (length (selected ++ m ∷ []) == count)) [
          | inl all ↦
              rw (fresh, all)
                (ground arith, distinct, λ x e. ground (arith, mem-append x selected (m ∷ [])))
          | inr more ↦
              rw (fresh, more)
                (weaken selected (selected ++ m ∷ []) ranked (m ∷ ranked) _
                  (λ s. Within-snoc m s selected ranked)
                  (select_diverse-IsSelection ranked (selected ++ m ∷ []) _ (ground arith) distinct
                    (λ x e.
                      apart-snoc m x ranked selected (ground arith) (apart x (ground arith)) e)
                    (ground (arith, length-snoc m selected))))
        ]
      ]

-- The ranked members that are not selected, counted.
unfoldable pub missing : List Text → List Text → ℕ
missing [] selected = 0
missing (m ∷ ranked) selected =
    let rest = missing ranked selected in if mem m selected then rest else suc rest

missing-nil : (ranked : List Text) → missing ranked [] ≡ length ranked
unfolding missing mem
missing-nil [] = refl
missing-nil (m ∷ ranked) = ap suc (missing-nil ranked)

missing-cons :
    (m : Text) (ranked selected : List Text)
    → mem m ranked ≡ false
    → missing ranked (m ∷ selected) ≡ missing ranked selected
unfolding missing mem
missing-cons m [] selected new = refl
missing-cons m (r ∷ ranked) selected new =
    ground (arith, missing-cons m ranked selected, text_eq_sym m r)

missing-snoc :
    (m : Text) (ranked selected : List Text)
    → mem m ranked ≡ false
    → missing ranked (selected ++ m ∷ []) ≡ missing ranked selected
unfolding missing mem
missing-snoc m [] selected new = refl
missing-snoc m (r ∷ ranked) selected new =
    ground (arith, missing-snoc m ranked selected, text_eq_sym m r, mem-append r selected (m ∷ []))

missing-step :
    (x : Text) (ranked selected : List Text)
    → no_duplicates ranked ≡ true
    → missing ranked selected ≤ suc (missing ranked (x ∷ selected))
unfolding missing mem no_duplicates
missing-step x [] selected d = omega arith
missing-step x (r ∷ ranked) selected d = elim (Bool-cases (text_eq r x)) [
  | inl same ↦
      let e : r ≡ x = text_eq→eq r x same in
      let new : mem x ranked ≡ false = rw (← e) (ground arith) in
      ground (arith, missing-cons x ranked selected new)
  | inr other ↦ ground (arith, missing-step x ranked selected)
]

pub missing-enough :
    (ranked selected : List Text)
    → no_duplicates ranked ≡ true
    → length ranked ≤ length selected + missing ranked selected
missing-enough ranked [] d = omega (arith, missing-nil ranked)
missing-enough ranked (x ∷ selected) d =
    omega (arith, missing-step x ranked selected d, missing-enough ranked selected d)

-- The second loop reaches the count, where enough members are missing.
pub fill_up-Fills :
    (count : ℕ) (ranked selected : List Text)
    → no_duplicates ranked ≡ true
    → no_duplicates selected ≡ true
    → length selected < count
    → count ≤ length selected + missing ranked selected
    → (length (fill_up count ranked selected) ≡ count)
      × (no_duplicates (fill_up count ranked selected) ≡ true)
      × Within (fill_up count ranked selected) selected ranked
      × ((x : Text) → mem x selected ≡ true → mem x (fill_up count ranked selected) ≡ true)
unfolding fill_up missing no_duplicates mem
fill_up-Fills count [] selected d h few enough = absurd (omega arith)
fill_up-Fills count (m ∷ ranked) selected d h few enough = elim (Bool-cases (mem m selected)) [
  | inl old ↦
      let unfilled : (length selected == count) ≡ false = ground arith in
      let (reached, distinct, within, kept) =
        fill_up-Fills count ranked selected (ground arith) h few (ground arith) in
      rw (old, unfilled) (reached, distinct, λ x e. ground (arith, within x e), kept)
  | inr new ↦
      let selected' = selected ++ m ∷ [] in
      let distinct' : no_duplicates selected' ≡ true = no_duplicates-append m selected new h in
      elim (Bool-cases (length selected' == count)) [
        | inl all ↦
            rw (new, all)
              (
                ground arith,
                distinct',
                λ x e. ground (arith, mem-append x selected (m ∷ [])),
                λ x e. ground (arith, mem-append x selected (m ∷ [])),
              )
        | inr more ↦
            let (reached, distinct, within, kept) =
              fill_up-Fills count ranked selected' (ground arith) distinct'
                (ground (arith, length-snoc m selected))
                (ground (arith, length-snoc m selected, missing-snoc m ranked selected)) in
            rw (new, more)
              (
                reached,
                distinct,
                λ x e. ground (arith, within x e, mem-append x selected (m ∷ [])),
                λ x e. kept x (ground (arith, mem-append x selected (m ∷ []))),
              )
      ]
]
