-- ===== src/Streaming/Placement.antt =====
-- litecast/streaming.py: the owners that `shard_owners` returns.
use litecast.Common.{
  ℕ, suc, ◌≤◌, ◌<◌, min, true, List, [], ◌∷◌, Text, Bytes, Option, pos, length, ◌≡◌, refl, inl, inr,
  arith, ok, bind_returns,
}
use litecast.Protocol.Json.{Fields}
use litecast.Streaming.Members.{
  mem, no_duplicates, Profile, Floats, canonical_members, canonical_member_profiles,
}
use litecast.Streaming.Owners.{
  Selection, full, short, select_diverse, fill_up, choose, sort_descending, score_all, shard_owners,
  domain_of, weighted_score, profile_of,
}
use litecast.Streaming.Membership.{
  names, mem-sort_descending, sort_descending-no_duplicates, length-sort_descending,
  canonical_members-returns,
}
use litecast.Streaming.Selection.{
  IsSelection, select_diverse-IsSelection, missing-enough, fill_up-Fills,
}
use litecast.Streaming.Diversity.{
  distinct_domains, IsSpread, select_diverse-IsSpread, covers_mono, IsDiverse,
}

module _ (domain : Text → Text) where
  abbrev Chosen : ℕ → List Text → List Text → Type 0
  Chosen count ranked s =
      (length s ≡ count)
      × (no_duplicates s ≡ true)
      × ((x : Text) → mem x s ≡ true → mem x ranked ≡ true)
      × IsDiverse domain s ranked

  pub choose-Chosen :
      (count : ℕ) (ranked : List Text)
      → no_duplicates ranked ≡ true
      → 0 < count
      → count ≤ length ranked
      → Chosen count ranked (choose count domain ranked)
  unfolding choose IsDiverse mem no_duplicates
  choose-Chosen count ranked d some_owner enough =
      let r = select_diverse count domain ranked [] [] in
      let selection =
        select_diverse-IsSelection count domain ranked [] [] d refl (λ x e. refl) some_owner in
      let spread =
        select_diverse-IsSpread domain count ranked [] [] (λ e p. refl)
          (unfold distinct_domains in refl) in
      finish r selection spread
    where
      finish :
          (r : Selection)
          → IsSelection count domain ranked [] r
          → IsSpread domain ranked [] r
          → Chosen count ranked
              (elim r [ full selected ↦ selected | short selected ↦ fill_up count ranked selected ])
      finish (full s) selection spread = (selection.0, selection.1, selection.2, inl spread)
      finish (short s) selection spread =
          let (reached, distinct, within, kept) =
            fill_up-Fills count ranked s d selection.1 selection.0
              (omega (arith, enough, missing-enough ranked s d)) in
          (
            reached,
            distinct,
            λ x e. ground (arith, within x e, selection.2 x),
            inr (λ x e. covers_mono domain s _ kept (domain x) (spread.0 x e)),
          )

module _ {F : Type 0} (floats : Floats F) (digest : Bytes → Bytes)
    (encode : Text → Option Bytes) where
  -- The scores are those of the members, in their order.
  names-score_all :
      (version : Text) (i : ℕ) (profiles : List (Text × Profile F)) (members : List Text)
      (scored : List (Text × F))
      → score_all floats digest encode version i profiles members ≡ ok scored
      → names scored ≡ members
  unfolding score_all
  names-score_all version i profiles [] scored h = ground arith
  names-score_all version i profiles (m ∷ members) scored h =
      let (profile, _, h1) = bind_returns (profile_of profiles m) _ scored h in
      let (score, _, h2) =
        bind_returns (weighted_score floats digest encode version i m profile) _ scored h1 in
      let (rest, e, h3) =
        bind_returns (score_all floats digest encode version i profiles members) _ scored h2 in
      let ih : names rest ≡ members = names-score_all version i profiles members rest e in
      ground (arith, ih)

  -- Where the members and the profiles are accepted, every score is computed and the factor is
  -- positive, `shard_owners` returns owners: as many as the factor or all members, no member
  -- twice, all of the membership, and either no two in one failure domain, or the failure domain
  -- of every member has an owner.
  pub shard_owners-IsPlacement :
      (version : Text) (i : ℕ) (members canonical : List Text) (factor : ℕ)
      (member_profiles : Fields) (profiles : List (Text × Profile F)) (scored : List (Text × F))
      → canonical_members members ≡ ok canonical
      → canonical_member_profiles floats canonical member_profiles ≡ ok profiles
      → score_all floats digest encode version i profiles canonical ≡ ok scored
      → (owners : List Text) × (shard_owners floats digest encode version i members
            (pos (suc factor))
            member_profiles
          ≡ ok owners)
        × (length owners ≡ min (suc factor) (length canonical))
        × (no_duplicates owners ≡ true)
        × ((x : Text) → mem x owners ≡ true → mem x canonical ≡ true)
        × IsDiverse (domain_of profiles) owners canonical
  unfolding shard_owners IsDiverse
  shard_owners-IsPlacement version i members canonical factor member_profiles profiles scored hm hp
        hs =
      let ranked = names (sort_descending floats.less scored) in
      let count = min (suc factor) (length canonical) in
      let accepted = canonical_members-returns members canonical hm in
      let all : names scored ≡ canonical = names-score_all version i profiles canonical scored hs in
      let same : (x : Text) → mem x ranked ≡ mem x canonical =
        λ x. rw (mem-sort_descending floats.less x scored, all) refl in
      let size : length ranked ≡ length canonical =
        rw (length-sort_descending floats.less scored, all) refl in
      let distinct : no_duplicates ranked ≡ true =
        sort_descending-no_duplicates floats.less scored (rw all accepted.0) in
      let (reached, once, within, diverse) =
        choose-Chosen (domain_of profiles) count ranked distinct (omega (arith, accepted.1))
          (omega (arith, size)) in
      (
        choose count (domain_of profiles) ranked,
        rw (hm, hp, hs) refl,
        reached,
        once,
        λ x e. rw (← same) (within x e),
        elim diverse [ inl apart ↦ inl apart | inr covers ↦ inr (λ x e. covers x (rw same e)) ],
      )
