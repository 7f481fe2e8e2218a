-- ===== src/Streaming/Binding.antt =====
-- litecast/streaming.py: the lists of checksums that have one root under `merkle_root`.
use litecast.Common.{
  ℕ, suc, ◌<◌, List, [], ◌∷◌, ◌++◌, Text, Bytes, length, drop, map, length-map, codes, ok,
  bind_returns, ◌≡◌, ◌⊎◌, refl, ap, inl, inr, arith,
}
use litecast.Streaming.Hex.{hex-injective, AllBytes, leaves-hex}
use litecast.Streaming.Merkle.{fromhex, hex, leaf, reduce, leaves, root_of, merkle_root}
use litecast.Streaming.Levels.{
  AllSized, Collision, same_or_collision, reduce-length, reduce-injective,
}

module _ (digest : Bytes → Bytes) where
  root_of-single :
      (s : List Bytes)
      → length s ≡ 1
      → (top : Bytes) × (s ≡ top ∷ []) × (root_of digest s ≡ hex top)
  unfolding root_of
  root_of-single [] h = absurd (omega arith)
  root_of-single (a ∷ []) h = (a, refl, refl)
  root_of-single (a ∷ b ∷ s) h = absurd (omega arith)

  -- If there is a shard and every checksum is a hexadecimal digest, `merkle_root` returns a
  -- digest, and as many rounds as there are shards reduce the leaves to it alone.
  pub merkle_root-returns :
      (raws : List Bytes)
      → AllBytes raws
      → 0 < length raws
      → (top : Bytes) × (reduce digest (length raws) (map (leaf digest) raws) ≡ top ∷ [])
        × (merkle_root digest (map hex raws) ≡ ok (hex top))
  unfolding merkle_root
  merkle_root-returns raws h some_shard =
      let size : length (map (leaf digest) raws) ≡ length raws = length-map (leaf digest) raws in
      let (top, alone, root) =
        root_of-single (reduce digest (length raws) (map (leaf digest) raws)) (
          reduce-length digest (length raws) (map (leaf digest) raws) (omega (arith, size))
            (omega (arith, size))) in
      (top, alone, rw (leaves-hex digest raws h, size, root) refl)

  module _ (n : ℕ) (sized : (x : Bytes) → length (digest x) ≡ n) where
    leaf-injective : (a b : Bytes) → leaf digest a ≡ leaf digest b → (a ≡ b) ⊎ Collision digest
    unfolding leaf
    leaf-injective a b h =
        elim (same_or_collision digest (codes "litecast-leaf" ++ 0 ∷ a)
          (codes "litecast-leaf" ++ 0 ∷ b) h) [
            | inr found ↦ inr found
            | inl same ↦ inl (ap (drop 14) same)
          ]

    leaves-AllSized :
        (cs : List Text) (s : List Bytes)
        → leaves digest cs ≡ ok s
        → AllSized n s × (length s ≡ length cs)
    unfolding leaves leaf
    leaves-AllSized [] s h = let empty : s ≡ [] = cc in rw empty (tt, refl)
    leaves-AllSized (c ∷ cs) s h =
        let (raw, _, h1) = bind_returns (fromhex c) _ s h in
        let (rest, e, h2) = bind_returns (leaves digest cs) _ s h1 in
        let front : s ≡ leaf digest raw ∷ rest = cc in
        let (all, size) = leaves-AllSized cs rest e in rw front ((sized _, all), ap suc size)

    leaves-injective :
        (cs ds : List Text) (s : List Bytes)
        → leaves digest cs ≡ ok s
        → leaves digest ds ≡ ok s
        → (map fromhex cs ≡ map fromhex ds) ⊎ Collision digest
    unfolding leaves
    leaves-injective [] [] s hc hd = inl refl
    leaves-injective (c ∷ cs) (d ∷ ds) s hc hd =
        let (raw, e, hc1) = bind_returns (fromhex c) _ s hc in
        let (rest, f, hc2) = bind_returns (leaves digest cs) _ s hc1 in
        let (raw', e', hd1) = bind_returns (fromhex d) _ s hd in
        let (rest', f', hd2) = bind_returns (leaves digest ds) _ s hd1 in
        elim (leaf-injective raw raw' cc) [
          | inr found ↦ inr found
          | inl same ↦ elim (leaves-injective cs ds rest f cc) [
            | inr found ↦ inr found
            | inl others ↦ inl (cc (e, e', same, others))
          ]
        ]
    leaves-injective [] (d ∷ ds) s hc hd =
        let (raw, _, hd1) = bind_returns (fromhex d) _ s hd in
        let (rest, _, hd2) = bind_returns (leaves digest ds) _ s hd1 in absurd (cc)
    leaves-injective (c ∷ cs) [] s hc hd =
        let (raw, _, hc1) = bind_returns (fromhex c) _ s hc in
        let (rest, _, hc2) = bind_returns (leaves digest cs) _ s hc1 in absurd (cc)

    root_of-injective :
        (s t : List Bytes)
        → length s ≡ 1
        → length t ≡ 1
        → root_of digest s ≡ root_of digest t
        → s ≡ t
    unfolding root_of
    root_of-injective (a ∷ []) (b ∷ []) hs ht h = ap (λ x. x ∷ []) (hex-injective a b h)
    root_of-injective [] t hs ht h = absurd (omega arith)
    root_of-injective (a ∷ s) [] hs ht h = absurd (omega arith)
    root_of-injective (a ∷ b ∷ s) t hs ht h = absurd (omega arith)
    root_of-injective (a ∷ []) (b ∷ c ∷ t) hs ht h = absurd (omega arith)

    leaves-IsBound :
        (s t : List Bytes)
        → AllSized n s
        → AllSized n t
        → length s ≡ length t
        → 0 < length s
        → root_of digest (reduce digest (length s) s) ≡ root_of digest (reduce digest (length t) t)
        → (s ≡ t) ⊎ Collision digest
    leaves-IsBound s t hs ht e some_leaf h =
        reduce-injective digest n sized (length s) s t hs ht e (
          root_of-injective (reduce digest (length s) s) (reduce digest (length s) t)
            (reduce-length digest (length s) s some_leaf (omega arith))
            (reduce-length digest (length s) t (omega arith) (omega arith)) (cc (h, e)))

    -- If two lists of as many checksums have the same root, and every digest has `n` bytes, then
    -- the checksums are the same byte strings, or two different byte strings have one digest.
    pub merkle_root-IsBinding :
        (cs ds : List Text) (root : Text)
        → length cs ≡ length ds
        → merkle_root digest cs ≡ ok root
        → merkle_root digest ds ≡ ok root
        → (map fromhex cs ≡ map fromhex ds) ⊎ Collision digest
    unfolding merkle_root
    merkle_root-IsBinding [] [] root e hc hd = inl refl
    merkle_root-IsBinding [] (d ∷ ds) root e hc hd = absurd (omega arith)
    merkle_root-IsBinding (c ∷ cs) ds root e hc hd =
        let (s, hs, rs) = bind_returns (leaves digest (c ∷ cs)) _ root hc in
        let (t, ht, rt) = bind_returns (leaves digest ds) _ root hd in
        let (all_s, size_s) = leaves-AllSized (c ∷ cs) s hs in
        let (all_t, size_t) = leaves-AllSized ds t ht in
        elim (leaves-IsBound s t all_s all_t (omega (arith, size_s, size_t)) (omega (arith, size_s))
          cc) [ inr found ↦ inr found | inl same ↦ leaves-injective (c ∷ cs) ds s hs (rw same ht) ]
