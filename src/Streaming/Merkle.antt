-- ===== src/Streaming/Merkle.antt =====
-- litecast/streaming.py: `merkle_root`. The digest of the package blake3 is a parameter.
use litecast.Common.{
  ℕ, zero, suc, ◌+◌, ◌-◌, ◌*◌, ◌/◌, ◌%◌, Bool, ◌&&◌, ◌||◌, List, [], ◌∷◌, ◌++◌, Option, none, some,
  Text, Bytes, length, ◌==◌, leb, ltb, codes, Outcome, ok, raise, ◌>>=◌, if◌then◌else◌,
}
use litecast.Streaming.Members.{PlacementError, value_error}

unfoldable pub nibble : ℕ → Option ℕ
nibble c =
    if leb b'0' c && leb c b'9'
    then some (c - b'0')
    else if leb b'a' c && leb c b'f'
    then some (c - 87)
    else if leb b'A' c && leb c b'F'
    then some (c - 55)
    else none

unfoldable pub is_ascii_space : ℕ → Bool
is_ascii_space c = (c == 32) || (leb 9 c && leb c 13)

-- `bytes.fromhex`, which skips white space between the bytes.
unfoldable pub fromhex : Text → Outcome PlacementError Bytes
unfolding nibble is_ascii_space
fromhex [] = ok []
fromhex (c ∷ []) = if is_ascii_space c then ok [] else raise value_error
fromhex (c ∷ d ∷ s) =
    let skipped = fromhex (d ∷ s) in
    let rest = fromhex s in
    if is_ascii_space c then skipped else elim (nibble c) [
      | none ↦ raise value_error
      | some high ↦ elim (nibble d) [
        | none ↦ raise value_error
        | some low ↦ do bytes ← rest; ok ((high * 16 + low) ∷ bytes)
      ]
    ]

unfoldable pub hex_digit : ℕ → ℕ
hex_digit n = if ltb n 10 then b'0' + n else 87 + n

-- `bytes.hex`
unfoldable pub hex : Bytes → Text
unfolding hex_digit
hex [] = []
hex (b ∷ bytes) = hex_digit (b / 16) ∷ hex_digit (b % 16) ∷ hex bytes

module _ (digest : Bytes → Bytes) where
  unfoldable pub leaf : Bytes → Bytes
  leaf checksum = digest (codes "litecast-leaf" ++ 0 ∷ checksum)

  unfoldable pub node : Bytes → Bytes → Bytes
  node left right = digest (codes "litecast-node" ++ 0 ∷ (left ++ right))

  -- One round of the loop. At the end of an odd level the last digest stands twice.
  unfoldable pub next_level : List Bytes → List Bytes
  next_level [] = []
  next_level (a ∷ []) = node a a ∷ []
  next_level (a ∷ b ∷ level) = node a b ∷ next_level level

  -- The loop, which halves the level. As many rounds as the level has digests are enough.
  unfoldable pub reduce : ℕ → List Bytes → List Bytes
  unfolding next_level
  reduce zero level = level
  reduce (suc fuel) level =
      let later = reduce fuel (next_level level) in if ltb 1 (length level) then later else level

  unfoldable pub leaves : List Text → Outcome PlacementError (List Bytes)
  leaves [] = ok []
  leaves (checksum ∷ checksums) = do
    raw ← fromhex checksum
    rest ← leaves checksums
    ok (leaf raw ∷ rest)

  -- `level[0].hex()`, or the digest for no shards.
  unfoldable pub root_of : List Bytes → Text
  root_of [] = hex (digest (codes "litecast-empty" ++ 0 ∷ []))
  root_of (root ∷ _) = hex root

  unfoldable pub merkle_root : List Text → Outcome PlacementError Text
  unfolding leaves
  merkle_root shard_checksums = do
    level ← leaves shard_checksums
    ok (root_of (reduce (length level) level))
