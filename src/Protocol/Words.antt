-- ===== src/Protocol/Words.antt =====
-- `struct.pack` and `struct.unpack` of litecast/protocol.py: unsigned numbers, most significant
-- byte first.
use litecast.Common.{
  ℕ, zero, suc, ◌+◌, ◌*◌, ◌/◌, ◌%◌, ◌^◌, ◌<◌, ◌≡◌, refl, [], ◌∷◌, ◌++◌, Bytes, length,
  length-append, arith,
}
use native.Mathlib.Nat.{pow-suc}

-- A value in a field of `width` bytes.
unfoldable pub pack : ℕ → ℕ → Bytes
pack zero v = []
pack (suc width) v = pack width (v / 256) ++ (v % 256) ∷ []

unfoldable pub unpack_from : ℕ → Bytes → ℕ
unpack_from acc [] = acc
unpack_from acc (b ∷ bs) = unpack_from (acc * 256 + b) bs

unfoldable pub unpack : Bytes → ℕ
unfolding unpack_from
unpack = unpack_from 0

-- Each entry is a byte.
abbrev pub AreBytes : Bytes → Type 0
AreBytes [] = Unit
AreBytes (b ∷ bs) = (b < 256) × AreBytes bs

pub length-pack : (width v : ℕ) → length (pack width v) ≡ width
unfolding pack
length-pack zero v = refl
length-pack (suc width) v =
    omega
      (arith, length-append (pack width (v / 256)) ((v % 256) ∷ []), length-pack width (v / 256))

unpack_from-append :
    (acc : ℕ) (bs : Bytes) (b : ℕ) → unpack_from acc (bs ++ b ∷ []) ≡ unpack_from acc bs * 256 + b
unfolding unpack_from
unpack_from-append acc [] b = refl
unpack_from-append acc (c ∷ bs) b = unpack_from-append (acc * 256 + c) bs b

-- A value that fits is read back.
pub unpack-pack : (width v : ℕ) → v < 256 ^ width → unpack (pack width v) ≡ v
unfolding unpack pack
unpack-pack zero v h = omega arith
unpack-pack (suc width) v h =
    let fits : v < 256 ^ width * 256 = rw (pow-suc 256 width) at h in
    omega (
      arith,
      unpack_from-append 0 (pack width (v / 256)) (v % 256),
      unpack-pack width (v / 256) (omega arith),
    )
