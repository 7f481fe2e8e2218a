-- ===== src/Streaming/Hex.antt =====
-- litecast/streaming.py: the hexadecimal digests that `merkle_root` reads and writes.
use litecast.Common.{
  ℕ, ◌+◌, ◌*◌, ◌/◌, ◌%◌, ◌<◌, List, [], ◌∷◌, Bytes, map, some, false, ok, ◌≡◌, refl, arith,
}
use litecast.Protocol.Words.{AreBytes}
use litecast.Streaming.Merkle.{fromhex, hex_digit, hex, leaf, leaves, nibble, is_ascii_space}

hex_digit-injective : (m n : ℕ) → hex_digit m ≡ hex_digit n → m ≡ n
unfolding hex_digit
hex_digit-injective m n h = ground arith

byte_eq : (a b : ℕ) → a / 16 ≡ b / 16 → a % 16 ≡ b % 16 → a ≡ b
byte_eq a b high low = omega arith

pub hex-injective : (s t : Bytes) → hex s ≡ hex t → s ≡ t
unfolding hex
hex-injective [] [] h = refl
hex-injective (a ∷ s) (b ∷ t) h = ground (
  arith,
  hex-injective s t,
  byte_eq a b (hex_digit-injective (a / 16) (b / 16) cc) (hex_digit-injective (a % 16) (b % 16) cc),
)
hex-injective [] (b ∷ t) h = absurd (cc)
hex-injective (a ∷ s) [] h = absurd (cc)

nibble-hex_digit : (n : ℕ) → n < 16 → nibble (hex_digit n) ≡ some n
unfolding nibble hex_digit
nibble-hex_digit n h = ground arith

digit_is_no_space : (n : ℕ) → is_ascii_space (hex_digit n) ≡ false
unfolding is_ascii_space hex_digit
digit_is_no_space n = ground arith

pub fromhex-hex : (bytes : Bytes) → AreBytes bytes → fromhex (hex bytes) ≡ ok bytes
unfolding fromhex hex
fromhex-hex [] h = refl
fromhex-hex (b ∷ bytes) h =
    let e : b / 16 * 16 + b % 16 ≡ b = omega arith in
    rw
      (
        digit_is_no_space (b / 16),
        nibble-hex_digit (b / 16) (omega (arith, h.0)),
        nibble-hex_digit (b % 16) (omega arith),
        fromhex-hex bytes h.1,
        e,
      )
      refl

abbrev pub AllBytes : List Bytes → Type 0
AllBytes [] = Unit
AllBytes (raw ∷ raws) = AreBytes raw × AllBytes raws

pub leaves-hex :
    (digest : Bytes → Bytes) (raws : List Bytes)
    → AllBytes raws
    → leaves digest (map hex raws) ≡ ok (map (leaf digest) raws)
unfolding leaves
leaves-hex digest [] h = refl
leaves-hex digest (raw ∷ raws) h = rw (fromhex-hex raw h.0, leaves-hex digest raws h.1) refl
