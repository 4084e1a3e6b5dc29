-- ===== src/Prelude/Words.antt =====
-- Machine words: 32-bit wrap-around, and the little-endian bytes of a word.
use Prim.Native.Nat.{ℕ, ◌+◌, ◌-◌, ◌*◌, ◌/◌, ◌%◌, ◌<◌, ◌^◌, bit_or}
use mathlib.Core.Path.{◌≡◌, ◌∙◌, ap}
use native.Mathlib.Omega.{arith}
use alderkernel.Prelude.Bits.{bit_or-shift}

-- `unsigned int` sum, difference and product.
abbrev pub add32 : ℕ → ℕ → ℕ
add32 a b = (a + b) % 2 ^ 32

abbrev pub sub32 : ℕ → ℕ → ℕ
sub32 a b = (a + 2 ^ 32 - b) % 2 ^ 32

abbrev pub mul32 : ℕ → ℕ → ℕ
mul32 a b = a * b % 2 ^ 32

-- `(unsigned char)((n >> k) & 0xFF)`
abbrev pub byte : ℕ → ℕ → ℕ
byte n k = n / 2 ^ k % 256

-- `a | (b << 8)`
unfoldable pub le16 : ℕ → ℕ → ℕ
le16 a b = bit_or a (b * 2 ^ 8)

-- `a | (b << 8) | (c << 16) | (d << 24)`, of four bytes
unfoldable pub le32 : ℕ → ℕ → ℕ → ℕ → ℕ
le32 a b c d = bit_or (bit_or (bit_or a (b * 2 ^ 8)) (c * 2 ^ 16)) (d * 2 ^ 24)

pub le16_lem : (a b : ℕ) → a < 256 → le16 a b ≡ a + b * 256
unfolding le16
le16_lem a b h = bit_or-shift 8 a b h

pub le32_lem :
    (a b c d : ℕ)
    → a < 256
    → b < 256
    → c < 256
    → le32 a b c d ≡ a + b * 2 ^ 8 + c * 2 ^ 16 + d * 2 ^ 24
unfolding le32
le32_lem a b c d ha hb hc =
    let s : ℕ = a + b * 2 ^ 8 in
    let t : ℕ = s + c * 2 ^ 16 in
    ap (λ x. bit_or (bit_or x (c * 2 ^ 16)) (d * 2 ^ 24)) (bit_or-shift 8 a b ha)
    ∙ ap (λ x. bit_or x (d * 2 ^ 24)) (bit_or-shift 16 s c (omega arith))
    ∙ bit_or-shift 24 t d (omega arith)

-- The bytes of a word give the word back.
pub le32-byte : (n : ℕ) → n < 2 ^ 32 → le32 (byte n 0) (byte n 8) (byte n 16) (byte n 24) ≡ n
le32-byte n h = omega (
  arith,
  le32_lem (byte n 0) (byte n 8) (byte n 16) (byte n 24) (omega arith) (omega arith) (omega arith),
)

pub le16-byte : (n : ℕ) → le16 (byte n 0) (byte n 8) ≡ n % 2 ^ 16
le16-byte n = omega (arith, le16_lem (byte n 0) (byte n 8) (omega arith))
