-- ===== src/Prelude/Bits.antt =====
-- Facts about the bit operations at variables, for the masks and the byte orders of the kernel.
use Prim.Native.Nat.{
  ℕ, zero, suc, ◌+◌, ◌*◌, ◌/◌, ◌%◌, ◌-◌, ◌≤◌, ◌<◌, ◌^◌, max, bit_or, digits, bit_or-bitwise,
  bit_and, bit_and-bitwise, min,
}
use mathlib.Core.Path.{◌≡◌, refl, ap, ap₂, sym, ◌∙◌}
use mathlib.Core.Bool.{Bool, true, ◌&&◌}
use native.Mathlib.Omega.{arith}
use native.Mathlib.Nat.{pow-suc}
use native.Mathlib.Decide.{ℕ_discrete}
use alderkernel.Prelude.Tests.{and_left, and_right}

-- A test that every number below a bound passes, run on all of them.
unfoldable pub holds_to : ℕ → (ℕ → Bool) → Bool
holds_to zero test = true
holds_to (suc bound) test = holds_to bound test && test bound

pub holds_to_lem :
    (bound : ℕ) (test : ℕ → Bool) (i : ℕ) → holds_to bound test ≡ true → i < bound → test i ≡ true
unfolding holds_to
holds_to_lem zero test i all below = absurd (omega arith)
holds_to_lem (suc bound) test i all below = elim (ℕ_discrete i bound) [
  | yes e ↦ ap test e ∙ and_right (holds_to bound test) (test bound) all
  | no ne ↦
      holds_to_lem bound test i (and_left (holds_to bound test) (test bound) all) (omega arith)
]

-- What the bit operations are by definition: an operation on binary digits, on a count of them.
module _ (z : ℕ → ℕ) (f : ℕ → ℕ → ℕ) where
  no_digits : (k b : ℕ) → digits z f k 0 b ≡ z b
  no_digits zero b = refl
  no_digits (suc k) b = refl

  more_digits : (n k a b : ℕ) → a ≤ n → digits z f (n + k) a b ≡ digits z f n a b
  more_digits n k zero b h = no_digits (n + k) b ∙ sym (no_digits n b)
  more_digits zero k (suc a) b h = absurd (omega arith)
  more_digits (suc n) k (suc a) b h =
      let out : suc n + k ≡ suc (n + k) = omega arith in
      ap (λ m. digits z f m (suc a) b) out
      ∙ ap (λ r. r * 2 + f (suc a % 2) (b % 2)) (more_digits n k (suc a / 2) (b / 2) (omega arith))

  lowest_digit :
      (a b c : ℕ)
      → c ≡ suc a / 2
      → digits z f (suc a) (suc a) b ≡ digits z f c c (b / 2) * 2 + f (suc a % 2) (b % 2)
  lowest_digit a b c e =
      let fuel : a ≡ c + (a - c) = omega arith in
      let half : digits z f a (suc a / 2) (b / 2) ≡ digits z f c c (b / 2) =
        ap₂ (λ m x. digits z f m x (b / 2)) fuel (sym e)
        ∙ more_digits c (a - c) c (b / 2) (omega arith) in
      ap (λ r. r * 2 + f (suc a % 2) (b % 2)) half

pub zero-bit_or : (b : ℕ) → bit_or 0 b ≡ b
zero-bit_or b = bit_or-bitwise 0 b

-- The lowest digit of a disjunction.
pub bit_or_step : (x y : ℕ) → bit_or x y ≡ bit_or (x / 2) (y / 2) * 2 + max (x % 2) (y % 2)
bit_or_step zero y = omega (arith, zero-bit_or y, zero-bit_or (y / 2))
bit_or_step (suc x) y =
    bit_or-bitwise (suc x) y
    ∙ lowest_digit _ max x y (suc x / 2) refl
    ∙ ap (λ r. r * 2 + max (suc x % 2) (y % 2)) (sym (bit_or-bitwise (suc x / 2) (y / 2)))

-- `a | (b << k)` is a sum where `a` has no more than `k` bits.
pub bit_or-shift : (k a b : ℕ) → a < 2 ^ k → bit_or a (b * 2 ^ k) ≡ a + b * 2 ^ k
bit_or-shift zero zero b h = omega (arith, zero-bit_or (b * 2 ^ 0))
bit_or-shift zero (suc a) b h = absurd (omega arith)
bit_or-shift (suc k) a b h =
    let p : ℕ = 2 ^ k in
    let e : 2 ^ suc k ≡ p + p = omega (arith, pow-suc 2 k) in
    let eb : b * 2 ^ suc k ≡ b * p + b * p = omega (arith, ap (λ (t : ℕ). b * t) e) in
    let half : b * 2 ^ suc k / 2 ≡ b * p = omega arith in
    let rest : bit_or (a / 2) (b * 2 ^ suc k / 2) ≡ a / 2 + b * p =
      ap (bit_or (a / 2)) half ∙ bit_or-shift k (a / 2) b (omega arith) in
    omega (arith, bit_or_step a (b * 2 ^ suc k), rest)

zero-bit_and : (b : ℕ) → bit_and 0 b ≡ 0
zero-bit_and b = bit_and-bitwise 0 b

-- The lowest digit of a conjunction.
pub bit_and_step : (x y : ℕ) → bit_and x y ≡ bit_and (x / 2) (y / 2) * 2 + min (x % 2) (y % 2)
bit_and_step zero y = omega (arith, zero-bit_and y, zero-bit_and (y / 2))
bit_and_step (suc x) y =
    bit_and-bitwise (suc x) y
    ∙ lowest_digit _ min x y (suc x / 2) refl
    ∙ ap (λ r. r * 2 + min (suc x % 2) (y % 2)) (sym (bit_and-bitwise (suc x / 2) (y / 2)))

-- With no bits on the right: nothing is left of a conjunction, all of a disjunction.
no_bits : (size n : ℕ) → n ≤ size → (bit_and n 0 ≡ 0) × (bit_or n 0 ≡ n)
no_bits size zero h = (zero-bit_and 0, zero-bit_or 0)
no_bits zero (suc n) h = absurd (omega arith)
no_bits (suc size) (suc n) h =
    let half = no_bits size (suc n / 2) (omega arith) in
    (omega (arith, bit_and_step (suc n) 0, half.0), omega (arith, bit_or_step (suc n) 0, half.1))

pub bit_and-zero : (n : ℕ) → bit_and n 0 ≡ 0
bit_and-zero n = (no_bits n n (omega arith)).0

pub bit_or-zero : (n : ℕ) → bit_or n 0 ≡ n
bit_or-zero n = (no_bits n n (omega arith)).1

-- `a & (2^k - 1)` keeps a number of no more than `k` bits.
pub bit_and_ones : (k a m : ℕ) → m + 1 ≡ 2 ^ k → a < 2 ^ k → bit_and a m ≡ a
bit_and_ones zero zero m e h = zero-bit_and m
bit_and_ones zero (suc a) m e h = absurd (omega arith)
bit_and_ones (suc k) a m e h =
    let p : ℕ = 2 ^ k in
    let two : 2 ^ suc k ≡ p + p = omega (arith, pow-suc 2 k) in
    let odd : m / 2 + 1 ≡ p = omega arith in
    omega (arith, bit_and_step a m, bit_and_ones k (a / 2) (m / 2) odd (omega arith))

two_bits : (a m : ℕ) → m % 4 ≡ 3 → bit_and a m ≡ bit_and (a / 4) (m / 4) * 4 + a % 4
two_bits a m h =
    let shift : bit_and (a / 2 / 2) (m / 2 / 2) ≡ bit_and (a / 4) (m / 4) =
      ap₂ bit_and (omega arith) (omega arith) in
    omega (arith, bit_and_step a m, bit_and_step (a / 2) (m / 2), shift)

-- `a & 0xFFFF`
pub bit_and_word : (a : ℕ) → bit_and a 0xffff ≡ a % 2 ^ 16
bit_and_word a = omega (
  arith,
  two_bits a 0xffff (omega arith),
  two_bits (a / 4) 0x3fff (omega arith),
  two_bits (a / 4 / 4) 0xfff (omega arith),
  two_bits (a / 4 / 4 / 4) 0x3ff (omega arith),
  two_bits (a / 4 / 4 / 4 / 4) 0xff (omega arith),
  two_bits (a / 4 / 4 / 4 / 4 / 4) 0x3f (omega arith),
  two_bits (a / 4 / 4 / 4 / 4 / 4 / 4) 0xf (omega arith),
  two_bits (a / 4 / 4 / 4 / 4 / 4 / 4 / 4) 0x3 (omega arith),
  bit_and-zero (a / 4 / 4 / 4 / 4 / 4 / 4 / 4 / 4),
)
