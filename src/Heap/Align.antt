-- ===== src/Heap/Align.antt =====
-- The rounding of a request to a multiple of eight, where it wraps and where it does not.
use alderkernel.Prelude.{
  ℕ, ◌+◌, ◌-◌, ◌/◌, ◌%◌, ◌^◌, ◌<◌, ◌≤◌, ◌≡◌, ap, ◌∙◌, bit_and, add32, sub32, arith,
}
use alderkernel.Prelude.Bits.{bit_and_step, bit_and_ones}
use alderkernel.Heap.{align_up}

bit_and-eights : (x : ℕ) → x < 2 ^ 32 → bit_and x 0xfffffff8 ≡ x - x % 8
bit_and-eights x h = omega (
  arith,
  bit_and_step x 0xfffffff8,
  bit_and_step (x / 2) 0x7ffffffc,
  bit_and_step (x / 2 / 2) 0x3ffffffe,
  bit_and_ones 29 (x / 2 / 2 / 2) 0x1fffffff (omega arith) (omega arith),
)

align_up_lem : (n : ℕ) → align_up n 8 ≡ (n + 7) % 2 ^ 32 - (n + 7) % 2 ^ 32 % 8
unfolding align_up
align_up_lem n =
    let x : sub32 (add32 n 8) 1 ≡ (n + 7) % 2 ^ 32 = omega arith in
    ap (λ t. bit_and t 0xfffffff8) x ∙ bit_and-eights ((n + 7) % 2 ^ 32) (omega arith)

-- A request of at most 2^32 - 8 bytes is rounded up to the next multiple of eight.
pub align_up_bounds :
    (n : ℕ) → n + 7 < 2 ^ 32 → (n ≤ align_up n 8) × (align_up n 8 < n + 8) × (align_up n 8 % 8 ≡ 0)
align_up_bounds n h = omega (arith, align_up_lem n)

pub align_up_wraps : (n : ℕ) → 2 ^ 32 ≤ n + 7 → n < 2 ^ 32 → align_up n 8 ≡ 0
align_up_wraps n h lt = omega (arith, align_up_lem n)
