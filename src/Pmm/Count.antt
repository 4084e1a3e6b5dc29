-- ===== src/Pmm/Count.antt =====
-- Counting the pages whose flag is clear.
use native.Mathlib.Decide.{ℕ_discrete}
use alderkernel.Prelude.{
  ℕ, zero, suc, ◌+◌, ◌≤◌, ◌<◌, ◌≡◌, refl, sym, ◌≢◌, Bool, true, false, if◌then◌else◌, arith,
}

-- How many of the pages below the bound are not flagged.
pub count_clear : ℕ → (ℕ → Bool) → ℕ
count_clear zero used = 0
count_clear (suc n) used = count_clear n used + (if used n then 0 else 1)

pub count_clear-le : (n : ℕ) (used : ℕ → Bool) → count_clear n used ≤ n
unfolding count_clear
count_clear-le zero used = omega arith
count_clear-le (suc n) used = ground (arith, count_clear-le n used)

pub count_clear-congr :
    (n : ℕ) (f g : ℕ → Bool) → ((q : ℕ) → q < n → f q ≡ g q) → count_clear n f ≡ count_clear n g
unfolding count_clear
count_clear-congr zero f g h = refl
count_clear-congr (suc n) f g h =
    ground (arith, h n, count_clear-congr n f g (λ q l. h q (omega arith)))

-- Flagging one page takes one off the count.
pub count_clear-flag :
    (n p : ℕ) (f g : ℕ → Bool)
    → p < n
    → f p ≡ false
    → g p ≡ true
    → ((q : ℕ) → p ≢ q → g q ≡ f q)
    → count_clear n f ≡ count_clear n g + 1
unfolding count_clear
count_clear-flag zero p f g h fp gp e = absurd (omega arith)
count_clear-flag (suc n) p f g h fp gp e = elim (ℕ_discrete n p) [
  | yes at ↦
      rw (at, fp, gp) (omega (arith, count_clear-congr p f g (λ q l. sym (e q (omega arith)))))
  | no ne ↦ ground (arith, e n (λ x. ne (sym x)), count_clear-flag n p f g (omega arith) fp gp e)
]

-- Some page is clear exactly when the count is not zero.
pub count_clear-pos : (n p : ℕ) (f : ℕ → Bool) → p < n → f p ≡ false → 0 < count_clear n f
unfolding count_clear
count_clear-pos zero p f h fp = absurd (omega arith)
count_clear-pos (suc n) p f h fp = elim (ℕ_discrete n p) [
  | yes at ↦ rw (at, fp) (omega arith)
  | no ne ↦ ground (arith, count_clear-pos n p f (omega arith) fp)
]

pub count_clear-zero : (n : ℕ) (f : ℕ → Bool) → ((q : ℕ) → q < n → f q ≡ true) → count_clear n f ≡ 0
unfolding count_clear
count_clear-zero zero f h = refl
count_clear-zero (suc n) f h = ground (arith, h n, count_clear-zero n f (λ q l. h q (omega arith)))
