-- ===== src/Pmm/Bitmap.antt =====
-- The bitmap of kernel/mm/pmm.c as an array of flags: what each write does to every flag.
use alderkernel.Prelude.{
  ℕ, ◌-◌, ◌/◌, ◌%◌, ◌^◌, ◌<◌, ◌≡◌, refl, bit_and, bit_or, Bool, true, false, not, ◌&&◌, ◌||◌, List,
  ◌==◌, ltb, ltb→lt, ap, and_left, and_right, sym, ◌∙◌, if_under, if◌then◌else◌, get_or, set,
  length, get_or-set, length-set, arith,
}
use alderkernel.Prelude.Bits.{holds_to, holds_to_lem}
use alderkernel.Pmm.{max_pages, bitmap_size, bitmap_set, bitmap_clear, bitmap_test}

-- 4096 bytes.
pub record IsBitmap (bm : List ℕ) : Type 0 where
  pub size : length bm ≡ bitmap_size
  pub bytes : (i : ℕ) → get_or bm i 0 < 256

abbrev flag : ℕ → ℕ → Bool
flag b k = not (bit_and b (2 ^ k) == 0)

abbrev same : Bool → Bool → Bool
same true b = b
same false b = not b

abbrev set_ok : ℕ → ℕ → ℕ → Bool
set_ok b k j = same (flag (bit_or b (2 ^ k)) j) (k == j || flag b j) && ltb (bit_or b (2 ^ k)) 256

abbrev clear_ok : ℕ → ℕ → ℕ → Bool
clear_ok b k j =
    same (flag (bit_and b (255 - 2 ^ k)) j) (not (k == j) && flag b j)
    && ltb (bit_and b (255 - 2 ^ k)) 256

tables :
    holds_to 256 (λ b. holds_to 8 (λ k. holds_to 8 (λ j. set_ok b k j && clear_ok b k j))) ≡ true
unfolding holds_to
tables = refl

table : (b k j : ℕ) → b < 256 → k < 8 → j < 8 → (set_ok b k j && clear_ok b k j) ≡ true
table b k j hb hk hj =
    holds_to_lem 8 _ j
      (holds_to_lem 8 (λ k. holds_to 8 (λ j. set_ok b k j && clear_ok b k j)) k
        (holds_to_lem 256 _ b tables hb) hk)
      hj

same-eq : (a b : Bool) → same a b ≡ true → a ≡ b
same-eq true b h = sym h
same-eq false true h = cc
same-eq false false h = refl

-- One byte: what the two masks do to every flag of it.
flag-set : (b k j : ℕ) → b < 256 → k < 8 → j < 8 → flag (bit_or b (2 ^ k)) j ≡ (k == j || flag b j)
flag-set b k j hb hk hj = same-eq _ _ (and_left _ _ (and_left _ _ (table b k j hb hk hj)))

flag-clear :
    (b k j : ℕ)
    → b < 256
    → k < 8
    → j < 8
    → flag (bit_and b (255 - 2 ^ k)) j ≡ (not (k == j) && flag b j)
flag-clear b k j hb hk hj = same-eq _ _ (and_left _ _ (and_right _ _ (table b k j hb hk hj)))

byte-set : (b k : ℕ) → b < 256 → k < 8 → bit_or b (2 ^ k) < 256
byte-set b k hb hk = ltb→lt _ _ (and_right _ _ (and_left _ _ (table b k 0 hb hk (omega arith))))

byte-clear : (b k : ℕ) → b < 256 → k < 8 → bit_and b (255 - 2 ^ k) < 256
byte-clear b k hb hk = ltb→lt _ _ (and_right _ _ (and_right _ _ (table b k 0 hb hk (omega arith))))

-- A write to a page's byte, seen from the byte of any page.
module _ {bm : List ℕ} (v : IsBitmap bm) (p : ℕ) (h : p < max_pages) where
  in_range : p / 8 < length bm
  in_range = omega (arith, v.size)

  pub IsBitmap-set_byte : (x : ℕ) → x < 256 → IsBitmap (set bm (p / 8) x)
  IsBitmap-set_byte x hx = record {
    size = length-set bm (p / 8) x ∙ v.size;
    bytes = λ i. ground (arith, get_or-set bm (p / 8) i x 0 in_range, v.bytes i);
  }

  -- The flags after a write of `x` to the byte of page `p`.
  test-set_byte :
      (x q : ℕ)
      → bitmap_test (set bm (p / 8) x) q
        ≡ (if p / 8 == q / 8 then flag x (q % 8) else bitmap_test bm q)
  unfolding bitmap_test
  test-set_byte x q =
      rw (get_or-set bm (p / 8) (q / 8) x 0 in_range)
        (if_under (λ b. flag b (q % 8)) (p / 8 == q / 8) x (get_or bm (q / 8) 0))

  test-byte : (q : ℕ) → p / 8 ≡ q / 8 → flag (get_or bm (p / 8) 0) (q % 8) ≡ bitmap_test bm q
  unfolding bitmap_test
  test-byte q e = ap (λ i. flag (get_or bm i 0) (q % 8)) e

  -- The bit that is set is the page's own, and no other.
  pub bitmap_test-set : (q : ℕ) → bitmap_test (bitmap_set bm p) q ≡ (p == q || bitmap_test bm q)
  unfolding bitmap_set
  bitmap_test-set q =
      let b : ℕ = get_or bm (p / 8) 0 in
      ground (
        arith,
        test-set_byte (bit_or b (2 ^ (p % 8))) q,
        flag-set b (p % 8) (q % 8) (v.bytes (p / 8)) (omega arith) (omega arith),
        test-byte q,
      )

  pub bitmap_test-clear :
      (q : ℕ) → bitmap_test (bitmap_clear bm p) q ≡ (not (p == q) && bitmap_test bm q)
  unfolding bitmap_clear
  bitmap_test-clear q =
      let b : ℕ = get_or bm (p / 8) 0 in
      ground (
        arith,
        test-set_byte (bit_and b (255 - 2 ^ (p % 8))) q,
        flag-clear b (p % 8) (q % 8) (v.bytes (p / 8)) (omega arith) (omega arith),
        test-byte q,
      )

  pub bitmap_set-IsBitmap : IsBitmap (bitmap_set bm p)
  unfolding bitmap_set
  bitmap_set-IsBitmap = IsBitmap-set_byte _ (byte-set _ (p % 8) (v.bytes (p / 8)) (omega arith))

  pub bitmap_clear-IsBitmap : IsBitmap (bitmap_clear bm p)
  unfolding bitmap_clear
  bitmap_clear-IsBitmap = IsBitmap-set_byte _ (byte-clear _ (p % 8) (v.bytes (p / 8)) (omega arith))
