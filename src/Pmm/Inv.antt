-- ===== src/Pmm/Inv.antt =====
-- The invariant of the page allocator: the bitmap is whole, and the count is that of its clear bits.
use alderkernel.Prelude.{
  ℕ, zero, suc, max, ◌+◌, ◌≤◌, ◌<◌, ◌≡◌, Bool, true, false, not, ◌&&◌, ◌||◌, ◌==◌, ltb, arith, ap,
  leb, if_both,
}
use alderkernel.Pmm.{
  Pmm, max_pages, bitmap_set, bitmap_clear, bitmap_test, mark_used, mark_free, reserve_page,
  release_page, reserve_range, release_range,
}
use alderkernel.Pmm.Bitmap.{
  IsBitmap, bitmap_test-set, bitmap_test-clear, bitmap_set-IsBitmap, bitmap_clear-IsBitmap,
}
use alderkernel.Pmm.Count.{count_clear, count_clear-le, count_clear-flag}

-- The page is handed out or reserved.
abbrev pub is_used : Pmm → ℕ → Bool
is_used s p = bitmap_test s.bitmap p

pub record IsValid (s : Pmm) : Type 0 where
  pub whole : IsBitmap s.bitmap
  pub counted : s.free_pages_count ≡ count_clear max_pages (bitmap_test s.bitmap)

module _ {s : Pmm} (v : IsValid s) (p : ℕ) (h : p < max_pages) where
  pub is_used-mark_used : (q : ℕ) → is_used (mark_used p s) q ≡ (p == q || is_used s q)
  unfolding mark_used
  is_used-mark_used q = bitmap_test-set v.whole p h q

  pub is_used-mark_free : (q : ℕ) → is_used (mark_free p s) q ≡ (not (p == q) && is_used s q)
  unfolding mark_free
  is_used-mark_free q = bitmap_test-clear v.whole p h q

  -- The count does not wrap below zero: the page itself is one of those counted.
  pub mark_used-IsValid : is_used s p ≡ false → IsValid (mark_used p s)
  unfolding mark_used
  mark_used-IsValid e = record {
    whole = bitmap_set-IsBitmap v.whole p h;
    counted = omega (
      arith,
      v.counted,
      count_clear-le max_pages (bitmap_test s.bitmap),
      count_clear-flag max_pages p (bitmap_test s.bitmap) (bitmap_test (bitmap_set s.bitmap p)) h e
          (ground (arith, bitmap_test-set v.whole p h p))
          (λ q ne. ground (arith, bitmap_test-set v.whole p h q)),
    );
  }

  pub mark_free-IsValid : is_used s p ≡ true → IsValid (mark_free p s)
  unfolding mark_free
  mark_free-IsValid e = record {
    whole = bitmap_clear-IsBitmap v.whole p h;
    counted = omega (
      arith,
      v.counted,
      count_clear-le max_pages (bitmap_test (bitmap_clear s.bitmap p)),
      count_clear-flag max_pages p (bitmap_test (bitmap_clear s.bitmap p)) (bitmap_test s.bitmap) h
          (ground (arith, bitmap_test-clear v.whole p h p)) e
          (λ q ne. ground (arith, bitmap_test-clear v.whole p h q)),
    );
  }

-- Each operation, its guard included: it keeps the invariant, and what it does to every page.
module _ {s : Pmm} (v : IsValid s) (p : ℕ) where
  pub reserve_page-IsValid : IsValid (reserve_page p s)
  unfolding reserve_page
  reserve_page-IsValid =
      if_both IsValid (ltb p max_pages && not (is_used s p))
        (λ e. mark_used-IsValid v p (ground arith) (ground arith)) (λ _. v)

  pub is_used-reserve_page :
      p < max_pages → (q : ℕ) → is_used (reserve_page p s) q ≡ (p == q || is_used s q)
  unfolding reserve_page
  is_used-reserve_page h q =
      if_both (λ t. is_used t q ≡ (p == q || is_used s q)) (ltb p max_pages && not (is_used s p))
        (λ e. is_used-mark_used v p h q) (λ e. ground (arith, ap (is_used s)))

  pub release_page-IsValid : p < max_pages → IsValid (release_page p s)
  unfolding release_page
  release_page-IsValid h = if_both IsValid (is_used s p) (λ e. mark_free-IsValid v p h e) (λ _. v)

  pub is_used-release_page :
      p < max_pages → (q : ℕ) → is_used (release_page p s) q ≡ (not (p == q) && is_used s q)
  unfolding release_page
  is_used-release_page h q =
      if_both (λ t. is_used t q ≡ (not (p == q) && is_used s q)) (is_used s p)
        (λ e. is_used-mark_free v p h q) (λ e. ground (arith, ap (is_used s)))

-- A range of pages, `[p, p + n)`.
abbrev pub within : ℕ → ℕ → ℕ → Bool
within p n q = leb p q && ltb q (p + n)

pub reserve_range-IsValid : (n p : ℕ) {s : Pmm} → IsValid s → IsValid (reserve_range n p s)
unfolding reserve_range
reserve_range-IsValid zero p v = v
reserve_range-IsValid (suc n) p v = reserve_range-IsValid n (p + 1) (reserve_page-IsValid v p)

pub is_used-reserve_range :
    (n p : ℕ) {s : Pmm}
    → IsValid s
    → p + n ≤ max max_pages p
    → (q : ℕ) → is_used (reserve_range n p s) q ≡ (within p n q || is_used s q)
unfolding reserve_range
is_used-reserve_range zero p v h q = ground arith
is_used-reserve_range (suc n) p {s} v h q = ground (
  arith,
  is_used-reserve_range n (p + 1) (reserve_page-IsValid v p) (omega arith) q,
  is_used-reserve_page v p (omega arith) q,
)

pub release_range-IsValid :
    (n p : ℕ) {s : Pmm} → IsValid s → p + n ≤ max max_pages p → IsValid (release_range n p s)
unfolding release_range
release_range-IsValid zero p v h = v
release_range-IsValid (suc n) p v h =
    release_range-IsValid n (p + 1) (release_page-IsValid v p (omega arith)) (omega arith)

pub is_used-release_range :
    (n p : ℕ) {s : Pmm}
    → IsValid s
    → p + n ≤ max max_pages p
    → (q : ℕ) → is_used (release_range n p s) q ≡ (not (within p n q) && is_used s q)
unfolding release_range
is_used-release_range zero p v h q = ground arith
is_used-release_range (suc n) p {s} v h q = ground (
  arith,
  is_used-release_range n (p + 1) (release_page-IsValid v p (omega arith)) (omega arith) q,
  is_used-release_page v p (omega arith) q,
)
