-- ===== src/Pmm/Alloc.antt =====
-- `pmm_alloc_page` and `pmm_free_page`.
use alderkernel.Prelude.{
  ℕ, zero, suc, ◌+◌, ◌/◌, ◌*◌, ◌^◌, ◌%◌, ◌≤◌, ◌<◌, ◌≡◌, refl, ◌⊎◌, inl, inr, true, false, not, ◌&&◌,
  ◌==◌, ltb, if_both, arith, sym, ◌∙◌, ap, ◌||◌,
}
use alderkernel.Pmm.{Pmm, max_pages, mark_used, alloc_from, pmm_alloc_page, pmm_free_page}
use alderkernel.Pmm.Inv.{
  IsValid, is_used, mark_used-IsValid, mark_free-IsValid, is_used-mark_used, is_used-mark_free,
}
use alderkernel.Pmm.Count.{count_clear-pos, count_clear-zero, count_clear-le, count_clear-congr}
use native.Mathlib.Decide.{ℕ_discrete, dec_lt}

-- The search found page `p`: the first free one from `i` on, below `end`.
pub record IsFirstFree (s : Pmm) (i end p : ℕ) : Type 0 where
  pub from : i ≤ p
  pub below : p < end
  pub free : is_used s p ≡ false
  pub first : (q : ℕ) → i ≤ q → q < p → is_used s q ≡ true

-- What a search of the pages `[i, end)` returns.
abbrev pub Found : Pmm → ℕ → ℕ → ℕ × Pmm → Type 0
Found s i end r =
    ((p : ℕ) × IsFirstFree s i end p × (r ≡ (p * 2 ^ 12 % 2 ^ 32, mark_used p s)))
    ⊎ (((q : ℕ) → i ≤ q → q < end → is_used s q ≡ true) × (r ≡ (0, s)))

all_from :
    (s : Pmm) (i end : ℕ)
    → is_used s i ≡ true
    → ((q : ℕ) → i + 1 ≤ q → q < end → is_used s q ≡ true)
    → (q : ℕ) → i ≤ q
    → q < end
    → is_used s q ≡ true
all_from s i end e all q l u = elim (ℕ_discrete i q) [
  | yes at ↦ rw (← at) e
  | no ne ↦ all q (omega arith) u
]

-- A search from the next page on is one from this page, if this page is in use.
Found-next :
    (s : Pmm) (i end : ℕ) {r : ℕ × Pmm}
    → is_used s i ≡ true
    → Found s (i + 1) end r
    → Found s i end r
Found-next s i end e (inl (p, f, eq)) = inl (
  p,
  record {
    from = omega arith;
    below = f.below;
    free = f.free;
    first = λ q l u. all_from s i p e f.first q l u;
  },
  eq,
)
Found-next s i end e (inr (all, eq)) = inr (all_from s i end e all, eq)

pub alloc_from_lem : (n i end : ℕ) (s : Pmm) → i + n ≡ end → Found s i end (alloc_from n i s)
unfolding alloc_from
alloc_from_lem zero i end s h = inr ((λ q l u. absurd (omega arith)), refl)
alloc_from_lem (suc n) i end s h =
    if_both (Found s i end) (is_used s i)
      (λ e. Found-next s i end e (alloc_from_lem n (i + 1) end s (omega arith)))
      (λ e. inl (
        i,
        record {
          from = omega arith;
          below = omega arith;
          free = e;
          first = λ q l u. absurd (omega arith);
        },
        refl,
      ))

-- A page that was handed out: the lowest free one.
pub record Allocated (s : Pmm) (r : ℕ × Pmm) (p : ℕ) : Type 0 where
  pub lowest : IsFirstFree s 0 max_pages p
  pub address : r.0 ≡ p * 4096
  pub valid : IsValid r.1
  pub marked : (q : ℕ) → is_used r.1 q ≡ (p == q || is_used s q)
  pub one_less : r.1.free_pages_count + 1 ≡ s.free_pages_count

-- No page is free.
pub record Exhausted (s : Pmm) (r : ℕ × Pmm) : Type 0 where
  pub all_used : (q : ℕ) → q < max_pages → is_used s q ≡ true
  pub none_counted : s.free_pages_count ≡ 0
  pub unchanged : r ≡ (0, s)

one_less_lem :
    {s : Pmm} {p : ℕ}
    → IsValid s
    → IsFirstFree s 0 max_pages p
    → (mark_used p s).free_pages_count + 1 ≡ s.free_pages_count
unfolding mark_used
one_less_lem {s} {p} v f = omega (
  arith,
  v.counted,
  f.below,
  count_clear-le max_pages (is_used s),
  count_clear-pos max_pages p (is_used s) f.below f.free,
)

Found-result :
    {s : Pmm} {r : ℕ × Pmm}
    → IsValid s
    → Found s 0 max_pages r
    → ((p : ℕ) × Allocated s r p) ⊎ Exhausted s r
Found-result {s} {r} v (inl (p, f, eq)) = inl (
  p,
  record {
    lowest = f;
    address = ap (λ (t : ℕ × Pmm). t.0) eq ∙ omega (arith, f.below);
    valid = rw eq (mark_used-IsValid v p f.below f.free);
    marked = λ q. rw eq (is_used-mark_used v p f.below q);
    one_less = rw eq (one_less_lem v f);
  },
)
Found-result {s} {r} v (inr (all, eq)) = inr (record {
  all_used = λ q h. all q (omega arith) h;
  none_counted = v.counted ∙ count_clear-zero max_pages (is_used s) (λ q h. all q (omega arith) h);
  unchanged = eq;
})

-- In a valid state `pmm_alloc_page` either hands out the lowest free page (its address is returned,
-- its flag alone is set, the count falls by one, and the state stays valid), or finds that no page
-- is free, returns 0 and changes nothing.
pub pmm_alloc_page_lem :
    {s : Pmm}
    → IsValid s
    → ((p : ℕ) × Allocated s (pmm_alloc_page s) p) ⊎ Exhausted s (pmm_alloc_page s)
unfolding pmm_alloc_page
pmm_alloc_page_lem {s} v = Found-result v (alloc_from_lem max_pages 0 max_pages s (omega arith))

-- Freeing any address, be it of a page in use, a free one or one that is not managed, keeps the
-- state valid: the count stays the number of clear bits.
pub pmm_free_page-IsValid : {s : Pmm} (addr : ℕ) → IsValid s → IsValid (pmm_free_page addr s)
unfolding pmm_free_page
pmm_free_page-IsValid {s} addr v =
    if_both IsValid (ltb (addr / 2 ^ 12) max_pages && is_used s (addr / 2 ^ 12))
      (λ e. mark_free-IsValid v (addr / 2 ^ 12) (ground arith) (ground arith)) (λ _. v)

pub is_used-pmm_free_page :
    {s : Pmm} (addr : ℕ)
    → IsValid s
    → addr / 2 ^ 12 < max_pages
    → (q : ℕ) → is_used (pmm_free_page addr s) q ≡ (not (addr / 2 ^ 12 == q) && is_used s q)
unfolding pmm_free_page
is_used-pmm_free_page {s} addr v h q =
    if_both (λ t. is_used t q ≡ (not (addr / 2 ^ 12 == q) && is_used s q))
      (ltb (addr / 2 ^ 12) max_pages && is_used s (addr / 2 ^ 12))
      (λ e. is_used-mark_free v (addr / 2 ^ 12) h q) (λ e. ground (arith, ap (is_used s)))

-- Freeing the page that was just handed out gives back every flag and the count.
pub free-alloc :
    {s : Pmm} {p : ℕ}
    → IsValid s
    → Allocated s (pmm_alloc_page s) p
    → ((q : ℕ) → is_used (pmm_free_page (p * 4096) (pmm_alloc_page s).1) q ≡ is_used s q)
      × ((pmm_free_page (p * 4096) (pmm_alloc_page s).1).free_pages_count ≡ s.free_pages_count)
free-alloc {s} {p} v a =
    let t : Pmm = (pmm_alloc_page s).1 in
    let flags : (q : ℕ) → is_used (pmm_free_page (p * 4096) t) q ≡ is_used s q = λ q. ground (
      arith,
      a.lowest.below,
      a.lowest.free,
      is_used-pmm_free_page (p * 4096) a.valid (omega (arith, a.lowest.below)) q,
      a.marked q,
      ap (is_used s),
    ) in
    (
      flags,
      (pmm_free_page-IsValid (p * 4096) a.valid).counted
          ∙ count_clear-congr max_pages _ _ (λ q _. flags q)
          ∙ sym v.counted,
    )

pmm_free_page_skip :
    (addr : ℕ) (s : Pmm)
    → (ltb (addr / 2 ^ 12) max_pages && is_used s (addr / 2 ^ 12)) ≡ false
    → pmm_free_page addr s ≡ s
unfolding pmm_free_page
pmm_free_page_skip addr s e = rw e

-- Freeing a page twice is freeing it once.
pub free-free :
    {s : Pmm} (addr : ℕ)
    → IsValid s
    → pmm_free_page addr (pmm_free_page addr s) ≡ pmm_free_page addr s
free-free {s} addr v =
    pmm_free_page_skip addr (pmm_free_page addr s) (elim (dec_lt (addr / 2 ^ 12) max_pages) [
      | yes l ↦ ground (arith, is_used-pmm_free_page addr v l (addr / 2 ^ 12))
      | no l ↦ ground arith
    ])
