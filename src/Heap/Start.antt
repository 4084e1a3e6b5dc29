-- ===== src/Heap/Start.antt =====
-- The heap after `heap_init`.
use native.Mathlib.Decide.{ℕ_discrete}
use alderkernel.Prelude.{
  ℕ, zero, suc, ◌+◌, ◌-◌, ◌*◌, ◌^◌, ◌<◌, ◌≤◌, ◌≡◌, ◌⊎◌, inl, refl, ap, ap₂, ◌∙◌, sym, true, Option,
  none, some, List, [], ◌∷◌, ◌==◌, if◌then◌else◌, if_eq, if_ne, add32, sub32, mul32, arith,
}
use mathlib.Core.Path.{subst}
use alderkernel.Pmm.{Pmm, alloc_from, pmm_alloc_page, max_pages}
use alderkernel.Heap.{Heap, write, extend_pages, append_block, heap_extend, heap_init}
use alderkernel.Heap.Chain.{Span, header, IsHeap}

-- A page that the page allocator hands out lies behind the first one and below 128 MB.
alloc_from_in :
    (n i : ℕ) (s : Pmm)
    → n + i ≤ max_pages
    → ((alloc_from n i s).0 ≡ 0) ⊎ ((4096 ≤ (alloc_from n i s).0) × ((alloc_from n i s).0 ≤ 2 ^ 27))
unfolding alloc_from
alloc_from_in zero i s le = inl refl
alloc_from_in (suc n) i s le = ground (arith, alloc_from_in n (i + 1) s (omega arith))

page_in :
    (s : Pmm)
    → ((pmm_alloc_page s).0 ≡ 0) ⊎ ((4096 ≤ (pmm_alloc_page s).0) × ((pmm_alloc_page s).0 ≤ 2 ^ 27))
unfolding pmm_alloc_page
page_in s = alloc_from_in max_pages 0 s (omega arith)

-- How many of the next `n` pages that the page allocator hands out stand in a row from `at` on.
abbrev pub in_row : ℕ → ℕ → Pmm → ℕ
in_row zero at pmm = 0
in_row (suc n) at pmm =
    let more = in_row n (at + 4096) (pmm_alloc_page pmm).1 in
    if (pmm_alloc_page pmm).0 == at then suc more else 0

-- The heap's first block: the first page, and those of the next fifteen that stand in a row behind it.
abbrev pub initial : Pmm → List Span
initial pmm =
    let (first, pmm1) = pmm_alloc_page pmm in
    if first == 0
    then []
    else record { at = first; size = (1 + in_row 15 (first + 4096) pmm1) * 4096 - 16; free = true }
      ∷ []

abbrev pub total : List Span → ℕ
total [] = 0
total (b ∷ bs) = b.size + total bs

in_row-le : (n at : ℕ) (pmm : Pmm) → in_row n at pmm ≤ n
in_row-le zero at pmm = omega arith
in_row-le (suc n) at pmm = ground (arith, in_row-le n (at + 4096) (pmm_alloc_page pmm).1)

extend_pages_lem :
    (n at got : ℕ) (pmm : Pmm)
    → 0 < at
    → at + n * 4096 < 2 ^ 32
    → got + n ≤ 16
    → (extend_pages n at got pmm).0 ≡ got + in_row n at pmm
unfolding extend_pages
extend_pages_lem zero at got pmm pos h le = omega arith
extend_pages_lem (suc n) at got pmm pos h le =
    let next : add32 at 4096 ≡ at + 4096 = omega arith in
    let one : add32 got 1 ≡ got + 1 = omega arith in
    let ih =
      extend_pages_lem n (at + 4096) (got + 1) (pmm_alloc_page pmm).1 (omega arith) (omega arith)
        (omega arith) in
    rw (next, one) (ground (arith, ih))

-- With any fuel `heap_init` ends with a heap that has no byte in use. Where the page allocator has no
-- page its list is empty; else it has one free block, which starts at the first page handed out and
-- takes this page and those of the next fifteen that stand in a row behind it, less its header. The
-- count of free bytes is the size of the block.
pub heap_init-IsHeap :
    (fuel : ℕ) (h : Heap)
    → (h' : Heap) × (heap_init fuel h ≡ some h')
      × IsHeap h' (initial h.pmm)
      × (h'.used_bytes ≡ 0)
      × (h'.free_bytes ≡ total (initial h.pmm))
unfolding heap_init heap_extend append_block
heap_init-IsHeap fuel h =
    let h0 : Heap = record h { heap_head = 0; used_bytes = 0; free_bytes = 0 } in
    let first : ℕ = (pmm_alloc_page h.pmm).0 in
    let pmm1 : Pmm = (pmm_alloc_page h.pmm).1 in
    let (got, pmm2) = extend_pages 15 (add32 first 4096) 1 pmm1 in
    let size : ℕ = sub32 (mul32 got 4096) 16 in
    let n : ℕ = 1 + in_row 15 (first + 4096) pmm1 in
    let b : Span = record { at = first; size = n * 4096 - 16; free = true } in
    let result : Option (ℕ × Heap) → Option Heap =
      λ o. elim o [ none ↦ none | some r ↦ some r.1 ] in
    elim (ℕ_discrete first 0) [
      | yes e ↦
          let listed : [] ≡ initial h.pmm = sym (if_eq first 0 _ _ e) in
          (
            record h0 { pmm = pmm1 },
            ap result (if_eq first 0 _ _ e),
            subst (IsHeap (record h0 { pmm = pmm1 })) listed
                (record { head = refl; links = tt; spaced = omega arith; used = refl }),
            refl,
            ap total listed,
          )
      | no ne ↦
          let bounds : (4096 ≤ first) × (first ≤ 2 ^ 27) = ground (arith, page_in h.pmm) in
          let next : add32 first 4096 ≡ first + 4096 = omega arith in
          let pages : got ≡ n =
            ap (λ a. (extend_pages 15 a 1 pmm1).0) next
            ∙ extend_pages_lem 15 (first + 4096) 1 pmm1 (omega arith) (omega arith) (omega arith) in
          let few = in_row-le 15 (first + 4096) pmm1 in
          let whole : size ≡ n * 4096 - 16 = omega (arith, pages, few) in
          let listed : b ∷ [] ≡ initial h.pmm = sym (if_ne first 0 _ _ ne) in
          let h1 : Heap = record h0 {
            pmm = pmm2;
            heap_head = first;
            mem = write h.mem first (header b 0 0);
            free_bytes = n * 4096 - 16;
          } in
          (
            h1,
            ap result (if_ne first 0 _ _ ne)
                ∙ ap₂
                    (λ x y. some (record h0 {
                      pmm = pmm2;
                      heap_head = first;
                      mem = write h.mem first (header (record b { size = x }) 0 0);
                      free_bytes = y;
                    }))
                    whole (omega (arith, whole, few)),
            subst (IsHeap h1) listed (record {
              head = refl;
              links = (if_eq first first _ _ refl, tt);
              spaced = (bounds.0, omega (arith, few, bounds));
              used = refl;
            }),
            refl,
            omega arith ∙ ap total listed,
          )
    ]
