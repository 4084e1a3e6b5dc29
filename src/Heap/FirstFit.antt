-- ===== src/Heap/FirstFit.antt =====
-- `kmalloc` against first fit on the list of spans.
use mathlib.Core.Option.{some-injective, none-ne-some}
use mathlib.Core.Path.{subst}
use alderkernel.Prelude.{
  ℕ, zero, suc, ◌+◌, ◌-◌, ◌^◌, ◌≤◌, ◌<◌, ◌≡◌, ◌≢◌, ◌⊎◌, inl, inr, refl, ap, ◌∙◌, sym, true, false,
  ◌&&◌, Bool-cases, none, some, List, [], ◌∷◌, ◌++◌, length, leb, if_eq, arith,
}
use alderkernel.Pmm.{pmm_alloc_page}
use alderkernel.Heap.{
  Block, Heap, take_block, find_block, kmalloc, align_up, kmalloc_aligned, heap_extend, need_pages,
}
use alderkernel.Heap.Alloc.{kmalloc_aligned_found, kmalloc_ne_zero}
use alderkernel.Heap.Chain.{Span, behind, first_of, Links, Spaced, IsHeap}
use alderkernel.Heap.Taken.{carve, allocate, take_block-IsHeap}

-- Where first fit takes its block from, what is left, and that the search of the headers stops there.
record Found (fuel n : ℕ) (m : ℕ → Block) (bs : List Span) : Type 0 where
  xs : List Span
  b : Span
  ys : List Span
  list : bs ≡ xs ++ b ∷ ys
  free : b.free ≡ true
  fits : n ≤ b.size
  nonzero : b.at ≢ 0
  left : allocate n bs ≡ some (b.at + 16, xs ++ carve n b ys)
  search : find_block fuel m n (first_of bs 0) ≡ some b.at

module _ (fuel n prev : ℕ) (m : ℕ → Block) (b : Span) (bs : List Span) (nz : b.at ≢ 0)
    (l : Links m prev (b ∷ bs) 0) where
  skip :
      (b.free && leb n b.size) ≡ false
      → find_block (suc fuel) m n b.at ≡ find_block fuel m n (first_of bs 0)
  unfolding find_block
  skip unfit = ground (arith, l.0)

  stop : (b.free && leb n b.size) ≡ true → find_block (suc fuel) m n b.at ≡ some b.at
  unfolding find_block
  stop fit = ground (arith, l.0)

-- First fit on the spans and the search of the headers find the same block, or neither finds one.
scan :
    (fuel n prev lo hi : ℕ) (m : ℕ → Block) (bs : List Span)
    → 0 < lo
    → Links m prev bs 0
    → Spaced lo bs hi
    → length bs < fuel
    → Found fuel n m bs ⊎ ((allocate n bs ≡ none) × (find_block fuel m n (first_of bs 0) ≡ some 0))
unfolding find_block
scan zero n prev lo hi m bs pos l s lt = absurd (omega arith)
scan (suc fuel) n prev lo hi m [] pos l s lt = inr (refl, refl)
scan (suc fuel) n prev lo hi m (b ∷ bs) pos l s lt =
    let nz : b.at ≢ 0 = omega (arith, s.0) in
    elim (Bool-cases (b.free && leb n b.size)) [
      | inl fit ↦ inl (record {
        xs = [];
        b = b;
        ys = bs;
        list = refl;
        free = ground arith;
        fits = ground arith;
        nonzero = nz;
        left = rw fit;
        search = stop fuel n prev m b bs nz l fit;
      })
      | inr unfit ↦ elim (scan fuel n b.at (behind b) hi m bs (omega arith) l.1 s.1 (omega arith)) [
        | inl f ↦ inl (record {
          xs = b ∷ f.xs;
          b = f.b;
          ys = f.ys;
          list = ap (λ zs. b ∷ zs) f.list;
          free = f.free;
          fits = f.fits;
          nonzero = f.nonzero;
          left = rw (unfit, f.left);
          search = skip fuel n prev m b bs nz l unfit ∙ f.search;
        })
        | inr r ↦ inr (rw (unfit, r.0), skip fuel n prev m b bs nz l unfit ∙ r.1)
      ]
    ]

-- On a heap whose list has fewer blocks than the fuel, `kmalloc` of a request that is not 0 does what
-- first fit does on the list of spans, where that finds a block: it returns the same address, and
-- what it leaves is a heap, with the list and the sum of the sizes in use that first fit leaves.
pub kmalloc-IsHeap :
    (fuel size p : ℕ) (h : Heap) (bs after : List Span)
    → IsHeap h bs
    → size ≢ 0
    → length bs < fuel
    → allocate (align_up size 8) bs ≡ some (p, after)
    → (h' : Heap) × (kmalloc fuel size h ≡ some (p, h')) × IsHeap h' after
kmalloc-IsHeap fuel size p h bs after w nz lt e =
    let n : ℕ = align_up size 8 in
    elim (scan fuel n 0 4096 (2 ^ 32 - 1) h.mem bs (omega arith) w.links w.spaced lt) [
      | inl f ↦
          let taken =
            take_block-IsHeap {h = h} {n = n} f.xs f.ys f.b (subst (IsHeap h) f.list w) f.free
              f.fits in
          let same = some-injective _ _ (sym e ∙ f.left) in
          let run : kmalloc fuel size h ≡ some (take_block f.b.at n h) =
            kmalloc_ne_zero fuel size h nz
            ∙ kmalloc_aligned_found fuel n f.b.at h f.nonzero
                (ap (find_block fuel h.mem n) w.head ∙ f.search) in
          (
            (take_block f.b.at n h).1,
            run
                ∙ ap (λ q. some (q, (take_block f.b.at n h).1))
                    (taken.0 ∙ sym (ap (λ r. r.0) same)),
            subst (IsHeap (take_block f.b.at n h).1) (sym (ap (λ r. r.1) same)) taken.1,
          )
      | inr r ↦ absurd (none-ne-some _ (sym r.0 ∙ e))
    ]

extend_fails :
    (fuel pages : ℕ) (h : Heap)
    → (pmm_alloc_page h.pmm).0 ≡ 0
    → heap_extend fuel pages h ≡ some (0, record h { pmm = (pmm_alloc_page h.pmm).1 })
unfolding heap_extend
extend_fails fuel pages h e = if_eq (pmm_alloc_page h.pmm).0 0 _ _ e

-- On a heap whose list has fewer blocks than the fuel, where no block has room for a request that is
-- not 0 and the page allocator has no page, `kmalloc` returns null, and the headers, the head and both
-- counters are as they were, so that what it leaves is a heap with the same list.
pub kmalloc_null-IsHeap :
    (fuel size : ℕ) (h : Heap) (bs : List Span)
    → IsHeap h bs
    → size ≢ 0
    → length bs < fuel
    → allocate (align_up size 8) bs ≡ none
    → (pmm_alloc_page h.pmm).0 ≡ 0
    → (kmalloc fuel size h ≡ some (0, record h { pmm = (pmm_alloc_page h.pmm).1 }))
      × IsHeap (record h { pmm = (pmm_alloc_page h.pmm).1 }) bs
unfolding kmalloc_aligned
kmalloc_null-IsHeap fuel size h bs w nz lt e full =
    let n : ℕ = align_up size 8 in
    elim (scan fuel n 0 4096 (2 ^ 32 - 1) h.mem bs (omega arith) w.links w.spaced lt) [
      | inl f ↦ absurd (none-ne-some _ (sym e ∙ f.left))
      | inr r ↦
          let missing = ap (find_block fuel h.mem n) w.head ∙ r.1 in
          (
            kmalloc_ne_zero fuel size h nz
                ∙ rw (missing, kmalloc_aligned) (rw (extend_fails fuel (need_pages n) h full) refl),
            record { head = w.head; links = w.links; spaced = w.spaced; used = w.used },
          )
    ]
