-- ===== src/Vfs/Memory.antt =====
-- The kernel's heap as the allocator of the file tree: what the tree relies on, `IsAllocator`, holds of
-- `kmalloc` of kernel/mm/heap.c.
use alderkernel.Prelude.{
  ℕ, zero, suc, ◌-◌, ◌*◌, ◌/◌, ◌^◌, ◌≤◌, ◌<◌, ◌≡◌, ◌≢◌, inl, inr, refl, ap, ◌∙◌, true, false, ◌&&◌,
  ◌||◌, Bool-cases, Option-cases, if_both, Option, none, some, ◌==◌, ltb, leb, if◌then◌else◌, add32,
  arith,
}
use native.Mathlib.Decide.{ℕ_discrete}
use alderkernel.Pmm.{Pmm, max_pages, pmm_alloc_page}
use alderkernel.Pmm.Inv.{is_used}
use alderkernel.Pmm.Alloc.{alloc_from_lem}
use alderkernel.Heap.{
  Block, Heap, find_block, take_block, heap_extend, need_pages, kmalloc_aligned, kmalloc, align_up,
}
use alderkernel.Vfs.{Allocator, IsAllocator}

-- The answer of `kmalloc`; a walk along the list takes `fuel` rounds at most.
unfoldable pub answer : Heap → Option (ℕ × Heap) → ℕ × Heap
answer h none = (0, h)
answer h (some r) = r

abbrev pub heap_allocator : ℕ → Allocator
heap_allocator fuel = record { State = Heap; kmalloc = λ n h. answer h (kmalloc fuel n h) }

-- `p` is the address of a block in use, behind the block's header, on a page that is handed out.
pub record IsLive (h : Heap) (p : ℕ) : Type 0 where
  pub behind_header : 16 ≤ p
  pub below_top : p < max_pages * 4096
  pub in_use : (h.mem (p - 16)).free ≡ false
  pub page_used : is_used h.pmm ((p - 16) / 4096) ≡ true
  pub head_word : h.heap_head < 2 ^ 32
  pub link_words : (q : ℕ) → (h.mem q).next < 2 ^ 32

-- The search stops at a free block, or finds none.
find_block-free :
    (fuel : ℕ) (m : ℕ → Block) (n at r : ℕ)
    → at < 2 ^ 32
    → ((q : ℕ) → (m q).next < 2 ^ 32)
    → find_block fuel m n at ≡ some r
    → r ≢ 0
    → ((m r).free ≡ true) × (r < 2 ^ 32)
unfolding find_block
find_block-free zero m n at r h w e nz = cc
find_block-free (suc fuel) m n at r h w e nz = elim (ℕ_discrete at 0) [
  | yes z ↦ ground arith
  | no on ↦ elim (Bool-cases ((m at).free && leb n (m at).size)) [
    | inl fit ↦ ground arith
    | inr unfit ↦ find_block-free fuel m n (m at).next r (w at) w (ground arith) nz
  ]
]

-- A page that is handed out was free.
new_page :
    (s : Pmm)
    → (pmm_alloc_page s).0 ≢ 0
    → (k : ℕ) × (k < max_pages) × (is_used s k ≡ false) × ((pmm_alloc_page s).0 ≡ k * 4096)
unfolding pmm_alloc_page
new_page s nz = elim (alloc_from_lem max_pages 0 max_pages s (omega arith)) [
  | inl (k, f, e) ↦ (k, f.below, f.free, ap (λ r. r.0) e ∙ omega (arith, f.below))
  | inr (all, e) ↦ absurd (nz (ap (λ r. r.0) e))
]

-- The block that an extension adds begins with the page that was handed out first.
heap_extend-page :
    (fuel pages r : ℕ) (h h' : Heap)
    → heap_extend fuel pages h ≡ some (r, h')
    → r ≢ 0
    → r ≡ (pmm_alloc_page h.pmm).0
unfolding heap_extend
heap_extend-page fuel pages r h h' e nz = ground arith

address_of : (b n : ℕ) (h : Heap) → (take_block b n h).0 ≡ add32 b 16
unfolding take_block
address_of b n h = refl

module _ (fuel n p : ℕ) (h : Heap) (v : IsLive h p) where
  -- What is handed out is not `p`.
  abbrev Misses : Option (ℕ × Heap) → Type 0
  Misses o = (answer h o).0 ≢ 0 → (answer h o).0 ≢ p

  null-Misses : (h' : Heap) → Misses (some (0, h'))
  unfolding answer
  null-Misses h' nz = absurd (nz refl)

  none-Misses : Misses none
  unfolding answer
  none-Misses nz = absurd (nz refl)

  found-Misses :
      (r : ℕ)
      → find_block fuel h.mem n h.heap_head ≡ some r
      → r ≢ 0
      → Misses (some (take_block r n h))
  unfolding answer
  found-Misses r e on nz is =
      let (free, word) = find_block-free fuel h.mem n h.heap_head r v.head_word v.link_words e on in
      let same : r ≡ p - 16 = omega (arith, address_of r n h, is, word, v.behind_header) in
      cc (v.in_use, free, ap (λ q. (h.mem q).free) same)

  added-Misses :
      (r : ℕ) (h' : Heap)
      → heap_extend fuel (need_pages n) h ≡ some (r, h')
      → r ≢ 0
      → Misses (some (take_block r n h'))
  unfolding answer
  added-Misses r h' e on nz is =
      let first : r ≡ (pmm_alloc_page h.pmm).0 = heap_extend-page fuel (need_pages n) r h h' e on in
      let (k, below, free, at) = new_page h.pmm (λ z. on (first ∙ z)) in
      let same : (p - 16) / 4096 ≡ k = omega (arith, address_of r n h', first, at, is, below) in
      cc (v.page_used, free, ap (is_used h.pmm) same)

  extended-Misses :
      (r : ℕ) (h' : Heap)
      → heap_extend fuel (need_pages n) h ≡ some (r, h')
      → Misses (if r == 0 || ltb (h'.mem r).size n then some (0, h') else some (take_block r n h'))
  extended-Misses r h' e =
      if_both Misses (r == 0 || ltb (h'.mem r).size n) (λ _. null-Misses h')
        (λ fits. added-Misses r h' e (ground arith))

  kmalloc_aligned-Misses : Misses (kmalloc_aligned fuel n h)
  unfolding kmalloc_aligned
  kmalloc_aligned-Misses = elim (Option-cases (find_block fuel h.mem n h.heap_head)) [
    | inl e ↦ rw (e, kmalloc_aligned) none-Misses
    | inr (zero, e) ↦ elim (Option-cases (heap_extend fuel (need_pages n) h)) [
      | inl none_left ↦ rw (e, none_left, kmalloc_aligned) none-Misses
      | inr ((r, h'), more) ↦ rw (e, more, kmalloc_aligned) (extended-Misses r h' more)
    ]
    | inr (suc r, e) ↦ rw (e, kmalloc_aligned) (found-Misses (suc r) e (omega arith))
  ]

-- Where the kernel's heap hands out an address, it is not that of a block in use on a page that is handed
-- out: neither the search of the list nor the extension by a page gives such a block again.
pub heap-kmalloc_fresh :
    (fuel n : ℕ) (h : Heap) (p : ℕ)
    → IsLive h p
    → (answer h (kmalloc fuel n h)).0 ≢ 0
    → (answer h (kmalloc fuel n h)).0 ≢ p
unfolding kmalloc
heap-kmalloc_fresh fuel n h p v =
    if_both (Misses fuel n p h v) (n == 0) (λ _. null-Misses fuel n p h v h)
      (λ _. kmalloc_aligned-Misses fuel (align_up n 8) p h v)

-- The kernel's heap is an allocator that the file tree can rely on.
abbrev pub heap-IsAllocator : (fuel : ℕ) → IsAllocator (heap_allocator fuel)
heap-IsAllocator fuel = record { Live = IsLive; kmalloc_fresh = heap-kmalloc_fresh fuel }
