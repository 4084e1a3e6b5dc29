-- ===== src/Tests/Heaps.antt =====
-- The list of the heap's blocks at concrete inputs.
use alderkernel.Prelude.{
  ℕ, zero, suc, ◌+◌, ◌/◌, ◌%◌, ◌^◌, ◌<◌, ◌≤◌, ◌≡◌, refl, ap, ◌∙◌, true, false, not, some, [], ◌∷◌,
  ◌==◌, replicate, get_or, if◌then◌else◌, bit_and, arith,
}
use alderkernel.Pmm.{Pmm, bitmap_test, alloc_from, pmm_alloc_page}
use alderkernel.Heap.{Heap, align_up, kmalloc, kfree, heap_init}
use alderkernel.Heap.Chain.{Span, header, IsHeap}
use alderkernel.Heap.FirstFit.{kmalloc-IsHeap, kmalloc_null-IsHeap}
use alderkernel.Heap.Released.{kfree-IsHeap}
use alderkernel.Heap.Start.{initial, total, heap_init-IsHeap}

-- Two blocks that touch, the first in use.
abbrev pub used_span : Span
used_span = record { at = 4096; size = 1008; free = false }

abbrev pub free_span : Span
free_span = record { at = 5120; size = 1008; free = true }

abbrev pub full_pages : Pmm
full_pages = record { bitmap = replicate 4096 255; free_pages_count = 0 }

abbrev pub two_blocks : Heap
two_blocks = record {
  mem = λ q. if q == 4096 then header used_span 5120 0 else header free_span 0 4096;
  heap_head = 4096;
  used_bytes = 1008;
  free_bytes = 1008;
  pmm = full_pages;
}

two_blocks-IsHeap : IsHeap two_blocks (used_span ∷ free_span ∷ [])
two_blocks-IsHeap = record {
  head = refl;
  links = (refl, (refl, tt));
  spaced = (omega arith, (omega arith, omega arith));
  used = refl;
}

kmalloc-IsHeap_example :
    (h : Heap) × (kmalloc 3 100 two_blocks ≡ some (5136, h))
    × IsHeap h (
        used_span
        ∷ record { at = 5120; size = 104; free = false }
        ∷ record { at = 5240; size = 888; free = true }
        ∷ [])
unfolding align_up
kmalloc-IsHeap_example =
    kmalloc-IsHeap 3 100 5136 two_blocks (used_span ∷ free_span ∷ [])
      (used_span
        ∷ record { at = 5120; size = 104; free = false }
        ∷ record { at = 5240; size = 888; free = true }
        ∷ [])
      two_blocks-IsHeap (omega arith) (omega arith) refl

kfree-IsHeap_example :
    IsHeap (kfree 4112 two_blocks) (record { at = 4096; size = 2032; free = true } ∷ [])
kfree-IsHeap_example = kfree-IsHeap two_blocks [] (free_span ∷ []) used_span two_blocks-IsHeap refl

heap_init-IsHeap_example :
    (h : Heap) × (heap_init 1 two_blocks ≡ some h)
    × IsHeap h (initial full_pages)
    × (h.used_bytes ≡ 0)
    × (h.free_bytes ≡ total (initial full_pages))
heap_init-IsHeap_example = heap_init-IsHeap 1 two_blocks

get_or-full : (n i : ℕ) → i < n → ◌≡◌ {A = ℕ} (get_or (replicate n 255) i 0) 255
get_or-full zero i h = absurd (omega arith)
get_or-full (suc n) zero h = refl
get_or-full (suc n) (suc i) h = get_or-full n i (omega arith)

bit_of_byte : (k : ℕ) → k < 8 → not (bit_and 255 (2 ^ k) == 0) ≡ true
bit_of_byte zero h = refl
bit_of_byte (suc zero) h = refl
bit_of_byte (suc (suc zero)) h = refl
bit_of_byte (suc (suc (suc zero))) h = refl
bit_of_byte (suc (suc (suc (suc zero)))) h = refl
bit_of_byte (suc (suc (suc (suc (suc zero))))) h = refl
bit_of_byte (suc (suc (suc (suc (suc (suc zero)))))) h = refl
bit_of_byte (suc (suc (suc (suc (suc (suc (suc zero))))))) h = refl
bit_of_byte (suc (suc (suc (suc (suc (suc (suc (suc k)))))))) h = absurd (omega arith)

all_taken : (n i : ℕ) → n + i ≤ 32768 → (alloc_from n i full_pages).0 ≡ 0
unfolding alloc_from bitmap_test
all_taken zero i h = refl
all_taken (suc n) i h =
    let byte : ◌≡◌ {A = ℕ} (get_or (replicate 4096 255) (i / 8) 0) 255 =
      get_or-full 4096 (i / 8) (omega arith) in
    let taken : bitmap_test (replicate 4096 255) i ≡ true =
      ap (λ v. not (bit_and v (2 ^ (i % 8)) == 0)) byte ∙ bit_of_byte (i % 8) (omega arith) in
    ground (arith, taken, all_taken n (i + 1) (omega arith))

kmalloc_null-IsHeap_example :
    (kmalloc 3 2000 two_blocks
      ≡ some (0, record two_blocks { pmm = (pmm_alloc_page full_pages).1 }))
    × IsHeap
        (record two_blocks { pmm = (pmm_alloc_page full_pages).1 })
        (used_span ∷ free_span ∷ [])
unfolding pmm_alloc_page align_up
kmalloc_null-IsHeap_example =
    kmalloc_null-IsHeap 3 2000 two_blocks (used_span ∷ free_span ∷ []) two_blocks-IsHeap
      (omega arith) (omega arith) refl (all_taken 32768 0 (omega arith))
