-- ===== src/Tests/Memory.antt =====
-- The page allocator and the heap at concrete inputs.
use alderkernel.Prelude.{
  ℕ, ◌+◌, ◌*◌, ◌%◌, ◌^◌, ◌<◌, ◌≤◌, ◌≡◌, zero, suc, refl, ◌≢◌, ◌⊎◌, inl, not, ◌||◌, some, [], ◌==◌,
  leb, if◌then◌else◌, replicate, length-replicate, le32_lem, add32, arith,
}
use alderkernel.Disk.Sector.{AreBytes-replicate}
use alderkernel.Pmm.{
  Pmm, max_pages, read32, read64, map_length, map_start, pmm_init, pmm_alloc_page, pmm_free_page,
}
use alderkernel.Pmm.Bitmap.{IsBitmap}
use alderkernel.Pmm.Inv.{IsValid, is_used}
use alderkernel.Pmm.Init.{IsMap, HasMap, map_end, in_ram, pmm_init_lem}
use alderkernel.Pmm.Alloc.{Allocated, Exhausted, pmm_alloc_page_lem, pmm_free_page-IsValid}
use alderkernel.Heap.{Block, Heap, align_up, take_block, kmalloc, kfree}
use alderkernel.Heap.Align.{align_up_bounds}
use alderkernel.Heap.Alloc.{CanSplit, kmalloc_wraps}
use alderkernel.Heap.Free.{NoMergeBefore, SameBut, kfree-take_block}

-- The boot information at 0x200, with a memory map at 0x100 of one entry: a megabyte of RAM at 1 MB.
boot_memory : ℕ → ℕ
boot_memory a =
    if a == 0x100
    then 20
    else if a == 0x106
    then 0x10
    else if a == 0x10e
    then 0x10
    else if a == 0x114
    then 1
    else if a == 0x200
    then 0x40
    else if a == 0x22c
    then 24
    else if a == 0x231
    then 1
    else 0

boot_memory-le : (a : ℕ) → boot_memory a ≤ 64
unfolding boot_memory
boot_memory-le a = ground arith

read32-boot_memory :
    (a : ℕ)
    → read32 boot_memory a
      ≡ boot_memory a
        + boot_memory (add32 a 1) * 2 ^ 8
        + boot_memory (add32 a 2) * 2 ^ 16
        + boot_memory (add32 a 3) * 2 ^ 24
unfolding read32
read32-boot_memory a =
    le32_lem (boot_memory a) (boot_memory (add32 a 1)) (boot_memory (add32 a 2))
      (boot_memory (add32 a 3)) (omega (arith, boot_memory-le a))
      (omega (arith, boot_memory-le (add32 a 1))) (omega (arith, boot_memory-le (add32 a 2)))

boot_map_end : map_end boot_memory 0x200 ≡ 0x118
unfolding map_length map_start boot_memory
boot_map_end =
    let len : read32 boot_memory 0x22c ≡ 24 = read32-boot_memory 0x22c in
    let start : read32 boot_memory 0x230 ≡ 0x100 = read32-boot_memory 0x230 in
    omega (arith, len, start)

past-IsMap : (n ptr : ℕ) → 0x118 ≤ ptr → IsMap n boot_memory ptr 0x118
past-IsMap zero ptr h = tt
past-IsMap (suc n) ptr h = λ lt. absurd (omega arith)

only_entry-IsMap : (n : ℕ) → IsMap (suc n) boot_memory 0x100 0x118
unfolding read64 boot_memory
only_entry-IsMap n =
    let size : read32 boot_memory 0x100 ≡ 20 = read32-boot_memory 0x100 in
    let base : read32 boot_memory 0x104 ≡ 0x100000 = read32-boot_memory 0x104 in
    let base_high : read32 boot_memory 0x108 ≡ 0 = read32-boot_memory 0x108 in
    let len : read32 boot_memory 0x10c ≡ 0x100000 = read32-boot_memory 0x10c in
    let len_high : read32 boot_memory 0x110 ≡ 0 = read32-boot_memory 0x110 in
    λ lt. (
      omega (arith, size),
      omega (arith, base, base_high),
      omega (arith, base, base_high, len, len_high),
      past-IsMap n (0x100 + read32 boot_memory 0x100 + 4) (omega (arith, size)),
    )

boot_map_start : map_start boot_memory 0x200 ≡ 0x100
unfolding map_start boot_memory
boot_map_start = read32-boot_memory 0x230

boot_map_length : map_length boot_memory 0x200 ≡ 24
unfolding map_length boot_memory
boot_map_length = read32-boot_memory 0x22c

boot_map-HasMap : HasMap boot_memory 0x200
boot_map-HasMap = rw (boot_map_end, boot_map_start, boot_map_length) (only_entry-IsMap 24)

zeros-IsBitmap : IsBitmap (replicate 4096 0)
zeros-IsBitmap = record { size = length-replicate {A = ℕ} 4096 0; bytes = AreBytes-replicate 4096 }

pmm_init_lem_example :
    (t : Pmm) × (pmm_init boot_memory 0x140000 0x200 (replicate 4096 0) ≡ some t)
    × IsValid t
    × ((p : ℕ)
        → p < max_pages
        → is_used t p ≡ (leb (p * 4096) 0x140000 || not (in_ram boot_memory 0x200 p)))
pmm_init_lem_example =
    pmm_init_lem boot_memory 0x140000 0x200 zeros-IsBitmap (omega arith) boot_map-HasMap

-- The state after the boot.
booted : Pmm
booted = (pmm_init_lem boot_memory 0x140000 0x200 zeros-IsBitmap (omega arith) boot_map-HasMap).0

booted-IsValid : IsValid booted
unfolding booted
booted-IsValid =
    (pmm_init_lem boot_memory 0x140000 0x200 zeros-IsBitmap (omega arith) boot_map-HasMap).2

pmm_alloc_page_lem_example :
    ((p : ℕ) × Allocated booted (pmm_alloc_page booted) p)
    ⊎ Exhausted booted (pmm_alloc_page booted)
pmm_alloc_page_lem_example = pmm_alloc_page_lem booted-IsValid

pmm_free_page-IsValid_example : IsValid (pmm_free_page 0x150000 booted)
pmm_free_page-IsValid_example = pmm_free_page-IsValid 0x150000 booted-IsValid

-- A heap of one free block of a page.
abbrev one_block : ℕ → Block
one_block q = record {
  size = if q == 0x100000 then 4080 else 0;
  free = q == 0x100000;
  next = 0;
  prev = 0;
}

abbrev one_page : Heap
one_page = record {
  mem = one_block;
  heap_head = 0x100000;
  used_bytes = 0;
  free_bytes = 4080;
  pmm = record { bitmap = []; free_pages_count = 0 };
}

one_page-CanSplit : (size : ℕ) → size ≤ 4048 → CanSplit one_page 0x100000 size
one_page-CanSplit size h = record {
  address = omega arith;
  in_memory = omega arith;
  room = omega arith;
  next_ne_self = omega arith;
  next_outside = omega arith;
}

one_page-NoMergeBefore : NoMergeBefore one_page 0x100000 64
one_page-NoMergeBefore = record { ne_self = omega arith; outside = omega arith; in_use = inl refl }

kfree-take_block_example :
    SameBut
      (0x100000 + 16 + 64)
      one_page
      (kfree (take_block 0x100000 64 one_page).0 (take_block 0x100000 64 one_page).1)
kfree-take_block_example =
    kfree-take_block (one_page-CanSplit 64 (omega arith)) refl (λ ne. absurd (ne refl))
      one_page-NoMergeBefore (omega arith) (omega arith)

kmalloc_wraps_example :
    (kmalloc 1 0xfffffffe one_page ≡ some (take_block 0x100000 0 one_page))
    × ((take_block 0x100000 0 one_page).0 ≢ 0)
    × (((take_block 0x100000 0 one_page).1.mem 0x100000).size ≡ 0)
kmalloc_wraps_example =
    kmalloc_wraps 0 0xfffffffe one_page (omega arith) (omega arith) refl
      (one_page-CanSplit 0 (omega arith))

align_up_bounds_example : (60 ≤ align_up 60 8) × (align_up 60 8 < 60 + 8) × (align_up 60 8 % 8 ≡ 0)
align_up_bounds_example = align_up_bounds 60 (omega arith)
