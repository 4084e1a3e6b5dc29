-- ===== src/Pmm.antt =====
-- The physical page allocator, kernel/mm/pmm.c: a bitmap with one bit for each 4 KB page (set: not
-- available) and a count of the free pages. `mem` is the memory that the boot loader left, byte by
-- byte, and `kernel_end` the address of the linker's `_kernel_end`.
pub mod Bitmap
pub mod Count
pub mod Inv
pub mod Alloc
pub mod Init
use alderkernel.Prelude.{
  ℕ, zero, suc, ◌+◌, ◌-◌, ◌*◌, ◌/◌, ◌%◌, ◌^◌, ◌≡◌, min, bit_and, bit_or, Bool, true, false, not,
  ◌&&◌, Option, none, some, List, ◌==◌, ltb, if◌then◌else◌, get_or, set, replicate, add32, sub32,
  le32,
}

abbrev pub max_managed_memory : ℕ
max_managed_memory = 128 * 1024 * 1024

abbrev pub max_pages : ℕ
max_pages = 32768

abbrev pub bitmap_size : ℕ
bitmap_size = 4096

-- The two statics, `bitmap` and `free_pages_count`.
pub record Pmm : Type 0 where
  pub bitmap : List ℕ
  pub free_pages_count : ℕ

-- `1 << (page % 8)`
abbrev pub mask : ℕ → ℕ
mask page = 2 ^ (page % 8)

unfoldable pub bitmap_set : List ℕ → ℕ → List ℕ
bitmap_set bm page = set bm (page / 8) (bit_or (get_or bm (page / 8) 0) (mask page))

-- `(unsigned char)~m` is `255 - m`.
unfoldable pub bitmap_clear : List ℕ → ℕ → List ℕ
bitmap_clear bm page = set bm (page / 8) (bit_and (get_or bm (page / 8) 0) (255 - mask page))

unfoldable pub bitmap_test : List ℕ → ℕ → Bool
bitmap_test bm page = not (bit_and (get_or bm (page / 8) 0) (mask page) == 0)

-- A page goes out: its bit is set and the count falls.
unfoldable pub mark_used : ℕ → Pmm → Pmm
mark_used page s = record {
  bitmap = bitmap_set s.bitmap page;
  free_pages_count = sub32 s.free_pages_count 1;
}

-- A page comes in: its bit is cleared and the count grows.
unfoldable pub mark_free : ℕ → Pmm → Pmm
mark_free page s = record {
  bitmap = bitmap_clear s.bitmap page;
  free_pages_count = add32 s.free_pages_count 1;
}

unfoldable pub reserve_page : ℕ → Pmm → Pmm
reserve_page page s =
    if ltb page max_pages && not (bitmap_test s.bitmap page) then mark_used page s else s

-- The body of the loop over a region's pages.
unfoldable pub release_page : ℕ → Pmm → Pmm
release_page page s = if bitmap_test s.bitmap page then mark_free page s else s

-- for (p = first; …; p++) with `n` rounds left
unfoldable pub release_range : ℕ → ℕ → Pmm → Pmm
release_range zero p s = s
release_range (suc n) p s = release_range n (p + 1) (release_page p s)

unfoldable pub reserve_range : ℕ → ℕ → Pmm → Pmm
reserve_range zero p s = s
reserve_range (suc n) p s = reserve_range n (p + 1) (reserve_page p s)

-- An `unsigned int` and an `unsigned long long` in memory.
unfoldable pub read32 : (ℕ → ℕ) → ℕ → ℕ
read32 mem a = le32 (mem a) (mem (add32 a 1)) (mem (add32 a 2)) (mem (add32 a 3))

unfoldable pub read64 : (ℕ → ℕ) → ℕ → ℕ
read64 mem a = read32 mem a + read32 mem (add32 a 4) * 2 ^ 32

-- multiboot_mmap_entry_t: size at 0, base_addr at 4, length at 12, type at 20.
unfoldable pub region_end : (ℕ → ℕ) → ℕ → ℕ
region_end mem ptr =
    let sum = (read64 mem (add32 ptr 4) + read64 mem (add32 ptr 12)) % 2 ^ 64 in
    if ltb max_managed_memory sum then max_managed_memory else sum

unfoldable pub first_page : (ℕ → ℕ) → ℕ → ℕ
first_page mem ptr = read64 mem (add32 ptr 4) / 2 ^ 12 % 2 ^ 32

unfoldable pub last_page : (ℕ → ℕ) → ℕ → ℕ
last_page mem ptr = region_end mem ptr / 2 ^ 12 % 2 ^ 32

unfoldable pub is_usable : (ℕ → ℕ) → ℕ → Bool
is_usable mem ptr = read32 mem (add32 ptr 20) == 1

-- One entry of the memory map.
unfoldable pub add_entry : (ℕ → ℕ) → ℕ → Pmm → Pmm
add_entry mem ptr s =
    if is_usable mem ptr
    then release_range (min (last_page mem ptr) max_pages - first_page mem ptr) (first_page mem ptr)
        s
    else s

unfoldable pub next_entry : (ℕ → ℕ) → ℕ → ℕ
next_entry mem ptr = add32 ptr (add32 (read32 mem ptr) 4)

-- while (ptr < end), on fuel; `none` means that the fuel ran out.
unfoldable pub add_entries : ℕ → (ℕ → ℕ) → ℕ → ℕ → Pmm → Option Pmm
add_entries zero mem ptr end s = none
add_entries (suc fuel) mem ptr end s =
    let rest = add_entries fuel mem (next_entry mem ptr) end (add_entry mem ptr s) in
    if ltb ptr end then rest else some s

-- Every page reserved: the loop over `bitmap_set(i)`.
unfoldable pub set_range : ℕ → ℕ → List ℕ → List ℕ
set_range zero i bm = bm
set_range (suc n) i bm = set_range n (i + 1) (bitmap_set bm i)

unfoldable pub kernel_end_page : ℕ → ℕ
kernel_end_page kernel_end = add32 (kernel_end / 2 ^ 12) 1

-- multiboot_info_t: flags at 0, mmap_length at 44, mmap_addr at 48.
unfoldable pub map_length : (ℕ → ℕ) → ℕ → ℕ
map_length mem info = read32 mem (add32 info 44)

unfoldable pub map_start : (ℕ → ℕ) → ℕ → ℕ
map_start mem info = read32 mem (add32 info 48)

unfoldable pub has_map : (ℕ → ℕ) → ℕ → Bool
has_map mem info = not (info == 0) && not (bit_and (read32 mem info) 0x40 == 0)

-- An entry takes at least four bytes, so `mmap_length + 1` rounds are enough unless one wraps.
unfoldable pub add_map : (ℕ → ℕ) → ℕ → Pmm → Option Pmm
add_map mem info s =
    if has_map mem info
    then add_entries (map_length mem info + 1) mem (map_start mem info)
        (add32 (map_start mem info) (map_length mem info)) s
    else some s

-- `old` is the static bitmap as the image holds it.
unfoldable pub pmm_init : (ℕ → ℕ) → ℕ → ℕ → List ℕ → Option Pmm
pmm_init mem kernel_end info old =
    elim (add_map mem info (record { bitmap = set_range max_pages 0 old; free_pages_count = 0 })) [
      | none ↦ none
      | some s ↦ some (reserve_range (min (kernel_end_page kernel_end) max_pages) 0 s)
    ]

-- for (i = …; i < MAX_PAGES; i++) with `n` rounds left; the address 0 is failure.
unfoldable pub alloc_from : ℕ → ℕ → Pmm → ℕ × Pmm
alloc_from zero i s = (0, s)
alloc_from (suc n) i s =
    let rest = alloc_from n (i + 1) s in
    if bitmap_test s.bitmap i then rest else (i * 2 ^ 12 % 2 ^ 32, mark_used i s)

unfoldable pub pmm_alloc_page : Pmm → ℕ × Pmm
pmm_alloc_page s = alloc_from max_pages 0 s

unfoldable pub pmm_free_page : ℕ → Pmm → Pmm
pmm_free_page addr s =
    let page = addr / 2 ^ 12 in
    if ltb page max_pages && bitmap_test s.bitmap page then mark_free page s else s

unfoldable pub pmm_get_free_page_count : Pmm → ℕ
pmm_get_free_page_count s = s.free_pages_count

unfoldable pub pmm_get_total_page_count : Pmm → ℕ
pmm_get_total_page_count s = max_pages
