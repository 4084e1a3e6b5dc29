-- ===== src/Pmm/Init.antt =====
-- `pmm_init`: which pages are free when it has read the boot loader's memory map.
use alderkernel.Prelude.{
  ℕ, zero, suc, ◌+◌, ◌-◌, ◌*◌, ◌==◌, refl, ◌∙◌, ◌^◌, ◌≤◌, ◌<◌, ◌≡◌, min, Bool, true, false, not,
  ◌&&◌, ◌||◌, ltb, leb, ltb→lt, if_both, arith, inl, inr, Bool-cases, some, List, add32, sym, ap,
}
use alderkernel.Pmm.{
  Pmm, max_pages, bitmap_test, set_range, reserve_range, first_page, last_page, is_usable,
  add_entry, next_entry, add_entries, kernel_end_page, map_length, map_start, has_map, add_map,
  pmm_init, read32, read64, region_end,
}
use alderkernel.Pmm.Bitmap.{IsBitmap, bitmap_test-set, bitmap_set-IsBitmap}
use alderkernel.Pmm.Count.{count_clear-zero}
use alderkernel.Pmm.Inv.{
  IsValid, is_used, within, release_range-IsValid, is_used-release_range, reserve_range-IsValid,
  is_used-reserve_range,
}

-- The fields of the map's entry at `ptr`, by their offsets.
abbrev pub size_field : (ℕ → ℕ) → ℕ → ℕ
size_field mem ptr = read32 mem ptr

abbrev pub base_addr : (ℕ → ℕ) → ℕ → ℕ
base_addr mem ptr = read64 mem (add32 ptr 4)

abbrev pub region_length : (ℕ → ℕ) → ℕ → ℕ
region_length mem ptr = read64 mem (add32 ptr 12)

abbrev pub region_kind : (ℕ → ℕ) → ℕ → ℕ
region_kind mem ptr = read32 mem (add32 ptr 20)

-- The region of the map's entry at `ptr` is RAM, it reaches into page `p`, and it goes on to the page's
-- end at least. The first page of a region counts whole, also where the region begins within it.
abbrev pub in_entry : (ℕ → ℕ) → ℕ → ℕ → Bool
in_entry mem ptr p =
    region_kind mem ptr == 1
    && (ltb (base_addr mem ptr) (p * 4096 + 4096)
        && leb (p * 4096 + 4096) (base_addr mem ptr + region_length mem ptr))

-- Some entry of the map holds page `p`. Entries follow one another from `ptr` to `end`; the size field
-- does not count itself.
unfoldable pub in_map : ℕ → (ℕ → ℕ) → ℕ → ℕ → ℕ → Bool
in_map zero mem ptr end p = false
in_map (suc fuel) mem ptr end p =
    ltb ptr end && (in_entry mem ptr p || in_map fuel mem (ptr + size_field mem ptr + 4) end p)

-- Each entry of the map begins below 2^44 and ends below 2^64, and its size field does not take the
-- walk round the address space.
abbrev pub IsMap : ℕ → (ℕ → ℕ) → ℕ → ℕ → Type 0
IsMap zero mem ptr end = Unit
IsMap (suc fuel) mem ptr end =
    ptr < end
    → (ptr + size_field mem ptr + 4 < 2 ^ 32)
      × (base_addr mem ptr < 2 ^ 44)
      × (base_addr mem ptr + region_length mem ptr < 2 ^ 64)
      × IsMap fuel mem (ptr + size_field mem ptr + 4) end

-- The pages that the code takes from an entry.
taken : (ℕ → ℕ) → ℕ → ℕ → Bool
taken mem ptr p = is_usable mem ptr && (leb (first_page mem ptr) p && ltb p (last_page mem ptr))

last_page_lem :
    (mem : ℕ → ℕ) (ptr p : ℕ)
    → base_addr mem ptr + region_length mem ptr < 2 ^ 64
    → p < max_pages
    → ltb p (last_page mem ptr) ≡ leb (p * 4096 + 4096) (base_addr mem ptr + region_length mem ptr)
unfolding last_page region_end
last_page_lem mem ptr p h lt = ground arith

taken_lem :
    (mem : ℕ → ℕ) (ptr p : ℕ)
    → base_addr mem ptr < 2 ^ 44
    → base_addr mem ptr + region_length mem ptr < 2 ^ 64
    → p < max_pages
    → taken mem ptr p ≡ in_entry mem ptr p
unfolding taken is_usable first_page
taken_lem mem ptr p low whole lt = ground (arith, last_page_lem mem ptr p whole lt)

module _ (mem : ℕ → ℕ) (ptr : ℕ) {s : Pmm} (v : IsValid s) where
  add_entry-IsValid : IsValid (add_entry mem ptr s)
  unfolding add_entry
  add_entry-IsValid =
      if_both IsValid (is_usable mem ptr)
        (λ _. release_range-IsValid _ (first_page mem ptr) v (omega arith)) (λ _. v)

  is_used-add_entry :
      (p : ℕ)
      → p < max_pages
      → is_used (add_entry mem ptr s) p ≡ (not (taken mem ptr p) && is_used s p)
  unfolding add_entry taken
  is_used-add_entry p h =
      let first : ℕ = first_page mem ptr in
      let n : ℕ = min (last_page mem ptr) max_pages - first in
      if_both (λ t. is_used t p ≡ (not (taken mem ptr p) && is_used s p)) (is_usable mem ptr)
        (λ e. ground (arith, is_used-release_range n first v (omega arith) p)) (λ e. ground arith)

next_entry_lem :
    (mem : ℕ → ℕ) (ptr : ℕ)
    → ptr + size_field mem ptr + 4 < 2 ^ 32
    → next_entry mem ptr ≡ ptr + size_field mem ptr + 4
unfolding next_entry
next_entry_lem mem ptr h = omega arith

-- What the walk over the map leaves.
abbrev Walked : ℕ → (ℕ → ℕ) → ℕ → ℕ → Pmm → Pmm → Type 0
Walked fuel mem ptr end s t =
    IsValid t
    × ((p : ℕ) → p < max_pages → is_used t p ≡ (not (in_map fuel mem ptr end p) && is_used s p))

add_entries_lem :
    (fuel : ℕ) (mem : ℕ → ℕ) (ptr end : ℕ) (s : Pmm)
    → IsValid s
    → IsMap fuel mem ptr end
    → 0 < fuel
    → end < ptr + fuel
    → (t : Pmm) × (add_entries fuel mem ptr end s ≡ some t) × Walked fuel mem ptr end s t
unfolding add_entries in_map
add_entries_lem zero mem ptr end s v m pos h = absurd (omega arith)
add_entries_lem (suc fuel) mem ptr end s v m pos h = elim (Bool-cases (ltb ptr end)) [
  | inl more ↦
      let lt : ptr < end = ltb→lt ptr end more in
      let (up, low, whole, rest) = m lt in
      let next = next_entry_lem mem ptr up in
      let (t, run, (valid, flags)) =
        add_entries_lem fuel mem (ptr + size_field mem ptr + 4) end (add_entry mem ptr s)
          (add_entry-IsValid mem ptr v) rest (omega arith) (omega arith) in
      (
        t,
        rw more (ap (λ q. add_entries fuel mem q end (add_entry mem ptr s)) next ∙ run),
        (
          valid,
          λ p hp. ground (
            arith,
            flags p hp,
            is_used-add_entry mem ptr v p hp,
            taken_lem mem ptr p low whole hp,
          ),
        ),
      )
  | inr done ↦ (s, rw done refl, (v, λ p hp. ground arith))
]

set_range-IsBitmap :
    (n i : ℕ) {bm : List ℕ} → IsBitmap bm → i + n ≤ max_pages → IsBitmap (set_range n i bm)
unfolding set_range
set_range-IsBitmap zero i v h = v
set_range-IsBitmap (suc n) i v h =
    set_range-IsBitmap n (i + 1) (bitmap_set-IsBitmap v i (omega arith)) (omega arith)

bitmap_test-set_range :
    (n i : ℕ) {bm : List ℕ}
    → IsBitmap bm
    → i + n ≤ max_pages
    → (q : ℕ) → bitmap_test (set_range n i bm) q ≡ (within i n q || bitmap_test bm q)
unfolding set_range
bitmap_test-set_range zero i v h q = ground arith
bitmap_test-set_range (suc n) i v h q = ground (
  arith,
  bitmap_test-set_range n (i + 1) (bitmap_set-IsBitmap v i (omega arith)) (omega arith) q,
  bitmap_test-set v i (omega arith) q,
)

-- The state from which the map is read: every page reserved, none counted.
abbrev reserved : List ℕ → Pmm
reserved old = record { bitmap = set_range max_pages 0 old; free_pages_count = 0 }

all_reserved :
    {old : List ℕ} → IsBitmap old → (p : ℕ) → p < max_pages → is_used (reserved old) p ≡ true
all_reserved v p h = ground (arith, bitmap_test-set_range max_pages 0 v (omega arith) p)

reserved-IsValid : {old : List ℕ} → IsBitmap old → IsValid (reserved old)
reserved-IsValid {old} v = record {
  whole = set_range-IsBitmap max_pages 0 v (omega arith);
  counted = sym (count_clear-zero max_pages (is_used (reserved old)) (all_reserved v));
}

-- The end of the boot loader's map.
abbrev pub map_end : (ℕ → ℕ) → ℕ → ℕ
map_end mem info = add32 (map_start mem info) (map_length mem info)

-- The boot information has a map, whose entries are as the loop expects them.
abbrev pub HasMap : (ℕ → ℕ) → ℕ → Type 0
HasMap mem info = IsMap (map_length mem info + 1) mem (map_start mem info) (map_end mem info)

-- The boot loader's map lists page `p` as RAM.
unfoldable pub in_ram : (ℕ → ℕ) → ℕ → ℕ → Bool
in_ram mem info p =
    has_map mem info
    && in_map (map_length mem info + 1) mem (map_start mem info) (map_end mem info) p

add_map_lem :
    (mem : ℕ → ℕ) (info : ℕ) (s : Pmm)
    → IsValid s
    → ((p : ℕ) → p < max_pages → is_used s p ≡ true)
    → HasMap mem info
    → (t : Pmm) × (add_map mem info s ≡ some t)
      × IsValid t
      × ((p : ℕ) → p < max_pages → is_used t p ≡ not (in_ram mem info p))
unfolding add_map in_ram
add_map_lem mem info s v full m = elim (Bool-cases (has_map mem info)) [
  | inl e ↦
      let fuel : ℕ = map_length mem info + 1 in
      let start : ℕ = map_start mem info in
      let (t, run, (valid, flags)) =
        add_entries_lem fuel mem start (map_end mem info) s v m (omega arith) (omega arith) in
      (t, rw e run, valid, λ p h. ground (arith, flags p h, full p h))
  | inr e ↦ (s, rw e, v, λ p h. ground (arith, full p h))
]

kernel_pages :
    (kernel_end p : ℕ)
    → kernel_end < 2 ^ 32
    → ltb p (kernel_end_page kernel_end) ≡ leb (p * 4096) kernel_end
unfolding kernel_end_page
kernel_pages kernel_end p h = ground arith

-- `pmm_init` returns, in a valid state. A page is then in use exactly when it begins at the end of the
-- kernel's image or before, or no region of RAM in the boot loader's map reaches into it and goes on to
-- its end. The static bitmap may hold anything before; the regions of the map begin below 2^44 and end
-- below 2^64, no size field takes the walk round the address space, and the end of the kernel is a
-- machine word.
pub pmm_init_lem :
    (mem : ℕ → ℕ) (kernel_end info : ℕ) {old : List ℕ}
    → IsBitmap old
    → kernel_end < 2 ^ 32
    → HasMap mem info
    → (t : Pmm) × (pmm_init mem kernel_end info old ≡ some t)
      × IsValid t
      × ((p : ℕ)
          → p < max_pages
          → is_used t p ≡ (leb (p * 4096) kernel_end || not (in_ram mem info p)))
unfolding pmm_init
pmm_init_lem mem kernel_end info {old} v word m =
    let (s, run, w, flags) =
      add_map_lem mem info (reserved old) (reserved-IsValid v) (all_reserved v) m in
    let n : ℕ = min (kernel_end_page kernel_end) max_pages in
    (
      reserve_range n 0 s,
      rw (run, pmm_init),
      reserve_range-IsValid n 0 w,
      λ p h. ground (
        arith,
        is_used-reserve_range n 0 w (omega arith) p,
        flags p h,
        kernel_pages kernel_end p word,
      ),
    )
