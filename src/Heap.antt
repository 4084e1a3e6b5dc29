-- ===== src/Heap.antt =====
-- The kernel heap, kernel/mm/heap.c: first fit over a doubly linked list of blocks, each behind a
-- header of 16 bytes. The store holds the headers by address; a pointer is its address, 0 is null.
-- The pages come from `Pmm`. A walk along the list takes fuel; `none` means that it ran out.
pub mod Align
pub mod Chain
pub mod Start
pub mod Alloc
pub mod Taken
pub mod FirstFit
pub mod Joined
pub mod Released
pub mod Free
use alderkernel.Prelude.{
  ℕ, zero, suc, ◌+◌, ◌-◌, ◌*◌, ◌/◌, ◌%◌, ◌^◌, Bool, true, false, not, ◌&&◌, ◌||◌, Option, none,
  some, ◌==◌, ltb, leb, if◌then◌else◌, bit_and, add32, sub32, mul32,
}
use alderkernel.Pmm.{Pmm, pmm_alloc_page, pmm_free_page}

-- `heap_block_t`
pub record Block : Type 0 where
  pub size : ℕ
  pub free : Bool
  pub next : ℕ
  pub prev : ℕ

-- The statics, the headers in memory, and the page allocator.
pub record Heap : Type 0 where
  pub mem : ℕ → Block
  pub heap_head : ℕ
  pub used_bytes : ℕ
  pub free_bytes : ℕ
  pub pmm : Pmm

-- sizeof(heap_block_t)
abbrev pub header_size : ℕ
header_size = 16

abbrev pub write : (ℕ → Block) → ℕ → Block → ℕ → Block
write mem a b q = if a == q then b else mem q

abbrev pub set_size : (ℕ → Block) → ℕ → ℕ → ℕ → Block
set_size mem a n = write mem a (record (mem a) { size = n })

abbrev pub set_free : (ℕ → Block) → ℕ → Bool → ℕ → Block
set_free mem a f = write mem a (record (mem a) { free = f })

abbrev pub set_next : (ℕ → Block) → ℕ → ℕ → ℕ → Block
set_next mem a p = write mem a (record (mem a) { next = p })

abbrev pub set_prev : (ℕ → Block) → ℕ → ℕ → ℕ → Block
set_prev mem a p = write mem a (record (mem a) { prev = p })

-- `(n + align - 1) & ~(align - 1)`
unfoldable pub align_up : ℕ → ℕ → ℕ
align_up n align = bit_and (sub32 (add32 n align) 1) (2 ^ 32 - 1 - sub32 align 1)

-- The pages after the first, with `n` rounds left: how many pages there are in a row.
unfoldable pub extend_pages : ℕ → ℕ → ℕ → Pmm → ℕ × Pmm
extend_pages zero expected got pmm = (got, pmm)
extend_pages (suc n) expected got pmm =
    let (page, pmm') = pmm_alloc_page pmm in
    let rest = extend_pages n (add32 expected 4096) (add32 got 1) pmm' in
    if page == 0
    then (got, pmm')
    else if page == expected
    then rest
    else (got, pmm_free_page page pmm')

-- while (tail->next != 0)
unfoldable pub find_tail : ℕ → (ℕ → Block) → ℕ → Option ℕ
find_tail zero mem tail = none
find_tail (suc fuel) mem tail =
    let next = (mem tail).next in
    let rest = find_tail fuel mem next in if next == 0 then some tail else rest

-- The new block's header, and its place behind the last one.
unfoldable pub append_block : ℕ → ℕ → ℕ → Heap → Option Heap
append_block fuel block size h =
    let mem = write h.mem block (record { size = size; free = true; next = 0; prev = 0 }) in
    let free_bytes = add32 h.free_bytes size in
    if h.heap_head == 0
    then some (record h { mem = mem; heap_head = block; free_bytes = free_bytes })
    else elim (find_tail fuel mem h.heap_head) [
      | none ↦ none
      | some tail ↦ some (record h {
        mem = set_prev (set_next mem tail block) block tail;
        free_bytes = free_bytes;
      })
    ]

unfoldable pub heap_extend : ℕ → ℕ → Heap → Option (ℕ × Heap)
heap_extend fuel pages h =
    let (first, pmm1) = pmm_alloc_page h.pmm in
    let (got, pmm2) = extend_pages (pages - 1) (add32 first 4096) 1 pmm1 in
    let r =
      append_block fuel first (sub32 (mul32 got 4096) header_size) (record h { pmm = pmm2 }) in
    if first == 0
    then some (0, record h { pmm = pmm1 })
    else elim r [ none ↦ none | some h' ↦ some (first, h') ]

-- HEAP_INITIAL_PAGES is 16.
unfoldable pub heap_init : ℕ → Heap → Option Heap
heap_init fuel h =
    elim (heap_extend fuel 16 (record h { heap_head = 0; used_bytes = 0; free_bytes = 0 })) [
      | none ↦ none
      | some r ↦ some r.1
    ]

-- The search for a free block that is big enough: its address, or 0.
unfoldable pub find_block : ℕ → (ℕ → Block) → ℕ → ℕ → Option ℕ
find_block zero mem size p = none
find_block (suc fuel) mem size p =
    let rest = find_block fuel mem size (mem p).next in
    if p == 0 then some 0 else if (mem p).free && leb size (mem p).size then some p else rest

-- Splitting off what is left over, where it is worth a header (MIN_SPLIT_SIZE is 16).
unfoldable pub split_block : ℕ → ℕ → (ℕ → Block) → ℕ → Block
split_block block size mem =
    let remainder = add32 (add32 block header_size) size in
    let next = (mem block).next in
    let mem1 = write mem remainder (record {
      size = sub32 (sub32 (mem block).size size) header_size;
      free = true;
      next = next;
      prev = block;
    }) in
    let mem2 = if next == 0 then mem1 else set_prev mem1 next remainder in
    set_size (set_next mem2 block remainder) block size

unfoldable pub can_split : ℕ → ℕ → Bool
can_split have size = leb (add32 (add32 size header_size) 16) have

-- From the split to the end of `kmalloc`.
unfoldable pub take_block : ℕ → ℕ → Heap → ℕ × Heap
take_block block size h =
    let mem = if can_split (h.mem block).size size then split_block block size h.mem else h.mem in
    let taken = (mem block).size in
    (
      add32 block header_size,
      record h {
        mem = set_free mem block false;
        free_bytes = sub32 h.free_bytes taken;
        used_bytes = add32 h.used_bytes taken;
      },
    )

unfoldable pub need_pages : ℕ → ℕ
need_pages size =
    let n = sub32 (add32 (add32 size header_size) 4096) 1 / 4096 in if ltb n 1 then 1 else n

unfoldable pub kmalloc_aligned : ℕ → ℕ → Heap → Option (ℕ × Heap)
kmalloc_aligned fuel size h = elim (find_block fuel h.mem size h.heap_head) [
  | none ↦ none
  | some zero ↦ elim (heap_extend fuel (need_pages size) h) [
    | none ↦ none
    | some r ↦
        if r.0 == 0 || ltb (r.1.mem r.0).size size
        then some (0, r.1)
        else some (take_block r.0 size r.1)
  ]
  | some (suc p) ↦ some (take_block (suc p) size h)
]

unfoldable pub kmalloc : ℕ → ℕ → Heap → Option (ℕ × Heap)
kmalloc fuel size h = if size == 0 then some (0, h) else kmalloc_aligned fuel (align_up size 8) h

unfoldable pub try_merge : ℕ → ℕ → Bool → (ℕ → Block) → ℕ → Block
try_merge block neighbor neighbor_is_next mem =
    let lower = if neighbor_is_next then block else neighbor in
    let higher = if neighbor_is_next then neighbor else block in
    let lower_end = add32 (add32 lower header_size) (mem lower).size in
    let mem1 = set_size mem lower (add32 (mem lower).size (add32 header_size (mem higher).size)) in
    let next = (mem1 higher).next in
    let mem2 = set_next mem1 lower next in
    if neighbor == 0 || not (mem neighbor).free
    then mem
    else if not (lower_end == higher)
    then mem
    else if next == 0
    then mem2
    else set_prev mem2 next lower

unfoldable pub kfree : ℕ → Heap → Heap
kfree ptr h =
    let block = sub32 ptr header_size in
    let mem1 = set_free h.mem block true in
    let size = (mem1 block).size in
    let mem2 = try_merge block (mem1 block).next true mem1 in
    let mem3 = try_merge block (mem2 block).prev false mem2 in
    if ptr == 0 then h else record h {
      mem = mem3;
      used_bytes = sub32 h.used_bytes size;
      free_bytes = add32 h.free_bytes size;
    }

unfoldable pub heap_get_free_bytes : Heap → ℕ
heap_get_free_bytes h = h.free_bytes

unfoldable pub heap_get_used_bytes : Heap → ℕ
heap_get_used_bytes h = h.used_bytes
