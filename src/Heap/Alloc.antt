-- ===== src/Heap/Alloc.antt =====
-- `kmalloc` where the list has a block: what becomes of the headers.
use alderkernel.Prelude.{
  ℕ, zero, suc, ◌+◌, ◌-◌, ◌^◌, ◌<◌, ◌≤◌, ◌≡◌, refl, ◌≢◌, ◌⊎◌, inl, inr, Bool-cases, if_ne, ap, ◌∙◌,
  true, false, ◌&&◌, some, leb, add32, sub32, arith,
}
use native.Mathlib.Decide.{ℕ_discrete}
use alderkernel.Heap.{
  Block, Heap, split_block, can_split, take_block, find_block, kmalloc_aligned, kmalloc, align_up,
}
use alderkernel.Heap.Align.{align_up_wraps}

-- A free block at `a` with room for a request of `size` bytes and for another header.
pub record CanSplit (h : Heap) (a size : ℕ) : Type 0 where
  pub address : 0 < a
  pub in_memory : a + 16 + (h.mem a).size < 2 ^ 32
  pub room : size + 32 ≤ (h.mem a).size
  pub next_ne_self : (h.mem a).next ≢ a
  pub next_outside : (h.mem a).next ≢ a + 16 + size

-- The headers after the block was split and taken.
pub record IsSplit (h h' : Heap) (a size : ℕ) : Type 0 where
  pub taken :
      h'.mem a ≡ record { size = size; free = false; next = a + 16 + size; prev = (h.mem a).prev }
  pub rest :
      h'.mem (a + 16 + size)
      ≡ record { size = (h.mem a).size - size - 16; free = true; next = (h.mem a).next; prev = a }
  pub next_block :
      (h.mem a).next ≢ 0
      → h'.mem (h.mem a).next ≡ record (h.mem (h.mem a).next) { prev = a + 16 + size }
  pub others :
      (q : ℕ)
      → q ≢ a
      → q ≢ a + 16 + size
      → (q ≢ (h.mem a).next) ⊎ ((h.mem a).next ≡ 0)
      → h'.mem q ≡ h.mem q
  pub used : h'.used_bytes ≡ add32 h.used_bytes size
  pub free : h'.free_bytes ≡ sub32 h.free_bytes size

pub take_block-IsSplit :
    {h : Heap} {a size : ℕ} → CanSplit h a size → IsSplit h (take_block a size h).1 a size
unfolding take_block split_block can_split
take_block-IsSplit {h} {a} {size} c =
    let r : add32 (add32 a 16) size ≡ a + 16 + size = omega (arith, c.in_memory, c.room) in
    let n : sub32 (sub32 (h.mem a).size size) 16 ≡ (h.mem a).size - size - 16 =
      omega (arith, c.in_memory, c.room) in
    let fits : leb (add32 (add32 size 16) 16) (h.mem a).size ≡ true =
      ground (arith, c.room, c.in_memory) in
    record {
      taken = ground (arith, r, n, fits, c.next_ne_self, c.next_outside);
      rest = ground (arith, r, n, fits, c.next_ne_self, c.next_outside);
      next_block = λ z. ground (arith, r, n, fits, c.next_ne_self, c.next_outside);
      others = λ q x y z. ground (arith, r, n, fits);
      used = ground (arith, r, n, fits, c.next_ne_self, c.next_outside);
      free = ground (arith, r, n, fits, c.next_ne_self, c.next_outside);
    }

pub address-take_block :
    (a size : ℕ) (h : Heap) → a + 16 < 2 ^ 32 → (take_block a size h).0 ≡ a + 16
unfolding take_block
address-take_block a size h lt = omega arith

-- The walk of the list from `p` that passes over blocks which are in use or too small, up to `q`.
pub data Skips (mem : ℕ → Block) (size : ℕ) : ℕ → ℕ → Type 0 where
  here : {p : ℕ} → Skips mem size p p
  past :
      {p q : ℕ}
      → p ≢ 0
      → ((mem p).free && leb size (mem p).size) ≡ false
      → Skips mem size (mem p).next q
      → Skips mem size p q

-- The list from `p` has `n` blocks.
pub data Chain (mem : ℕ → Block) : ℕ → ℕ → Type 0 where
  done : {p n : ℕ} → p ≡ 0 → n ≡ 0 → Chain mem p n
  link : {p n m : ℕ} → p ≢ 0 → n ≡ suc m → Chain mem (mem p).next m → Chain mem p n

-- What the search stops at: the first block that is free and big enough, or the end of the list.
abbrev pub FirstFit : (ℕ → Block) → ℕ → ℕ → ℕ → Type 0
FirstFit mem size p q =
    Skips mem size p q × ((q ≡ 0) ⊎ (((mem q).free ≡ true) × (size ≤ (mem q).size)))

-- On a list of fewer blocks than the fuel, the search of `kmalloc` ends, at the first block that is
-- free and has room for the request, or at the end where no block has.
pub find_block_lem :
    (fuel : ℕ) (mem : ℕ → Block) (size p n : ℕ)
    → Chain mem p n
    → n < fuel
    → (q : ℕ) × (find_block fuel mem size p ≡ some q) × FirstFit mem size p q
unfolding find_block
find_block_lem zero mem size p n c h = absurd (omega arith)
find_block_lem (suc fuel) mem size p n (done z e) h = (0, ground arith, (rw z here, inl refl))
find_block_lem (suc fuel) mem size p n (link nz e c) h =
    elim (Bool-cases ((mem p).free && leb size (mem p).size)) [
      | inl fit ↦ (p, ground arith, (here, inr (ground arith)))
      | inr unfit ↦
          let (q, run, fit) = find_block_lem fuel mem size (mem p).next _ c (omega arith) in
          (q, ground (arith, run), (past nz unfit fit.0, fit.1))
    ]

pub kmalloc_aligned_found :
    (fuel size q : ℕ) (h : Heap)
    → q ≢ 0
    → find_block fuel h.mem size h.heap_head ≡ some q
    → kmalloc_aligned fuel size h ≡ some (take_block q size h)
unfolding kmalloc_aligned
kmalloc_aligned_found fuel size zero h nz e = absurd (nz refl)
kmalloc_aligned_found fuel size (suc p) h nz e = rw (e, kmalloc_aligned)

pub kmalloc_ne_zero :
    (fuel size : ℕ) (h : Heap)
    → size ≢ 0
    → kmalloc fuel size h ≡ kmalloc_aligned fuel (align_up size 8) h
unfolding kmalloc
kmalloc_ne_zero fuel size h nz = if_ne size 0 _ _ nz

-- With fuel for the list, `kmalloc` of a request that is not 0 finds the end of the list or the first
-- free block that has room for the request rounded up to a multiple of eight, and returns that block.
pub kmalloc-FirstFit :
    (fuel size n : ℕ) (h : Heap)
    → size ≢ 0
    → Chain h.mem h.heap_head n
    → n < fuel
    → (q : ℕ) × FirstFit h.mem (align_up size 8) h.heap_head q
      × ((q ≡ 0) ⊎ (kmalloc fuel size h ≡ some (take_block q (align_up size 8) h)))
kmalloc-FirstFit fuel size n h nz c lt =
    let (q, run, fit) = find_block_lem fuel h.mem (align_up size 8) h.heap_head n c lt in
    (
      q,
      fit,
      elim (ℕ_discrete q 0) [
        | yes e ↦ inl e
        | no ne ↦ inr (
            kmalloc_ne_zero fuel size h nz
            ∙ kmalloc_aligned_found fuel (align_up size 8) q h ne run)
      ],
    )

find_block_head :
    (fuel : ℕ) (mem : ℕ → Block) (p : ℕ)
    → p ≢ 0
    → (mem p).free ≡ true
    → find_block (suc fuel) mem 0 p ≡ some p
unfolding find_block
find_block_head fuel mem p nz f = ground arith

-- A request of the last seven sizes below 4 GB wraps to 0 when it is rounded up. If the first block of
-- the list is free, has 32 bytes at least, lies in memory behind its first page, and no link of it
-- points into it, `kmalloc` then succeeds, with an address that is not null, and the block that it
-- hands out has no bytes.
pub kmalloc_wraps :
    (fuel size : ℕ) (h : Heap)
    → 2 ^ 32 ≤ size + 7
    → size < 2 ^ 32
    → (h.mem h.heap_head).free ≡ true
    → CanSplit h h.heap_head 0
    → (kmalloc (suc fuel) size h ≡ some (take_block h.heap_head 0 h))
      × ((take_block h.heap_head 0 h).0 ≢ 0)
      × (((take_block h.heap_head 0 h).1.mem h.heap_head).size ≡ 0)
kmalloc_wraps fuel size h lo hi f c =
    let a : ℕ = h.heap_head in
    let nz : a ≢ 0 = omega (arith, c.address) in
    (
      kmalloc_ne_zero (suc fuel) size h (omega arith)
          ∙ ap (λ k. kmalloc_aligned (suc fuel) k h) (align_up_wraps size lo hi)
          ∙ kmalloc_aligned_found (suc fuel) 0 a h nz (find_block_head fuel h.mem a nz f),
      λ e.
          absurd
            (omega (arith, address-take_block a 0 h (omega (arith, c.in_memory)), c.in_memory)),
      ap (λ (b : Block). b.size) (take_block-IsSplit c).taken,
    )
