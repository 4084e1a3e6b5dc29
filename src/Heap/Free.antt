-- ===== src/Heap/Free.antt =====
-- `kfree` of the block that `kmalloc` has just split off: the list is as it was before.
use alderkernel.Prelude.{
  ℕ, ◌+◌, ◌-◌, ◌^◌, ◌<◌, ◌≡◌, refl, ◌≢◌, ◌⊎◌, inl, inr, ap, sym, ◌∙◌, true, false, if_ne, add32,
  sub32, arith,
}
use mathlib.Core.Path.{subst}
use native.Mathlib.Decide.{ℕ_discrete}
use alderkernel.Heap.{Block, Heap, set_free, try_merge, kfree, take_block}
use alderkernel.Heap.Alloc.{CanSplit, IsSplit, take_block-IsSplit, address-take_block}

-- The block before `a` does not take part in the merge: there is none, or it is in use.
pub record NoMergeBefore (h : Heap) (a size : ℕ) : Type 0 where
  pub ne_self : (h.mem a).prev ≢ a
  pub outside : (h.mem a).prev ≢ a + 16 + size
  pub in_use : ((h.mem a).prev ≡ 0) ⊎ ((h.mem (h.mem a).prev).free ≡ false)

-- Where the neighbour is null or in use a merge changes nothing.
no_merge : (m : ℕ → Block) (a p : ℕ) → (p ≡ 0) ⊎ ((m p).free ≡ false) → try_merge a p false m ≡ m
unfolding try_merge
no_merge m a p (inl z) = ground arith
no_merge m a p (inr f) = ground arith

module _ {h h' : Heap} {a size : ℕ} (c : CanSplit h a size) (s : IsSplit h h' a size)
    (was_free : (h.mem a).free ≡ true) where
  freed : ℕ → Block
  freed = set_free h'.mem a true

  r : ℕ
  r = a + 16 + size

  bounds :
      (add32 (add32 a 16) size ≡ a + 16 + size)
      × (add32 size (add32 16 ((h.mem a).size - size - 16)) ≡ (h.mem a).size)
      × (a ≢ a + 16 + size)
  bounds = (omega (arith, c.in_memory, c.room), omega (arith, c.in_memory, c.room), omega arith)

  at_a : freed a ≡ record { size = size; free = true; next = a + 16 + size; prev = (h.mem a).prev }
  unfolding freed
  at_a = ground (arith, s.taken)

  at_r :
      freed (a + 16 + size)
      ≡ record { size = (h.mem a).size - size - 16; free = true; next = (h.mem a).next; prev = a }
  unfolding freed
  at_r = ground (arith, s.rest, bounds)

  at_other : (q : ℕ) → q ≢ a → freed q ≡ h'.mem q
  unfolding freed
  at_other q ne = ground arith

  -- The header behind the dead one: its back link is the only thing that the split changed.
  next_lem :
      (h.mem a).next ≢ 0
      → record (freed (h.mem a).next) { prev = a } ≡ record (h.mem (h.mem a).next) { prev = a }
  next_lem nz =
      ap (λ (b : Block). record b { prev = a })
        (at_other (h.mem a).next c.next_ne_self ∙ s.next_block nz)

  -- The first merge gives every header but the dead one back.
  merged :
      ((h.mem a).next ≢ 0 → (h.mem (h.mem a).next).prev ≡ a)
      → (q : ℕ) → q ≢ a + 16 + size
      → try_merge a (a + 16 + size) true freed q ≡ h.mem q
  unfolding try_merge
  merged back q ne = elim (ℕ_discrete q a) [
    | yes at ↦ rw at (ground (arith, at_a, at_r, bounds, c.next_ne_self, was_free))
    | no other ↦ elim (ℕ_discrete (h.mem a).next 0) [
      | yes z ↦ ground (arith, at_a, at_r, bounds, z, at_other q other, s.others q other ne (inr z))
      | no nz ↦ elim (ℕ_discrete q (h.mem a).next) [
        | yes at ↦ rw at (ground (arith, at_a, at_r, bounds, back nz, next_lem nz))
        | no apart ↦
            ground (arith, at_a, at_r, bounds, at_other q other, s.others q other ne (inl apart))
      ]
    ]
  ]

  -- The second merge finds nothing to do.
  unmerged :
      ((h.mem a).next ≢ 0 → (h.mem (h.mem a).next).prev ≡ a)
      → NoMergeBefore h a size
      → let m : ℕ → Block = try_merge a (a + 16 + size) true freed in
        try_merge a (m a).prev false m ≡ m
  unmerged back n =
      let m : ℕ → Block = try_merge a (a + 16 + size) true freed in
      let at : m a ≡ h.mem a = merged back a (bounds.2) in
      let prev : (m a).prev ≡ (h.mem a).prev = ap (λ (b : Block). b.prev) at in
      let there : m (h.mem a).prev ≡ h.mem (h.mem a).prev = merged back (h.mem a).prev n.outside in
      no_merge m a (m a).prev (ground (arith, n.in_use))

-- What `kfree` does once it has the block's address.
abbrev free_at : ℕ → Heap → Heap
free_at block h =
    let mem1 = set_free h.mem block true in
    let mem2 = try_merge block (mem1 block).next true mem1 in
    record h {
      mem = try_merge block (mem2 block).prev false mem2;
      used_bytes = sub32 h.used_bytes (mem1 block).size;
      free_bytes = add32 h.free_bytes (mem1 block).size;
    }

kfree_at : (a : ℕ) (h : Heap) → a + 16 < 2 ^ 32 → kfree (a + 16) h ≡ free_at a h
unfolding kfree
kfree_at a h lt =
    let b : sub32 (a + 16) 16 ≡ a = omega arith in
    rw b (if_ne (a + 16) 0 h (free_at a h) (omega arith))

-- The list is well linked behind `a`: the next block, if there is one, points back.
abbrev pub LinksBack : Heap → ℕ → Type 0
LinksBack h a = (h.mem a).next ≢ 0 → (h.mem (h.mem a).next).prev ≡ a

-- Two heaps with the same counters and the same headers, but for one at a dead address.
pub record SameBut (dead : ℕ) (h g : Heap) : Type 0 where
  pub headers : (q : ℕ) → q ≢ dead → g.mem q ≡ h.mem q
  pub used : g.used_bytes ≡ h.used_bytes
  pub free : g.free_bytes ≡ h.free_bytes
  pub head : g.heap_head ≡ h.heap_head

restored :
    {h h' : Heap} {a size : ℕ} (c : CanSplit h a size) (s : IsSplit h h' a size)
    → (h.mem a).free ≡ true
    → LinksBack h a
    → NoMergeBefore h a size
    → h'.heap_head ≡ h.heap_head
    → h.used_bytes < 2 ^ 32
    → h.free_bytes < 2 ^ 32
    → SameBut (a + 16 + size) h (free_at a h')
unfolding freed
restored {h} {h'} {a} {size} c s f back n hd hu hf =
    let first : ℕ → Block = set_free h'.mem a true in
    let m : ℕ → Block = try_merge a (a + 16 + size) true first in
    let mine : first a
        ≡ record { size = size; free = true; next = a + 16 + size; prev = (h.mem a).prev } =
      at_a c s f in
    let same : (free_at a h').mem ≡ m =
      ap (λ p. try_merge a (try_merge a p true first a).prev false (try_merge a p true first))
        (ap (λ (b : Block). b.next) mine)
      ∙ unmerged c s f back n in
    let size_lem : (first a).size ≡ size = ap (λ (b : Block). b.size) mine in
    record {
      headers = λ q ne. ap (λ (g : ℕ → Block). g q) same ∙ merged c s f back q ne;
      used =
          ap (λ z. sub32 h'.used_bytes z) size_lem
          ∙ ap (λ z. sub32 z size) s.used
          ∙ omega (arith, c.in_memory, c.room);
      free =
          ap (λ z. add32 h'.free_bytes z) size_lem
          ∙ ap (λ z. add32 z size) s.free
          ∙ omega (arith, c.in_memory, c.room);
      head = hd;
    }

heap_head-take_block : (a size : ℕ) (h : Heap) → (take_block a size h).1.heap_head ≡ h.heap_head
unfolding take_block
heap_head-take_block a size h = refl

-- `kfree` undoes an allocation that split a free block: every header of the list, the head and both
-- counters are as they were before; the only trace is the header of the split-off part, which the
-- list no longer reaches. The block before must be absent or in use, so that nothing else merges,
-- the block behind must link back, and the counters are machine words.
pub kfree-take_block :
    {h : Heap} {a size : ℕ}
    → CanSplit h a size
    → (h.mem a).free ≡ true
    → LinksBack h a
    → NoMergeBefore h a size
    → h.used_bytes < 2 ^ 32
    → h.free_bytes < 2 ^ 32
    → SameBut (a + 16 + size) h (kfree (take_block a size h).0 (take_block a size h).1)
kfree-take_block {h} {a} {size} c f back n hu hf =
    let lt : a + 16 < 2 ^ 32 = omega (arith, c.in_memory) in
    let t : Heap = (take_block a size h).1 in
    let e : kfree (take_block a size h).0 t ≡ free_at a t =
      ap (λ p. kfree p t) (address-take_block a size h lt) ∙ kfree_at a t lt in
    subst (λ g. SameBut (a + 16 + size) h g) (sym e)
      (restored c (take_block-IsSplit c) f back n (heap_head-take_block a size h) hu hf)
