-- ===== src/Heap/Taken.antt =====
-- `kmalloc` on the list of spans: the block that is taken, and the list that is left.
use mathlib.Core.Option
use mathlib.Core.Path.{subst}
use alderkernel.Prelude.{
  ℕ, ◌+◌, ◌-◌, ◌^◌, ◌≤◌, ◌<◌, ◌≡◌, ◌≢◌, ◌⊎◌, inl, inr, refl, ap, ◌∙◌, sym, true, false, ◌&&◌,
  Option, none, some, List, [], ◌∷◌, ◌++◌, leb, if◌then◌else◌, if_both, add32, arith,
}
use alderkernel.Heap.{Block, Heap, set_free, can_split, take_block}
use alderkernel.Heap.Alloc.{CanSplit, IsSplit, take_block-IsSplit, address-take_block}
use alderkernel.Heap.Chain.{
  Span, behind, first_of, last_of, header, Links, Spaced, end_of, used_of, IsHeap, Spaced-append,
  append-Spaced, Spaced_le, Links-append, append-Links, Links-frame, Links-relink, used_of-append,
  used_of-le, first_ge, first_of-same,
}

-- The block that a request of `n` bytes takes, split where what is left has room for a header and 16
-- bytes, and the blocks behind it.
abbrev pub carve : ℕ → Span → List Span → List Span
carve n b ys =
    if leb (n + 32) b.size
    then record { at = b.at; size = n; free = false }
      ∷ record { at = b.at + 16 + n; size = b.size - n - 16; free = true }
      ∷ ys
    else record b { free = false } ∷ ys

-- First fit on the list of spans: the address behind the header, and the list afterwards.
abbrev pub allocate : ℕ → List Span → Option (ℕ × List Span)
allocate n [] = none
allocate n (b ∷ bs) =
    let rest = Option.map (λ (r : ℕ × List Span). (r.0, b ∷ r.1)) (allocate n bs) in
    if b.free && leb n b.size then some (b.at + 16, carve n b bs) else rest

module _ {h : Heap} {n : ℕ} (xs ys : List Span) (b : Span) (w : IsHeap h (xs ++ b ∷ ys))
    (f : b.free ≡ true) (fits : n ≤ b.size) where
  abbrev mid : ℕ
  mid = end_of 4096 xs

  front : Spaced 4096 xs mid
  front = (Spaced-append 4096 (2 ^ 32 - 1) xs (b ∷ ys) w.spaced).0

  rest : (mid ≤ b.at) × Spaced (behind b) ys (2 ^ 32 - 1)
  rest = (Spaced-append 4096 (2 ^ 32 - 1) xs (b ∷ ys) w.spaced).1

  split_links :
      Links h.mem 0 xs b.at
      × ((h.mem b.at ≡ header b (first_of ys 0) (last_of 0 xs)) × Links h.mem b.at ys 0)
  split_links = Links-append h.mem 0 0 xs (b ∷ ys) w.links

  bounds : (4096 ≤ mid) × (behind b ≤ 2 ^ 32 - 1)
  bounds = (Spaced_le 4096 mid xs front, Spaced_le (behind b) (2 ^ 32 - 1) ys rest.1)

  used_before : h.used_bytes ≡ used_of xs + used_of ys
  used_before = w.used ∙ ground (arith, used_of-append xs (b ∷ ys))

  can : n + 32 ≤ b.size → CanSplit h b.at n
  can room =
      let mine = split_links.1.0 in
      let size : (h.mem b.at).size ≡ b.size = ap (λ (c : Block). c.size) mine in
      let next : (h.mem b.at).next ≡ first_of ys 0 = ap (λ (c : Block). c.next) mine in
      let beyond = first_ge (behind b) (2 ^ 32 - 1) ys rest.1 in
      record {
        address = omega (arith, bounds, rest.0);
        in_memory = omega (arith, bounds);
        room = omega arith;
        next_ne_self = omega (arith, bounds, rest.0);
        next_outside = omega (arith, bounds, rest.0);
      }

  used_after : (c : ℕ) → c ≤ b.size → add32 h.used_bytes c ≡ used_of xs + (c + used_of ys)
  used_after c le = omega (
    arith,
    used_before,
    bounds,
    rest.0,
    used_of-le 4096 mid xs front,
    used_of-le (behind b) (2 ^ 32 - 1) ys rest.1,
  )

  head_after :
      (c : Span) (zs : List Span)
      → b.at ≡ c.at
      → (take_block b.at n h).1.heap_head ≡ first_of (xs ++ c ∷ zs) 0
  unfolding take_block
  head_after c zs e = w.head ∙ first_of-same xs ys zs b c e

  not_next : (q : ℕ) → q < behind b → (q ≢ first_of ys 0) ⊎ (first_of ys 0 ≡ 0)
  not_next q lt = elim (first_ge (behind b) (2 ^ 32 - 1) ys rest.1) [
    | inl z ↦ inr z
    | inr le ↦ inl (omega arith)
  ]

  taken_split :
      n + 32 ≤ b.size
      → IsHeap (take_block b.at n h).1 (
          xs
          ++ record { at = b.at; size = n; free = false }
            ∷ record { at = b.at + 16 + n; size = b.size - n - 16; free = true }
            ∷ ys)
  taken_split room =
      let h' : Heap = (take_block b.at n h).1 in
      let s : IsSplit h h' b.at n = take_block-IsSplit (can room) in
      let mine = split_links.1.0 in
      let b1 : Span = record { at = b.at; size = n; free = false } in
      let r : Span = record { at = b.at + 16 + n; size = b.size - n - 16; free = true } in
      let next : (h.mem b.at).next ≡ first_of ys 0 = ap (λ (c : Block). c.next) mine in
      let size : (h.mem b.at).size ≡ b.size = ap (λ (c : Block). c.size) mine in
      let prev : (h.mem b.at).prev ≡ last_of 0 xs = ap (λ (c : Block). c.prev) mine in
      let tail : Spaced (behind r) ys (2 ^ 32 - 1) =
        subst (λ k. Spaced k ys (2 ^ 32 - 1)) (omega arith) rest.1 in
      let spaced : Spaced 4096 (xs ++ b1 ∷ r ∷ ys) (2 ^ 32 - 1) =
        append-Spaced 4096 (2 ^ 32 - 1) xs (b1 ∷ r ∷ ys) front (rest.0, (omega arith, tail)) in
      record {
        head = head_after b1 (r ∷ ys) refl;
        links =
            append-Links h'.mem 0 0 xs (b1 ∷ r ∷ ys)
              (Links-frame h.mem h'.mem 4096 mid 0 b.at xs front
                (λ q lo hi.
                  s.others q (omega (arith, rest.0)) (omega (arith, rest.0)) (
                    subst (λ k. (q ≢ k) ⊎ (k ≡ 0)) (sym next) (not_next q (omega (arith, rest.0)))))
                split_links.0)
              (
                ground (arith, s.taken, prev),
                (
                  ground (arith, s.rest, next, size),
                  Links-relink h.mem h'.mem (behind b) (2 ^ 32 - 1) b.at r.at ys rest.1
                      (subst (λ k. k ≢ 0 → h'.mem k ≡ record (h.mem k) { prev = r.at }) next
                        s.next_block)
                      (λ q lo hi ne.
                        s.others q (omega (arith, room)) (omega (arith, room))
                          (inl (λ e. ne (e ∙ next))))
                      (omega arith) split_links.1.1,
                ),
              );
        spaced = spaced;
        used = omega (arith, s.used, used_after n fits, used_of-append xs (b1 ∷ r ∷ ys));
      }

  kept : b.size < n + 32 → (take_block b.at n h).1.mem ≡ set_free h.mem b.at false
  unfolding take_block can_split
  kept small =
      let size : (h.mem b.at).size ≡ b.size = ap (λ (c : Block). c.size) split_links.1.0 in
      let c : can_split (h.mem b.at).size n ≡ false = ground (arith, bounds, rest.0, size) in
      ground (arith, c, size)

  used_whole : b.size < n + 32 → (take_block b.at n h).1.used_bytes ≡ add32 h.used_bytes b.size
  unfolding take_block can_split
  used_whole small =
      let size : (h.mem b.at).size ≡ b.size = ap (λ (c : Block). c.size) split_links.1.0 in
      let c : can_split (h.mem b.at).size n ≡ false = ground (arith, bounds, rest.0, size) in
      ground (arith, c, size)

  taken_whole :
      b.size < n + 32 → IsHeap (take_block b.at n h).1 (xs ++ record b { free = false } ∷ ys)
  taken_whole small =
      let h' : Heap = (take_block b.at n h).1 in
      let b1 : Span = record b { free = false } in
      let m : h'.mem ≡ set_free h.mem b.at false = kept small in
      let same : (q : ℕ) → q ≢ b.at → h'.mem q ≡ h.mem q = λ q ne. ap (λ g. g q) m ∙ ground arith in
      record {
        head = head_after b1 ys refl;
        links =
            append-Links h'.mem 0 0 xs (b1 ∷ ys)
              (Links-frame h.mem h'.mem 4096 mid 0 b.at xs front
                (λ q lo hi. same q (omega (arith, rest.0))) split_links.0)
              (
                ap (λ g. g b.at) m ∙ ground (arith, split_links.1.0),
                Links-frame h.mem h'.mem (behind b) (2 ^ 32 - 1) b.at 0 ys rest.1
                    (λ q lo hi. same q (omega arith)) split_links.1.1,
              );
        spaced = append-Spaced 4096 (2 ^ 32 - 1) xs (b1 ∷ ys) front rest;
        used =
            omega (
              arith,
              used_whole small,
              used_after b.size (omega arith),
              used_of-append xs (b1 ∷ ys),
            );
      }

-- A free block that is taken out of a heap's list leaves a heap, whose list has the carved block.
pub take_block-IsHeap :
    {h : Heap} {n : ℕ} (xs ys : List Span) (b : Span)
    → IsHeap h (xs ++ b ∷ ys)
    → b.free ≡ true
    → n ≤ b.size
    → ((take_block b.at n h).0 ≡ b.at + 16) × IsHeap (take_block b.at n h).1 (xs ++ carve n b ys)
take_block-IsHeap {h} {n} xs ys b w f fits = (
  address-take_block b.at n h (omega (arith, bounds xs ys b w f fits)),
  if_both (λ zs. IsHeap (take_block b.at n h).1 (xs ++ zs)) (leb (n + 32) b.size)
      (λ e. taken_split xs ys b w f fits (ground (arith, e)))
      (λ e. taken_whole xs ys b w f fits (ground (arith, e))),
)
