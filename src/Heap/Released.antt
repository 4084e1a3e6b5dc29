-- ===== src/Heap/Released.antt =====
-- `kfree` on the list of spans: the block becomes free, and one with the free blocks that it touches.
use mathlib.Core.Path.{subst}
use mathlib.Core.List.{append_assoc}
use alderkernel.Prelude.{
  ℕ, ◌+◌, ◌-◌, ◌^◌, ◌≤◌, ◌<◌, ◌≡◌, ◌⊎◌, inl, inr, refl, ap, ◌∙◌, sym, Bool, true, false, ◌&&◌, List,
  [], ◌∷◌, ◌++◌, ◌==◌, if_both, if_ne, add32, sub32, arith,
}
use alderkernel.Heap.{Block, Heap, set_free, try_merge, kfree}
use alderkernel.Heap.Chain.{
  Span, behind, first_of, end_of, used_of, IsHeap, Spaced-append, append-Spaced, Spaced_le,
  Links-append, append-Links, Links-frame, used_of-append, used_of-le,
}
use alderkernel.Heap.Joined.{join, merge, Listed, try_merge-next, try_merge-prev, try_merge-first}

-- The last block of the first list joins the second.
abbrev pub join_last : List Span → List Span → List Span
join_last [] l = l
join_last (a ∷ []) l = join a l
join_last (a ∷ c ∷ xs) l = a ∷ join_last (c ∷ xs) l

-- The list after the block `b` between `xs` and `ys` was freed.
abbrev pub after_release : List Span → Span → List Span → List Span
after_release xs b ys = join_last xs (join (record b { free = true }) ys)

join_head :
    (b : Span) (ys : List Span)
    → (d : Span) × (zs : List Span) × (join b ys ≡ d ∷ zs) × (d.at ≡ b.at) × (d.free ≡ b.free)
join_head b [] = (b, [], refl, refl, refl)
join_head b (c ∷ ys) =
    if_both (λ l. (d : Span) × (zs : List Span) × (l ≡ d ∷ zs) × (d.at ≡ b.at) × (d.free ≡ b.free))
      (b.free && (c.free && (behind b == c.at))) (λ _. (merge b c, ys, refl, refl, refl))
      (λ _. (b, c ∷ ys, refl, refl, refl))

join_last-snoc :
    (xs : List Span) (a : Span) (l : List Span) → join_last (xs ++ a ∷ []) l ≡ xs ++ join a l
join_last-snoc [] a l = refl
join_last-snoc (b ∷ []) a l = refl
join_last-snoc (b ∷ c ∷ xs) a l = ap (λ k. b ∷ k) (join_last-snoc (c ∷ xs) a l)

last_case : (xs : List Span) → (xs ≡ []) ⊎ ((pre : List Span) × (a : Span) × (xs ≡ pre ++ a ∷ []))
last_case [] = inl refl
last_case (a ∷ xs) = elim (last_case xs) [
  | inl e ↦ inr ([], a, ap (λ k. a ∷ k) e)
  | inr r ↦ inr (a ∷ r.0, r.1, ap (λ k. a ∷ k) r.2)
]

used_of-join : (a : Span) (l : List Span) → used_of (join a l) ≡ used_of (a ∷ l)
used_of-join a [] = refl
used_of-join a (c ∷ l) =
    if_both (λ k. used_of k ≡ used_of (a ∷ c ∷ l)) (a.free && (c.free && (behind a == c.at)))
      (λ e. ground (arith, e)) (λ _. refl)

used_of-join_last : (xs l : List Span) → used_of (join_last xs l) ≡ used_of xs + used_of l
used_of-join_last [] l = omega arith
used_of-join_last (a ∷ []) l = omega (arith, used_of-join a l)
used_of-join_last (a ∷ c ∷ xs) l = omega (arith, used_of-join_last (c ∷ xs) l)

first_of-join : (a : Span) (l : List Span) → first_of (join a l) 0 ≡ a.at
first_of-join a [] = refl
first_of-join a (c ∷ l) =
    if_both (λ k. first_of k 0 ≡ a.at) (a.free && (c.free && (behind a == c.at))) (λ _. refl)
      (λ _. refl)

first_of-join_last : (xs l : List Span) → first_of (join_last xs l) 0 ≡ first_of (xs ++ l) 0
first_of-join_last [] l = refl
first_of-join_last (a ∷ []) l = first_of-join a l
first_of-join_last (a ∷ c ∷ xs) l = refl

first_of-joined :
    (xs ys : List Span) (b : Span)
    → first_of (xs ++ join (record b { free = true }) ys) 0 ≡ first_of (xs ++ b ∷ ys) 0
first_of-joined [] ys b = first_of-join (record b { free = true }) ys
first_of-joined (x ∷ xs) ys b = refl

-- The second merge, wherever the block stands.
merge_back :
    (m : ℕ → Block) (xs zs : List Span) (d : Span)
    → d.free ≡ true
    → Listed m (xs ++ d ∷ zs)
    → Listed (try_merge d.at (m d.at).prev false m) (join_last xs (d ∷ zs))
merge_back m xs zs d f w = elim (last_case xs) [
  | inl e ↦
      subst (λ k. Listed (try_merge d.at (m d.at).prev false m) (join_last k (d ∷ zs))) (sym e)
        (try_merge-first m zs d (subst (λ k. Listed m (k ++ d ∷ zs)) e w))
  | inr r ↦
      let (pre, a, e) = r in
      subst (Listed (try_merge d.at (m d.at).prev false m))
        (sym (ap (λ k. join_last k (d ∷ zs)) e ∙ join_last-snoc pre a (d ∷ zs)))
        (try_merge-prev m pre zs a d f
          (subst (Listed m) (ap (λ k. k ++ d ∷ zs) e ∙ append_assoc pre (a ∷ []) (d ∷ zs)) w))
]

-- Both merges of `kfree`.
merged :
    (m : ℕ → Block) (xs ys : List Span) (b : Span)
    → b.free ≡ true
    → Listed m (xs ++ b ∷ ys)
    → let m1 : ℕ → Block = try_merge b.at (m b.at).next true m in
      Listed (try_merge b.at (m1 b.at).prev false m1) (join_last xs (join b ys))
merged m xs ys b f w =
    let m1 : ℕ → Block = try_merge b.at (m b.at).next true m in
    let (d, zs, is, place, free) = join_head b ys in
    let first = subst (λ l. Listed m1 (xs ++ l)) is (try_merge-next m xs ys b f w) in
    subst (λ l. Listed (try_merge b.at (m1 b.at).prev false m1) (join_last xs l)) (sym is)
      (subst (λ p. Listed (try_merge p (m1 p).prev false m1) (join_last xs (d ∷ zs))) place
        (merge_back m1 xs zs d (free ∙ f) first))

-- The change of a block's own mark.
set_free-Listed :
    (m : ℕ → Block) (xs ys : List Span) (b : Span) (f : Bool)
    → Listed m (xs ++ b ∷ ys)
    → Listed (set_free m b.at f) (xs ++ record b { free = f } ∷ ys)
set_free-Listed m xs ys b f w =
    let m' : ℕ → Block = set_free m b.at f in
    let mid : ℕ = end_of 4096 xs in
    let (front, rest) = Spaced-append 4096 (2 ^ 32 - 1) xs (b ∷ ys) w.spaced in
    let (before, mine) = Links-append m 0 0 xs (b ∷ ys) w.links in
    record {
      links =
          append-Links m' 0 0 xs (record b { free = f } ∷ ys)
            (Links-frame m m' 4096 mid 0 b.at xs front (λ q lo hi. ground (arith, rest.0)) before)
            (
              ground (arith, mine.0),
              Links-frame m m' (behind b) (2 ^ 32 - 1) b.at 0 ys rest.1 (λ q lo hi. ground arith)
                  mine.1,
            );
      spaced = append-Spaced 4096 (2 ^ 32 - 1) xs (record b { free = f } ∷ ys) front rest;
    }

-- The result of `kfree` on the block with its header at `p`.
abbrev freed : ℕ → Heap → Heap
freed p h =
    let m0 : ℕ → Block = set_free h.mem p true in
    let m1 : ℕ → Block = try_merge p (m0 p).next true m0 in
    record h {
      mem = try_merge p (m1 p).prev false m1;
      used_bytes = sub32 h.used_bytes (m0 p).size;
      free_bytes = add32 h.free_bytes (m0 p).size;
    }

kfree-freed : (p : ℕ) (h : Heap) → p + 16 < 2 ^ 32 → kfree (p + 16) h ≡ freed p h
unfolding kfree
kfree-freed p h lt = if_ne (p + 16) 0 _ _ (omega arith) ∙ ap (λ q. freed q h) {y = p} (omega arith)

-- On a heap `kfree` of a block in use, wherever it stands in the list, leaves a heap: the block is
-- free and one with each of its two neighbours that is free and touches it, no other block changes,
-- and the sum of the sizes in use is without the block's.
pub kfree-IsHeap :
    (h : Heap) (xs ys : List Span) (b : Span)
    → IsHeap h (xs ++ b ∷ ys)
    → b.free ≡ false
    → IsHeap (kfree (b.at + 16) h) (after_release xs b ys)
kfree-IsHeap h xs ys b w f =
    let b1 : Span = record b { free = true } in
    let (front, rest) = Spaced-append 4096 (2 ^ 32 - 1) xs (b ∷ ys) w.spaced in
    let end : behind b ≤ 2 ^ 32 - 1 = Spaced_le (behind b) (2 ^ 32 - 1) ys rest.1 in
    let mine = (Links-append h.mem 0 0 xs (b ∷ ys) w.links).1.0 in
    let size : (set_free h.mem b.at true b.at).size ≡ b.size = ground (arith, mine) in
    let used : h.used_bytes ≡ used_of xs + (b.size + used_of ys) =
      w.used ∙ ground (arith, used_of-append xs (b ∷ ys)) in
    let list =
      merged (set_free h.mem b.at true) xs ys b1 refl
        (set_free-Listed h.mem xs ys b true (record { links = w.links; spaced = w.spaced })) in
    subst (λ k. IsHeap k (after_release xs b ys)) (sym (kfree-freed b.at h (omega arith)))
      (record {
        head = w.head ∙ sym (first_of-join_last xs (join b1 ys) ∙ first_of-joined xs ys b);
        links = list.links;
        spaced = list.spaced;
        used = omega (
          arith,
          size,
          used,
          used_of-join_last xs (join b1 ys),
          used_of-join b1 ys,
          used_of-le 4096 (end_of 4096 xs) xs front,
          used_of-le (behind b) (2 ^ 32 - 1) ys rest.1,
          rest.0,
        );
      })
