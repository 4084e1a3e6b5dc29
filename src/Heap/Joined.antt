-- ===== src/Heap/Joined.antt =====
-- `try_merge` on the list of spans: two free blocks that touch become one.
use mathlib.Core.Path.{subst}
use alderkernel.Prelude.{
  ℕ, ◌+◌, ◌-◌, ◌^◌, ◌≤◌, ◌≡◌, ◌≢◌, ◌⊎◌, inl, inr, ap, ◌∙◌, sym, true, false, ◌&&◌, List, [], ◌∷◌,
  ◌++◌, ◌==◌, if◌then◌else◌, if_both, add32, arith,
}
use alderkernel.Heap.{Block, set_size, set_next, set_prev, try_merge}
use alderkernel.Heap.Chain.{
  Span, behind, first_of, last_of, header, Links, Spaced, end_of, Spaced-append, append-Spaced,
  Spaced_le, Links-append, append-Links, Links-frame, Links-relink, first_ge,
}

abbrev pub merge : Span → Span → Span
merge a c = record a { size = a.size + 16 + c.size }

-- A block before a list: one block with the list's first, where both are free and touch.
abbrev pub join : Span → List Span → List Span
join a [] = a ∷ []
join a (c ∷ cs) = if a.free && (c.free && (behind a == c.at)) then merge a c ∷ cs else a ∷ c ∷ cs

pub record Listed (m : ℕ → Block) (bs : List Span) : Type 0 where
  pub links : Links m 0 bs 0
  pub spaced : Spaced 4096 bs (2 ^ 32 - 1)

-- The writes of a merge that takes place.
abbrev merge_mem : ℕ → ℕ → (ℕ → Block) → ℕ → Block
merge_mem lo hi m =
    let mem1 = set_size m lo (add32 (m lo).size (add32 16 (m hi).size)) in
    let next = (mem1 hi).next in
    let mem2 = set_next mem1 lo next in if next == 0 then mem2 else set_prev mem2 next lo

merge_next :
    (lo hi : ℕ) (m : ℕ → Block)
    → hi ≢ 0
    → (m hi).free ≡ true
    → add32 (add32 lo 16) (m lo).size ≡ hi
    → try_merge lo hi true m ≡ merge_mem lo hi m
unfolding try_merge
merge_next lo hi m nz f e = ground arith

merge_prev :
    (lo hi : ℕ) (m : ℕ → Block)
    → lo ≢ 0
    → (m lo).free ≡ true
    → add32 (add32 lo 16) (m lo).size ≡ hi
    → try_merge hi lo false m ≡ merge_mem lo hi m
unfolding try_merge
merge_prev lo hi m nz f e = ground arith

keep_next :
    (lo hi : ℕ) (m : ℕ → Block)
    → ((hi ≡ 0) ⊎ ((m hi).free ≡ false)) ⊎ (add32 (add32 lo 16) (m lo).size ≢ hi)
    → try_merge lo hi true m ≡ m
unfolding try_merge
keep_next lo hi m (inl (inl e)) = ground arith
keep_next lo hi m (inl (inr e)) = ground arith
keep_next lo hi m (inr e) = ground arith

keep_prev :
    (lo hi : ℕ) (m : ℕ → Block)
    → ((lo ≡ 0) ⊎ ((m lo).free ≡ false)) ⊎ (add32 (add32 lo 16) (m lo).size ≢ hi)
    → try_merge hi lo false m ≡ m
unfolding try_merge
keep_prev lo hi m (inl (inl e)) = ground arith
keep_prev lo hi m (inl (inr e)) = ground arith
keep_prev lo hi m (inr e) = ground arith

module _ (m : ℕ → Block) (xs zs : List Span) (a c : Span) (w : Listed m (xs ++ a ∷ c ∷ zs)) where
  before : Spaced 4096 xs (end_of 4096 xs)
  before = (Spaced-append 4096 (2 ^ 32 - 1) xs (a ∷ c ∷ zs) w.spaced).0

  after : (end_of 4096 xs ≤ a.at) × ((behind a ≤ c.at) × Spaced (behind c) zs (2 ^ 32 - 1))
  after = (Spaced-append 4096 (2 ^ 32 - 1) xs (a ∷ c ∷ zs) w.spaced).1

  linked :
      Links m 0 xs a.at
      × ((m a.at ≡ header a c.at (last_of 0 xs))
          × ((m c.at ≡ header c (first_of zs 0) a.at) × Links m c.at zs 0))
  linked = Links-append m 0 0 xs (a ∷ c ∷ zs) w.links

  bounds : (4096 ≤ end_of 4096 xs) × (behind c ≤ 2 ^ 32 - 1)
  bounds =
      (Spaced_le 4096 (end_of 4096 xs) xs before, Spaced_le (behind c) (2 ^ 32 - 1) zs after.1.1)

  far : (first_of zs 0 ≡ 0) ⊎ (behind c ≤ first_of zs 0)
  far = first_ge (behind c) (2 ^ 32 - 1) zs after.1.1

  touch : add32 (add32 a.at 16) (m a.at).size ≡ behind a
  touch =
      let size : (m a.at).size ≡ a.size = ap (λ (b : Block). b.size) linked.1.0 in
      omega (arith, bounds, after.0, after.1.0)

  merged_here :
      behind a ≡ c.at
      → merge_mem a.at c.at m a.at ≡ header (merge a c) (first_of zs 0) (last_of 0 xs)
  merged_here e = ground (arith, linked.1.0, linked.1.1.0, bounds, after.0, after.1.0, far)

  merged_next :
      first_of zs 0 ≢ 0
      → merge_mem a.at c.at m (first_of zs 0) ≡ record (m (first_of zs 0)) { prev = a.at }
  merged_next nz = ground (arith, linked.1.0, linked.1.1.0, bounds, after.0, after.1.0, far)

  merged_else :
      (q : ℕ) → q ≢ a.at → (q ≢ first_of zs 0) ⊎ (first_of zs 0 ≡ 0) → merge_mem a.at c.at m q ≡ m q
  merged_else q ne nz = ground (arith, linked.1.1.0, bounds, after.0, after.1.0)

  absorbed : behind a ≡ c.at → Listed (merge_mem a.at c.at m) (xs ++ merge a c ∷ zs)
  absorbed e =
      let m' : ℕ → Block = merge_mem a.at c.at m in
      let mid : ℕ = end_of 4096 xs in
      let pad : behind c ≡ behind (merge a c) = omega arith in
      record {
        links =
            append-Links m' 0 0 xs (merge a c ∷ zs)
              (Links-frame m m' 4096 mid 0 a.at xs before
                (λ q lo hi.
                  merged_else q (omega (arith, after.0))
                    (elim far [ inl z ↦ inr z | inr le ↦ inl (omega (arith, after.0, after.1.0)) ]))
                linked.0)
              (
                merged_here e,
                Links-relink m m' (behind c) (2 ^ 32 - 1) c.at a.at zs after.1.1 merged_next
                    (λ q lo hi ne. merged_else q (omega (arith, after.1.0)) (inl ne)) (omega arith)
                    linked.1.1.1,
              );
        spaced =
            append-Spaced 4096 (2 ^ 32 - 1) xs (merge a c ∷ zs) before
              (after.0, subst (λ k. Spaced k zs (2 ^ 32 - 1)) pad after.1.1);
      }

-- The merge with the next block.
pub try_merge-next :
    (m : ℕ → Block) (xs ys : List Span) (b : Span)
    → b.free ≡ true
    → Listed m (xs ++ b ∷ ys)
    → Listed (try_merge b.at (m b.at).next true m) (xs ++ join b ys)
try_merge-next m xs [] b f w =
    let mine = (Links-append m 0 0 xs (b ∷ []) w.links).1.0 in
    let next : (m b.at).next ≡ 0 = ap (λ (h : Block). h.next) mine in
    subst (λ k. Listed k (xs ++ b ∷ [])) (sym (keep_next b.at (m b.at).next m (inl (inl next)))) w
try_merge-next m xs (c ∷ ys) b f w =
    let own = linked m xs ys b c w in
    let next : (m b.at).next ≡ c.at = ap (λ (h : Block). h.next) own.1.0 in
    let free : (m c.at).free ≡ c.free = ap (λ (h : Block). h.free) own.1.1.0 in
    let nz : c.at ≢ 0 = omega (arith, bounds m xs ys b c w, after m xs ys b c w) in
    rw next (
      if_both (λ l. Listed (try_merge b.at c.at true m) (xs ++ l))
        (b.free && (c.free && (behind b == c.at)))
        (λ e.
          subst (λ k. Listed k (xs ++ merge b c ∷ ys))
            (sym (
              merge_next b.at c.at m nz (ground (arith, free, e))
                (touch m xs ys b c w ∙ ground (arith, e))))
            (absorbed m xs ys b c w (ground (arith, e))))
        (λ e.
          subst (λ k. Listed k (xs ++ b ∷ c ∷ ys))
            (sym (keep_next b.at c.at m (ground (arith, free, e, touch m xs ys b c w)))) w))

-- The merge with the block before.
pub try_merge-prev :
    (m : ℕ → Block) (xs ys : List Span) (a b : Span)
    → b.free ≡ true
    → Listed m (xs ++ a ∷ b ∷ ys)
    → Listed (try_merge b.at (m b.at).prev false m) (xs ++ join a (b ∷ ys))
try_merge-prev m xs ys a b f w =
    let own = linked m xs ys a b w in
    let prev : (m b.at).prev ≡ a.at = ap (λ (h : Block). h.prev) own.1.1.0 in
    let free : (m a.at).free ≡ a.free = ap (λ (h : Block). h.free) own.1.0 in
    let nz : a.at ≢ 0 = omega (arith, bounds m xs ys a b w, after m xs ys a b w) in
    rw prev (
      if_both (λ l. Listed (try_merge b.at a.at false m) (xs ++ l))
        (a.free && (b.free && (behind a == b.at)))
        (λ e.
          subst (λ k. Listed k (xs ++ merge a b ∷ ys))
            (sym (
              merge_prev a.at b.at m nz (ground (arith, free, e))
                (touch m xs ys a b w ∙ ground (arith, e))))
            (absorbed m xs ys a b w (ground (arith, e))))
        (λ e.
          subst (λ k. Listed k (xs ++ a ∷ b ∷ ys))
            (sym (keep_prev a.at b.at m (ground (arith, free, e, touch m xs ys a b w)))) w))

-- The first block of a list has none before it to merge with.
pub try_merge-first :
    (m : ℕ → Block) (ys : List Span) (b : Span)
    → Listed m (b ∷ ys)
    → Listed (try_merge b.at (m b.at).prev false m) (b ∷ ys)
try_merge-first m ys b w =
    let prev : (m b.at).prev ≡ 0 = ap (λ (h : Block). h.prev) w.links.0 in
    subst (λ k. Listed k (b ∷ ys)) (sym (keep_prev (m b.at).prev b.at m (inl (inl prev)))) w
