-- ===== src/Heap/Chain.antt =====
-- The list of blocks as a list of spans of memory in address order, linked both ways.
use alderkernel.Prelude.{
  ℕ, ◌+◌, ◌-◌, ◌^◌, ◌≤◌, ◌<◌, ◌≡◌, ◌≢◌, ◌⊎◌, inl, inr, refl, ap, ◌∙◌, Bool, List, [], ◌∷◌, ◌++◌,
  if◌then◌else◌, arith,
}
use alderkernel.Heap.{Block, Heap}

-- A block with its address; the header takes 16 bytes before the `size` that it manages.
pub record Span : Type 0 where
  pub at : ℕ
  pub size : ℕ
  pub free : Bool

abbrev pub behind : Span → ℕ
behind b = b.at + 16 + b.size

abbrev pub first_of : List Span → ℕ → ℕ
first_of [] after = after
first_of (b ∷ bs) after = b.at

abbrev pub last_of : ℕ → List Span → ℕ
last_of prev [] = prev
last_of prev (b ∷ bs) = last_of b.at bs

abbrev pub header : Span → ℕ → ℕ → Block
header b next prev = record { size = b.size; free = b.free; next = next; prev = prev }

-- The headers of the spans are in memory, and each has the addresses of its neighbours.
abbrev pub Links : (ℕ → Block) → ℕ → List Span → ℕ → Type 0
Links m prev [] after = Unit {0}
Links m prev (b ∷ bs) after = (m b.at ≡ header b (first_of bs after) prev) × Links m b.at bs after

-- The spans follow each other from `lo` on and end by `hi`, with no overlap.
abbrev pub Spaced : ℕ → List Span → ℕ → Type 0
Spaced lo [] hi = lo ≤ hi
Spaced lo (b ∷ bs) hi = (lo ≤ b.at) × Spaced (behind b) bs hi

abbrev pub end_of : ℕ → List Span → ℕ
end_of lo [] = lo
end_of lo (b ∷ bs) = end_of (behind b) bs

-- The sizes of the blocks in use.
abbrev pub used_of : List Span → ℕ
used_of [] = 0
used_of (b ∷ bs) = (if b.free then 0 else b.size) + used_of bs

-- The heap's list is that of the spans, and the counter is the sum of the sizes in use. No block lies
-- in the page at 0, the address that the allocator has for its failure.
pub record IsHeap (h : Heap) (bs : List Span) : Type 0 where
  pub head : h.heap_head ≡ first_of bs 0
  pub links : Links h.mem 0 bs 0
  pub spaced : Spaced 4096 bs (2 ^ 32 - 1)
  pub used : h.used_bytes ≡ used_of bs

pub Spaced-append :
    (lo hi : ℕ) (xs ys : List Span)
    → Spaced lo (xs ++ ys) hi
    → Spaced lo xs (end_of lo xs) × Spaced (end_of lo xs) ys hi
Spaced-append lo hi [] ys s = (omega arith, s)
Spaced-append lo hi (b ∷ xs) ys s =
    let r = Spaced-append (behind b) hi xs ys s.1 in ((s.0, r.0), r.1)

pub append-Spaced :
    (lo hi : ℕ) (xs ys : List Span)
    → Spaced lo xs (end_of lo xs)
    → Spaced (end_of lo xs) ys hi
    → Spaced lo (xs ++ ys) hi
append-Spaced lo hi [] ys s t = t
append-Spaced lo hi (b ∷ xs) ys s t = (s.0, append-Spaced (behind b) hi xs ys s.1 t)

pub Spaced_le : (lo hi : ℕ) (xs : List Span) → Spaced lo xs hi → lo ≤ hi
Spaced_le lo hi [] s = s
Spaced_le lo hi (b ∷ xs) s = omega (arith, Spaced_le (behind b) hi xs s.1)

pub Links-append :
    (m : ℕ → Block) (prev after : ℕ) (xs ys : List Span)
    → Links m prev (xs ++ ys) after
    → Links m prev xs (first_of ys after) × Links m (last_of prev xs) ys after
Links-append m prev after [] ys l = (tt, l)
Links-append m prev after (b ∷ []) ys l = ((l.0, tt), l.1)
Links-append m prev after (b ∷ c ∷ xs) ys l =
    let r = Links-append m b.at after (c ∷ xs) ys l.1 in ((l.0, r.0), r.1)

pub append-Links :
    (m : ℕ → Block) (prev after : ℕ) (xs ys : List Span)
    → Links m prev xs (first_of ys after)
    → Links m (last_of prev xs) ys after
    → Links m prev (xs ++ ys) after
append-Links m prev after [] ys l k = k
append-Links m prev after (b ∷ []) ys l k = (l.0, k)
append-Links m prev after (b ∷ c ∷ xs) ys l k = (l.0, append-Links m b.at after (c ∷ xs) ys l.1 k)

-- Links stand where the headers do not change.
pub Links-frame :
    (m m' : ℕ → Block) (lo hi prev after : ℕ) (xs : List Span)
    → Spaced lo xs hi
    → ((q : ℕ) → lo ≤ q → q < hi → m' q ≡ m q)
    → Links m prev xs after
    → Links m' prev xs after
Links-frame m m' lo hi prev after [] s same l = tt
Links-frame m m' lo hi prev after (b ∷ xs) s same l =
    let end : behind b ≤ hi = Spaced_le (behind b) hi xs s.1 in
    (
      same b.at s.0 (omega arith) ∙ l.0,
      Links-frame m m' (behind b) hi b.at after xs s.1
          (λ q low high. same q (omega (arith, s.0)) high) l.1,
    )

-- A list whose first block alone gets another block before it.
pub Links-relink :
    (m m' : ℕ → Block) (lo hi prev before : ℕ) (xs : List Span)
    → Spaced lo xs hi
    → (first_of xs 0 ≢ 0 → m' (first_of xs 0) ≡ record (m (first_of xs 0)) { prev = before })
    → ((q : ℕ) → lo ≤ q → q < hi → q ≢ first_of xs 0 → m' q ≡ m q)
    → 0 < lo
    → Links m prev xs 0
    → Links m' before xs 0
Links-relink m m' lo hi prev before [] s first same pos l = tt
Links-relink m m' lo hi prev before (b ∷ xs) s first same pos l = (
  first (omega (arith, s.0)) ∙ ap (λ (c : Block). record c { prev = before }) l.0,
  Links-frame m m' (behind b) hi b.at 0 xs s.1
      (λ q low high. same q (omega (arith, s.0)) high (omega arith)) l.1,
)

pub used_of-append : (xs ys : List Span) → used_of (xs ++ ys) ≡ used_of xs + used_of ys
used_of-append [] ys = omega arith
used_of-append (b ∷ xs) ys = omega (arith, used_of-append xs ys)

pub used_of-le : (lo hi : ℕ) (xs : List Span) → Spaced lo xs hi → lo + used_of xs ≤ hi
used_of-le lo hi [] s = omega arith
used_of-le lo hi (b ∷ xs) s = ground (arith, used_of-le (behind b) hi xs s.1)

pub first_ge :
    (lo hi : ℕ) (ys : List Span) → Spaced lo ys hi → (first_of ys 0 ≡ 0) ⊎ (lo ≤ first_of ys 0)
first_ge lo hi [] s = inl refl
first_ge lo hi (b ∷ ys) s = inr s.0

pub first_of-same :
    (xs ys zs : List Span) (b c : Span)
    → b.at ≡ c.at
    → first_of (xs ++ b ∷ ys) 0 ≡ first_of (xs ++ c ∷ zs) 0
first_of-same [] ys zs b c e = e
first_of-same (x ∷ xs) ys zs b c e = refl
