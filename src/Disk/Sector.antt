-- ===== src/Disk/Sector.antt =====
-- Sectors stay sectors: 512 bytes, each below 256, under the writes of the file system.
use alderkernel.Prelude.{
  ℕ, zero, suc, ◌<◌, ◌≡◌, ◌∙◌, List, [], ◌∷◌, get_or, set, store, replicate, length-store,
  length-replicate, get_or-replicate, arith, ◌==◌, if◌then◌else◌, if_eq, if_ne, sym, ap, true,
}
use native.Mathlib.Decide.{ℕ_discrete}
use alderkernel.Disk.{Device, IsDisk, IsSector, lba_limit}

-- Every entry is a byte.
abbrev pub AreBytes : List ℕ → Type 0
AreBytes xs = (i : ℕ) → get_or xs i 0 < 256

-- The same of a list that is written out.
abbrev pub AllBytes : List ℕ → Type 0
AllBytes [] = Unit
AllBytes (x ∷ xs) = (x < 256) × AllBytes xs

pub AllBytes-AreBytes : (xs : List ℕ) → AllBytes xs → AreBytes xs
AllBytes-AreBytes [] h i = omega arith
AllBytes-AreBytes (x ∷ xs) h zero = h.0
AllBytes-AreBytes (x ∷ xs) h (suc i) = AllBytes-AreBytes xs h.1 i

pub AreBytes-set : (xs : List ℕ) (i v : ℕ) → AreBytes xs → v < 256 → AreBytes (set xs i v)
AreBytes-set [] i v b h j = omega arith
AreBytes-set (x ∷ xs) zero v b h zero = h
AreBytes-set (x ∷ xs) zero v b h (suc j) = b (suc j)
AreBytes-set (x ∷ xs) (suc i) v b h zero = b zero
AreBytes-set (x ∷ xs) (suc i) v b h (suc j) = AreBytes-set xs i v (λ n. b (suc n)) h j

pub AreBytes-store :
    (xs : List ℕ) (at : ℕ) (bs : List ℕ) → AreBytes xs → AreBytes bs → AreBytes (store xs at bs)
AreBytes-store xs at [] b c = b
AreBytes-store xs at (x ∷ bs) b c =
    AreBytes-store (set xs at x) (suc at) bs (AreBytes-set xs at x b (c zero)) (λ i. c (suc i))

pub AreBytes-replicate : (n : ℕ) → AreBytes (replicate n 0)
AreBytes-replicate n i = omega (arith, get_or-replicate {A = ℕ} n i 0)

pub store-IsSector :
    {x : List ℕ} (at : ℕ) (bs : List ℕ) → IsSector x → AreBytes bs → IsSector (store x at bs)
store-IsSector {x} at bs v b = record {
  size = length-store x at bs ∙ v.size;
  bytes = AreBytes-store x at bs v.bytes b;
}

pub zero-IsSector : IsSector (replicate 512 0)
zero-IsSector = record { size = length-replicate {A = ℕ} 512 0; bytes = AreBytes-replicate 512 }

-- A write that succeeds, seen from every sector.
pub sector-write_if :
    (d : Device) (k : IsDisk d) (l : ℕ) (x : List ℕ) (s : d.State)
    → l < lba_limit
    → IsSector x
    → (d.write_sector l x s).0 ≡ true
    → (j : ℕ) → j < lba_limit
    → k.sector (d.write_sector l x s).1 j ≡ (if l == j then x else k.sector s j)
sector-write_if d k l x s h v e j hj = elim (ℕ_discrete l j) [
  | yes at ↦
      ap (k.sector (d.write_sector l x s).1) (sym at)
      ∙ k.sector-write l x s h v e
      ∙ sym (if_eq l j x (k.sector s j) at)
  | no ne ↦ k.sector-write_ne l x s j h hj ne ∙ sym (if_ne l j x (k.sector s j) ne)
]
