-- ===== src/Disk/Ram.antt =====
-- A device that keeps what is written and never fails: the laws of `IsDisk` can hold.
use alderkernel.Prelude.{
  ℕ, zero, suc, ◌%◌, ◌<◌, ◌≡◌, refl, ap, ap₂, ◌∙◌, true, List, [], ◌∷◌, ◌==◌, ==_refl,
  if◌then◌else◌, get_or, length, arith,
}
use alderkernel.Disk.{Device, IsDisk}

-- The first `n` bytes of a buffer.
unfoldable pub bytes_of : ℕ → List ℕ → List ℕ
bytes_of zero xs = []
bytes_of (suc n) [] = 0 ∷ bytes_of n []
bytes_of (suc n) (x ∷ xs) = x % 256 ∷ bytes_of n xs

length-bytes_of : (n : ℕ) (xs : List ℕ) → length (bytes_of n xs) ≡ n
unfolding bytes_of
length-bytes_of zero xs = refl
length-bytes_of (suc n) [] = ap suc (length-bytes_of n [])
length-bytes_of (suc n) (x ∷ xs) = ap suc (length-bytes_of n xs)

bytes_of-lt : (n : ℕ) (xs : List ℕ) (i : ℕ) → get_or (bytes_of n xs) i 0 < 256
unfolding bytes_of
bytes_of-lt zero xs i = omega arith
bytes_of-lt (suc n) [] zero = omega arith
bytes_of-lt (suc n) [] (suc i) = bytes_of-lt n [] i
bytes_of-lt (suc n) (x ∷ xs) zero = omega arith
bytes_of-lt (suc n) (x ∷ xs) (suc i) = bytes_of-lt n xs i

bytes_of_lem :
    (n : ℕ) (xs : List ℕ) → length xs ≡ n → ((i : ℕ) → get_or xs i 0 < 256) → bytes_of n xs ≡ xs
unfolding bytes_of
bytes_of_lem zero [] h b = refl
bytes_of_lem zero (x ∷ xs) h b = absurd (omega arith)
bytes_of_lem (suc n) [] h b = absurd (omega arith)
bytes_of_lem (suc n) (x ∷ xs) h b =
    let first : x % 256 ≡ x = omega (arith, b 0) in
    ap₂ ◌∷◌ first (bytes_of_lem n xs (omega arith) (λ i. b (suc i)))

unfoldable pub ram : Device
ram = record {
  State = ℕ → List ℕ;
  read_sector = λ l s. (true, bytes_of 512 (s l), s);
  write_sector = λ l x s. (true, λ j. if l == j then x else s j);
}

pub ram-IsDisk : IsDisk ram
unfolding ram
ram-IsDisk = record {
  sector = λ s l. bytes_of 512 (s l);
  sector-IsSector =
      λ s l. record { size = length-bytes_of 512 (s l); bytes = λ i. bytes_of-lt 512 (s l) i };
  read-sector = λ l s h e. refl;
  sector-read = λ l s j. refl;
  sector-write = λ l x s h v e.
      ap (λ t. bytes_of 512 (if t then x else s l)) (==_refl l) ∙ bytes_of_lem 512 x v.size v.bytes;
  sector-write_ne = λ l x s j h h' ne. ap (bytes_of 512) (ground arith);
}
