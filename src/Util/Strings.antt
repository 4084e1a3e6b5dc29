-- ===== src/Util/Strings.antt =====
-- The helpers against the string that a buffer holds.
use alderkernel.Prelude.{
  ℕ, zero, suc, take, ◌<◌, ◌≡◌, ◌↔◌, refl, List, [], ◌∷◌, ◌==◌, if◌then◌else◌, set, length,
  length-set, arith,
}
use alderkernel.Util.{strcmp, copy_from, str_copy, str_len}

-- The characters before the first 0.
abbrev pub c_string : List ℕ → List ℕ
c_string [] = []
c_string (c ∷ s) = if c == 0 then [] else c ∷ c_string s

-- `strcmp` gives 0 for two buffers exactly when they hold the same string, whatever follows the end.
pub strcmp_iff : (a b : List ℕ) → (strcmp a b ≡ 0) ↔ (c_string a ≡ c_string b)
unfolding strcmp
strcmp_iff [] [] = (λ _. refl, λ _. refl)
strcmp_iff [] (y ∷ b) = (λ h. ground arith, λ h. ground arith)
strcmp_iff (x ∷ a) [] = (λ h. ground arith, λ h. ground arith)
strcmp_iff (x ∷ a) (y ∷ b) =
    let ih = strcmp_iff a b in (λ h. ground (arith, ih.0), λ h. ground (arith, ih.1))

copy_from-suc :
    (d : ℕ) (dst : List ℕ) (i : ℕ) (s : List ℕ)
    → copy_from (d ∷ dst) (suc i) s ≡ d ∷ copy_from dst i s
unfolding copy_from
copy_from-suc d dst i [] = refl
copy_from-suc d dst i (c ∷ s) = ground (arith, copy_from-suc d (set dst i c) (suc i) s)

-- A copy that fits leaves the string of the source in the destination, however long the buffer that
-- the source stands in is.
pub c_string-str_copy :
    (dst src : List ℕ)
    → length (c_string src) < length dst
    → c_string (str_copy dst src) ≡ c_string src
unfolding str_copy copy_from
c_string-str_copy [] src h = absurd (omega arith)
c_string-str_copy (d ∷ dst) [] h = refl
c_string-str_copy (d ∷ dst) (c ∷ s) h =
    ground (arith, copy_from-suc c dst 0 s, c_string-str_copy dst s)

pub str_len_lem : (s : List ℕ) → str_len s ≡ length (c_string s)
unfolding str_len
str_len_lem [] = refl
str_len_lem (c ∷ s) = ground (arith, str_len_lem s)

length-copy_from : (dst : List ℕ) (i : ℕ) (s : List ℕ) → length (copy_from dst i s) ≡ length dst
unfolding copy_from
length-copy_from dst i [] = length-set dst i 0
length-copy_from dst i (c ∷ s) =
    ground (arith, length-set dst i c, length-set dst i 0, length-copy_from (set dst i c) (suc i) s)

pub length-str_copy : (dst src : List ℕ) → length (str_copy dst src) ≡ length dst
unfolding str_copy
length-str_copy dst src = length-copy_from dst 0 src

pub c_string-take : (n : ℕ) (s : List ℕ) → c_string (take n (c_string s)) ≡ take n (c_string s)
c_string-take zero s = refl
c_string-take (suc n) [] = refl
c_string-take (suc n) (c ∷ s) = ground (arith, c_string-take n s)
