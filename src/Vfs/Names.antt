-- ===== src/Vfs/Names.antt =====
-- What `name_copy` keeps of a name, and what `str_eq` compares.
use alderkernel.Prelude.{
  ℕ, zero, suc, ◌-◌, ◌<◌, ◌≡◌, ◌↔◌, refl, ◌∙◌, sym, Bool, true, false, ◌&&◌, ◌==◌, List, [], ◌∷◌,
  set, length, take, Bool-cases, inl, inr, arith,
}
use alderkernel.Util.Strings.{c_string}
use alderkernel.Vfs.{name_copy_from, name_copy, str_eq}

-- `str_eq` holds of two buffers exactly when they hold the same string.
pub str_eq_iff : (a b : List ℕ) → (str_eq a b ≡ true) ↔ (c_string a ≡ c_string b)
unfolding str_eq
str_eq_iff [] [] = (λ _. refl, λ _. refl)
str_eq_iff [] (y ∷ b) = (λ h. ground arith, λ h. ground arith)
str_eq_iff (x ∷ a) [] = (λ h. ground arith, λ h. ground arith)
str_eq_iff (x ∷ a) (y ∷ b) =
    let ih = str_eq_iff a b in (λ h. ground (arith, ih.0), λ h. ground (arith, ih.1))

-- Two texts are the same, character by character.
abbrev pub same_text : List ℕ → List ℕ → Bool
same_text [] [] = true
same_text [] (y ∷ b) = false
same_text (x ∷ a) [] = false
same_text (x ∷ a) (y ∷ b) = x == y && same_text a b

-- `str_eq` compares the strings that two buffers hold.
pub str_eq_lem : (a b : List ℕ) → str_eq a b ≡ same_text (c_string a) (c_string b)
unfolding str_eq
str_eq_lem [] [] = refl
str_eq_lem [] (y ∷ b) = ground arith
str_eq_lem (x ∷ a) [] = ground arith
str_eq_lem (x ∷ a) (y ∷ b) = ground (arith, str_eq_lem a b)

pub str_eq_of_c_string : (a b q : List ℕ) → c_string a ≡ c_string b → str_eq a q ≡ str_eq b q
str_eq_of_c_string a b q e = elim (Bool-cases (str_eq a q)) [
  | inl same ↦ same ∙ sym ((str_eq_iff b q).1 (sym e ∙ (str_eq_iff a q).0 same))
  | inr other ↦ elim (Bool-cases (str_eq b q)) [
    | inl same ↦ (str_eq_iff a q).1 (e ∙ (str_eq_iff b q).0 same) ∙ sym same
    | inr neither ↦ other ∙ sym neither
  ]
]

name_copy_from-suc :
    (room d : ℕ) (dst : List ℕ) (i : ℕ) (s : List ℕ)
    → name_copy_from room (d ∷ dst) (suc i) s ≡ d ∷ name_copy_from room dst i s
unfolding name_copy_from
name_copy_from-suc room d dst i [] = refl
name_copy_from-suc zero d dst i (c ∷ s) = refl
name_copy_from-suc (suc room) d dst i (c ∷ s) =
    ground (arith, name_copy_from-suc room d (set dst i c) (suc i) s)

c_string-name_copy_from :
    (room : ℕ) (dst s : List ℕ)
    → room < length dst
    → c_string (name_copy_from room dst 0 s) ≡ take room (c_string s)
unfolding name_copy_from
c_string-name_copy_from room [] s h = absurd (omega arith)
c_string-name_copy_from zero (d ∷ dst) [] h = refl
c_string-name_copy_from (suc room) (d ∷ dst) [] h = refl
c_string-name_copy_from zero (d ∷ dst) (c ∷ s) h = refl
c_string-name_copy_from (suc room) (d ∷ dst) (c ∷ s) h =
    ground (arith, name_copy_from-suc room c dst 0 s, c_string-name_copy_from room dst s)

-- A copy into a buffer of `max` characters holds the first `max - 1` of the string.
pub c_string-name_copy :
    (dst s : List ℕ) (max : ℕ)
    → length dst ≡ max
    → 0 < max
    → c_string (name_copy dst s max) ≡ take (max - 1) (c_string s)
unfolding name_copy
c_string-name_copy dst s max h pos = c_string-name_copy_from (max - 1) dst s (omega arith)
