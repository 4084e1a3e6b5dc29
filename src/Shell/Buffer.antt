-- ===== src/Shell/Buffer.antt =====
-- The line buffer: what stands in front of the cursor, under the writes of the editor.
use mathlib.Core.List.{append_assoc, append-nil}
use alderkernel.Prelude.{
  ℕ, zero, suc, ◌+◌, ◌≤◌, ◌<◌, ◌≡◌, ◌≢◌, refl, ap, ◌∙◌, sym, List, [], ◌∷◌, ◌++◌, ◌==◌, if_ne,
  if_related, set, length, length-set, take, arith,
}
use native.Mathlib.Decide.{ℕ_discrete}
use alderkernel.Console.{Console, print_char}
use alderkernel.Util.Strings.{c_string, c_string-take}
use alderkernel.Shell.{write_chars}

pub take-set : (i : ℕ) (xs : List ℕ) (v : ℕ) → take i (set xs i v) ≡ take i xs
take-set zero xs v = refl
take-set (suc i) [] v = refl
take-set (suc i) (x ∷ xs) v = ap (λ ys. x ∷ ys) (take-set i xs v)

pub take-set_last :
    (i : ℕ) (xs : List ℕ) (v : ℕ) → i < length xs → take (suc i) (set xs i v) ≡ take i xs ++ v ∷ []
take-set_last i [] v h = absurd (omega arith)
take-set_last zero (x ∷ xs) v h = refl
take-set_last (suc i) (x ∷ xs) v h = ap (λ ys. x ∷ ys) (take-set_last i xs v (omega arith))

pub take-take : (m n : ℕ) (xs : List ℕ) → m ≤ n → take m (take n xs) ≡ take m xs
take-take zero n xs h = refl
take-take (suc m) zero xs h = absurd (omega arith)
take-take (suc m) (suc n) [] h = refl
take-take (suc m) (suc n) (x ∷ xs) h = ap (λ ys. x ∷ ys) (take-take m n xs (omega arith))

pub length-take : (n : ℕ) (xs : List ℕ) → n ≤ length xs → length (take n xs) ≡ n
length-take zero xs h = refl
length-take (suc n) [] h = absurd (omega arith)
length-take (suc n) (x ∷ xs) h = ap suc (length-take n xs (omega arith))

pub take_all : (n : ℕ) (xs : List ℕ) → length xs ≤ n → take n xs ≡ xs
take_all zero [] h = refl
take_all zero (x ∷ xs) h = absurd (omega arith)
take_all (suc n) [] h = refl
take_all (suc n) (x ∷ xs) h = ap (λ ys. x ∷ ys) (take_all n xs (omega arith))

take_nil : (n : ℕ) → take {A = ℕ} n [] ≡ []
take_nil zero = refl
take_nil (suc n) = refl

-- A list with no 0 in it, such as a string.
abbrev pub NoNul : List ℕ → Type 0
NoNul xs = c_string xs ≡ xs

pub NoNul-c_string : (xs : List ℕ) → NoNul (c_string xs)
NoNul-c_string [] = refl
NoNul-c_string (x ∷ xs) = ground (arith, NoNul-c_string xs)

NoNul-cons : (y : ℕ) (xs : List ℕ) → NoNul (y ∷ xs) → (y ≢ 0) × NoNul xs
NoNul-cons y xs h = elim (ℕ_discrete y 0) [
  | yes e ↦ absurd (ground arith)
  | no ne ↦ (ne, ground arith)
]

pub NoNul-snoc : (xs : List ℕ) (x : ℕ) → NoNul xs → x ≢ 0 → NoNul (xs ++ x ∷ [])
NoNul-snoc [] x h nz = ground arith
NoNul-snoc (y ∷ xs) x h nz =
    let (ne, w) = NoNul-cons y xs h in
    if_ne y 0 [] (y ∷ c_string (xs ++ x ∷ [])) ne ∙ ap (λ ys. y ∷ ys) (NoNul-snoc xs x w nz)

pub NoNul-take : (n : ℕ) (xs : List ℕ) → NoNul xs → NoNul (take n xs)
NoNul-take n xs h = ap (λ ys. c_string (take n ys)) (sym h) ∙ c_string-take n xs ∙ ap (take n) h

pub c_string-set :
    (i : ℕ) (xs : List ℕ) → i < length xs → NoNul (take i xs) → c_string (set xs i 0) ≡ take i xs
c_string-set i [] h w = absurd (omega arith)
c_string-set zero (x ∷ xs) h w = refl
c_string-set (suc i) (x ∷ xs) h w =
    let (ne, v) = NoNul-cons x (take i xs) w in
    if_ne x 0 [] (x ∷ c_string (set xs i 0)) ne
    ∙ ap (λ ys. x ∷ ys) (c_string-set i xs (omega arith) v)

-- What `write_chars` leaves: the text in front stays, as much of the string as there is room for
-- follows, and the length is that of both.
abbrev pub Written : ℕ → ℕ → List ℕ → List ℕ → ℕ × List ℕ × Console → Type 0
Written room i s buffer r =
    (length r.1 ≡ length buffer)
    × (take r.0 r.1 ≡ take i buffer ++ take room (c_string s))
    × (r.0 ≤ i + room)

pub write_chars_lem :
    (room i : ℕ) (s buffer : List ℕ) (c : Console)
    → i + room < length buffer
    → Written room i s buffer (write_chars room i s buffer c)
unfolding write_chars
write_chars_lem room i [] buffer c h = (
  length-set buffer i 0,
  take-set i buffer 0
      ∙ sym (append-nil (take i buffer))
      ∙ ap (λ xs. take i buffer ++ xs) (sym (take_nil room)),
  omega arith,
)
write_chars_lem zero i (x ∷ s) buffer c h =
    (length-set buffer i 0, take-set i buffer 0 ∙ sym (append-nil (take i buffer)), omega arith)
write_chars_lem (suc room) i (x ∷ s) buffer c h =
    let ih =
      write_chars_lem room (suc i) s (set buffer i x) (print_char x c)
        (omega (arith, length-set buffer i x)) in
    if_related
      (λ (r : ℕ × List ℕ × Console) (t : List ℕ).
        (length r.1 ≡ length buffer)
        × (take r.0 r.1 ≡ take i buffer ++ take (suc room) t)
        × (r.0 ≤ i + suc room))
      (x == 0)
      (λ _. (
        length-set buffer i 0,
        take-set i buffer 0 ∙ sym (append-nil (take i buffer)),
        omega arith,
      ))
      (λ _. (
        ih.0 ∙ length-set buffer i x,
        ih.1
            ∙ ap (λ xs. xs ++ take room (c_string s)) (take-set_last i buffer x (omega arith))
            ∙ append_assoc (take i buffer) (x ∷ []) (take room (c_string s)),
        omega (arith, ih.2),
      ))
