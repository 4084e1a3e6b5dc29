-- ===== src/Prelude/Lists.antt =====
-- C arrays as lists: lengths and indices are native numbers.
use Prim.Native.Nat.{ℕ, zero, suc, ◌+◌, ◌<◌, ◌≤◌}
use mathlib.Core.Path.{◌≡◌, refl, ap, ◌∙◌}
use mathlib.Core.Logic.{◌⊎◌}
use mathlib.Core.List.{List, [], ◌∷◌, ◌++◌}
use mathlib.Core.Option.{Option, none, some}
use native.Mathlib.Omega.{arith}
use alderkernel.Prelude.Tests.{◌==◌, if◌then◌else◌}

module _ {ℓ} {A : Type ℓ} where
  abbrev pub length : List A → ℕ
  length [] = 0
  length (x ∷ xs) = suc (length xs)

  abbrev pub get_elem? : List A → ℕ → Option A
  get_elem? [] i = none
  get_elem? (x ∷ xs) zero = some x
  get_elem? (x ∷ xs) (suc i) = get_elem? xs i

  abbrev pub get_or : List A → ℕ → A → A
  get_or [] i d = d
  get_or (x ∷ xs) zero d = x
  get_or (x ∷ xs) (suc i) d = get_or xs i d

  -- A write out of bounds changes nothing.
  abbrev pub set : List A → ℕ → A → List A
  set [] i v = []
  set (x ∷ xs) zero v = v ∷ xs
  set (x ∷ xs) (suc i) v = x ∷ set xs i v

  abbrev pub take : ℕ → List A → List A
  take zero xs = []
  take (suc n) [] = []
  take (suc n) (x ∷ xs) = x ∷ take n xs

  abbrev pub drop : ℕ → List A → List A
  drop zero xs = xs
  drop (suc n) [] = []
  drop (suc n) (x ∷ xs) = drop n xs

  abbrev pub replicate : ℕ → A → List A
  replicate zero a = []
  replicate (suc n) a = a ∷ replicate n a

  pub length-append : (xs ys : List A) → length (xs ++ ys) ≡ length xs + length ys
  length-append [] ys = omega arith
  length-append (x ∷ xs) ys = omega (arith, length-append xs ys)

  pub length-set : (xs : List A) (i : ℕ) (v : A) → length (set xs i v) ≡ length xs
  length-set [] i v = refl
  length-set (x ∷ xs) zero v = refl
  length-set (x ∷ xs) (suc i) v = ap suc (length-set xs i v)

  pub length-replicate : (n : ℕ) (a : A) → length (replicate n a) ≡ n
  length-replicate zero a = refl
  length-replicate (suc n) a = ap suc (length-replicate n a)

  pub get_or-set_self :
      (xs : List A) (i : ℕ) (v d : A) → i < length xs → get_or (set xs i v) i d ≡ v
  get_or-set_self [] i v d h = absurd (omega arith)
  get_or-set_self (x ∷ xs) zero v d h = refl
  get_or-set_self (x ∷ xs) (suc i) v d h = get_or-set_self xs i v d (omega arith)

  -- The write seen from every index.
  pub get_or-set :
      (xs : List A) (i j : ℕ) (v d : A)
      → i < length xs
      → get_or (set xs i v) j d ≡ (if i == j then v else get_or xs j d)
  get_or-set [] i j v d h = absurd (omega arith)
  get_or-set (x ∷ xs) zero zero v d h = refl
  get_or-set (x ∷ xs) zero (suc j) v d h = ground arith
  get_or-set (x ∷ xs) (suc i) zero v d h = ground arith
  get_or-set (x ∷ xs) (suc i) (suc j) v d h = ground (arith, get_or-set xs i j v d (omega arith))

  pub get_or-replicate : (n i : ℕ) (a : A) → get_or (replicate n a) i a ≡ a
  get_or-replicate zero i a = refl
  get_or-replicate (suc n) zero a = refl
  get_or-replicate (suc n) (suc i) a = get_or-replicate n i a

  -- Two lists that agree at every index are equal.
  pub eq_of_get_or :
      (xs ys : List A) (d : A)
      → length xs ≡ length ys
      → ((i : ℕ) → get_or xs i d ≡ get_or ys i d)
      → xs ≡ ys
  eq_of_get_or [] [] d h e = refl
  eq_of_get_or [] (y ∷ ys) d h e = absurd (omega arith)
  eq_of_get_or (x ∷ xs) [] d h e = absurd (omega arith)
  eq_of_get_or (x ∷ xs) (y ∷ ys) d h e =
      let first : x ≡ y = e 0 in
      let rest : xs ≡ ys = eq_of_get_or xs ys d (omega arith) (λ i. e (suc i)) in cc

  -- Consecutive writes from index `at` on.
  abbrev pub store : List A → ℕ → List A → List A
  store xs at [] = xs
  store xs at (b ∷ bs) = store (set xs at b) (suc at) bs

  pub length-store : (xs : List A) (at : ℕ) (bs : List A) → length (store xs at bs) ≡ length xs
  length-store xs at [] = refl
  length-store xs at (b ∷ bs) = length-store (set xs at b) (suc at) bs ∙ length-set xs at b

  pub get_or-store_out :
      (xs : List A) (at : ℕ) (bs : List A) (j : ℕ) (d : A)
      → at + length bs ≤ length xs
      → (j < at) ⊎ (at + length bs ≤ j)
      → get_or (store xs at bs) j d ≡ get_or xs j d
  get_or-store_out xs at [] j d h out = refl
  get_or-store_out xs at (b ∷ bs) j d h out =
      get_or-store_out (set xs at b) (suc at) bs j d (omega (arith, length-set xs at b))
        (omega arith)
      ∙ ground (arith, get_or-set xs at j b d)

  pub get_or-store_in :
      (xs : List A) (at : ℕ) (bs : List A) (k j : ℕ) (d : A)
      → at + length bs ≤ length xs
      → k < length bs
      → j ≡ at + k
      → get_or (store xs at bs) j d ≡ get_or bs k d
  get_or-store_in xs at [] k j d h lt e = absurd (omega arith)
  get_or-store_in xs at (b ∷ bs) zero j d h lt e =
      get_or-store_out (set xs at b) (suc at) bs j d (omega (arith, length-set xs at b))
        (omega arith)
      ∙ ground (arith, get_or-set xs at j b d)
  get_or-store_in xs at (b ∷ bs) (suc k) j d h lt e =
      get_or-store_in (set xs at b) (suc at) bs k j d (omega (arith, length-set xs at b))
        (omega arith) (omega arith)

  pub get_or-append_right :
      (xs ys : List A) (i j : ℕ) (d : A) → j ≡ length xs + i → get_or (xs ++ ys) j d ≡ get_or ys i d
  get_or-append_right [] ys i j d e = ap (λ n. get_or ys n d) (omega arith)
  get_or-append_right (x ∷ xs) ys i zero d e = absurd (omega arith)
  get_or-append_right (x ∷ xs) ys i (suc j) d e = get_or-append_right xs ys i j d (omega arith)

  pub get_or-append_left :
      (xs ys : List A) (i : ℕ) (d : A) → i < length xs → get_or (xs ++ ys) i d ≡ get_or xs i d
  get_or-append_left [] ys i d h = absurd (omega arith)
  get_or-append_left (x ∷ xs) ys zero d h = refl
  get_or-append_left (x ∷ xs) ys (suc i) d h = get_or-append_left xs ys i d (omega arith)

  pub drop-append : (xs ys : List A) (n : ℕ) → n ≡ length xs → drop n (xs ++ ys) ≡ ys
  drop-append [] ys zero e = refl
  drop-append [] ys (suc n) e = absurd (omega arith)
  drop-append (x ∷ xs) ys zero e = absurd (omega arith)
  drop-append (x ∷ xs) ys (suc n) e = drop-append xs ys n (omega arith)

  pub get_or-drop :
      (n : ℕ) (xs : List A) (i : ℕ) (d : A) → get_or (drop n xs) i d ≡ get_or xs (n + i) d
  get_or-drop zero xs i d = ap (λ m. get_or xs m d) (omega arith)
  get_or-drop (suc n) [] i d = refl
  get_or-drop (suc n) (x ∷ xs) i d =
      let e : suc (n + i) ≡ suc n + i = omega arith in
      get_or-drop n xs i d ∙ ap (λ m. get_or (x ∷ xs) m d) e
