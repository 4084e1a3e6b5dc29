-- ===== src/Prelude/Tests.antt =====
-- Boolean tests on the native numbers, the conditional, and the case splits on computed values.
use Prim.Native.Nat.{ℕ, ◌<◌, compare, Ordering}
use mathlib.Core.Path.{◌≡◌, refl, ap}
use mathlib.Core.Logic.{◌↔◌, ◌⊎◌, ◌≢◌, inl, inr}
use mathlib.Core.Bool.{Bool, true, false, ◌&&◌}
use mathlib.Core.Option.{Option, none, some}
use native.Mathlib.Omega.{arith}

abbrev pub ltb : ℕ → ℕ → Bool
ltb a b = elim (compare a b) [ Ordering.lt ↦ true | _ ↦ false ]

abbrev pub leb : ℕ → ℕ → Bool
leb a b = elim (compare a b) [ Ordering.gt ↦ false | _ ↦ true ]

infix 50 ◌==◌
abbrev pub ◌==◌ : ℕ → ℕ → Bool
a == b = elim (compare a b) [ Ordering.eq ↦ true | _ ↦ false ]

infix 1 if◌then◌else◌
abbrev pub if◌then◌else◌ {ℓ} : {A : Type ℓ} → Bool → A → A → A
if true then x else y = x
if false then x else y = y

-- Statements in a row: each takes what the one before leaves.
infixl 5 ◌|>◌
abbrev pub ◌|>◌ {ℓ κ} : {A : Type ℓ} {B : Type κ} → A → (A → B) → B
a |> f = f a

pub ==_iff : (a b : ℕ) → ((a == b) ≡ true) ↔ (a ≡ b)
==_iff a b = ground arith

pub ==_refl : (a : ℕ) → (a == a) ≡ true
==_refl a = ground arith

pub Bool-cases : (b : Bool) → (b ≡ true) ⊎ (b ≡ false)
Bool-cases true = inl refl
Bool-cases false = inr refl

pub Option-cases {ℓ} : {A : Type ℓ} (o : Option A) → (o ≡ none) ⊎ ((a : A) × (o ≡ some a))
Option-cases none = inl refl
Option-cases (some a) = inr (a, refl)

pub ltb→lt : (a b : ℕ) → ltb a b ≡ true → a < b
ltb→lt a b h = ground arith

pub and_left : (a b : Bool) → (a && b) ≡ true → a ≡ true
and_left true b h = refl
and_left false b h = h

pub and_right : (a b : Bool) → (a && b) ≡ true → b ≡ true
and_right true b h = h
and_right false b h = cc

pub if_under {ℓ κ} :
    {A : Type ℓ} {B : Type κ} (f : A → B) (b : Bool) (x y : A)
    → f (if b then x else y) ≡ (if b then f x else f y)
if_under f true x y = refl
if_under f false x y = refl

-- A claim about a conditional, from its two branches under their tests.
pub if_both {ℓ κ} :
    {A : Type ℓ} (P : A → Type κ) (b : Bool) {x y : A}
    → (b ≡ true → P x)
    → (b ≡ false → P y)
    → P (if b then x else y)
if_both P true f g = f refl
if_both P false f g = g refl

-- The same of two conditionals on one test.
pub if_related {ℓ κ μ} :
    {A : Type ℓ} {B : Type κ} (R : A → B → Type μ) (b : Bool) {x y : A} {x' y' : B}
    → (b ≡ true → R x x')
    → (b ≡ false → R y y')
    → R (if b then x else y) (if b then x' else y')
if_related R true f g = f refl
if_related R false f g = g refl

pub if_eq {ℓ} : {A : Type ℓ} (a b : ℕ) (x y : A) → a ≡ b → (if a == b then x else y) ≡ x
if_eq a b x y e = let t : (a == b) ≡ true = ground arith in ap (λ (c : Bool). if c then x else y) t

pub if_ne {ℓ} : {A : Type ℓ} (a b : ℕ) (x y : A) → a ≢ b → (if a == b then x else y) ≡ y
if_ne a b x y e = let t : (a == b) ≡ false = ground arith in ap (λ (c : Bool). if c then x else y) t
