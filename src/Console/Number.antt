-- ===== src/Console/Number.antt =====
-- The digits of `print_uint` and `print_hex` against what they stand for.
use alderkernel.Prelude.{
  ℕ, zero, suc, ◌+◌, ◌-◌, ◌*◌, ◌/◌, ◌%◌, ◌^◌, ◌<◌, ◌≡◌, refl, ap, ◌∙◌, sym, Bool, true, ◌&&◌, ◌||◌,
  List, [], ◌∷◌, ◌==◌, ==_iff, if_eq, if_ne, leb, if◌then◌else◌, get_or, length, bit_and, arith,
}
use alderkernel.Prelude.Bits.{bit_and_step, bit_and-zero, holds_to, holds_to_lem}
use native.Mathlib.Decide.{ℕ_discrete}
use native.Mathlib.Nat.{pow-suc}
use alderkernel.Util.{digits_value, str_to_uint}
use alderkernel.Console.{
  Console, put_text, print_text, print_char, decimal_from, print_uint, hex_digits, hex_from,
  print_hex,
}

-- Reading the digits that were put before `out` gives what they were taken from.
digits_value-decimal_from :
    (i n : ℕ) (out : List ℕ)
    → n < 10 ^ i
    → n < 2 ^ 32
    → digits_value 0 (decimal_from i n out) ≡ digits_value n out
unfolding decimal_from digits_value
digits_value-decimal_from zero n out h lt = ap (λ v. digits_value v out) (omega arith)
digits_value-decimal_from (suc i) n out h lt = ground (
  arith,
  digits_value-decimal_from i (n / 10) ((b'0' + n % 10) ∷ out) (omega (arith, pow-suc 10 i))
      (omega arith),
  ap (λ v. digits_value v out),
)

print_zero : (c : Console) → print_char b'0' c ≡ print_text (b'0' ∷ []) c
unfolding print_char print_text put_text
print_zero c = refl

zero_text : digits_value 0 (b'0' ∷ []) ≡ 0
unfolding digits_value
zero_text = refl

no_more : (n : ℕ) → digits_value n [] ≡ n
unfolding digits_value
no_more n = refl

-- What `print_uint` writes is a text that `str_to_uint` reads as the number.
pub str_to_uint-print_uint :
    (n : ℕ) (c : Console)
    → n < 2 ^ 32
    → (t : List ℕ) × (print_uint n c ≡ print_text t c) × (str_to_uint t ≡ n)
unfolding print_uint str_to_uint
str_to_uint-print_uint n c h = elim (ℕ_discrete n 0) [
  | yes e ↦ (b'0' ∷ [], if_eq n 0 _ _ e ∙ print_zero c, zero_text ∙ sym e)
  | no ne ↦ (
    decimal_from 10 n [],
    if_ne n 0 _ _ ne,
    digits_value-decimal_from 10 n [] (omega arith) h ∙ no_more n,
  )
]

-- The number that upper-case hexadecimal digits spell behind `v`.
abbrev pub hex_value : ℕ → List ℕ → ℕ
hex_value v [] = v
hex_value v (c ∷ s) = hex_value (v * 16 + (if leb c b'9' then c - b'0' else c - b'A' + 10)) s

low_digit : (n : ℕ) → bit_and n 0xf ≡ n % 16
low_digit n = omega (
  arith,
  bit_and_step n 15,
  bit_and_step (n / 2) 7,
  bit_and_step (n / 2 / 2) 3,
  bit_and_step (n / 2 / 2 / 2) 1,
  bit_and-zero (n / 2 / 2 / 2 / 2),
)

abbrev digit_ok : ℕ → Bool
digit_ok x = let c = get_or hex_digits x 0 in (if leb c b'9' then c - b'0' else c - b'A' + 10) == x

digits_ok : holds_to 16 digit_ok ≡ true
unfolding holds_to hex_digits
digits_ok = refl

hex_value-hex_from :
    (i n : ℕ) (out : List ℕ)
    → n < 16 ^ i
    → (hex_value 0 (hex_from i n out) ≡ hex_value n out)
      × (length (hex_from i n out) ≡ i + length out)
unfolding hex_from
hex_value-hex_from zero n out h = (ap (λ v. hex_value v out) (omega arith), omega arith)
hex_value-hex_from (suc i) n out h =
    let c : ℕ = get_or hex_digits (bit_and n 0xf) 0 in
    let ih = hex_value-hex_from i (n / 2 ^ 4) (c ∷ out) (omega (arith, pow-suc 16 i)) in
    let d : (if leb c b'9' then c - b'0' else c - b'A' + 10) ≡ n % 16 =
      rw (low_digit n)
        ((==_iff _ _).0 (holds_to_lem 16 digit_ok (n % 16) digits_ok (omega arith))) in
    (ih.0 ∙ ap (λ v. hex_value v out) (omega (arith, d)), omega (arith, ih.1))

-- One of 0 to 9 and A to F.
abbrev pub is_hex_digit : ℕ → Bool
is_hex_digit c = (leb b'0' c && leb c b'9') || (leb b'A' c && leb c b'F')

abbrev pub AllHexDigits : List ℕ → Type 0
AllHexDigits [] = Unit
AllHexDigits (c ∷ s) = (is_hex_digit c ≡ true) × AllHexDigits s

all_digits : holds_to 16 (λ x. is_hex_digit (get_or hex_digits x 0)) ≡ true
unfolding holds_to hex_digits
all_digits = refl

hex_from-AllHexDigits :
    (i n : ℕ) (out : List ℕ) → AllHexDigits out → AllHexDigits (hex_from i n out)
unfolding hex_from
hex_from-AllHexDigits zero n out v = v
hex_from-AllHexDigits (suc i) n out v =
    let d : is_hex_digit (get_or hex_digits (bit_and n 0xf) 0) ≡ true =
      ap (λ x. is_hex_digit (get_or hex_digits x 0)) (low_digit n)
      ∙ holds_to_lem 16 (λ x. is_hex_digit (get_or hex_digits x 0)) (n % 16) all_digits
          (omega arith) in
    hex_from-AllHexDigits i (n / 2 ^ 4) (get_or hex_digits (bit_and n 0xf) 0 ∷ out) (d, v)

-- `print_hex` of a number below 2^32 writes 0x and then a text of eight characters, each one of 0 to 9
-- and A to F, that spell the number.
pub hex_value-print_hex :
    (n : ℕ) (c : Console)
    → n < 2 ^ 32
    → (t : List ℕ) × (print_hex n c ≡ print_text t (print_text (b'0' ∷ b'x' ∷ []) c))
      × (length t ≡ 8)
      × AllHexDigits t
      × (hex_value 0 t ≡ n)
unfolding print_hex
hex_value-print_hex n c h =
    let r = hex_value-hex_from 8 n [] (omega arith) in
    (hex_from 8 n [], refl, r.1, hex_from-AllHexDigits 8 n [] tt, r.0)
