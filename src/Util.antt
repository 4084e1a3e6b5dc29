-- ===== src/Util.antt =====
-- The string helpers of the shell, kernel/shell/util.c. A `const char*` is the list of the characters
-- from the pointer on; a 0 ends the string, and so does the end of the list.
pub mod Strings
use alderkernel.Prelude.{
  ℕ, suc, ◌+◌, ◌-◌, ◌&&◌, ◌||◌, List, [], ◌∷◌, ◌==◌, leb, if◌then◌else◌, get_or, set, add32, mul32,
}

-- 0 if the strings are equal, else 1.
unfoldable pub strcmp : List ℕ → List ℕ → ℕ
strcmp [] b = if get_or b 0 0 == 0 then 0 else 1
strcmp (x ∷ a) [] = if x == 0 then 0 else 1
strcmp (x ∷ a) (y ∷ b) =
    let rest = strcmp a b in
    if x == 0 || y == 0 then (if x == y then 0 else 1) else if x == y then rest else 1

-- The loop of `str_to_uint` from `result` on.
unfoldable pub digits_value : ℕ → List ℕ → ℕ
digits_value result [] = result
digits_value result (c ∷ s) =
    let rest = digits_value (add32 (mul32 result 10) (c - b'0')) s in
    if leb b'0' c && leb c b'9' then rest else result

unfoldable pub str_to_uint : List ℕ → ℕ
str_to_uint s = digits_value 0 s

-- The loop of `str_copy` from index `i` on.
unfoldable pub copy_from : List ℕ → ℕ → List ℕ → List ℕ
copy_from dst i [] = set dst i 0
copy_from dst i (c ∷ s) =
    let rest = copy_from (set dst i c) (suc i) s in if c == 0 then set dst i 0 else rest

unfoldable pub str_copy : List ℕ → List ℕ → List ℕ
str_copy dst src = copy_from dst 0 src

unfoldable pub str_len : List ℕ → ℕ
str_len [] = 0
str_len (c ∷ s) = let rest = str_len s in if c == 0 then 0 else suc rest
