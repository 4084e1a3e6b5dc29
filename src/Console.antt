-- ===== src/Console.antt =====
-- The text console, kernel/print.c: the cells of the VGA text buffer, the cursor, and the writes to
-- the CRT controller's ports. SCREEN_WIDTH is 80 and SCREEN_HEIGHT 25; a character is a byte.
pub mod Screen
pub mod Number
pub mod Sheet
use Prim.Native.String.{String}
use alderkernel.Prelude.{
  codes, ℕ, zero, suc, ◌+◌, ◌-◌, ◌/◌, ◌%◌, ◌^◌, List, [], ◌∷◌, ◌==◌, ltb, leb, if◌then◌else◌,
  get_or, set, bit_or, bit_and, byte, add32, sub32, mul32,
}

abbrev pub screen_width : ℕ
screen_width = 80

abbrev pub screen_size : ℕ
screen_size = 2000

-- `outs` has the port writes, the last one first.
pub record Console : Type 0 where
  pub video : List ℕ
  pub cursor_index : ℕ
  pub outs : List (ℕ × ℕ)

-- `c | (WHITE << 8)` as an `unsigned short`. A `char` of 128 or more is negative, and its sign fills
-- the upper byte.
unfoldable pub cell : ℕ → ℕ
cell c = bit_or (if ltb c 128 then c else c + 0xff00) 0x0f00

abbrev pub blank : ℕ
blank = 0x0f20

unfoldable pub update_cursor : Console → Console
update_cursor c = record c {
  outs =
      (0x3d5, byte c.cursor_index 0)
      ∷ (0x3d4, 15)
      ∷ (0x3d5, byte c.cursor_index 8)
      ∷ (0x3d4, 14)
      ∷ c.outs;
}

-- The loops of `scroll_screen` from index `i` on, with `n` rounds left.
unfoldable pub shift_rows : ℕ → ℕ → List ℕ → List ℕ
shift_rows zero i buffer = buffer
shift_rows (suc n) i buffer =
    shift_rows n (i + 1) (set buffer i (get_or buffer (i + screen_width) 0))

unfoldable pub fill_blank : ℕ → ℕ → List ℕ → List ℕ
fill_blank zero i buffer = buffer
fill_blank (suc n) i buffer = fill_blank n (i + 1) (set buffer i blank)

unfoldable pub scroll_screen : Console → Console
scroll_screen c = record c {
  video = fill_blank 80 1920 (shift_rows 1920 0 c.video);
  cursor_index = sub32 c.cursor_index screen_width;
}

-- while (cursor_index >= SCREEN_SIZE), with fuel: each round takes a row off the cursor.
unfoldable pub scroll_while : ℕ → Console → Console
scroll_while zero c = c
scroll_while (suc fuel) c =
    let rest = scroll_while fuel (scroll_screen c) in
    if leb screen_size c.cursor_index then rest else c

unfoldable pub advance_cursor : Console → Console
advance_cursor c = scroll_while (c.cursor_index / screen_width) c

unfoldable pub new_line : Console → Console
new_line c =
    advance_cursor
      (record c { cursor_index = mul32 (add32 (c.cursor_index / screen_width) 1) screen_width })

unfoldable pub put_cell : ℕ → Console → Console
put_cell x c = advance_cursor (record c {
  video = set c.video c.cursor_index (cell x);
  cursor_index = add32 c.cursor_index 1;
})

-- The loop of `print_text`, up to the end of the string.
unfoldable pub put_text : List ℕ → Console → Console
put_text [] c = c
put_text (x ∷ s) c =
    let rest = put_text s (if x == b'\n' then new_line c else put_cell x c) in
    if x == 0 then c else rest

unfoldable pub print_text : List ℕ → Console → Console
print_text s c = update_cursor (put_text s c)

-- `print_text` of a literal.
unfoldable pub say : String → Console → Console
say s c = print_text (codes s) c

unfoldable pub print_char : ℕ → Console → Console
print_char x c =
    if x == b'\n'
    then update_cursor (new_line c)
    else if x == 8
    then update_cursor (
        if ltb 0 c.cursor_index
        then record c {
          cursor_index = sub32 c.cursor_index 1;
          video = set c.video (sub32 c.cursor_index 1) blank;
        }
        else c)
    else update_cursor (put_cell x c)

-- while (n > 0 && i > 0), with the digits that are in the buffer behind `i`.
unfoldable pub decimal_from : ℕ → ℕ → List ℕ → List ℕ
decimal_from zero n out = out
decimal_from (suc i) n out =
    let rest = decimal_from i (n / 10) ((b'0' + n % 10) ∷ out) in if n == 0 then out else rest

unfoldable pub print_uint : ℕ → Console → Console
print_uint n c = if n == 0 then print_char b'0' c else print_text (decimal_from 10 n []) c

unfoldable pub hex_digits : List ℕ
hex_digits =
    b'0' ∷ b'1' ∷ b'2' ∷ b'3' ∷ b'4' ∷ b'5' ∷ b'6' ∷ b'7' ∷ b'8' ∷ b'9' ∷ b'A' ∷ b'B' ∷ b'C' ∷ b'D'
    ∷ b'E' ∷ b'F' ∷ []

-- for (i = …; i >= 0; i--), with the digits that are in the buffer behind `i`.
unfoldable pub hex_from : ℕ → ℕ → List ℕ → List ℕ
hex_from zero n out = out
hex_from (suc i) n out = hex_from i (n / 2 ^ 4) (get_or hex_digits (bit_and n 0xf) 0 ∷ out)

unfoldable pub print_hex : ℕ → Console → Console
print_hex n c = print_text (hex_from 8 n []) (print_text (b'0' ∷ b'x' ∷ []) c)

unfoldable pub clear_screen_reset_cursor : Console → Console
clear_screen_reset_cursor c = update_cursor (record c { cursor_index = 0 })
