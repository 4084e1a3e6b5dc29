-- ===== src/Console/Screen.antt =====
-- The scroll and the invariant of the screen: the cursor stays on it, so that no write leaves the
-- text buffer.
use alderkernel.Prelude.{
  ℕ, zero, suc, ◌+◌, ◌/◌, ◌≤◌, ◌<◌, ◌≡◌, refl, ap, ◌∙◌, sym, ◌&&◌, List, [], ◌∷◌, ◌==◌, ltb, leb,
  if◌then◌else◌, if_both, ltb→lt, sub32, if_eq, if_ne, get_or, set, length, length-set, get_or-set,
  arith,
}
use native.Mathlib.Decide.{ℕ_discrete}
use alderkernel.Console.{
  Console, cell, blank, screen_size, shift_rows, fill_blank, scroll_screen, scroll_while,
  advance_cursor, new_line, put_cell, put_text, print_text, print_char, update_cursor,
}

pub record IsValid (c : Console) : Type 0 where
  pub size : length c.video ≡ screen_size
  pub cursor_in : c.cursor_index < screen_size

pub length-shift_rows : (n i : ℕ) (xs : List ℕ) → length (shift_rows n i xs) ≡ length xs
unfolding shift_rows
length-shift_rows zero i xs = refl
length-shift_rows (suc n) i xs =
    length-shift_rows n (i + 1) (set xs i (get_or xs (i + 80) 0)) ∙ length-set xs i _

pub length-fill_blank : (n i : ℕ) (xs : List ℕ) → length (fill_blank n i xs) ≡ length xs
unfolding fill_blank
length-fill_blank zero i xs = refl
length-fill_blank (suc n) i xs = length-fill_blank n (i + 1) (set xs i blank) ∙ length-set xs i _

-- The loop runs upwards in place: it reads a cell before it writes it.
get_or-shift_rows :
    (n i : ℕ) (xs : List ℕ) (j : ℕ)
    → i + n ≤ length xs
    → get_or (shift_rows n i xs) j 0
      ≡ (if leb i j && ltb j (i + n) then get_or xs (j + 80) 0 else get_or xs j 0)
unfolding shift_rows
get_or-shift_rows zero i xs j h = ground arith
get_or-shift_rows (suc n) i xs j h =
    let v : ℕ = get_or xs (i + 80) 0 in
    ground (
      arith,
      get_or-shift_rows n (i + 1) (set xs i v) j (omega (arith, length-set xs i v)),
      get_or-set xs i j v 0 (omega arith),
      get_or-set xs i (j + 80) v 0 (omega arith),
      ap (λ m. get_or xs m 0),
    )

get_or-fill_blank :
    (n i : ℕ) (xs : List ℕ) (j : ℕ)
    → i + n ≤ length xs
    → get_or (fill_blank n i xs) j 0 ≡ (if leb i j && ltb j (i + n) then blank else get_or xs j 0)
unfolding fill_blank
get_or-fill_blank zero i xs j h = ground arith
get_or-fill_blank (suc n) i xs j h = ground (
  arith,
  get_or-fill_blank n (i + 1) (set xs i blank) j (omega (arith, length-set xs i blank)),
  get_or-set xs i j blank 0 (omega arith),
)

-- A scroll moves every cell up by a row and blanks the last row.
pub get_or-scroll_screen :
    (c : Console) (j : ℕ)
    → length c.video ≡ screen_size
    → get_or (scroll_screen c).video j 0 ≡ (
        if ltb j 1920
        then get_or c.video (j + 80) 0
        else if ltb j 2000
        then blank
        else get_or c.video j 0)
unfolding scroll_screen
get_or-scroll_screen c j h = ground (
  arith,
  get_or-fill_blank 80 1920 (shift_rows 1920 0 c.video) j
      (omega (arith, length-shift_rows 1920 0 c.video)),
  get_or-shift_rows 1920 0 c.video j (omega arith),
)

pub length-scroll_screen : (c : Console) → length (scroll_screen c).video ≡ length c.video
unfolding scroll_screen
length-scroll_screen c =
    length-fill_blank 80 1920 (shift_rows 1920 0 c.video) ∙ length-shift_rows 1920 0 c.video

scroll_while_stop : (fuel : ℕ) (c : Console) → c.cursor_index < 2000 → scroll_while fuel c ≡ c
unfolding scroll_while
scroll_while_stop zero c h = refl
scroll_while_stop (suc fuel) c h = ground arith

pub cursor_scroll_screen :
    (c : Console) → c.cursor_index ≡ 2000 → (scroll_screen c).cursor_index ≡ 1920
unfolding scroll_screen
cursor_scroll_screen c e = omega arith

scroll_while_once :
    (fuel : ℕ) (c : Console)
    → 0 < fuel
    → c.cursor_index ≡ 2000
    → scroll_while fuel c ≡ scroll_screen c
unfolding scroll_while
scroll_while_once zero c h e = absurd (omega arith)
scroll_while_once (suc fuel) c h e =
    ground (arith, scroll_while_stop fuel (scroll_screen c), cursor_scroll_screen c e)

-- The loop of `advance_cursor` makes one round at most where the cursor is at the end of the screen.
pub advance_cursor_lem :
    (c : Console)
    → c.cursor_index ≤ 2000
    → advance_cursor c ≡ (if c.cursor_index == 2000 then scroll_screen c else c)
unfolding advance_cursor
advance_cursor_lem c h = elim (ℕ_discrete c.cursor_index 2000) [
  | yes e ↦
      scroll_while_once (c.cursor_index / 80) c (omega arith) e
      ∙ sym (if_eq c.cursor_index 2000 (scroll_screen c) c e)
  | no ne ↦
      scroll_while_stop (c.cursor_index / 80) c (omega arith)
      ∙ sym (if_ne c.cursor_index 2000 (scroll_screen c) c ne)
]

advance_cursor-IsValid :
    (c : Console)
    → length c.video ≡ screen_size
    → c.cursor_index ≤ 2000
    → IsValid (advance_cursor c)
advance_cursor-IsValid c size h = rw (advance_cursor_lem c h) (
    if_both IsValid (c.cursor_index == 2000)
      (λ e.
        let at : c.cursor_index ≡ 2000 = ground arith in
        record {
          size = length-scroll_screen c ∙ size;
          cursor_in = omega (arith, cursor_scroll_screen c at);
        })
      (λ e. record { size = size; cursor_in = ground arith }))

pub new_line-IsValid : {c : Console} → IsValid c → IsValid (new_line c)
unfolding new_line
new_line-IsValid v = advance_cursor-IsValid _ v.size (omega (arith, v.cursor_in))

pub put_cell-IsValid : (x : ℕ) {c : Console} → IsValid c → IsValid (put_cell x c)
unfolding put_cell
put_cell-IsValid x {c} v =
    advance_cursor-IsValid _ (length-set c.video c.cursor_index (cell x) ∙ v.size)
      (omega (arith, v.cursor_in))

put_text-IsValid : (s : List ℕ) {c : Console} → IsValid c → IsValid (put_text s c)
unfolding put_text
put_text-IsValid [] v = v
put_text-IsValid (x ∷ s) v =
    if_both IsValid (x == 0) (λ _. v)
      (λ _.
        put_text-IsValid s
          (if_both IsValid (x == b'\n') (λ _. new_line-IsValid v) (λ _. put_cell-IsValid x v)))

update_cursor-IsValid : {c : Console} → IsValid c → IsValid (update_cursor c)
unfolding update_cursor
update_cursor-IsValid v = record { size = v.size; cursor_in = v.cursor_in }

-- No text moves the cursor off the screen: the text buffer keeps its 2000 cells, and every write of
-- `print_text` is to one of them.
pub print_text-IsValid : (s : List ℕ) {c : Console} → IsValid c → IsValid (print_text s c)
unfolding print_text
print_text-IsValid s v = update_cursor-IsValid (put_text-IsValid s v)

-- On a screen whose text buffer has its 2000 cells and whose cursor is on one of them, `print_char` of
-- any character, a backspace at the first cell included, leaves the cursor on one of the 2000 cells and
-- the buffer with as many.
print_char-IsValid : (x : ℕ) {c : Console} → IsValid c → IsValid (print_char x c)
unfolding print_char
print_char-IsValid x {c} v =
    if_both IsValid (x == b'\n') (λ _. update_cursor-IsValid (new_line-IsValid v))
      (λ _.
        if_both IsValid (x == 8)
          (λ _. update_cursor-IsValid (
            if_both IsValid (ltb 0 c.cursor_index)
              (λ more. record {
                size = length-set c.video (sub32 c.cursor_index 1) blank ∙ v.size;
                cursor_in = omega (arith, v.cursor_in, ltb→lt 0 c.cursor_index more);
              })
              (λ _. v)))
          (λ _. update_cursor-IsValid (put_cell-IsValid x v)))
