-- ===== src/Console/Sheet.antt =====
-- The screen as a window on an endless sheet of rows: printing writes on the sheet, and the window
-- shows its last rows.
use alderkernel.Prelude.{
  ℕ, max, ◌+◌, ◌-◌, ◌*◌, ◌/◌, ◌≤◌, ◌<◌, ◌≡◌, ap, ◌∙◌, List, [], ◌∷◌, ◌==◌, if◌then◌else◌,
  if_related, if_eq, if_ne, get_or, length, length-set, get_or-set, arith,
}
use native.Mathlib.Decide.{ℕ_discrete, dec_lt}
use alderkernel.Console.{
  Console, cell, blank, screen_size, scroll_screen, advance_cursor, new_line, put_cell, put_text,
  print_text, update_cursor,
}
use alderkernel.Console.Screen.{
  get_or-scroll_screen, length-scroll_screen, cursor_scroll_screen, advance_cursor_lem,
}

-- Cells without end, where the next character goes, and the first row that is still to be seen.
pub record Sheet : Type 0 where
  pub cells : ℕ → ℕ
  pub pen : ℕ
  pub top : ℕ

-- The row of the pen is one of the 25 that are seen.
abbrev move_to : ℕ → Sheet → Sheet
move_to pen s = record s { pen = pen; top = max s.top (pen / 80 - 24) }

abbrev pub write : ℕ → Sheet → Sheet
write x s =
    if x == b'\n'
    then move_to ((s.pen / 80 + 1) * 80) s
    else move_to (s.pen + 1) (record s { cells = λ j. if s.pen == j then cell x else s.cells j })

abbrev pub write_text : List ℕ → Sheet → Sheet
write_text [] s = s
write_text (x ∷ t) s = let rest = write_text t (write x s) in if x == 0 then s else rest

-- A screen whose cursor may stand behind its last cell.
record Near (s : Sheet) (c : Console) : Type 0 where
  size : length c.video ≡ screen_size
  at : s.pen ≡ s.top * 80 + c.cursor_index
  near : c.cursor_index ≤ screen_size
  shown : (j : ℕ) → j < screen_size → get_or c.video j 0 ≡ s.cells (s.top * 80 + j)
  clear : (j : ℕ) → (s.top + 25) * 80 ≤ j → s.cells j ≡ blank

-- The screen shows 25 rows of the sheet, with the cursor at the pen, and nothing is written below.
pub record Shows (s : Sheet) (c : Console) : Type 0 where
  pub size : length c.video ≡ screen_size
  pub at : s.pen ≡ s.top * 80 + c.cursor_index
  pub cursor_in : c.cursor_index < screen_size
  pub shown : (j : ℕ) → j < screen_size → get_or c.video j 0 ≡ s.cells (s.top * 80 + j)
  pub clear : (j : ℕ) → (s.top + 25) * 80 ≤ j → s.cells j ≡ blank

scrolled :
    {s : Sheet} {c : Console}
    → Near s c
    → c.cursor_index ≡ 2000
    → Shows (record s { top = s.top + 1 }) (scroll_screen c)
scrolled {s} {c} v e = record {
  size = length-scroll_screen c ∙ v.size;
  at = omega (arith, v.at, cursor_scroll_screen c e);
  cursor_in = omega (arith, cursor_scroll_screen c e);
  shown = λ j h. get_or-scroll_screen c j v.size ∙ elim (dec_lt j 1920) [
    | yes low ↦
        let index : s.top * 80 + (j + 80) ≡ (s.top + 1) * 80 + j = omega arith in
        let moved : get_or c.video (j + 80) 0 ≡ s.cells ((s.top + 1) * 80 + j) =
          v.shown (j + 80) (omega arith) ∙ ap s.cells index in
        ground (arith, moved)
    | no high ↦
        let new : s.cells ((s.top + 1) * 80 + j) ≡ blank =
          v.clear ((s.top + 1) * 80 + j) (omega arith) in
        ground (arith, new)
  ];
  clear = λ j h. v.clear j (omega arith);
}

-- `advance_cursor` brings the window back to the pen.
followed : {s : Sheet} {c : Console} → Near s c → Shows (move_to s.pen s) (advance_cursor c)
followed {s} {c} v = elim (ℕ_discrete c.cursor_index 2000) [
  | yes e ↦
      let top : max s.top (s.pen / 80 - 24) ≡ s.top + 1 = omega (arith, v.at) in
      rw (advance_cursor_lem c v.near, if_eq c.cursor_index 2000 (scroll_screen c) c e, top)
        (scrolled v e)
  | no ne ↦
      let top : max s.top (s.pen / 80 - 24) ≡ s.top = omega (arith, v.at, v.near) in
      rw (advance_cursor_lem c v.near, if_ne c.cursor_index 2000 (scroll_screen c) c ne, top)
        (record {
          size = v.size;
          at = v.at;
          cursor_in = omega (arith, v.near);
          shown = v.shown;
          clear = v.clear;
        })
]

Shows-new_line :
    {s : Sheet} {c : Console} → Shows s c → Shows (move_to ((s.pen / 80 + 1) * 80) s) (new_line c)
unfolding new_line
Shows-new_line {s} {c} v = followed {s = record s { pen = (s.pen / 80 + 1) * 80 }} (record {
  size = v.size;
  at = omega (arith, v.at, v.cursor_in);
  near = omega (arith, v.cursor_in);
  shown = v.shown;
  clear = v.clear;
})

Shows-put_cell :
    (x : ℕ) {s : Sheet} {c : Console}
    → Shows s c
    → Shows
        (move_to (s.pen + 1) (record s { cells = λ j. if s.pen == j then cell x else s.cells j }))
        (put_cell x c)
unfolding put_cell
Shows-put_cell x {s} {c} v =
    followed
      {s = record s { cells = λ j. if s.pen == j then cell x else s.cells j; pen = s.pen + 1 }}
      (record {
        size = length-set c.video c.cursor_index (cell x) ∙ v.size;
        at = omega (arith, v.at, v.cursor_in);
        near = omega (arith, v.cursor_in);
        shown = λ j h. ground (
          arith,
          get_or-set c.video c.cursor_index j (cell x) 0 (omega (arith, v.size, v.cursor_in)),
          v.shown j h,
          v.at,
        );
        clear = λ j h. ground (arith, v.clear j h, v.at, v.cursor_in);
      })

Shows-write :
    (x : ℕ) {s : Sheet} {c : Console}
    → Shows s c
    → Shows (write x s) (if x == b'\n' then new_line c else put_cell x c)
Shows-write x v = if_related Shows (x == b'\n') (λ _. Shows-new_line v) (λ _. Shows-put_cell x v)

Shows-put_text :
    (t : List ℕ) {s : Sheet} {c : Console} → Shows s c → Shows (write_text t s) (put_text t c)
unfolding put_text
Shows-put_text [] v = v
Shows-put_text (x ∷ t) v =
    if_related Shows (x == 0) (λ _. v) (λ _. Shows-put_text t (Shows-write x v))

Shows-update_cursor : {s : Sheet} {c : Console} → Shows s c → Shows s (update_cursor c)
unfolding update_cursor
Shows-update_cursor v = record {
  size = v.size;
  at = v.at;
  cursor_in = v.cursor_in;
  shown = v.shown;
  clear = v.clear;
}

-- Printing any text on a screen that shows the last rows of a sheet leaves the screen showing the
-- last rows of the sheet with the text written on it: a new line goes to the start of the next row,
-- a full row continues on the next, and only rows above the screen are lost.
pub Shows-print_text :
    (t : List ℕ) {s : Sheet} {c : Console} → Shows s c → Shows (write_text t s) (print_text t c)
unfolding print_text
Shows-print_text t v = Shows-update_cursor (Shows-put_text t v)
