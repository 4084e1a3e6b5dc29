-- ===== src/Shell.antt =====
-- The shell, kernel/shell/shell.c: the line editor, the command history and the prompt. The children
-- hold the commands, and the main loop that calls them.
-- A `char` array is a list of SHELL_BUFFER_SIZE characters; history_browse_index is a signed number.
pub mod History
pub mod Buffer
pub mod Abstract
pub mod Keys
pub mod Editor
pub mod Files
pub mod Disks
pub mod Info
pub mod Basics
pub mod Session
use alderkernel.Prelude.{
  ℕ, zero, suc, ◌+◌, ◌-◌, ◌%◌, Option, none, some, List, [], ◌∷◌, ◌==◌, ltb, leb, if◌then◌else◌,
  get_or, set, add32, sub32, codes, ℤ, pos, negsuc,
}
use alderkernel.Util.{str_copy}
use alderkernel.Console.{Console, print_char, print_text}
use alderkernel.Ps2.{key_arrow_up, key_arrow_down}

abbrev pub shell_buffer_size : ℕ
shell_buffer_size = 128

abbrev pub history_size : ℕ
history_size = 16

-- The statics of the file, and the local `idx` of `shell_start`.
pub record Shell : Type 0 where
  pub shell_buffer : List ℕ
  pub history : List (List ℕ)
  pub history_count : ℕ
  pub history_next : ℕ
  pub history_browse_index : ℤ
  pub saved_current : List ℕ
  pub idx : ℕ

unfoldable pub history_add : List ℕ → Shell → Shell
history_add cmd s =
    let row = str_copy (get_or s.history s.history_next []) cmd in
    if get_or cmd 0 0 == 0 then s else record s {
      history = set s.history s.history_next row;
      history_next = add32 s.history_next 1 % history_size;
      history_count =
          if ltb s.history_count history_size then s.history_count + 1 else s.history_count;
    }

-- `none` is the null pointer.
unfoldable pub history_get : ℕ → Shell → Option (List ℕ)
history_get back s =
    if leb s.history_count back
    then none
    else some (
        get_or s.history (sub32 (sub32 (add32 s.history_next history_size) 1) back % history_size)
          [])

-- The loops of `redraw_line`: the erasing one, and the one that writes from index `i` on, with room
-- for `room` characters. The second gives the new length.
unfoldable pub erase_chars : ℕ → Console → Console
erase_chars zero c = c
erase_chars (suc n) c = erase_chars n (print_char 8 c)

unfoldable pub write_chars : ℕ → ℕ → List ℕ → List ℕ → Console → ℕ × List ℕ × Console
write_chars room i [] buffer c = (i, set buffer i 0, c)
write_chars zero i (x ∷ s) buffer c = (i, set buffer i 0, c)
write_chars (suc room) i (x ∷ s) buffer c =
    let rest = write_chars room (suc i) s (set buffer i x) (print_char x c) in
    if x == 0 then (i, set buffer i 0, c) else rest

-- `idx = redraw_line(idx, new_content)`
unfoldable pub redraw_line : List ℕ → Shell → Console → Shell × Console
redraw_line new_content s c =
    let (len, buffer, c1) =
      write_chars (shell_buffer_size - 1) 0 new_content s.shell_buffer (erase_chars s.idx c) in
    (record s { shell_buffer = buffer; idx = len }, c1)

-- `shell_buffer[idx] = '\0';`
unfoldable pub terminate : Shell → Shell
terminate s = record s { shell_buffer = set s.shell_buffer s.idx 0 }

-- An entry that is null is never drawn: the index is below the count.
unfoldable pub draw_entry : Option (List ℕ) → Shell → Console → Shell × Console
draw_entry none s c = (s, c)
draw_entry (some entry) s c = redraw_line entry s c

-- `history_browse_index` moves to `back`, and the entry is drawn.
unfoldable pub browse : ℕ → Shell → Console → Shell × Console
browse back s c = draw_entry (history_get back s) (record s { history_browse_index = pos back }) c

-- The stash of the live line.
unfoldable pub save_line : Shell → Shell
save_line s =
    let s1 = terminate s in record s1 { saved_current = str_copy s1.saved_current s1.shell_buffer }

unfoldable pub arrow_up : ℤ → Shell → Console → Shell × Console
arrow_up (negsuc n) s c =
    if ltb 0 s.history_count then browse 0 (save_line s) c else (save_line s, c)
arrow_up (pos back) s c = if ltb (back + 1) s.history_count then browse (back + 1) s c else (s, c)

unfoldable pub arrow_down : ℤ → Shell → Console → Shell × Console
arrow_down (negsuc n) s c = (s, c)
arrow_down (pos zero) s c =
    redraw_line s.saved_current (record s { history_browse_index = negsuc 0 }) c
arrow_down (pos (suc back)) s c = browse back s c

-- A line is complete. The reset of `idx`, which is the loop's own, does not wait for the command.
unfoldable pub enter : Shell → Shell
enter s =
    let s1 = terminate s in
    let s2 = history_add s1.shell_buffer s1 in
    record s2 { history_browse_index = negsuc 0; idx = 0 }

unfoldable pub backspace : Shell → Console → Shell × Console
backspace s c = if ltb 0 s.idx then (record s { idx = s.idx - 1 }, print_char 8 c) else (s, c)

unfoldable pub type_char : ℕ → Shell → Console → Shell × Console
type_char x s c =
    if ltb s.idx (shell_buffer_size - 1)
    then (record s { shell_buffer = set s.shell_buffer s.idx x; idx = s.idx + 1 }, print_char x c)
    else (s, c)

-- One key that is not 0: the round of the main loop, up to the call of `interpret_command` where the
-- key ends the line, which is then the third part.
unfoldable pub shell_key : ℕ → Shell → Console → Shell × Console × Option (List ℕ)
shell_key x s c =
    if x == key_arrow_up
    then (let (s1, c1) = arrow_up s.history_browse_index s c in (s1, c1, none))
    else if x == key_arrow_down
    then (let (s1, c1) = arrow_down s.history_browse_index s c in (s1, c1, none))
    else if x == b'\n'
    then (let s1 = enter s in (s1, print_char b'\n' c, some s1.shell_buffer))
    else if x == 8
    then (let (s1, c1) = backspace s c in (s1, c1, none))
    else (let (s1, c1) = type_char x s c in (s1, c1, none))
