-- ===== src/Ps2.antt =====
-- The keyboard driver, kernel/drivers/ps2.c: the ring of key presses and the interrupt handler.
-- The byte that `inb(PS2_DATA_PORT)` reads is an argument of the handler. `ps2_init`, which
-- drains the controller, stands with the start-up in Boot.
pub mod Tables
pub mod Queue
pub mod Handler
use alderkernel.Prelude.{
  ℕ, ◌+◌, ◌-◌, ◌%◌, bit_and, Bool, true, false, not, ◌&&◌, ◌||◌, List, ◌==◌, leb, if◌then◌else◌,
  get_or, set,
}
use Tables.{scancode_to_ascii, scancode_to_ascii_shifted}

abbrev pub key_buffer_size : ℕ
key_buffer_size = 256

abbrev pub key_arrow_up : ℕ
key_arrow_up = 0x01

abbrev pub key_arrow_down : ℕ
key_arrow_down = 0x02

-- The driver's statics. A key is the number of its `char`.
pub record Keyboard : Type 0 where
  pub key_buffer : List ℕ
  pub key_buf_head : ℕ
  pub key_buf_tail : ℕ
  pub extended_prefix : Bool
  pub shift_held : Bool
  pub capslock_on : Bool

unfoldable pub key_buffer_push : ℕ → Keyboard → Keyboard
key_buffer_push c k =
    let next = (k.key_buf_head + 1) % key_buffer_size in
    if next == k.key_buf_tail
    then k
    else record k { key_buffer = set k.key_buffer k.key_buf_head c; key_buf_head = next }

unfoldable pub key_buffer_pop : Keyboard → ℕ × Keyboard
key_buffer_pop k = if k.key_buf_tail == k.key_buf_head then (0, k) else (
  get_or k.key_buffer k.key_buf_tail 0,
  record k { key_buf_tail = (k.key_buf_tail + 1) % key_buffer_size },
)

-- `scancode & 0x80` and `scancode & 0x7F`
unfoldable pub is_release : ℕ → Bool
is_release scancode = not (bit_and scancode 0x80 == 0)

unfoldable pub key_code : ℕ → ℕ
key_code scancode = bit_and scancode 0x7f

unfoldable pub is_lower : ℕ → Bool
is_lower c = leb b'a' c && leb c b'z'

-- The character of a key press that is no modifier.
unfoldable pub translate : Bool → Bool → ℕ → ℕ
translate shift caps code =
    let base = get_or scancode_to_ascii code 0 in
    let shifted = get_or scancode_to_ascii_shifted code 0 in
    if is_lower base
    then (if (if shift then not caps else caps) then shifted else base)
    else (if shift then shifted else base)

-- After the 0xE0 prefix.
unfoldable pub extended_key : ℕ → Keyboard → Keyboard
extended_key scancode k =
    if is_release scancode
    then k
    else if key_code scancode == 0x48
    then key_buffer_push key_arrow_up k
    else if key_code scancode == 0x50
    then key_buffer_push key_arrow_down k
    else k

-- With no prefix: the modifiers, then everything else.
unfoldable pub plain_key : ℕ → Keyboard → Keyboard
plain_key scancode k =
    if key_code scancode == 0x2a || key_code scancode == 0x36
    then record k { shift_held = not (is_release scancode) }
    else if key_code scancode == 0x3a
    then (if is_release scancode then k else record k { capslock_on = not k.capslock_on })
    else if is_release scancode
    then k
    else let c = translate k.shift_held k.capslock_on (key_code scancode) in
      if c == 0 then k else key_buffer_push c k

unfoldable pub keyboard_handler : ℕ → Keyboard → Keyboard
keyboard_handler scancode k =
    if scancode == 0xe0
    then record k { extended_prefix = true }
    else let k' = record k { extended_prefix = false } in
      if k.extended_prefix then extended_key scancode k' else plain_key scancode k'
