-- ===== src/Ps2/Handler.antt =====
-- The interrupt handler against a description of the keyboard: which key a scan code gives under
-- which modifiers, and how it changes them.
use alderkernel.Prelude.{
  ℕ, ◌-◌, ◌%◌, ◌<◌, ◌≡◌, refl, Bool, true, false, not, ◌&&◌, ◌||◌, Option, none, some, List, ◌==◌,
  ==_iff, ltb, leb, if◌then◌else◌, get_or, bit_and, arith,
}
use alderkernel.Prelude.Bits.{holds_to, holds_to_lem}
use alderkernel.Ps2.{
  Keyboard, key_arrow_up, key_arrow_down, key_buffer_push, is_release, key_code, is_lower,
  translate, extended_key, plain_key, keyboard_handler,
}
use alderkernel.Ps2.Tables.{scancode_to_ascii, scancode_to_ascii_shifted}
use alderkernel.Ps2.Queue.{IsValid, keys, enqueue, key_buffer_push-IsValid, keys-key_buffer_push}

-- The state that decides how the next byte is read.
pub record Mode : Type 0 where
  pub prefix : Bool
  pub shift : Bool
  pub caps : Bool

abbrev pub mode : Keyboard → Mode
mode k = record { prefix = k.extended_prefix; shift = k.shift_held; caps = k.capslock_on }

-- The key of a press with no modifier but these: a letter is capital when exactly one of shift and
-- caps lock is on, any other key has its shifted form when shift is held.
abbrev pub key_of : Bool → Bool → ℕ → ℕ
key_of shift caps code =
    let base = get_or scancode_to_ascii code 0 in
    if leb b'a' base && leb base b'z'
    then (if (shift && not caps) || (not shift && caps) then base - 32 else base)
    else (if shift then get_or scancode_to_ascii_shifted code 0 else base)

-- A byte below 128 presses the key of its code, and any other one releases the key `b - 128`.
abbrev pub Event : Type 0
Event = Mode × Option ℕ

abbrev key_event : ℕ → Option ℕ
key_event c = if c == 0 then none else some c

abbrev press : Mode → ℕ → Event
press m code =
    if m.prefix
    then (
      record m { prefix = false },
      (if code == 0x48
          then some key_arrow_up
          else if code == 0x50
          then some key_arrow_down
          else none),
    )
    else if code == 0x2a || code == 0x36
    then (record m { shift = true }, none)
    else if code == 0x3a
    then (record m { caps = not m.caps }, none)
    else (m, key_event (key_of m.shift m.caps code))

abbrev release : Mode → ℕ → Event
release m code =
    if m.prefix
    then (record m { prefix = false }, none)
    else if code == 0x2a || code == 0x36
    then (record m { shift = false }, none)
    else (m, none)

abbrev pub decode : Mode → ℕ → Event
decode m b =
    if b == 0xe0
    then (record m { prefix = true }, none)
    else if ltb b 128
    then press m b
    else release m (b - 128)

abbrev pub deliver : Option ℕ → List ℕ → List ℕ
deliver none q = q
deliver (some c) q = enqueue c q

abbrev code_ok : ℕ → Bool
code_ok b = bit_and b 0x7f == b % 128

abbrev release_ok : ℕ → Bool
release_ok b = if bit_and b 0x80 == 0 then ltb b 128 else not (ltb b 128)

masks : (holds_to 256 code_ok ≡ true) × (holds_to 256 release_ok ≡ true)
unfolding holds_to
masks = (refl, refl)

key_code_lem : (b : ℕ) → b < 256 → key_code b ≡ b % 128
unfolding key_code
key_code_lem b h = (==_iff _ _).0 (holds_to_lem 256 code_ok b masks.0 h)

is_release_lem : (b : ℕ) → b < 256 → is_release b ≡ not (ltb b 128)
unfolding is_release
is_release_lem b h = ground (arith, holds_to_lem 256 release_ok b masks.1 h)

abbrev capital_ok : ℕ → Bool
capital_ok code =
    let base = get_or scancode_to_ascii code 0 in
    not (leb b'a' base && leb base b'z') || get_or scancode_to_ascii_shifted code 0 == base - 32

capitals : holds_to 128 capital_ok ≡ true
unfolding holds_to scancode_to_ascii scancode_to_ascii_shifted
capitals = refl

translate_lem :
    (shift caps : Bool) (code : ℕ) → code < 128 → translate shift caps code ≡ key_of shift caps code
unfolding translate is_lower
translate_lem shift caps code h = ground (arith, holds_to_lem 128 capital_ok code capitals h)

mode-push : (c : ℕ) (k : Keyboard) → mode (key_buffer_push c k) ≡ mode k
unfolding key_buffer_push
mode-push c k = ground arith

abbrev settled : Keyboard → Keyboard
settled k = record k { extended_prefix = false }

settled-IsValid : {k : Keyboard} → IsValid k → IsValid (settled k)
settled-IsValid v = record { size = v.size; head_in = v.head_in; tail_in = v.tail_in }

-- No byte from the controller makes the ring invalid.
pub keyboard_handler-IsValid : (b : ℕ) {k : Keyboard} → IsValid k → IsValid (keyboard_handler b k)
unfolding keyboard_handler extended_key plain_key
keyboard_handler-IsValid b {k} v =
    let c : ℕ = translate k.shift_held k.capslock_on (key_code b) in
    ground (
      arith,
      key_buffer_push-IsValid key_arrow_up (settled-IsValid v),
      key_buffer_push-IsValid key_arrow_down (settled-IsValid v),
      key_buffer_push-IsValid c (settled-IsValid v),
    )

-- For every byte from the controller, the handler leaves the prefix, shift and caps lock flags as the
-- description of the keyboard says.
pub mode-keyboard_handler :
    (b : ℕ) (k : Keyboard) → b < 256 → mode (keyboard_handler b k) ≡ (decode (mode k) b).0
unfolding keyboard_handler extended_key plain_key
mode-keyboard_handler b k h = ground (
  arith,
  key_code_lem b h,
  is_release_lem b h,
  mode-push key_arrow_up (settled k),
  mode-push key_arrow_down (settled k),
  mode-push (translate k.shift_held k.capslock_on (key_code b)) (settled k),
)

-- For every byte from the controller, the keys that wait after the interrupt are those that waited
-- before, with the key that the description gives for the byte, if it gives one, behind them, unless
-- 255 wait already: then the key is dropped.
pub keys-keyboard_handler :
    (b : ℕ) {k : Keyboard}
    → b < 256
    → IsValid k
    → keys (keyboard_handler b k) ≡ deliver (decode (mode k) b).1 (keys k)
unfolding keyboard_handler extended_key plain_key
keys-keyboard_handler b {k} h v =
    let c : ℕ = translate k.shift_held k.capslock_on (key_code b) in
    ground (
      arith,
      key_code_lem b h,
      is_release_lem b h,
      translate_lem k.shift_held k.capslock_on (b % 128) (omega arith),
      keys-key_buffer_push key_arrow_up (settled-IsValid v),
      keys-key_buffer_push key_arrow_down (settled-IsValid v),
      keys-key_buffer_push c (settled-IsValid v),
    )
