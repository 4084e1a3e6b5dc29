-- ===== src/Tests/Text.antt =====
-- The console, the string helpers and the command line.
use alderkernel.Prelude.{
  ℕ, zero, suc, ◌<◌, ◌≡◌, ◌↔◌, refl, some, List, [], ◌∷◌, ◌++◌, replicate, length, length-replicate,
  get_or, codes, arith,
}
use alderkernel.Util.{strcmp, str_to_uint}
use alderkernel.Util.Strings.{c_string, strcmp_iff}
use alderkernel.Console.{Console, print_text, print_uint, print_hex}
use alderkernel.Console.Sheet.{Sheet, Shows, write_text, Shows-print_text}
use alderkernel.Console.Number.{
  hex_value, AllHexDigits, str_to_uint-print_uint, hex_value-print_hex,
}
use alderkernel.Interpreter.{interpret_command}
use alderkernel.Interpreter.Lines.{Name, name, call, interpret_command-call}

strcmp_iff_example :
    (strcmp (codes "cat") (codes "cd") ≡ 0) ↔ (c_string (codes "cat") ≡ c_string (codes "cd"))
strcmp_iff_example = strcmp_iff (codes "cat") (codes "cd")

-- An empty screen with the cursor on its last cell.
abbrev at_end : Console
at_end = record { video = replicate 2000 0x0f20; cursor_index = 1999; outs = [] }

abbrev empty_sheet : Sheet
empty_sheet = record { cells = λ _. 0x0f20; pen = 1999; top = 0 }

blank_cell : (n j : ℕ) → j < n → ◌≡◌ {A = ℕ} (get_or (replicate n 0x0f20) j 0) 0x0f20
blank_cell zero j h = absurd (omega arith)
blank_cell (suc n) zero h = refl
blank_cell (suc n) (suc j) h = blank_cell n j (omega arith)

empty_sheet-Shows : Shows empty_sheet at_end
empty_sheet-Shows = record {
  size = length-replicate {A = ℕ} 2000 0x0f20;
  at = refl;
  cursor_in = omega arith;
  shown = λ j h. blank_cell 2000 j h;
  clear = λ j h. refl;
}

Shows-print_text_example :
    Shows (write_text (codes "ls\nREADME") empty_sheet) (print_text (codes "ls\nREADME") at_end)
Shows-print_text_example = Shows-print_text (codes "ls\nREADME") empty_sheet-Shows

str_to_uint-print_uint_example :
    (t : List ℕ) × (print_uint 4294967295 at_end ≡ print_text t at_end)
    × (str_to_uint t ≡ 4294967295)
str_to_uint-print_uint_example = str_to_uint-print_uint 4294967295 at_end (omega arith)

hex_value-print_hex_example :
    (t : List ℕ) × (print_hex 0xcafe at_end ≡ print_text t (print_text (b'0' ∷ b'x' ∷ []) at_end))
    × (length t ≡ 8)
    × AllHexDigits t
    × (hex_value 0 t ≡ 0xcafe)
hex_value-print_hex_example = hex_value-print_hex 0xcafe at_end (omega arith)

interpret_command-call_example :
    interpret_command (name Name.cat ++ b' ' ∷ (replicate 1 b' ' ++ b'f' ∷ codes "oo"))
    ≡ some (call Name.cat (some (b'f' ∷ codes "oo")))
interpret_command-call_example =
    interpret_command-call Name.cat 1 b'f' (codes "oo") (omega arith) (omega arith)
