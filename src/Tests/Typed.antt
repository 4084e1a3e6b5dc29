-- ===== src/Tests/Typed.antt =====
-- A line that is typed, at a concrete input.
use alderkernel.Prelude.{ℕ, ◌≡◌, refl, List, [], ◌∷◌, replicate, codes, false, ◌<◌, arith}
use alderkernel.Util.Strings.{c_string}
use alderkernel.Ps2.{Keyboard}
use alderkernel.Ps2.Queue.{window}
use alderkernel.Shell.{Shell}
use alderkernel.Shell.Info.{Ram}
use alderkernel.Interpreter.{split_args}
use alderkernel.Shell.Session.{
  Setup, Session, back, follow, run_line, prompt, shell_round, shell_rounds,
}
use alderkernel.Shell.Session.Typing.{Waits, IsPlain, shell_rounds-typed}
use alderkernel.Tests.Places.{no_memory, tree, disk, machine}
use alderkernel.Tests.Lines.{start, nothing, start-Edits}

abbrev no_ram : Ram
no_ram = record { State = ℕ; store32 = λ a v s. s; load32 = λ a s. (0, s) }

abbrev setup : Setup
setup = record {
  drive = disk;
  tested = no_ram;
  allocator = no_memory;
  program = λ entry m. m;
  out_entry = 0x9000;
  stack = replicate 128 7;
  fuel = 16;
}

-- The keys l, s and Enter.
abbrev typed : Keyboard
typed = record {
  key_buffer = 108 ∷ 115 ∷ 10 ∷ replicate 253 0;
  key_buf_head = 3;
  key_buf_tail = 0;
  extended_prefix = false;
  shift_held = false;
  capslock_on = false;
}

abbrev session : Session setup
session = record { machine = machine; vfs = tree; ram = 0; keyboard = typed; arrivals = [] }

session-Waits : Waits setup session (108 ∷ 115 ∷ 10 ∷ [])
unfolding window
session-Waits = record {
  valid = record { size = refl; head_in = omega arith; tail_in = omega arith };
  quiet = refl;
  queue = refl;
}

letter : (x : ℕ) → 32 < x → IsPlain x
letter x h = record {
  ne_nul = omega arith;
  ne_up = omega arith;
  ne_down = omega arith;
  ne_enter = omega arith;
  ne_erase = omega arith;
}

shell_rounds-typed_example :
    (y : Shell × Session setup) × (sh : Shell) × (s : Session setup) × (line : List ℕ)
    × (shell_rounds setup 9 2 (start, session) ≡ back y)
    × (shell_round setup 9 y
        ≡ follow setup (run_line setup 9 line s) (λ s1.
          follow setup
            (prompt setup s1)
            (λ s2. back (record sh { shell_buffer = (split_args line).0 }, s2))))
    × (c_string line ≡ codes "ls")
    × Waits setup s []
shell_rounds-typed_example =
    shell_rounds-typed setup 9 (codes "ls") [] session start nothing session-Waits
      (letter 108 (omega arith), (letter 115 (omega arith), tt)) start-Edits (omega arith)
