-- ===== src/Tests/Lines.antt =====
-- The line editor and its history.
use mathlib.Core.Option
use alderkernel.Prelude.{
  ℕ, zero, suc, ◌<◌, ◌≡◌, refl, ap, none, List, [], get_or, length, replicate, codes, negsuc, arith,
}
use alderkernel.Util.Strings.{c_string}
use alderkernel.Console.{Console}
use alderkernel.Shell.{Shell, history_add, shell_key}
use alderkernel.Shell.History.{IsRing, tabulate, entries, remember, entries-history_add}
use alderkernel.Shell.Abstract.{Editor, edit, Edits}
use alderkernel.Shell.Editor.{Edits-shell_key}

abbrev screen : Console
screen = record { video = replicate 2000 0x0f20; cursor_index = 0; outs = [] }

-- The shell before the first key.
abbrev pub start : Shell
start = record {
  shell_buffer = replicate 128 0;
  history = replicate 16 (replicate 128 0);
  history_count = 0;
  history_next = 0;
  history_browse_index = negsuc 0;
  saved_current = replicate 128 0;
  idx = 0;
}

row_of : (n i : ℕ) (r : List ℕ) → i < n → get_or (replicate n r) i [] ≡ r
row_of zero i r h = absurd (omega arith)
row_of (suc n) zero r h = refl
row_of (suc n) (suc i) r h = row_of n i r (omega arith)

abbrev blank_row : List ℕ
blank_row = replicate 128 0

start-IsRing : IsRing start
start-IsRing = record {
  rows = refl;
  row_size = λ i h. ap (length {A = ℕ}) (row_of 16 i blank_row h);
  row_fits = λ i h. omega (arith, ap (λ r. length (c_string r)) (row_of 16 i blank_row h));
  count = omega arith;
  next_in = omega arith;
}

abbrev pub nothing : Editor
nothing = record { line = []; past = []; browsing = none; stash = [] }

pub start-Edits : Edits start nothing
unfolding tabulate
start-Edits = record {
  ring = start-IsRing;
  size = refl;
  cursor = omega arith;
  text = refl;
  clean = refl;
  stored = refl;
  at = refl;
  at_in = λ back h. cc;
  saved_size = refl;
  saved_fits = omega arith;
  saved = refl;
}

Edits-shell_key_example :
    Edits (shell_key b'l' start screen).0 (edit b'l' nothing).0
    × (Option.map c_string (shell_key b'l' start screen).2 ≡ (edit b'l' nothing).1)
Edits-shell_key_example = Edits-shell_key b'l' screen (omega arith) start-Edits

entries-history_add_example :
    entries (history_add (codes "ls") start) ≡ remember (c_string (codes "ls")) (entries start)
entries-history_add_example = entries-history_add (codes "ls") start-IsRing (omega arith)
