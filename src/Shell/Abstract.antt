-- ===== src/Shell/Abstract.antt =====
-- An abstract line editor, whose lines are lists of characters, and which of its states the shell
-- is in.
use alderkernel.Prelude.{
  ℕ, zero, suc, ◌+◌, ◌-◌, ◌<◌, ◌≡◌, Option, none, some, List, [], ◌∷◌, ◌++◌, ◌==◌, ltb,
  if◌then◌else◌, get_or, length, take, ℤ, pos, negsuc,
}
use alderkernel.Util.Strings.{c_string}
use alderkernel.Shell.{Shell}
use alderkernel.Shell.History.{IsRing, entries, remember}
use alderkernel.Shell.Buffer.{NoNul}

-- The abstract editor: the line, the lines that were run (the newest first), how far back the user
-- has gone, and the live line that was left for it.
pub record Editor : Type 0 where
  pub line : List ℕ
  pub past : List (List ℕ)
  pub browsing : Option ℕ
  pub stash : List ℕ

abbrev pub show_past : ℕ → Editor → Editor
show_past back e = record e { line = get_or e.past back []; browsing = some back }

abbrev pub up : Option ℕ → Editor → Editor
up none e =
    if ltb 0 (length e.past)
    then show_past 0 (record e { stash = e.line })
    else record e { stash = e.line }
up (some back) e = if ltb (back + 1) (length e.past) then show_past (back + 1) e else e

abbrev pub down : Option ℕ → Editor → Editor
down none e = e
down (some zero) e = record e { line = e.stash; browsing = none }
down (some (suc back)) e = show_past back e

-- The editor after a key, and the line that the key runs, if any.
abbrev pub edit : ℕ → Editor → Editor × Option (List ℕ)
edit x e =
    if x == 1
    then (up e.browsing e, none)
    else if x == 2
    then (down e.browsing e, none)
    else if x == b'\n'
    then (record e { line = []; past = remember e.line e.past; browsing = none }, some e.line)
    else if x == 8
    then (record e { line = take (length e.line - 1) e.line }, none)
    else ((if ltb (length e.line) 127 then record e { line = e.line ++ x ∷ [] } else e), none)

abbrev pub browsing_of : ℤ → Option ℕ
browsing_of (pos back) = some back
browsing_of (negsuc n) = none

-- The shell's state stands for the abstract editor's.
pub record Edits (s : Shell) (e : Editor) : Type 0 where
  pub ring : IsRing s
  pub size : length s.shell_buffer ≡ 128
  pub cursor : s.idx < 128
  pub text : take s.idx s.shell_buffer ≡ e.line
  pub clean : NoNul e.line
  pub stored : entries s ≡ e.past
  pub at : browsing_of s.history_browse_index ≡ e.browsing
  pub at_in : (back : ℕ) → e.browsing ≡ some back → back < s.history_count
  pub saved_size : length s.saved_current ≡ 128
  pub saved_fits : length (c_string s.saved_current) < 128
  pub saved : c_string s.saved_current ≡ e.stash
