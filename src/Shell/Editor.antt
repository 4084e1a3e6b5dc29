-- ===== src/Shell/Editor.antt =====
-- The line editor is the abstract one.
use mathlib.Core.Option
use mathlib.Core.Path.{subst}
use alderkernel.Prelude.{
  ℕ, zero, suc, ◌+◌, ◌≡◌, ◌≢◌, refl, ap, ◌∙◌, sym, Option, none, some, List, ◌==◌, ltb, ltb→lt,
  if_related, ℤ, pos, negsuc, arith,
}
use alderkernel.Console.{Console}
use alderkernel.Util.Strings.{c_string}
use alderkernel.Shell.{Shell, redraw_line, save_line, arrow_up, arrow_down, shell_key, terminate}
use alderkernel.Shell.Abstract.{Editor, up, down, edit, browsing_of, Edits}
use alderkernel.Shell.Keys.{
  redrawn, browsed, saved_line, entered, entered_line, erased, typed, length_past,
}

module _ {s : Shell} {e : Editor} (w : Edits s e) where
  arrow_up-Edits :
      (z : ℤ) (c : Console)
      → s.history_browse_index ≡ z
      → Edits (arrow_up z s c).0 (up (browsing_of z) e)
  unfolding arrow_up save_line terminate
  arrow_up-Edits (negsuc n) c at = rw (length_past w) (
      if_related {A = Shell × Console} (λ r e'. Edits r.0 e') (ltb 0 s.history_count)
        (λ h. browsed (saved_line w) 0 c (ltb→lt 0 s.history_count h)) (λ _. saved_line w))
  arrow_up-Edits (pos back) c at = rw (length_past w) (
      if_related {A = Shell × Console} (λ r e'. Edits r.0 e') (ltb (back + 1) s.history_count)
        (λ h. browsed w (back + 1) c (ltb→lt (back + 1) s.history_count h)) (λ _. w))

  arrow_down-Edits :
      (z : ℤ) (c : Console)
      → s.history_browse_index ≡ z
      → Edits (arrow_down z s c).0 (down (browsing_of z) e)
  unfolding arrow_down
  arrow_down-Edits (negsuc n) c at = w
  arrow_down-Edits (pos zero) c at =
      subst
        (λ l.
          Edits (redraw_line s.saved_current (record s { history_browse_index = negsuc 0 }) c).0
            (record e { line = l; browsing = none }))
        w.saved (redrawn w s.saved_current c (negsuc 0) none w.saved_fits refl (λ back h. cc))
  arrow_down-Edits (pos (suc back)) c at =
      browsed w back c (omega (arith, w.at_in (suc back) (sym w.at ∙ ap browsing_of at)))

-- The shell's state and the line that it runs, against the abstract editor's.
abbrev Agree : Shell × Console × Option (List ℕ) → Editor × Option (List ℕ) → Type 0
Agree r o = Edits r.0 o.0 × (Option.map c_string r.2 ≡ o.1)

-- A key that is not 0, pressed in a state of the shell that stands for an abstract editor's, leaves
-- a state that stands for the abstract editor's after that key, and hands a line to the interpreter
-- exactly when the abstract editor runs that line: typing appends up to 127 characters, backspace
-- takes the last one off, the arrows go through the last sixteen lines that are not empty and back to
-- the line that was left, and return runs the line and remembers it.
pub Edits-shell_key :
    (x : ℕ) (c : Console) {s : Shell} {e : Editor}
    → x ≢ 0
    → Edits s e
    → Edits (shell_key x s c).0 (edit x e).0
      × (Option.map c_string (shell_key x s c).2 ≡ (edit x e).1)
unfolding shell_key
Edits-shell_key x c {s} {e} nz w =
    if_related Agree (x == 1)
      (λ _. (
        subst (λ b. Edits (arrow_up s.history_browse_index s c).0 (up b e)) w.at
            (arrow_up-Edits w s.history_browse_index c refl),
        refl,
      ))
      (λ _.
        if_related Agree (x == 2)
          (λ _. (
            subst (λ b. Edits (arrow_down s.history_browse_index s c).0 (down b e)) w.at
                (arrow_down-Edits w s.history_browse_index c refl),
            refl,
          ))
          (λ _.
            if_related Agree (x == b'\n') (λ _. (entered w, ap some (entered_line w)))
              (λ _.
                if_related Agree (x == 8) (λ _. (erased w c, refl)) (λ _. (typed w x c nz, refl)))))
