-- ===== src/Shell/Keys.antt =====
-- What each kind of key does to the abstract editor that the shell stands for.
use mathlib.Core.Path.{subst}
use alderkernel.Prelude.{
  ℕ, suc, ◌+◌, ◌-◌, ◌%◌, add32, sub32, ◌<◌, ◌≡◌, ◌≢◌, refl, ap, ap₂, ◌∙◌, sym, Option, none, some,
  List, [], ◌∷◌, ◌++◌, ◌==◌, ltb, ltb→lt, if◌then◌else◌, if_both, if_related, get_or, set, length,
  length-set, take, ℤ, pos, arith,
}
use alderkernel.Console.{Console}
use alderkernel.Util.{str_copy}
use alderkernel.Util.Strings.{c_string, c_string-str_copy, length-str_copy}
use alderkernel.Shell.{
  Shell, erase_chars, redraw_line, draw_entry, browse, save_line, enter, backspace, type_char,
  terminate, history_add,
}
use alderkernel.Shell.History.{
  IsRing, row_index, line_at, remember, entries-history_add, history_add-IsRing, length-tabulate,
  history_get-some, get_or-tabulate,
}
use alderkernel.Shell.Buffer.{
  take-set, take-set_last, take-take, length-take, take_all, NoNul-c_string, NoNul-snoc, NoNul-take,
  c_string-set, write_chars_lem,
}
use alderkernel.Shell.Abstract.{Editor, show_past, browsing_of, Edits}

-- The history is not touched by the line's own fields.
same-IsRing :
    (buffer saved : List ℕ) (index : ℤ) (i : ℕ) {s : Shell}
    → IsRing s
    → IsRing (record s {
      shell_buffer = buffer;
      saved_current = saved;
      history_browse_index = index;
      idx = i;
    })
same-IsRing buffer saved index i r = record {
  rows = r.rows;
  row_size = r.row_size;
  row_fits = r.row_fits;
  count = r.count;
  next_in = r.next_in;
}

history_add_rest :
    (cmd : List ℕ) (s : Shell)
    → ((history_add cmd s).shell_buffer ≡ s.shell_buffer)
      × ((history_add cmd s).saved_current ≡ s.saved_current)
unfolding history_add
history_add_rest cmd s = (
  if_both (λ (t : Shell). t.shell_buffer ≡ s.shell_buffer) (get_or cmd 0 0 == 0) (λ _. refl)
      (λ _. refl),
  if_both (λ (t : Shell). t.saved_current ≡ s.saved_current) (get_or cmd 0 0 == 0) (λ _. refl)
      (λ _. refl),
)

module _ {s : Shell} {e : Editor} (w : Edits s e) where
  length_line : length e.line ≡ s.idx
  length_line =
      ap (length {A = ℕ}) (sym w.text)
      ∙ length-take s.idx s.shell_buffer (omega (arith, w.size, w.cursor))

  pub length_past : length e.past ≡ s.history_count
  length_past =
      ap (length {A = List ℕ}) (sym w.stored) ∙ length-tabulate s.history_count (line_at s)

  terminated : c_string (set s.shell_buffer s.idx 0) ≡ e.line
  terminated =
      c_string-set s.idx s.shell_buffer (omega (arith, w.size, w.cursor))
        (ap c_string w.text ∙ w.clean ∙ sym w.text)
      ∙ w.text

  past_at : (back : ℕ) → back < s.history_count → get_or e.past back [] ≡ line_at s back
  past_at back h =
      ap (λ l. get_or l back []) (sym w.stored)
      ∙ get_or-tabulate s.history_count back (line_at s) [] h

  -- A string that fits in the buffer becomes the line.
  pub redrawn :
      (content : List ℕ) (c : Console) (index : ℤ) (b : Option ℕ)
      → length (c_string content) < 128
      → browsing_of index ≡ b
      → ((back : ℕ) → b ≡ some back → back < s.history_count)
      → Edits
          (redraw_line content (record s { history_browse_index = index }) c).0
          (record e { line = c_string content; browsing = b })
  unfolding redraw_line
  redrawn content c index b fits at bound =
      let written =
        write_chars_lem 127 0 content s.shell_buffer (erase_chars s.idx c)
          (omega (arith, w.size)) in
      record {
        ring = same-IsRing _ _ _ _ w.ring;
        size = written.0 ∙ w.size;
        cursor = omega (arith, written.2);
        text = written.1 ∙ take_all 127 (c_string content) (omega arith);
        clean = NoNul-c_string content;
        stored = w.stored;
        at = at;
        at_in = bound;
        saved_size = w.saved_size;
        saved_fits = w.saved_fits;
        saved = w.saved;
      }

  pub browsed :
      (back : ℕ) (c : Console)
      → back < s.history_count
      → Edits (browse back s c).0 (show_past back e)
  unfolding browse draw_entry
  browsed back c h =
      let i : ℕ = sub32 (sub32 (add32 s.history_next 16) 1) back % 16 in
      let bound : back < 16 = omega (arith, w.ring.count) in
      let index : i ≡ (s.history_next + 15 - back) % 16 =
        row_index s.history_next back w.ring.next_in bound in
      let same : c_string (get_or s.history i []) ≡ get_or e.past back [] =
        ap (λ j. c_string (get_or s.history j [])) index ∙ sym (past_at back h) in
      subst (λ l. Edits (browse back s c).0 (record e { line = l; browsing = some back })) same
        (subst
          (λ o.
            Edits (draw_entry o (record s { history_browse_index = pos back }) c).0
              (record e { line = c_string (get_or s.history i []); browsing = some back }))
          (sym (history_get-some back s h))
          (redrawn (get_or s.history i []) c (pos back) (some back)
            (w.ring.row_fits i (omega arith)) refl (λ k p. ground arith)))

  pub saved_line : Edits (save_line s) (record e { stash = e.line })
  unfolding save_line terminate
  saved_line =
      let buffer : List ℕ = set s.shell_buffer s.idx 0 in
      let fits : length (c_string buffer) < 128 =
        omega (arith, ap (length {A = ℕ}) terminated, length_line, w.cursor) in
      let copied : c_string (str_copy s.saved_current buffer) ≡ c_string buffer =
        c_string-str_copy s.saved_current buffer (omega (arith, w.saved_size)) in
      record {
        ring = same-IsRing _ _ _ _ w.ring;
        size = length-set s.shell_buffer s.idx 0 ∙ w.size;
        cursor = w.cursor;
        text = take-set s.idx s.shell_buffer 0 ∙ w.text;
        clean = w.clean;
        stored = w.stored;
        at = w.at;
        at_in = w.at_in;
        saved_size = length-str_copy s.saved_current buffer ∙ w.saved_size;
        saved_fits = omega (arith, ap (length {A = ℕ}) copied);
        saved = copied ∙ terminated;
      }

  pub entered :
      Edits (enter s) (record e { line = []; past = remember e.line e.past; browsing = none })
  unfolding enter terminate
  entered =
      let buffer : List ℕ = set s.shell_buffer s.idx 0 in
      let s1 : Shell = record s { shell_buffer = buffer } in
      let ring : IsRing s1 = same-IsRing buffer _ _ _ w.ring in
      let fits : length (c_string buffer) < 128 =
        omega (arith, ap (length {A = ℕ}) terminated, length_line, w.cursor) in
      let same = history_add_rest buffer s1 in
      record {
        ring = same-IsRing _ _ _ _ (history_add-IsRing buffer ring fits);
        size = ap (length {A = ℕ}) same.0 ∙ length-set s.shell_buffer s.idx 0 ∙ w.size;
        cursor = omega arith;
        text = refl;
        clean = refl;
        stored = entries-history_add buffer ring fits ∙ ap₂ remember terminated w.stored;
        at = refl;
        at_in = λ back h. cc;
        saved_size = ap (length {A = ℕ}) same.1 ∙ w.saved_size;
        saved_fits = omega (arith, w.saved_fits, ap (λ l. length (c_string l)) same.1);
        saved = ap c_string same.1 ∙ w.saved;
      }

  pub entered_line : c_string (enter s).shell_buffer ≡ e.line
  unfolding enter terminate
  entered_line =
      let buffer : List ℕ = set s.shell_buffer s.idx 0 in
      ap c_string (history_add_rest buffer (record s { shell_buffer = buffer })).0 ∙ terminated

  pub erased :
      (c : Console) → Edits (backspace s c).0 (record e { line = take (length e.line - 1) e.line })
  unfolding backspace
  erased c =
      if_both {A = Shell × Console}
        (λ r. Edits r.0 (record e { line = take (length e.line - 1) e.line })) (ltb 0 s.idx)
        (λ h. record {
          ring = same-IsRing _ _ _ _ w.ring;
          size = w.size;
          cursor = omega (arith, w.cursor);
          text =
              ap (λ n. take (n - 1) s.shell_buffer) (sym length_line)
              ∙ sym
                  (take-take (length e.line - 1) s.idx s.shell_buffer (omega (arith, length_line)))
              ∙ ap (take (length e.line - 1)) w.text;
          clean = NoNul-take (length e.line - 1) e.line w.clean;
          stored = w.stored;
          at = w.at;
          at_in = w.at_in;
          saved_size = w.saved_size;
          saved_fits = w.saved_fits;
          saved = w.saved;
        })
        (λ h.
          subst (λ l. Edits s (record e { line = l }))
            (sym (take_all (length e.line - 1) e.line (ground (arith, length_line)))) w)

  pub typed :
      (x : ℕ) (c : Console)
      → x ≢ 0
      → Edits
          (type_char x s c).0
          (if ltb (length e.line) 127 then record e { line = e.line ++ x ∷ [] } else e)
  unfolding type_char
  typed x c nz = rw length_line (
      if_related {A = Shell × Console} (λ r e'. Edits r.0 e') (ltb s.idx 127)
        (λ h. record {
          ring = same-IsRing _ _ _ _ w.ring;
          size = length-set s.shell_buffer s.idx x ∙ w.size;
          cursor = omega (arith, ltb→lt s.idx 127 h);
          text =
              ap (λ n. take n (set s.shell_buffer s.idx x)) {y = suc s.idx} (omega arith)
              ∙ take-set_last s.idx s.shell_buffer x (omega (arith, w.size, w.cursor))
              ∙ ap (λ l. l ++ x ∷ []) w.text;
          clean = NoNul-snoc e.line x w.clean nz;
          stored = w.stored;
          at = w.at;
          at_in = w.at_in;
          saved_size = w.saved_size;
          saved_fits = w.saved_fits;
          saved = w.saved;
        })
        (λ _. w))
