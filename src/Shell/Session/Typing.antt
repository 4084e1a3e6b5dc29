-- ===== src/Shell/Session/Typing.antt =====
-- A line that is typed: the rounds of the main loop that take its keys out of the ring.
use mathlib.Core.Option
use mathlib.Core.Option.{none-ne-some, some-injective}
use alderkernel.Prelude.{
  ℕ, ◌+◌, ◌<◌, ◌≡◌, ◌≢◌, refl, ap, ◌∙◌, sym, Option, none, some, List, [], ◌∷◌, ◌++◌, ◌==◌,
  if◌then◌else◌, if_ne, length, length-append, arith,
}
use mathlib.Core.List.{append_assoc, append-nil}
use mathlib.Core.Path.{subst}
use alderkernel.Util.Strings.{c_string}
use alderkernel.Ps2.{key_buffer_pop}
use alderkernel.Ps2.Queue.{IsValid, keys, dequeue, key_buffer_pop-IsValid, keys-key_buffer_pop}
use alderkernel.Shell.{Shell, shell_key}
use alderkernel.Shell.Abstract.{Editor, edit, Edits}
use alderkernel.Shell.Editor.{Edits-shell_key}
use alderkernel.Interpreter.{split_args}
use alderkernel.Shell.Session.{
  Setup, Session, Ended, back, follow, poll, run_line, prompt, end_round, shell_round, shell_rounds,
  show_on,
}

-- The keys that wait in the ring, with no more on their way.
pub record Waits (u : Setup) (s : Session u) (q : List ℕ) : Type 0 where
  pub valid : IsValid s.keyboard
  pub quiet : s.arrivals ≡ []
  pub queue : keys s.keyboard ≡ q

-- A key that stands for itself: none of NUL, the arrows, Enter and Backspace.
pub record IsPlain (x : ℕ) : Type 0 where
  pub ne_nul : x ≢ 0
  pub ne_up : x ≢ 1
  pub ne_down : x ≢ 2
  pub ne_enter : x ≢ 10
  pub ne_erase : x ≢ 8

abbrev pub AllPlain : List ℕ → Type 0
AllPlain [] = Unit {0}
AllPlain (x ∷ w) = IsPlain x × AllPlain w

map_none : (o : Option (List ℕ)) → Option.map c_string o ≡ none → o ≡ none
map_none none e = refl
map_none (some l) e = absurd (none-ne-some _ (sym e))

map_some :
    (o : Option (List ℕ)) (l : List ℕ)
    → Option.map c_string o ≡ some l
    → (line : List ℕ) × (o ≡ some line) × (c_string line ≡ l)
map_some none l e = absurd (none-ne-some _ e)
map_some (some line) l e = (line, refl, some-injective _ _ e)

module _ {u : Setup} {s : Session u} {x : ℕ} {q : List ℕ} (w : Waits u s (x ∷ q)) where
  popped : Session u
  popped = record s { keyboard = (key_buffer_pop s.keyboard).1; arrivals = [] }

  polled : poll u s ≡ (x, popped)
  unfolding poll popped
  polled =
      let k = (key_buffer_pop s.keyboard).1 in
      rw (w.quiet, poll)
        (ap (λ (c : ℕ). (c, record s { keyboard = k }))
            (ap (λ r. r.0) (keys-key_buffer_pop w.valid ∙ ap dequeue w.queue))
          ∙ ap (λ (l : List (List ℕ)). (x, record s { keyboard = k; arrivals = l })) w.quiet)

  popped-Waits : Waits u popped q
  unfolding popped
  popped-Waits = record {
    valid = key_buffer_pop-IsValid w.valid;
    quiet = refl;
    queue = ap (λ r. r.1) (keys-key_buffer_pop w.valid ∙ ap dequeue w.queue);
  }

  round_key :
      (fuel : ℕ) (sh : Shell)
      → x ≢ 0
      → shell_round u fuel (sh, s)
        ≡ end_round u fuel
            (shell_key x sh s.machine.console).2
            (shell_key x sh s.machine.console).0
            (show_on u (λ _. (shell_key x sh s.machine.console).1) popped)
  unfolding shell_round popped
  round_key fuel sh nz =
      let taken : ℕ × Session u → Ended u (Shell × Session u) = λ r.
        let (sh1, console, line) = shell_key r.0 sh r.1.machine.console in
        if r.0 == 0
        then back (sh, r.1)
        else end_round u fuel line sh1 (show_on u (λ _. console) r.1) in
      ap taken polled ∙ if_ne x 0 _ _ nz

-- What the abstract editor does with a plain key, on a line that has room for it.
edit-plain :
    (x : ℕ) (e : Editor)
    → IsPlain x
    → length e.line < 127
    → edit x e ≡ (record e { line = e.line ++ x ∷ [] }, none)
edit-plain x e p lt = ground (arith, p)

round_plain :
    {u : Setup} {s : Session u} {x : ℕ} {q : List ℕ} {sh : Shell} {e : Editor} (fuel : ℕ)
    → Waits u s (x ∷ q)
    → Edits sh e
    → IsPlain x
    → length e.line < 127
    → (sh' : Shell) × (s' : Session u) × (shell_round u fuel (sh, s) ≡ back (sh', s'))
      × Edits sh' (record e { line = e.line ++ x ∷ [] })
      × Waits u s' q
unfolding end_round popped
round_plain {u} {s} {x} {q} {sh} {e} fuel w d p lt =
    let c = s.machine.console in
    let (d1, line) = Edits-shell_key x c p.ne_nul d in
    let plain = edit-plain x e p lt in
    let r = shell_key x sh c in
    let none_of : r.2 ≡ none = map_none r.2 (line ∙ ap (λ t. t.1) plain) in
    (
      r.0,
      show_on u (λ _. r.1) (popped w),
      round_key w fuel sh p.ne_nul
          ∙ ap (λ o. end_round u fuel o r.0 (show_on u (λ _. r.1) (popped w))) none_of,
      subst (Edits r.0) (ap (λ t. t.0) plain) d1,
      record {
        valid = (popped-Waits w).valid;
        quiet = (popped-Waits w).quiet;
        queue = (popped-Waits w).queue;
      },
    )

round_enter :
    {u : Setup} {s : Session u} {q : List ℕ} {sh : Shell} {e : Editor} (fuel : ℕ)
    → Waits u s (10 ∷ q)
    → Edits sh e
    → (sh' : Shell) × (s' : Session u) × (line : List ℕ) × (shell_round u fuel (sh, s)
        ≡ end_round u fuel (some line) sh' s')
      × (c_string line ≡ e.line)
      × Waits u s' q
unfolding popped
round_enter {u} {s} {q} {sh} {e} fuel w d =
    let c = s.machine.console in
    let (d1, ran) = Edits-shell_key 10 c (omega arith) d in
    let r = shell_key 10 sh c in
    let (line, is, text) = map_some r.2 e.line ran in
    (
      r.0,
      show_on u (λ _. r.1) (popped w),
      line,
      round_key w fuel sh (omega arith)
          ∙ ap (λ o. end_round u fuel o r.0 (show_on u (λ _. r.1) (popped w))) is,
      text,
      record {
        valid = (popped-Waits w).valid;
        quiet = (popped-Waits w).quiet;
        queue = (popped-Waits w).queue;
      },
    )

-- Where the keys of a line and Enter wait in the ring with no scan code on its way, each of them plain
-- and the line with room for them, as many rounds of the main loop as the line has keys bring the shell
-- to a round that hands the interpreter a buffer with the line as it was and these keys behind it,
-- prints the prompt where the command returns, and keeps the buffer as the interpreter cut it. The keys
-- behind Enter are left in the ring.
pub shell_rounds-typed :
    (u : Setup) (fuel : ℕ) (w q : List ℕ) (s : Session u) (sh : Shell) (e : Editor)
    → Waits u s (w ++ 10 ∷ q)
    → AllPlain w
    → Edits sh e
    → length e.line + length w < 128
    → (y : Shell × Session u) × (sh' : Shell) × (s' : Session u) × (line : List ℕ) × (shell_rounds u
          fuel
          (length w)
          (sh, s)
        ≡ back y)
      × (shell_round u fuel y
          ≡ follow u (run_line u fuel line s') (λ s1.
            follow u
              (prompt u s1)
              (λ s2. back (record sh' { shell_buffer = (split_args line).0 }, s2))))
      × (c_string line ≡ e.line ++ w)
      × Waits u s' q
unfolding shell_rounds end_round
shell_rounds-typed u fuel [] q s sh e wait p d lt =
    let (sh', s', line, run, text, left) = round_enter fuel wait d in
    ((sh, s), sh', s', line, refl, run, text ∙ sym (append-nil e.line), left)
shell_rounds-typed u fuel (x ∷ w) q s sh e wait p d lt =
    let (sh1, s1, run1, d1, wait1) = round_plain fuel wait d p.0 (omega arith) in
    let e1 : Editor = record e { line = e.line ++ x ∷ [] } in
    let (y, sh', s', line, runs, run, text, left) =
      shell_rounds-typed u fuel w q s1 sh1 e1 wait1 p.1 d1
        (omega (arith, lt, length-append e.line (x ∷ []))) in
    (
      y,
      sh',
      s',
      line,
      ap (λ z. follow u z (λ v. shell_rounds u fuel (length w) v)) run1 ∙ runs,
      run,
      text ∙ append_assoc e.line (x ∷ []) w,
      left,
    )
