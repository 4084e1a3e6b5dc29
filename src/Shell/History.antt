-- ===== src/Shell/History.antt =====
-- The ring of command lines is the list of the last sixteen, the newest first.
use mathlib.Core.Option
use mathlib.Core.Path.{subst}
use alderkernel.Prelude.{
  ℕ, zero, suc, ◌+◌, ◌-◌, ◌%◌, add32, sub32, ltb, ◌≤◌, ◌<◌, ◌≡◌, ◌≢◌, refl, ap, ap₂, ◌∙◌, sym, none,
  some, List, [], ◌∷◌, ◌==◌, leb, if◌then◌else◌, if_eq, if_ne, if_both, get_or, get_elem?, set,
  length, length-set, get_or-set, take, arith,
}
use native.Mathlib.Decide.{ℕ_discrete, dec_lt}
use alderkernel.Util.{str_copy}
use alderkernel.Util.Strings.{c_string, c_string-str_copy, length-str_copy}
use alderkernel.Shell.{Shell, history_add, history_get}

-- The values of `f` at the first `n` numbers.
unfoldable pub tabulate {ℓ} : {A : Type ℓ} → ℕ → (ℕ → A) → List A
tabulate zero f = []
tabulate (suc n) f = f 0 ∷ tabulate n (λ i. f (suc i))

-- The line that was stored `back` lines ago.
abbrev pub line_at : Shell → ℕ → List ℕ
line_at s back = c_string (get_or s.history ((s.history_next + 15 - back) % 16) [])

-- The stored lines, the newest first.
abbrev pub entries : Shell → List (List ℕ)
entries s = tabulate s.history_count (line_at s)

pub record IsRing (s : Shell) : Type 0 where
  pub rows : length s.history ≡ 16
  pub row_size : (i : ℕ) → i < 16 → length (get_or s.history i []) ≡ 128
  pub row_fits : (i : ℕ) → i < 16 → length (c_string (get_or s.history i [])) < 128
  pub count : s.history_count ≤ 16
  pub next_in : s.history_next < 16

-- What is kept of the lines after one more: an empty line is not stored, and sixteen are kept.
abbrev pub remember : List ℕ → List (List ℕ) → List (List ℕ)
remember [] past = past
remember (x ∷ l) past = take 16 ((x ∷ l) ∷ past)

module _ {ℓ} {A : Type ℓ} where
  pub length-tabulate : (n : ℕ) (f : ℕ → A) → length (tabulate n f) ≡ n
  unfolding tabulate
  length-tabulate zero f = refl
  length-tabulate (suc n) f = ap suc (length-tabulate n (λ i. f (suc i)))

  tabulate-congr :
      (n : ℕ) (f g : ℕ → A) → ((i : ℕ) → i < n → f i ≡ g i) → tabulate n f ≡ tabulate n g
  unfolding tabulate
  tabulate-congr zero f g h = refl
  tabulate-congr (suc n) f g h =
      ap₂ ◌∷◌ (h 0 (omega arith))
        (tabulate-congr n (λ i. f (suc i)) (λ i. g (suc i)) (λ i lt. h (suc i) (omega arith)))

  take-tabulate_all : (k n : ℕ) (f : ℕ → A) → n ≤ k → take k (tabulate n f) ≡ tabulate n f
  unfolding tabulate
  take-tabulate_all zero zero f h = refl
  take-tabulate_all zero (suc n) f h = absurd (omega arith)
  take-tabulate_all (suc k) zero f h = refl
  take-tabulate_all (suc k) (suc n) f h =
      ap (λ xs. f 0 ∷ xs) (take-tabulate_all k n (λ i. f (suc i)) (omega arith))

  take-tabulate : (k n : ℕ) (f : ℕ → A) → k ≤ n → take k (tabulate n f) ≡ tabulate k f
  unfolding tabulate
  take-tabulate zero n f h = refl
  take-tabulate (suc k) zero f h = absurd (omega arith)
  take-tabulate (suc k) (suc n) f h =
      ap (λ xs. f 0 ∷ xs) (take-tabulate k n (λ i. f (suc i)) (omega arith))

  pub get_or-tabulate : (n i : ℕ) (f : ℕ → A) (d : A) → i < n → get_or (tabulate n f) i d ≡ f i
  unfolding tabulate
  get_or-tabulate zero i f d h = absurd (omega arith)
  get_or-tabulate (suc n) zero f d h = refl
  get_or-tabulate (suc n) (suc i) f d h = get_or-tabulate n i (λ j. f (suc j)) d (omega arith)

  pub get_elem?-tabulate :
      (n i : ℕ) (f : ℕ → A) → get_elem? (tabulate n f) i ≡ (if leb n i then none else some (f i))
  unfolding tabulate
  get_elem?-tabulate zero i f = ground arith
  get_elem?-tabulate (suc n) zero f = ground arith
  get_elem?-tabulate (suc n) (suc i) f = ground (arith, get_elem?-tabulate n i (λ j. f (suc j)))

-- The row that `history_get` names is the one of `line_at`.
pub row_index :
    (next back : ℕ)
    → next < 16
    → back < 16
    → sub32 (sub32 (add32 next 16) 1) back % 16 ≡ (next + 15 - back) % 16
row_index next back hn hb = omega arith

pub history_get-some :
    (back : ℕ) (s : Shell)
    → back < s.history_count
    → history_get back s
      ≡ some (get_or s.history (sub32 (sub32 (add32 s.history_next 16) 1) back % 16) [])
unfolding history_get
history_get-some back s h = ground arith

-- `history_get` gives the line that was stored so many lines ago, or the null pointer.
pub history_get_lem :
    (back : ℕ) {s : Shell}
    → IsRing s
    → Option.map c_string (history_get back s) ≡ get_elem? (entries s) back
unfolding history_get
history_get_lem back {s} r = elim (dec_lt back s.history_count) [
  | yes h ↦
      let i : back < 16 = omega (arith, r.count) in
      ground (
        arith,
        get_elem?-tabulate s.history_count back (line_at s),
        row_index s.history_next back r.next_in i,
      )
  | no h ↦ ground (arith, get_elem?-tabulate s.history_count back (line_at s))
]

module _ (cmd : List ℕ) {s : Shell} (r : IsRing s) (fits : length (c_string cmd) < 128) where
  abbrev row : List ℕ
  row = str_copy (get_or s.history s.history_next []) cmd

  row_lem : c_string row ≡ c_string cmd
  row_lem =
      c_string-str_copy (get_or s.history s.history_next []) cmd
        (omega (arith, r.row_size s.history_next r.next_in))

  -- The state after a line that is not empty.
  abbrev added : Shell
  added = record s {
    history = set s.history s.history_next row;
    history_next = add32 s.history_next 1 % 16;
    history_count = if ltb s.history_count 16 then s.history_count + 1 else s.history_count;
  }

  row_at :
      (j : ℕ)
      → get_or (set s.history s.history_next row) j []
        ≡ (if s.history_next == j then row else get_or s.history j [])
  row_at j = get_or-set s.history s.history_next j row [] (omega (arith, r.rows, r.next_in))

  newest : line_at added 0 ≡ c_string cmd
  newest =
      let e : s.history_next ≡ (add32 s.history_next 1 % 16 + 15 - 0) % 16 =
        omega (arith, r.next_in) in
      ap c_string (row_at _ ∙ if_eq _ _ row (get_or s.history _ []) e) ∙ row_lem

  older : (i : ℕ) → i < 15 → line_at added (suc i) ≡ line_at s i
  older i h =
      let e : (add32 s.history_next 1 % 16 + 15 - suc i) % 16 ≡ (s.history_next + 15 - i) % 16 =
        omega (arith, r.next_in) in
      let other : s.history_next ≢ (add32 s.history_next 1 % 16 + 15 - suc i) % 16 =
        omega (arith, r.next_in) in
      ap c_string (row_at _ ∙ if_ne _ _ row (get_or s.history _ []) other)
      ∙ ap (λ j. c_string (get_or s.history j [])) e

  first_and :
      (m : ℕ) → m ≤ 15 → tabulate (suc m) (line_at added) ≡ c_string cmd ∷ tabulate m (line_at s)
  unfolding tabulate
  first_and m h = ap₂ ◌∷◌ newest (tabulate-congr m _ _ (λ i lt. older i (omega arith)))

  entries-added : entries added ≡ take 16 (c_string cmd ∷ entries s)
  entries-added = elim (dec_lt s.history_count 16) [
    | yes h ↦
        let e : added.history_count ≡ suc s.history_count = ground arith in
        ap (λ n. tabulate n (line_at added)) e
        ∙ first_and s.history_count (omega arith)
        ∙ ap (λ xs. c_string cmd ∷ xs)
            (sym (take-tabulate_all 15 s.history_count (line_at s) (omega arith)))
    | no h ↦
        let e : added.history_count ≡ suc 15 = ground (arith, r.count) in
        ap (λ n. tabulate n (line_at added)) e
        ∙ first_and 15 (omega arith)
        ∙ ap (λ xs. c_string cmd ∷ xs)
            (sym (take-tabulate 15 s.history_count (line_at s) (omega arith)))
  ]

  added-IsRing : IsRing added
  added-IsRing = record {
    rows = length-set s.history s.history_next row ∙ r.rows;
    row_size = λ i h.
        ap length (row_at i)
        ∙ if_both (λ (x : List ℕ). length x ≡ 128) (s.history_next == i)
            (λ _. length-str_copy (get_or s.history s.history_next []) cmd ∙ r.row_size _ r.next_in)
            (λ _. r.row_size i h);
    row_fits = λ i h.
        subst (λ (x : List ℕ). length (c_string x) < 128) (sym (row_at i))
          (if_both (λ (x : List ℕ). length (c_string x) < 128) (s.history_next == i)
            (λ _. omega (arith, ap (length {A = ℕ}) row_lem)) (λ _. r.row_fits i h));
    count = ground (arith, r.count);
    next_in = omega arith;
  }

-- A line that fits in the buffer is remembered: an empty one is not stored, and the sixteen newest
-- are kept.
pub entries-history_add :
    (cmd : List ℕ) {s : Shell}
    → IsRing s
    → length (c_string cmd) < 128
    → entries (history_add cmd s) ≡ remember (c_string cmd) (entries s)
unfolding history_add
entries-history_add [] r h = refl
entries-history_add (x ∷ cmd) {s} r h = elim (ℕ_discrete x 0) [
  | yes e ↦
      ap entries (if_eq x 0 s (added (x ∷ cmd) r h) e)
      ∙ sym (ap (λ l. remember l (entries s)) (if_eq x 0 [] (x ∷ c_string cmd) e))
  | no ne ↦
      let whole : c_string (x ∷ cmd) ≡ x ∷ c_string cmd = if_ne x 0 [] (x ∷ c_string cmd) ne in
      ap entries (if_ne x 0 s (added (x ∷ cmd) r h) ne)
      ∙ entries-added (x ∷ cmd) r h
      ∙ ap (λ l. take 16 (l ∷ entries s)) whole
      ∙ sym (ap (λ l. remember l (entries s)) whole)
]

pub history_add-IsRing :
    (cmd : List ℕ) {s : Shell} → IsRing s → length (c_string cmd) < 128 → IsRing (history_add cmd s)
unfolding history_add
history_add-IsRing cmd {s} r h =
    if_both IsRing (get_or cmd 0 0 == 0) (λ _. r) (λ _. added-IsRing cmd r h)
