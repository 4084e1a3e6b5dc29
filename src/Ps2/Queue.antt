-- ===== src/Ps2/Queue.antt =====
-- The ring of key presses is a queue of at most 255 keys: the pushes and pops of it.
use native.Mathlib.Decide.{ℕ_discrete}
use alderkernel.Prelude.{
  ℕ, zero, suc, ◌+◌, ◌-◌, ◌%◌, ◌<◌, ◌≡◌, refl, ap, ap₂, ◌∙◌, ◌≢◌, List, [], ◌∷◌, ◌++◌, ◌==◌,
  if◌then◌else◌, if_both, get_or, set, length, length-set, get_or-set, arith,
}
use alderkernel.Ps2.{Keyboard, key_buffer_size, key_buffer_push, key_buffer_pop}

-- The `n` keys from index `t` on, round the end of the array.
unfoldable pub window : List ℕ → ℕ → ℕ → List ℕ
window buf t zero = []
window buf t (suc n) = get_or buf t 0 ∷ window buf ((t + 1) % 256) n

-- How many keys wait.
abbrev pub waiting : Keyboard → ℕ
waiting k = (k.key_buf_head + 256 - k.key_buf_tail) % 256

-- The keys that wait, the oldest first.
abbrev pub keys : Keyboard → List ℕ
keys k = window k.key_buffer k.key_buf_tail (waiting k)

pub record IsValid (k : Keyboard) : Type 0 where
  pub size : length k.key_buffer ≡ key_buffer_size
  pub head_in : k.key_buf_head < key_buffer_size
  pub tail_in : k.key_buf_tail < key_buffer_size

length-window : (buf : List ℕ) (t n : ℕ) → length (window buf t n) ≡ n
unfolding window
length-window buf t zero = refl
length-window buf t (suc n) = ap suc (length-window buf ((t + 1) % 256) n)

window_of_zero : (buf : List ℕ) (t n : ℕ) → n ≡ 0 → window buf t n ≡ []
unfolding window
window_of_zero buf t zero h = refl
window_of_zero buf t (suc n) h = absurd (omega arith)

window_of_ne_zero :
    (buf : List ℕ) (t n : ℕ)
    → n ≢ 0
    → window buf t n ≡ get_or buf t 0 ∷ window buf ((t + 1) % 256) (n - 1)
unfolding window
window_of_ne_zero buf t zero h = absurd (h refl)
window_of_ne_zero buf t (suc n) h =
    ap (λ m. get_or buf t 0 ∷ window buf ((t + 1) % 256) m) (omega arith)

-- Writing just past a window that does not fill the ring adds the key at its end.
window-set :
    (buf : List ℕ) (c t n i : ℕ)
    → length buf ≡ 256
    → t < 256
    → n < 256
    → i ≡ (t + n) % 256
    → window (set buf i c) t (suc n) ≡ window buf t n ++ c ∷ []
unfolding window
window-set buf c t zero i s ht hn e =
    ap (λ x. x ∷ []) (ground (arith, get_or-set buf i t c 0 (omega arith)))
window-set buf c t (suc n) i s ht hn e =
    ap₂ ◌∷◌ (ground (arith, get_or-set buf i t c 0 (omega arith)))
      (window-set buf c ((t + 1) % 256) n i s (omega arith) (omega arith) (omega arith))

-- A push to the abstract queue: a key that finds 255 waiting is dropped.
abbrev pub enqueue : ℕ → List ℕ → List ℕ
enqueue c q = if length q == 255 then q else q ++ c ∷ []

pub key_buffer_push-IsValid : (c : ℕ) {k : Keyboard} → IsValid k → IsValid (key_buffer_push c k)
unfolding key_buffer_push
key_buffer_push-IsValid c {k} v =
    if_both IsValid _ (λ _. v)
      (λ _. record {
        size = length-set k.key_buffer k.key_buf_head c ∙ v.size;
        head_in = omega arith;
        tail_in = v.tail_in;
      })

pub key_buffer_pop-IsValid : {k : Keyboard} → IsValid k → IsValid (key_buffer_pop k).1
unfolding key_buffer_pop
key_buffer_pop-IsValid {k} v =
    if_both (λ (r : ℕ × Keyboard). IsValid r.1) (k.key_buf_tail == k.key_buf_head) (λ _. v)
      (λ _. record { size = v.size; head_in = v.head_in; tail_in = omega arith })

window-next :
    {k : Keyboard} (c : ℕ)
    → IsValid k
    → (k.key_buf_head + 1) % 256 ≢ k.key_buf_tail
    → window
        (set k.key_buffer k.key_buf_head c)
        k.key_buf_tail
        (((k.key_buf_head + 1) % 256 + 256 - k.key_buf_tail) % 256)
      ≡ keys k ++ c ∷ []
window-next {k} c v ne =
    let n : ℕ = waiting k in
    let room : n < 255 = omega (arith, v.head_in, v.tail_in) in
    let one_more : ((k.key_buf_head + 1) % 256 + 256 - k.key_buf_tail) % 256 ≡ suc n =
      omega (arith, v.head_in, v.tail_in) in
    ap (window (set k.key_buffer k.key_buf_head c) k.key_buf_tail) one_more
    ∙ window-set k.key_buffer c k.key_buf_tail n k.key_buf_head v.size v.tail_in (omega arith)
        (omega (arith, v.head_in, v.tail_in))

-- In a valid ring a push adds the key behind those that wait, or drops it when 255 wait: no key
-- that was not yet read is overwritten.
pub keys-key_buffer_push :
    (c : ℕ) {k : Keyboard} → IsValid k → keys (key_buffer_push c k) ≡ enqueue c (keys k)
unfolding key_buffer_push
keys-key_buffer_push c {k} v =
    let count : length (keys k) ≡ waiting k =
      length-window k.key_buffer k.key_buf_tail (waiting k) in
    elim (ℕ_discrete ((k.key_buf_head + 1) % 256) k.key_buf_tail) [
      | yes full ↦ ground (arith, count, v.head_in, v.tail_in)
      | no ne ↦ ground (arith, count, v.head_in, v.tail_in, window-next c v ne)
    ]

-- What a pop gives of an abstract queue: 0 where no key waits.
abbrev pub dequeue : List ℕ → ℕ × List ℕ
dequeue [] = (0, [])
dequeue (c ∷ q) = (c, q)

-- In a valid ring a pop returns the oldest key and leaves the others in order; where no key waits
-- it returns 0 and leaves the ring empty.
pub keys-key_buffer_pop :
    {k : Keyboard}
    → IsValid k
    → ((key_buffer_pop k).0, keys (key_buffer_pop k).1) ≡ dequeue (keys k)
unfolding key_buffer_pop
keys-key_buffer_pop {k} v = elim (ℕ_discrete k.key_buf_tail k.key_buf_head) [
  | yes empty ↦ ground (arith, window_of_zero k.key_buffer k.key_buf_tail (waiting k))
  | no ne ↦
      ground
        (arith, window_of_ne_zero k.key_buffer k.key_buf_tail (waiting k), v.head_in, v.tail_in)
]
