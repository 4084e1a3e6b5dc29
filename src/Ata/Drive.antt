-- ===== src/Ata/Drive.antt =====
-- A drive behind the ports of kernel/drivers/ata.c, as the ATA standard describes the transfer of
-- sectors, and the words and bytes that it exchanges with the driver.
use mathlib.Core.List.{append_assoc}
use alderkernel.Prelude.{
  ℕ, zero, suc, ◌+◌, ◌*◌, ◌/◌, ◌%◌, ◌^◌, ◌<◌, ◌≡◌, refl, ap, ap₂, sym, ◌∙◌, ◌≢◌, true, false, ◌&&◌,
  List, [], ◌∷◌, ◌++◌, ◌==◌, if_both, if_ne, if◌then◌else◌, length, length-append, get_or, drop,
  le16, le16_lem, arith,
}
use alderkernel.Disk.{IsSector}
use alderkernel.Ata.{Ports, words_to_bytes, bytes_to_words}

-- What a drive holds: the words of its sectors, the registers of the address, the words that it still
-- offers to the reader, and those that it has taken from the writer.
pub record AtaDrive : Type 0 where
  pub sectors : ℕ → ℕ → ℕ
  pub lo : ℕ
  pub mid : ℕ
  pub hi : ℕ
  pub head : ℕ
  pub offered : List ℕ
  pub taken : List ℕ

abbrev pub address : AtaDrive → ℕ
address d = d.lo + d.mid * 2 ^ 8 + d.hi * 2 ^ 16 + d.head % 16 * 2 ^ 24

-- The words of a sector from word `i` on.
abbrev pub words_from : ℕ → ℕ → (ℕ → ℕ) → List ℕ
words_from zero i f = []
words_from (suc n) i f = f i ∷ words_from n (suc i) f

-- Commands: 0x20 reads a sector, 0x30 writes one.
abbrev pub on_outb : ℕ → ℕ → AtaDrive → AtaDrive
on_outb q v d =
    if q == 0x1f3
    then record d { lo = v }
    else if q == 0x1f4
    then record d { mid = v }
    else if q == 0x1f5
    then record d { hi = v }
    else if q == 0x1f6
    then record d { head = v }
    else if q == 0x1f7 && v == 0x20
    then record d { offered = words_from 256 0 (d.sectors (address d)) }
    else if q == 0x1f7 && v == 0x30
    then record d { taken = [] }
    else d

-- The sector is stored when its last word has come.
abbrev pub on_data : ℕ → AtaDrive → AtaDrive
on_data w d =
    let t = d.taken ++ w ∷ [] in
    if length t == 256
    then record d {
      sectors = λ l. if address d == l then (λ i. get_or t i 0) else d.sectors l;
      taken = [];
    }
    else record d { taken = t }

-- Ports with such a drive behind them. What a status says, and when, is left open.
pub record IsAtaDrive (p : Ports) : Type 0 where
  pub view : p.State → AtaDrive
  pub view-inb : (q : ℕ) (h : p.State) → view (p.inb q h).1 ≡ view h
  pub view-outb : (q v : ℕ) (h : p.State) → view (p.outb q v h) ≡ on_outb q v (view h)
  pub inw_offered : (h : p.State) → (p.inw 0x1f0 h).0 ≡ get_or (view h).offered 0 0
  pub view-inw :
      (h : p.State) → view (p.inw 0x1f0 h).1 ≡ record (view h) { offered = drop 1 (view h).offered }
  pub view-outw : (w : ℕ) (h : p.State) → view (p.outw 0x1f0 w h) ≡ on_data w (view h)

-- The bytes of a sector from word `i` on, the low byte of each word first.
abbrev pub bytes_from : ℕ → ℕ → (ℕ → ℕ) → List ℕ
bytes_from zero i f = []
bytes_from (suc n) i f = f i % 256 ∷ f i / 256 % 256 ∷ bytes_from n (suc i) f

length-bytes_from : (n i : ℕ) (f : ℕ → ℕ) → length (bytes_from n i f) ≡ n + n
length-bytes_from zero i f = refl
length-bytes_from (suc n) i f = omega (arith, length-bytes_from n (suc i) f)

bytes_from-lt : (n i : ℕ) (f : ℕ → ℕ) (j : ℕ) → get_or (bytes_from n i f) j 0 < 256
bytes_from-lt zero i f j = omega arith
bytes_from-lt (suc n) i f zero = omega arith
bytes_from-lt (suc n) i f (suc zero) = omega arith
bytes_from-lt (suc n) i f (suc (suc j)) = bytes_from-lt n (suc i) f j

pub length-words_from : (n i : ℕ) (f : ℕ → ℕ) → length (words_from n i f) ≡ n
length-words_from zero i f = refl
length-words_from (suc n) i f = ap suc (length-words_from n (suc i) f)

words_to_bytes-words_from :
    (n i : ℕ) (f : ℕ → ℕ) → words_to_bytes (words_from n i f) ≡ bytes_from n i f
unfolding words_to_bytes
words_to_bytes-words_from zero i f = refl
words_to_bytes-words_from (suc n) i f =
    ap₂ ◌∷◌ (omega arith) (ap₂ ◌∷◌ (omega arith) (words_to_bytes-words_from n (suc i) f))

bytes_from-shift :
    (n i w : ℕ) (ws : List ℕ)
    → bytes_from n (suc i) (λ k. get_or (w ∷ ws) k 0) ≡ bytes_from n i (λ k. get_or ws k 0)
bytes_from-shift zero i w ws = refl
bytes_from-shift (suc n) i w ws =
    ap (λ r. get_or ws i 0 % 256 ∷ get_or ws i 0 / 256 % 256 ∷ r) (bytes_from-shift n (suc i) w ws)

-- The words of a buffer spell its bytes.
bytes_from-bytes_to_words :
    (n : ℕ) (bs : List ℕ)
    → length bs ≡ n + n
    → ((i : ℕ) → get_or bs i 0 < 256)
    → bytes_from n 0 (λ k. get_or (bytes_to_words bs) k 0) ≡ bs
unfolding bytes_to_words
bytes_from-bytes_to_words zero [] h b = refl
bytes_from-bytes_to_words (suc n) [] h b = absurd (omega arith)
bytes_from-bytes_to_words n (a ∷ []) h b = absurd (omega arith)
bytes_from-bytes_to_words zero (a ∷ c ∷ bs) h b = absurd (omega arith)
bytes_from-bytes_to_words (suc n) (a ∷ c ∷ bs) h b =
    let word : le16 a c ≡ a + c * 256 = le16_lem a c (b 0) in
    ap₂ ◌∷◌ (omega (arith, word, b 0, b 1)) (
      ap₂ ◌∷◌ (omega (arith, word, b 0, b 1)) (
        bytes_from-shift n 0 (le16 a c) (bytes_to_words bs)
        ∙ bytes_from-bytes_to_words n bs (omega arith) (λ i. b (suc (suc i)))))

pub length-bytes_to_words :
    (n : ℕ) (bs : List ℕ) → length bs ≡ n + n → length (bytes_to_words bs) ≡ n
unfolding bytes_to_words
length-bytes_to_words zero [] h = refl
length-bytes_to_words (suc n) [] h = absurd (omega arith)
length-bytes_to_words n (a ∷ []) h = absurd (omega arith)
length-bytes_to_words zero (a ∷ c ∷ bs) h = absurd (omega arith)
length-bytes_to_words (suc n) (a ∷ c ∷ bs) h = ap suc (length-bytes_to_words n bs (omega arith))

-- The 512 bytes of a sector.
unfoldable pub sector_bytes : (ℕ → ℕ) → List ℕ
sector_bytes f = bytes_from 256 0 f

pub sector_bytes-IsSector : (f : ℕ → ℕ) → IsSector (sector_bytes f)
unfolding sector_bytes
sector_bytes-IsSector f = record { size = length-bytes_from 256 0 f; bytes = bytes_from-lt 256 0 f }

pub words_to_bytes-sector : (f : ℕ → ℕ) → words_to_bytes (words_from 256 0 f) ≡ sector_bytes f
unfolding sector_bytes
words_to_bytes-sector f = words_to_bytes-words_from 256 0 f

pub sector_bytes-bytes_to_words :
    (x : List ℕ) → IsSector x → sector_bytes (λ i. get_or (bytes_to_words x) i 0) ≡ x
unfolding sector_bytes
sector_bytes-bytes_to_words x v = bytes_from-bytes_to_words 256 x v.size v.bytes

-- The words that come one after the other.
unfoldable pub accept : List ℕ → AtaDrive → AtaDrive
accept [] d = d
accept (w ∷ ws) d = accept ws (on_data w d)

abbrev pub stored : List ℕ → AtaDrive → ℕ → ℕ → ℕ
stored t d l = if address d == l then (λ i. get_or t i 0) else d.sectors l

sectors-accept :
    (w : ℕ) (ws : List ℕ) (d : AtaDrive)
    → length d.taken + length (w ∷ ws) ≡ 256
    → (accept (w ∷ ws) d).sectors ≡ stored (d.taken ++ w ∷ ws) d
unfolding accept
sectors-accept w [] d h =
    let full : (length (d.taken ++ w ∷ []) == 256) ≡ true =
      ground (arith, length-append d.taken (w ∷ [])) in
    rw full refl
sectors-accept w (x ∷ ws) d h =
    let more : (length (d.taken ++ w ∷ []) == 256) ≡ false =
      ground (arith, length-append d.taken (w ∷ [])) in
    let d1 : AtaDrive = record d { taken = d.taken ++ w ∷ [] } in
    let next : on_data w d ≡ d1 = rw more refl in
    ap (λ e. (accept (x ∷ ws) e).sectors) next
    ∙ sectors-accept x ws d1 (omega (arith, length-append d.taken (w ∷ [])))
    ∙ ap (λ t. stored t d) (append_assoc d.taken (w ∷ []) (x ∷ ws))

pub sectors-accept_all :
    (ws : List ℕ) (d : AtaDrive)
    → d.taken ≡ []
    → length ws ≡ 256
    → (accept ws d).sectors ≡ stored ws d
sectors-accept_all [] d e h = absurd (omega arith)
sectors-accept_all (w ∷ ws) d e h =
    sectors-accept w ws d (omega (arith, h, ap (length {A = ℕ}) e))
    ∙ ap (λ t. stored (t ++ w ∷ ws) d) e

-- No word changes a sector but the one of the address, nor the address.
address-on_data : (w : ℕ) (d : AtaDrive) → address (on_data w d) ≡ address d
address-on_data w d =
    if_both (λ (e : AtaDrive). address e ≡ address d) (length (d.taken ++ w ∷ []) == 256)
      (λ _. refl) (λ _. refl)

on_data-other :
    (w : ℕ) (d : AtaDrive) (j : ℕ) → address d ≢ j → (on_data w d).sectors j ≡ d.sectors j
on_data-other w d j ne =
    if_both (λ (e : AtaDrive). e.sectors j ≡ d.sectors j) (length (d.taken ++ w ∷ []) == 256)
      (λ _. if_ne (address d) j _ _ ne) (λ _. refl)

pub accept-other :
    (ws : List ℕ) (d : AtaDrive) (j : ℕ) → address d ≢ j → (accept ws d).sectors j ≡ d.sectors j
unfolding accept
accept-other [] d j ne = refl
accept-other (w ∷ ws) d j ne =
    accept-other ws (on_data w d) j (λ e. ne (sym (address-on_data w d) ∙ e))
    ∙ on_data-other w d j ne
