-- ===== src/Ata/Laws.antt =====
-- What the driver sends to the ports.
use mathlib.Core.List.{append_assoc, append-nil}
use alderkernel.Prelude.{
  ℕ, zero, suc, ◌+◌, ◌*◌, ◌/◌, ◌%◌, ◌^◌, ◌<◌, ◌≡◌, refl, ap, ap₂, sym, ◌∙◌, Bool, true, ◌&&◌, List,
  [], ◌∷◌, ◌++◌, ◌==◌, ==_iff, Bool-cases, inl, inr, if_both, if◌then◌else◌, bit_or, length, get_or,
  byte, le16, le16_lem, arith,
}
use alderkernel.Prelude.Bits.{holds_to, holds_to_lem}
use alderkernel.Ata.{
  Ports, has_bit, drive_head, wait_ready_from, ata_wait_ready, wait_drq_from, ata_wait_drq,
  write_words, select, bytes_to_words, ata_write_sector,
}

head_ok : holds_to 16 (λ x. bit_or 0xe0 x == 0xe0 + x) ≡ true
unfolding holds_to
head_ok = refl

drive_head_lem : (lba : ℕ) → drive_head lba ≡ 0xe0 + lba / 2 ^ 24 % 16
unfolding drive_head
drive_head_lem lba =
    (==_iff _ _).0
      (holds_to_lem 16 (λ x. bit_or 0xe0 x == 0xe0 + x) (lba / 2 ^ 24 % 16) head_ok (omega arith))

-- The four bytes that name the sector to the drive give the address back, and the drive register
-- selects LBA mode on the master drive.
pub select_address :
    (lba : ℕ)
    → lba < 2 ^ 28
    → (byte lba 0 + byte lba 8 * 2 ^ 8 + byte lba 16 * 2 ^ 16 + drive_head lba % 16 * 2 ^ 24 ≡ lba)
      × (drive_head lba / 16 ≡ 0xe)
select_address lba h = omega (arith, drive_head_lem lba)

-- Hardware whose state shows the writes to the ports, in order, with port and value. A read of a port
-- is no write.
pub record IsTraced (p : Ports) : Type 0 where
  pub sent : p.State → List (ℕ × ℕ)
  pub sent-outb : (q v : ℕ) (h : p.State) → sent (p.outb q v h) ≡ sent h ++ (q, v) ∷ []
  pub sent-outw : (q v : ℕ) (h : p.State) → sent (p.outw q v h) ≡ sent h ++ (q, v) ∷ []
  pub sent-inb : (q : ℕ) (h : p.State) → sent (p.inb q h).1 ≡ sent h

-- The writes that ask the drive to write sector `lba`: the address has 28 bits in four registers, and
-- the upper half of the first selects LBA mode on the master drive.
abbrev pub request : ℕ → List (ℕ × ℕ)
request lba =
    (0x1f6, 224 + lba / 16777216 % 16)
    ∷ (0x1f2, 1)
    ∷ (0x1f3, lba % 256)
    ∷ (0x1f4, lba / 256 % 256)
    ∷ (0x1f5, lba / 65536 % 256)
    ∷ (0x1f7, 0x30)
    ∷ []

-- The `n` words of a buffer from byte `i` on, each to the data port, the low byte first.
abbrev pub payload : ℕ → ℕ → List ℕ → List (ℕ × ℕ)
payload zero i buffer = []
payload (suc n) i buffer =
    (0x1f0, get_or buffer i 0 + get_or buffer (i + 1) 0 * 256) ∷ payload n (i + 2) buffer

abbrev pairs_of : List ℕ → List (ℕ × ℕ)
pairs_of [] = []
pairs_of (w ∷ ws) = (0x1f0, w) ∷ pairs_of ws

one : (i : ℕ) → suc i ≡ i + 1
one i = omega arith

two : (i : ℕ) → suc (suc i) + 1 ≡ suc (suc (suc i))
two i = omega arith

four : (i : ℕ) → suc (suc i) + 2 ≡ suc (suc (i + 2))
four i = omega arith

payload-shift :
    (n i : ℕ) (a c : ℕ) (bs : List ℕ) → payload n (suc (suc i)) (a ∷ c ∷ bs) ≡ payload n i bs
payload-shift zero i a c bs = refl
payload-shift (suc n) i a c bs =
    ap₂ (λ (x : ℕ) (r : List (ℕ × ℕ)). (0x1f0, get_or bs i 0 + x * 256) ∷ r)
      (ap (λ j. get_or (a ∷ c ∷ bs) j 0) (two i) ∙ ap (λ j. get_or bs j 0) (one i))
      (ap (λ j. payload n j (a ∷ c ∷ bs)) (four i) ∙ payload-shift n (i + 2) a c bs)

pairs_of-bytes_to_words :
    (n : ℕ) (bs : List ℕ)
    → length bs ≡ n + n
    → ((i : ℕ) → get_or bs i 0 < 256)
    → pairs_of (bytes_to_words bs) ≡ payload n 0 bs
unfolding bytes_to_words
pairs_of-bytes_to_words zero [] h b = refl
pairs_of-bytes_to_words (suc n) [] h b = absurd (omega arith)
pairs_of-bytes_to_words n (a ∷ []) h b = absurd (omega arith)
pairs_of-bytes_to_words zero (a ∷ c ∷ bs) h b = absurd (omega arith)
pairs_of-bytes_to_words (suc n) (a ∷ c ∷ bs) h b =
    let word : le16 a c ≡ a + c * 256 = le16_lem a c (b 0) in
    let ih = pairs_of-bytes_to_words n bs (omega arith) (λ i. b (suc (suc i))) in
    ap₂ (λ (x : ℕ) (r : List (ℕ × ℕ)). (0x1f0, x) ∷ r) word (ih ∙ sym (payload-shift n 0 a c bs))

module _ (p : Ports) where
  -- The outcomes of the two waits.
  abbrev pub ready : p.State → Bool
  ready h = (ata_wait_ready p h).0

  abbrev pub asked : ℕ → p.State → Bool
  asked lba h = (ata_wait_drq p (select p 0x30 lba (ata_wait_ready p h).1)).0

low_byte : (lba : ℕ) → byte lba 0 ≡ lba % 256
low_byte lba = omega arith

module _ (p : Ports) (k : IsTraced p) where
  sent-write_words :
      (ws : List ℕ) (h : p.State) → k.sent (write_words p ws h) ≡ k.sent h ++ pairs_of ws
  unfolding write_words
  sent-write_words [] h = sym (append-nil (k.sent h))
  sent-write_words (w ∷ ws) h =
      sent-write_words ws (p.outw 0x1f0 w h)
      ∙ ap (λ t. t ++ pairs_of ws) (k.sent-outw 0x1f0 w h)
      ∙ append_assoc (k.sent h) ((0x1f0, w) ∷ []) (pairs_of ws)

  sent-wait_ready : (n : ℕ) (h : p.State) → k.sent (wait_ready_from p n h).1 ≡ k.sent h
  unfolding wait_ready_from
  sent-wait_ready zero h = refl
  sent-wait_ready (suc n) h =
      if_both (λ (r : Bool × p.State). k.sent r.1 ≡ k.sent h) (has_bit (p.inb 0x1f7 h).0 0x80)
        (λ _. sent-wait_ready n (p.inb 0x1f7 h).1 ∙ k.sent-inb 0x1f7 h) (λ _. k.sent-inb 0x1f7 h)

  sent-wait_drq : (n : ℕ) (h : p.State) → k.sent (wait_drq_from p n h).1 ≡ k.sent h
  unfolding wait_drq_from
  sent-wait_drq zero h = refl
  sent-wait_drq (suc n) h =
      if_both (λ (r : Bool × p.State). k.sent r.1 ≡ k.sent h) (has_bit (p.inb 0x1f7 h).0 0x01)
        (λ _. k.sent-inb 0x1f7 h)
        (λ _.
          if_both (λ (r : Bool × p.State). k.sent r.1 ≡ k.sent h) (has_bit (p.inb 0x1f7 h).0 0x08)
            (λ _. k.sent-inb 0x1f7 h) (λ _. sent-wait_drq n (p.inb 0x1f7 h).1 ∙ k.sent-inb 0x1f7 h))

  waited_ready : (h : p.State) → k.sent (ata_wait_ready p h).1 ≡ k.sent h
  unfolding ata_wait_ready
  waited_ready h = sent-wait_ready 100000 h

  waited_drq : (h : p.State) → k.sent (ata_wait_drq p h).1 ≡ k.sent h
  unfolding ata_wait_drq
  waited_drq h = sent-wait_drq 100000 h

  sent-select : (lba : ℕ) (h : p.State) → k.sent (select p 0x30 lba h) ≡ k.sent h ++ request lba
  unfolding select
  sent-select lba h =
      rw
        (
          k.sent-outb 0x1f7 0x30,
          k.sent-outb 0x1f5 (byte lba 16),
          k.sent-outb 0x1f4 (byte lba 8),
          k.sent-outb 0x1f3 (byte lba 0),
          k.sent-outb 0x1f2 1,
          k.sent-outb 0x1f6 (drive_head lba),
          drive_head_lem lba,
        )
        (simp (append_assoc, low_byte lba) refl)

  -- The writes to the ports of `ata_write_sector`, for a buffer of 512 bytes. Where the wait for the
  -- drive succeeds and the wait for its request of data does, they are the request to write the sector
  -- and then the 256 words of the buffer, the low byte of each first, and success is reported; where the
  -- second wait fails, the request alone, and where the first one does, none, and failure is reported.
  pub sent-ata_write_sector :
      (lba : ℕ) (buffer : List ℕ) (h : p.State)
      → length buffer ≡ 512
      → ((i : ℕ) → get_or buffer i 0 < 256)
      → ((ata_write_sector p lba buffer h).0 ≡ (ready p h && asked p lba h))
        × (k.sent (ata_write_sector p lba buffer h).1
            ≡ k.sent h
              ++ (if ready p h
                  then request lba ++ (if asked p lba h then payload 256 0 buffer else [])
                  else []))
  unfolding ata_write_sector
  sent-ata_write_sector lba buffer h size bytes =
      let h1 : p.State = (ata_wait_ready p h).1 in
      let h2 : p.State = (ata_wait_drq p (select p 0x30 lba h1)).1 in
      let s1 : k.sent h1 ≡ k.sent h = waited_ready h in
      let s2 : k.sent h2 ≡ k.sent h ++ request lba =
        waited_drq (select p 0x30 lba h1) ∙ sent-select lba h1 ∙ ap (λ t. t ++ request lba) s1 in
      let words : pairs_of (bytes_to_words buffer) ≡ payload 256 0 buffer =
        pairs_of-bytes_to_words 256 buffer size bytes in
      elim (Bool-cases (ready p h)) [
        | inr off ↦ rw (off, ata_write_sector) (refl, s1 ∙ sym (append-nil (k.sent h)))
        | inl on ↦ elim (Bool-cases (asked p lba h)) [
          | inr none ↦
              rw (on, none, ata_write_sector)
                (refl, s2 ∙ ap (λ t. k.sent h ++ t) (sym (append-nil (request lba))))
          | inl go ↦
              rw (on, go, ata_write_sector)
                (
                  refl,
                  sent-write_words (bytes_to_words buffer) h2
                      ∙ ap₂ ◌++◌ s2 words
                      ∙ append_assoc (k.sent h) (request lba) (payload 256 0 buffer),
                )
        ]
      ]
