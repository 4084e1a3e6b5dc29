-- ===== src/Ata/Steps.antt =====
-- The steps of a transfer in kernel/drivers/ata.c, seen from the drive: the waits, the request of a
-- sector, and the words.
use alderkernel.Prelude.{
  ℕ, zero, suc, ◌<◌, ◌≡◌, refl, ap, ap₂, ◌∙◌, Bool, List, [], ◌∷◌, if_both, length, get_or, drop,
  byte, arith,
}
use alderkernel.Disk.{lba_limit}
use alderkernel.Ata.{
  Ports, has_bit, drive_head, wait_ready_from, ata_wait_ready, wait_drq_from, ata_wait_drq,
  read_words, write_words, select,
}
use alderkernel.Ata.Laws.{select_address}
use alderkernel.Ata.Drive.{AtaDrive, address, on_outb, IsAtaDrive, accept}

-- The drive with the address of sector `lba` in its registers.
abbrev pub aimed : ℕ → AtaDrive → AtaDrive
aimed lba d = record d {
  lo = byte lba 0;
  mid = byte lba 8;
  hi = byte lba 16;
  head = drive_head lba;
}

pub address-aimed : (lba : ℕ) (d : AtaDrive) → lba < lba_limit → address (aimed lba d) ≡ lba
address-aimed lba d h = (select_address lba h).0

module _ (p : Ports) (k : IsAtaDrive p) where
  view-wait_ready : (n : ℕ) (h : p.State) → k.view (wait_ready_from p n h).1 ≡ k.view h
  unfolding wait_ready_from
  view-wait_ready zero h = refl
  view-wait_ready (suc n) h =
      if_both (λ (r : Bool × p.State). k.view r.1 ≡ k.view h) (has_bit (p.inb 0x1f7 h).0 0x80)
        (λ _. view-wait_ready n (p.inb 0x1f7 h).1 ∙ k.view-inb 0x1f7 h) (λ _. k.view-inb 0x1f7 h)

  view-wait_drq : (n : ℕ) (h : p.State) → k.view (wait_drq_from p n h).1 ≡ k.view h
  unfolding wait_drq_from
  view-wait_drq zero h = refl
  view-wait_drq (suc n) h =
      if_both (λ (r : Bool × p.State). k.view r.1 ≡ k.view h) (has_bit (p.inb 0x1f7 h).0 0x01)
        (λ _. k.view-inb 0x1f7 h)
        (λ _.
          if_both (λ (r : Bool × p.State). k.view r.1 ≡ k.view h) (has_bit (p.inb 0x1f7 h).0 0x08)
            (λ _. k.view-inb 0x1f7 h) (λ _. view-wait_drq n (p.inb 0x1f7 h).1 ∙ k.view-inb 0x1f7 h))

  pub view-ata_wait_ready : (h : p.State) → k.view (ata_wait_ready p h).1 ≡ k.view h
  unfolding ata_wait_ready
  view-ata_wait_ready h = view-wait_ready 100000 h

  view-ata_wait_drq : (h : p.State) → k.view (ata_wait_drq p h).1 ≡ k.view h
  unfolding ata_wait_drq
  view-ata_wait_drq h = view-wait_drq 100000 h

  view-select :
      (command lba : ℕ) (h : p.State)
      → k.view (select p command lba h) ≡ on_outb 0x1f7 command (aimed lba (k.view h))
  unfolding select
  view-select command lba h =
      rw
        (
          k.view-outb 0x1f7 command,
          k.view-outb 0x1f5 (byte lba 16),
          k.view-outb 0x1f4 (byte lba 8),
          k.view-outb 0x1f3 (byte lba 0),
          k.view-outb 0x1f2 1,
          k.view-outb 0x1f6 (drive_head lba),
        )
        refl

  pub read_words_lem :
      (n : ℕ) (ws : List ℕ) (h : p.State)
      → (k.view h).offered ≡ ws
      → length ws ≡ n
      → (read_words p n h).0 ≡ ws
  unfolding read_words
  read_words_lem zero [] h e size = refl
  read_words_lem zero (w ∷ ws) h e size = absurd (omega arith)
  read_words_lem (suc n) [] h e size = absurd (omega arith)
  read_words_lem (suc n) (w ∷ ws) h e size = ap₂ ◌∷◌ (k.inw_offered h ∙ ap (λ o. get_or o 0 0) e) (
      read_words_lem n ws (p.inw 0x1f0 h).1
        (ap (λ (d : AtaDrive). d.offered) (k.view-inw h) ∙ ap (drop 1) e) (omega arith))

  pub sectors-read_words :
      (n : ℕ) (h : p.State) → (k.view (read_words p n h).1).sectors ≡ (k.view h).sectors
  unfolding read_words
  sectors-read_words zero h = refl
  sectors-read_words (suc n) h =
      sectors-read_words n (p.inw 0x1f0 h).1 ∙ ap (λ (d : AtaDrive). d.sectors) (k.view-inw h)

  pub view-write_words :
      (ws : List ℕ) (h : p.State) → k.view (write_words p ws h) ≡ accept ws (k.view h)
  unfolding write_words accept
  view-write_words [] h = refl
  view-write_words (w ∷ ws) h =
      view-write_words ws (p.outw 0x1f0 w h) ∙ ap (accept ws) (k.view-outw w h)

  -- The drive when the request of a sector has been answered.
  pub asked_for :
      (command lba : ℕ) (h : p.State)
      → k.view (ata_wait_drq p (select p command lba (ata_wait_ready p h).1)).1
        ≡ on_outb 0x1f7 command (aimed lba (k.view h))
  asked_for command lba h =
      view-ata_wait_drq (select p command lba (ata_wait_ready p h).1)
      ∙ view-select command lba (ata_wait_ready p h).1
      ∙ ap (λ d. on_outb 0x1f7 command (aimed lba d)) (view-ata_wait_ready h)
