-- ===== src/Ata.antt =====
-- The disk driver, kernel/drivers/ata.c, over the port instructions `inb`, `outb`, `inw` and `outw`
-- (kernel/io.c is inline assembly: what they do is the hardware's, a parameter). Each function
-- gives what the C function returns beside the hardware's next state.
pub mod Laws
pub mod Drive
pub mod Steps
pub mod Transfer
use alderkernel.Prelude.{
  ℕ, zero, suc, ◌+◌, ◌*◌, ◌/◌, ◌%◌, ◌^◌, Bool, true, false, not, List, [], ◌∷◌, ◌==◌, if◌then◌else◌,
  bit_and, bit_or, get_or, byte, le16,
}
use alderkernel.Disk.{Device}

-- The hardware behind the ports.
pub record Ports : Type 1 where
  pub State : Type 0
  pub inb : ℕ → State → ℕ × State
  pub outb : ℕ → ℕ → State → State
  pub inw : ℕ → State → ℕ × State
  pub outw : ℕ → ℕ → State → State

abbrev pub ata_data : ℕ
ata_data = 0x1f0

abbrev pub ata_sector_cnt : ℕ
ata_sector_cnt = 0x1f2

abbrev pub ata_lba_lo : ℕ
ata_lba_lo = 0x1f3

abbrev pub ata_lba_mid : ℕ
ata_lba_mid = 0x1f4

abbrev pub ata_lba_hi : ℕ
ata_lba_hi = 0x1f5

abbrev pub ata_drive_head : ℕ
ata_drive_head = 0x1f6

abbrev pub ata_status : ℕ
ata_status = 0x1f7

abbrev pub ata_command : ℕ
ata_command = 0x1f7

-- `status & mask` as a test
unfoldable pub has_bit : ℕ → ℕ → Bool
has_bit status bit = not (bit_and status bit == 0)

-- `0xE0 | ((lba >> 24) & 0x0F)`
unfoldable pub drive_head : ℕ → ℕ
drive_head lba = bit_or 0xe0 (lba / 2 ^ 24 % 16)

module _ (p : Ports) where
  open p use {State, inb, outb, inw, outw}

  -- `n` polls are left.
  unfoldable pub wait_ready_from : ℕ → State → Bool × State
  wait_ready_from zero h = (false, h)
  wait_ready_from (suc n) h =
      let (status, h') = inb ata_status h in
      let rest = wait_ready_from n h' in
      if has_bit status 0x80 then rest else (not (has_bit status 0x01), h')

  unfoldable pub ata_wait_ready : State → Bool × State
  ata_wait_ready h = wait_ready_from 100000 h

  unfoldable pub wait_drq_from : ℕ → State → Bool × State
  wait_drq_from zero h = (false, h)
  wait_drq_from (suc n) h =
      let (status, h') = inb ata_status h in
      let rest = wait_drq_from n h' in
      if has_bit status 0x01 then (false, h') else if has_bit status 0x08 then (true, h') else rest

  unfoldable pub ata_wait_drq : State → Bool × State
  ata_wait_drq h = wait_drq_from 100000 h

  -- `n` words from the data port.
  pub read_words : ℕ → State → List ℕ × State
  read_words zero h = ([], h)
  read_words (suc n) h =
      let (w, h') = inw ata_data h in let (ws, h'') = read_words n h' in (w ∷ ws, h'')

  pub write_words : List ℕ → State → State
  write_words [] h = h
  write_words (w ∷ ws) h = write_words ws (outw ata_data w h)

  -- The registers that name a sector, and the command.
  pub select : ℕ → ℕ → State → State
  select command lba h =
      let h1 = outb ata_drive_head (drive_head lba) h in
      let h2 = outb ata_sector_cnt 1 h1 in
      let h3 = outb ata_lba_lo (byte lba 0) h2 in
      let h4 = outb ata_lba_mid (byte lba 8) h3 in
      let h5 = outb ata_lba_hi (byte lba 16) h4 in outb ata_command command h5

  -- The status and the value of `total_sectors_cache` afterwards.
  pub ata_identify : ℕ → State → Bool × ℕ × State
  ata_identify cache h =
      let h1 = outb ata_drive_head 0xa0 h in
      let h2 = outb ata_sector_cnt 0 h1 in
      let h3 = outb ata_lba_lo 0 h2 in
      let h4 = outb ata_lba_mid 0 h3 in
      let h5 = outb ata_lba_hi 0 h4 in
      let (status, h6) = inb ata_status (outb ata_command 0xec h5) in
      let (drq, h7) = ata_wait_drq h6 in
      let (words, h8) = read_words 256 h7 in
      if status == 0
      then (false, cache, h6)
      else if drq
      then (true, bit_or (get_or words 60 0) (get_or words 61 0 * 2 ^ 16), h8)
      else (false, cache, h7)

-- The bytes of a buffer of 16-bit words, and back: the low byte stands first.
unfoldable pub words_to_bytes : List ℕ → List ℕ
words_to_bytes [] = []
words_to_bytes (w ∷ ws) = byte w 0 ∷ byte w 8 ∷ words_to_bytes ws

unfoldable pub bytes_to_words : List ℕ → List ℕ
bytes_to_words [] = []
bytes_to_words (a ∷ []) = a ∷ []
bytes_to_words (a ∷ b ∷ bs) = le16 a b ∷ bytes_to_words bs

module _ (p : Ports) where
  open p use {State}

  -- `junk` is the caller's buffer, which a failed read leaves alone.
  unfoldable pub ata_read_sector : List ℕ → ℕ → State → Bool × List ℕ × State
  ata_read_sector junk lba h =
      let (ready, h1) = ata_wait_ready p h in
      let (drq, h2) = ata_wait_drq p (select p 0x20 lba h1) in
      let (words, h3) = read_words p 256 h2 in
      if ready
      then (if drq then (true, words_to_bytes words, h3) else (false, junk, h2))
      else (false, junk, h1)

  unfoldable pub ata_write_sector : ℕ → List ℕ → State → Bool × State
  ata_write_sector lba buffer h =
      let (ready, h1) = ata_wait_ready p h in
      let (drq, h2) = ata_wait_drq p (select p 0x30 lba h1) in
      if ready
      then (if drq then (true, write_words p (bytes_to_words buffer) h2) else (false, h2))
      else (false, h1)

  -- The driver as the device that the file system calls.
  pub ata_device : List ℕ → Device
  ata_device junk = record {
    State = State;
    read_sector = ata_read_sector junk;
    write_sector = ata_write_sector;
  }
