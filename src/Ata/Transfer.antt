-- ===== src/Ata/Transfer.antt =====
-- The driver of kernel/drivers/ata.c on a drive: what a sector that is read or written holds.
use alderkernel.Prelude.{
  ℕ, ◌<◌, ◌≡◌, ◌≢◌, refl, ap, sym, ◌∙◌, Bool, true, List, [], ◌==◌, if_both, if_eq, if_under,
  if◌then◌else◌, get_or,
}
use alderkernel.Disk.{IsSector, IsDisk, lba_limit}
use alderkernel.Ata.{
  Ports, ata_wait_ready, ata_wait_drq, read_words, write_words, select, words_to_bytes,
  bytes_to_words, ata_read_sector, ata_write_sector, ata_device,
}
use alderkernel.Ata.Steps.{
  aimed, address-aimed, view-ata_wait_ready, read_words_lem, sectors-read_words, view-write_words,
  asked_for,
}
use alderkernel.Ata.Drive.{
  AtaDrive, words_from, IsAtaDrive, length-words_from, length-bytes_to_words, accept, stored,
  sectors-accept_all, accept-other, sector_bytes, sector_bytes-IsSector, words_to_bytes-sector,
  sector_bytes-bytes_to_words,
}

module _ (p : Ports) (k : IsAtaDrive p) where
  -- The bytes of a sector of the drive.
  abbrev pub sector_of : p.State → ℕ → List ℕ
  sector_of h l = sector_bytes ((k.view h).sectors l)

  -- A read that succeeds gives the sector's bytes.
  read_lem :
      (junk : List ℕ) (lba : ℕ) (h : p.State)
      → lba < lba_limit
      → (ata_read_sector p junk lba h).0 ≡ true
      → (ata_read_sector p junk lba h).1 ≡ sector_of h lba
  unfolding ata_read_sector
  read_lem junk lba h lt e =
      let h2 : p.State = (ata_wait_drq p (select p 0x20 lba (ata_wait_ready p h).1)).1 in
      let f : ℕ → ℕ = (k.view h).sectors lba in
      let offer : (k.view h2).offered ≡ words_from 256 0 f =
        ap (λ (d : AtaDrive). d.offered) (asked_for p k 0x20 lba h)
        ∙ ap (λ l. words_from 256 0 ((k.view h).sectors l)) (address-aimed lba (k.view h) lt) in
      let words : words_to_bytes (read_words p 256 h2).0 ≡ sector_bytes f =
        ap words_to_bytes
          (read_words_lem p k 256 (words_from 256 0 f) h2 offer (length-words_from 256 0 f))
        ∙ words_to_bytes-sector f in
      let P : Bool × List ℕ × p.State → Type 0 = λ r. r.0 ≡ true → r.1 ≡ sector_bytes f in
      if_both P (ata_wait_ready p h).0
        (λ _.
          if_both P (ata_wait_drq p (select p 0x20 lba (ata_wait_ready p h).1)).0 (λ _ _. words)
            (λ _ no_data. cc))
        (λ _ not_ready. cc) e

  -- A read leaves every sector as it was.
  read_keeps :
      (junk : List ℕ) (lba : ℕ) (h : p.State) (j : ℕ)
      → sector_of (ata_read_sector p junk lba h).2 j ≡ sector_of h j
  unfolding ata_read_sector
  read_keeps junk lba h j =
      let h2 : p.State = (ata_wait_drq p (select p 0x20 lba (ata_wait_ready p h).1)).1 in
      let s1 : (k.view (ata_wait_ready p h).1).sectors ≡ (k.view h).sectors =
        ap (λ (d : AtaDrive). d.sectors) (view-ata_wait_ready p k h) in
      let s2 : (k.view h2).sectors ≡ (k.view h).sectors =
        ap (λ (d : AtaDrive). d.sectors) (asked_for p k 0x20 lba h) in
      let s3 : (k.view (read_words p 256 h2).1).sectors ≡ (k.view h).sectors =
        sectors-read_words p k 256 h2 ∙ s2 in
      let P : Bool × List ℕ × p.State → Type 0 = λ r. (k.view r.2).sectors ≡ (k.view h).sectors in
      ap (λ t. sector_bytes (t j))
        (if_both P (ata_wait_ready p h).0
          (λ _.
            if_both P (ata_wait_drq p (select p 0x20 lba (ata_wait_ready p h).1)).0 (λ _. s3)
              (λ _. s2))
          (λ _. s1))

  -- A write stores the buffer in its sector where it succeeds, and changes nothing else.
  write_lem :
      (lba : ℕ) (x : List ℕ) (h : p.State) (j : ℕ)
      → lba < lba_limit
      → IsSector x
      → sector_of (ata_write_sector p lba x h).1 j ≡ (
          if (ata_write_sector p lba x h).0
          then (if lba == j then x else sector_of h j)
          else sector_of h j)
  unfolding ata_write_sector
  write_lem lba x h j lt v =
      let h2 : p.State = (ata_wait_drq p (select p 0x30 lba (ata_wait_ready p h).1)).1 in
      let ws : List ℕ = bytes_to_words x in
      let d : AtaDrive = record (aimed lba (k.view h)) { taken = [] } in
      let R : Bool × p.State → Type 0 = λ r.
        sector_of r.1 j
        ≡ (if r.0 then (if lba == j then x else sector_of h j) else sector_of h j) in
      let s1 : sector_of (ata_wait_ready p h).1 j ≡ sector_of h j =
        ap (λ (e : AtaDrive). sector_bytes (e.sectors j)) (view-ata_wait_ready p k h) in
      let s2 : sector_of h2 j ≡ sector_of h j =
        ap (λ (e : AtaDrive). sector_bytes (e.sectors j)) (asked_for p k 0x30 lba h) in
      let sent : (k.view (write_words p ws h2)).sectors ≡ stored ws d =
        ap (λ (e : AtaDrive). e.sectors)
          (view-write_words p k ws h2 ∙ ap (accept ws) (asked_for p k 0x30 lba h))
        ∙ sectors-accept_all ws d refl (length-bytes_to_words 256 x v.size) in
      let there : sector_of (write_words p ws h2) j ≡ (if lba == j then x else sector_of h j) =
        ap (λ t. sector_bytes (t j)) sent
        ∙ ap (λ a. sector_bytes (if a == j then (λ i. get_or ws i 0) else (k.view h).sectors j))
            (address-aimed lba (k.view h) lt)
        ∙ if_under sector_bytes (lba == j) (λ i. get_or ws i 0) ((k.view h).sectors j)
        ∙ ap (λ y. if lba == j then y else sector_of h j) (sector_bytes-bytes_to_words x v) in
      if_both R (ata_wait_ready p h).0
        (λ _.
          if_both R (ata_wait_drq p (select p 0x30 lba (ata_wait_ready p h).1)).0 (λ _. there)
            (λ _. s2))
        (λ _. s1)

  write_hit :
      (lba : ℕ) (x : List ℕ) (h : p.State)
      → lba < lba_limit
      → IsSector x
      → (ata_write_sector p lba x h).0 ≡ true
      → sector_of (ata_write_sector p lba x h).1 lba ≡ x
  write_hit lba x h lt v e =
      write_lem lba x h lba lt v
      ∙ ap (λ b. if b then (if lba == lba then x else sector_of h lba) else sector_of h lba) e
      ∙ if_eq lba lba x (sector_of h lba) refl

  -- No write touches another sector, whatever is in the buffer.
  write_miss :
      (lba : ℕ) (x : List ℕ) (h : p.State) (j : ℕ)
      → lba < lba_limit
      → lba ≢ j
      → sector_of (ata_write_sector p lba x h).1 j ≡ sector_of h j
  unfolding ata_write_sector
  write_miss lba x h j lt ne =
      let h2 : p.State = (ata_wait_drq p (select p 0x30 lba (ata_wait_ready p h).1)).1 in
      let ws : List ℕ = bytes_to_words x in
      let d : AtaDrive = record (aimed lba (k.view h)) { taken = [] } in
      let R : Bool × p.State → Type 0 = λ r. (k.view r.1).sectors j ≡ (k.view h).sectors j in
      let sent : (k.view (write_words p ws h2)).sectors j ≡ (k.view h).sectors j =
        ap (λ (e : AtaDrive). e.sectors j)
          (view-write_words p k ws h2 ∙ ap (accept ws) (asked_for p k 0x30 lba h))
        ∙ accept-other ws d j (λ e. ne (sym (address-aimed lba (k.view h) lt) ∙ e)) in
      ap sector_bytes (
        if_both R (ata_wait_ready p h).0
          (λ _.
            if_both R (ata_wait_drq p (select p 0x30 lba (ata_wait_ready p h).1)).0 (λ _. sent)
              (λ _. ap (λ (e : AtaDrive). e.sectors j) (asked_for p k 0x30 lba h)))
          (λ _. ap (λ (e : AtaDrive). e.sectors j) (view-ata_wait_ready p k h)))

  -- The driver on such a drive is a disk, as the file systems expect it.
  ata_device-IsDisk : (junk : List ℕ) → IsDisk (ata_device p junk)
  unfolding ata_device
  ata_device-IsDisk junk = record {
    sector = sector_of;
    sector-IsSector = λ h l. sector_bytes-IsSector ((k.view h).sectors l);
    read-sector = λ l h lt e. read_lem junk l h lt e;
    sector-read = λ l h j. read_keeps junk l h j;
    sector-write = λ l x h lt v e. write_hit l x h lt v e;
    sector-write_ne = λ l x h j lt _ ne. write_miss l x h j lt ne;
  }
