-- ===== src/Mbr.antt =====
-- The partition table, kernel/fs/mbr.c: `mbr_read_partitions` and `mbr_write_partition` over a block
-- device. A sector is the list of its 512 bytes.
pub mod Entry
pub mod Table
use alderkernel.Prelude.{
  ℕ, zero, suc, ◌+◌, ◌*◌, ◌/◌, ◌%◌, ◌^◌, Bool, true, false, not, List, [], ◌∷◌, ◌==◌, ltb,
  if◌then◌else◌, get_or, replicate, store, byte, le16, le32, ℤ, pos, negsuc,
}
use alderkernel.Disk.{Device}

-- `mbr_partition_t`
pub record Partition : Type 0 where
  pub bootable : ℕ
  pub kind : ℕ
  pub lba_start : ℕ
  pub sector_count : ℕ

abbrev pub no_partition : Partition
no_partition = record { bootable = 0; kind = 0; lba_start = 0; sector_count = 0 }

-- Byte `k` of the entry at index `i`: MBR_PARTITION_TABLE_OFFSET is 446, MBR_ENTRY_SIZE is 16.
abbrev pub entry_byte : List ℕ → ℕ → ℕ → ℕ
entry_byte sector i k = get_or sector (446 + i * 16 + k) 0

-- `sector[510] | (sector[511] << 8)`
unfoldable pub signature : List ℕ → ℕ
signature sector = le16 (get_or sector 510 0) (get_or sector 511 0)

unfoldable pub parse_entry : List ℕ → ℕ → Partition
parse_entry sector i = record {
  bootable = if entry_byte sector i 0 == 0x80 then 1 else 0;
  kind = entry_byte sector i 4;
  lba_start =
      le32 (entry_byte sector i 8) (entry_byte sector i 9) (entry_byte sector i 10)
        (entry_byte sector i 11);
  sector_count =
      le32 (entry_byte sector i 12) (entry_byte sector i 13) (entry_byte sector i 14)
        (entry_byte sector i 15);
}

-- The loop over the entries: the four records and the number that are in use.
unfoldable pub parse_entries : ℕ → ℕ → List ℕ → List Partition × ℕ
parse_entries zero i sector = ([], 0)
parse_entries (suc n) i sector =
    let (parts, used) = parse_entries n (i + 1) sector in
    let part = parse_entry sector i in (part ∷ parts, (if part.kind == 0 then used else used + 1))

-- The 16 bytes of an entry.
unfoldable pub entry_bytes : ℕ → ℕ → ℕ → ℕ → List ℕ
entry_bytes bootable kind lba_start sector_count =
    (if bootable == 0 then 0x00 else 0x80)
    ∷ 0
    ∷ 0
    ∷ 0
    ∷ kind
    ∷ 0
    ∷ 0
    ∷ 0
    ∷ byte lba_start 0
    ∷ byte lba_start 8
    ∷ byte lba_start 16
    ∷ byte lba_start 24
    ∷ byte sector_count 0
    ∷ byte sector_count 8
    ∷ byte sector_count 16
    ∷ byte sector_count 24
    ∷ []

-- The sector that an update starts from: a clean one where there is no valid MBR yet.
unfoldable pub base_sector : List ℕ → List ℕ
base_sector sector = if signature sector == 0xaa55 then sector else replicate 512 0

unfoldable pub put_entry : List ℕ → ℕ → List ℕ → List ℕ
put_entry sector i entry =
    store (store (base_sector sector) (446 + i * 16) entry) 510 (0x55 ∷ 0xaa ∷ [])

module _ (d : Device) where
  open d use {State, read_sector, write_sector}

  unfoldable pub mbr_read_partitions : State → (List Partition × ℕ) × State
  mbr_read_partitions s =
      let (done, sector, s1) = read_sector 0 s in
      if done
      then (
        (if signature sector == 0xaa55
            then parse_entries 4 0 sector
            else (replicate 4 no_partition, 0)),
        s1,
      )
      else ((replicate 4 no_partition, 0), s1)

  unfoldable pub mbr_write_partition : ℤ → ℕ → ℕ → ℕ → ℕ → State → Bool × State
  mbr_write_partition (negsuc _) bootable kind lba_start sector_count s = (false, s)
  mbr_write_partition (pos i) bootable kind lba_start sector_count s =
      let (done, sector, s1) = read_sector 0 s in
      let entry = entry_bytes bootable kind lba_start sector_count in
      if ltb 3 i
      then (false, s)
      else if done
      then write_sector 0 (put_entry sector i entry) s1
      else (false, s1)
