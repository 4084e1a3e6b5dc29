-- ===== src/Fat16/Format.antt =====
-- `fat16_format` and `fat16_mount`.
pub mod Geometry
use alderkernel.Prelude.{
  ℕ, zero, suc, ◌+◌, ◌-◌, ◌*◌, ◌/◌, ◌%◌, ◌^◌, Bool, true, false, ◌||◌, ◌&&◌, not, List, [], ◌∷◌,
  ◌++◌, ◌==◌, ltb, leb, if◌then◌else◌, get_or, store, byte, le16, add32, sub32, mul32,
}
use alderkernel.Disk.{Device}
use alderkernel.Fat16.{Volume, Fs, M, when_ok, zero_sector}

-- RESERVED_SECTORS + NUM_FATS * FAT_SIZE_SECTORS + ROOT_DIR_SECTORS
abbrev pub non_data_sectors : ℕ
non_data_sectors = 1 + 2 * 256 + 32

abbrev pub cluster_count : ℕ → ℕ
cluster_count sector_count = (sector_count - non_data_sectors) / 64

-- The checks before anything is written.
unfoldable pub can_format : ℕ → Bool
can_format sector_count =
    if leb sector_count non_data_sectors
    then false
    else not (ltb (cluster_count sector_count) 4085 || ltb 65524 (cluster_count sector_count))

-- Bytes 0 to 61 of the boot sector, in their order.
unfoldable pub boot_header : ℕ → ℕ → List ℕ
boot_header partition_lba sector_count =
    (0xeb ∷ 0x3c ∷ 0x90 ∷ [])
    ++ (b'A' ∷ b'L' ∷ b'D' ∷ b'E' ∷ b'R' ∷ b'K' ∷ b'R' ∷ b'N' ∷ [])
    ++ (byte 512 0 ∷ byte 512 8 ∷ 64 ∷ byte 1 0 ∷ byte 1 8 ∷ 2 ∷ byte 512 0 ∷ byte 512 8 ∷ [])
    ++ (0 ∷ 0 ∷ 0xf8 ∷ byte 256 0 ∷ byte 256 8 ∷ 63 ∷ 0 ∷ 255 ∷ 0 ∷ [])
    ++ (byte partition_lba 0
        ∷ byte partition_lba 8
        ∷ byte partition_lba 16
        ∷ byte partition_lba 24
        ∷ [])
    ++ (byte sector_count 0
        ∷ byte sector_count 8
        ∷ byte sector_count 16
        ∷ byte sector_count 24
        ∷ [])
    ++ (0x80 ∷ 0 ∷ 0x29 ∷ 0x78 ∷ 0x56 ∷ 0x34 ∷ 0x12 ∷ [])
    ++ (b'A' ∷ b'L' ∷ b'D' ∷ b'E' ∷ b'R' ∷ b'K' ∷ b'R' ∷ b'N' ∷ b'L' ∷ b' ' ∷ b' ' ∷ [])
    ++ (b'F' ∷ b'A' ∷ b'T' ∷ b'1' ∷ b'6' ∷ b' ' ∷ b' ' ∷ b' ' ∷ [])

unfoldable pub boot_sector : ℕ → ℕ → List ℕ
boot_sector partition_lba sector_count =
    store (store zero_sector 0 (boot_header partition_lba sector_count)) 510 (0x55 ∷ 0xaa ∷ [])

-- The first sector of each FAT: the two reserved entries.
unfoldable pub fat_head : List ℕ
fat_head = store zero_sector 0 (0xf8 ∷ 0xff ∷ 0xff ∷ 0xff ∷ [])

-- The fields that `fat16_mount` takes from the boot sector, over the volume that was there.
unfoldable pub read_fields : Volume → ℕ → List ℕ → Volume
read_fields vol partition_lba sector = record vol {
  partition_lba = partition_lba;
  bytes_per_sector = le16 (get_or sector 11 0) (get_or sector 12 0);
  sectors_per_cluster = get_or sector 13 0;
  reserved_sectors = le16 (get_or sector 14 0) (get_or sector 15 0);
  num_fats = get_or sector 16 0;
  root_entries = le16 (get_or sector 17 0) (get_or sector 18 0);
  fat_size_sectors = le16 (get_or sector 22 0) (get_or sector 23 0);
}

-- The fields that it computes from them.
unfoldable pub locate : Volume → Volume
locate vol =
    let root_dir_sectors =
      sub32 (add32 (mul32 vol.root_entries 32) vol.bytes_per_sector) 1 / vol.bytes_per_sector in
    let fat_start = add32 vol.partition_lba vol.reserved_sectors in
    let root_start = add32 fat_start (mul32 vol.num_fats vol.fat_size_sectors) in
    record vol {
      root_dir_sectors = root_dir_sectors;
      fat_start = fat_start;
      root_start = root_start;
      data_start = add32 root_start root_dir_sectors;
    }

unfoldable pub has_boot_signature : List ℕ → Bool
has_boot_signature sector = get_or sector 510 0 == 0x55 && get_or sector 511 0 == 0xaa

module _ (d : Device) where
  open d use {State, read_sector, write_sector}

  -- for (i = …; …; i++) ata_write_sector(base + i, sector), with `n` rounds left
  unfoldable pub write_all : ℕ → ℕ → List ℕ → M State Bool
  write_all zero lba sector s = (true, s)
  write_all (suc n) lba sector s =
      let (ok, s1) = write_sector lba sector s in
      let rest = write_all n (add32 lba 1) sector s1 in if ok then rest else (false, s1)

  unfoldable pub write_fat : ℕ → M State Bool
  write_fat base = when_ok (write_sector base fat_head) (write_all 255 (add32 base 1) zero_sector)

  unfoldable pub fat16_format : ℕ → ℕ → M State Bool
  fat16_format partition_lba sector_count s =
      let fat_start = add32 partition_lba 1 in
      if can_format sector_count
      then when_ok (write_sector partition_lba (boot_sector partition_lba sector_count))
          (when_ok (write_fat fat_start) (
            when_ok (write_fat (add32 fat_start 256))
              (write_all 32 (add32 fat_start 512) zero_sector)))
          s
      else (false, s)

  -- A mount that fails late has changed `vol` already.
  unfoldable pub fat16_mount : ℕ → Fs → M State (Bool × Fs)
  fat16_mount partition_lba fs s =
      let (ok, sector, s1) = read_sector partition_lba s in
      let vol = read_fields fs.vol partition_lba sector in
      if not ok
      then ((false, fs), s1)
      else if not (has_boot_signature sector)
      then ((false, fs), s1)
      else if vol.bytes_per_sector == 0 || vol.sectors_per_cluster == 0
      then ((false, record fs { vol = vol }), s1)
      else ((true, record { vol = locate vol; mounted = true }), s1)
