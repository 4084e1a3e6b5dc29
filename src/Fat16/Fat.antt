-- ===== src/Fat16/Fat.antt =====
-- The file allocation table: `fat_read_entry`, `fat_write_entry` and `fat_alloc_cluster`. None of
-- them looks at what the device reports; a buffer that a failed read leaves is the device's.
pub mod Entries
pub mod Write
pub mod Alloc
use alderkernel.Prelude.{
  ℕ, zero, suc, ◌+◌, ◌-◌, ◌*◌, ◌/◌, ◌%◌, ◌^◌, Bool, true, false, List, [], ◌∷◌, ◌==◌, if◌then◌else◌,
  get_or, store, byte, le16, add32, mul32,
}
use alderkernel.Disk.{Device}
use alderkernel.Fat16.{Volume, M, pure, ◌>>=◌}

-- Where the entry of a cluster stands: its sector within a FAT, and the offset in that sector.
unfoldable pub entry_sector : Volume → ℕ → ℕ
entry_sector vol cluster = mul32 cluster 2 / vol.bytes_per_sector

unfoldable pub entry_offset : Volume → ℕ → ℕ
entry_offset vol cluster = mul32 cluster 2 % vol.bytes_per_sector

-- The start of a copy of the FAT.
unfoldable pub fat_base : Volume → ℕ → ℕ
fat_base vol copy = add32 vol.fat_start (mul32 copy vol.fat_size_sectors)

-- The two bytes of a value, put into a sector.
unfoldable pub patch : ℕ → ℕ → List ℕ → List ℕ
patch offset value sector = store sector offset (byte value 0 ∷ byte value 8 ∷ [])

unfoldable pub max_cluster : Volume → ℕ
max_cluster vol = mul32 vol.fat_size_sectors vol.bytes_per_sector / 2

module _ (d : Device) (vol : Volume) where
  open d use {State, read_sector, write_sector}

  unfoldable pub fat_read_entry : ℕ → M State ℕ
  fat_read_entry cluster s =
      let (ok, sector, s1) = read_sector (add32 vol.fat_start (entry_sector vol cluster)) s in
      let offset = entry_offset vol cluster in
      (le16 (get_or sector offset 0) (get_or sector (offset + 1) 0), s1)

  -- The body of the loop over the copies.
  unfoldable pub write_copy : ℕ → ℕ → ℕ → State → State
  write_copy copy cluster value s =
      let lba = add32 (fat_base vol copy) (entry_sector vol cluster) in
      let (ok, sector, s1) = read_sector lba s in
      (write_sector lba (patch (entry_offset vol cluster) value sector) s1).1

  -- for (copy = …; copy < num_fats; copy++) with `n` rounds left
  unfoldable pub write_copies : ℕ → ℕ → ℕ → ℕ → State → State
  write_copies zero copy cluster value s = s
  write_copies (suc n) copy cluster value s =
      write_copies n (copy + 1) cluster value (write_copy copy cluster value s)

  -- `value` is an `unsigned short`.
  unfoldable pub fat_write_entry : ℕ → ℕ → State → State
  fat_write_entry cluster value s = write_copies vol.num_fats 0 cluster (value % 2 ^ 16) s

  -- for (c = …; c < max_cluster; c++) with `n` rounds left; 0 is failure.
  unfoldable pub alloc_from : ℕ → ℕ → M State ℕ
  alloc_from zero c s = (0, s)
  alloc_from (suc n) c s =
      let (entry, s1) = fat_read_entry c s in
      let rest = alloc_from n (c + 1) s1 in
      if entry == 0 then (c, fat_write_entry c 0xffff s1) else rest

  unfoldable pub fat_alloc_cluster : M State ℕ
  fat_alloc_cluster s = alloc_from (max_cluster vol - 2) 2 s
