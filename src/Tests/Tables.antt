-- ===== src/Tests/Tables.antt =====
-- The allocation table on a disk that was not written to, and the page tables.
use alderkernel.Prelude.{
  ℕ, ◌*◌, ◌%◌, ◌^◌, ◌<◌, ◌≡◌, ◌⊎◌, refl, none, some, [], ◌==◌, ltb, if◌then◌else◌, arith,
}
use alderkernel.Disk.{lba_limit}
use alderkernel.Disk.Ram.{ram, ram-IsDisk}
use alderkernel.Fat16.{Volume}
use alderkernel.Fat16.Format.Geometry.{formatted}
use alderkernel.Fat16.Fat.{fat_write_entry, fat_alloc_cluster}
use alderkernel.Fat16.Fat.Entries.{IsVolume, IsReliable}
use alderkernel.Fat16.Fat.Write.{entry, Outside, fat_write_entry_lem}
use alderkernel.Fat16.Fat.Alloc.{Taken, IsFull, fat_alloc_cluster_lem}
use alderkernel.Paging.{Paging, paging_init}
use alderkernel.Paging.Walk.{translate, translate-paging_init}

abbrev volume : Volume
volume = formatted 2048

volume-IsVolume : IsVolume volume
volume-IsVolume = record { sectors = refl; size = omega arith; tables = omega arith }

ram-IsReliable : IsReliable ram
unfolding ram
ram-IsReliable = record { reads = λ l s. refl; writes = λ l x s. refl }

new_disk : ram.State
unfolding ram
new_disk = λ _. []

fat_write_entry_lem_example :
    ((b e : ℕ)
      → b < volume.num_fats
      → e < volume.fat_size_sectors * 256
      → entry ram ram-IsDisk ram-IsReliable volume-IsVolume
          (fat_write_entry ram volume 300 0x12345 new_disk)
          b
          e
        ≡ (if e == 300
            then 0x12345 % 2 ^ 16
            else entry ram ram-IsDisk ram-IsReliable volume-IsVolume new_disk b e))
    × ((j : ℕ)
        → j < lba_limit
        → Outside ram ram-IsDisk ram-IsReliable volume-IsVolume j
        → ram-IsDisk.sector (fat_write_entry ram volume 300 0x12345 new_disk) j
          ≡ ram-IsDisk.sector new_disk j)
fat_write_entry_lem_example =
    fat_write_entry_lem ram ram-IsDisk ram-IsReliable volume-IsVolume 300 0x12345 new_disk
      (omega arith)

fat_alloc_cluster_lem_example :
    ((c : ℕ) × Taken ram ram-IsDisk ram-IsReliable volume-IsVolume new_disk
        (fat_alloc_cluster ram volume new_disk)
        2
        c)
    ⊎ IsFull ram ram-IsDisk ram-IsReliable volume-IsVolume new_disk
        (fat_alloc_cluster ram volume new_disk)
        2
fat_alloc_cluster_lem_example =
    fat_alloc_cluster_lem ram ram-IsDisk ram-IsReliable volume-IsVolume new_disk (omega arith)
      (omega arith)

abbrev unpaged : Paging
unpaged = record { page_directory = λ _. 0; page_tables = λ _ _. 0; cr3 = none }

translate-paging_init_example :
    translate 0x101000 (paging_init 0x100000 0x101000 unpaged) 0x7654321
    ≡ (if ltb 0x7654321 (128 * 1024 * 1024) then some 0x7654321 else none)
translate-paging_init_example =
    translate-paging_init 0x100000 0x101000 unpaged 0x7654321 (omega arith) (omega arith)
      (omega arith)
