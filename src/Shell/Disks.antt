-- ===== src/Shell/Disks.antt =====
-- The commands on the disk, kernel/shell/sysinfo_commands.c: mkpart, mkfs and
-- the mount. The state is that of the console, the heap, the mounted volume, the drive and the memory.
pub mod Install
pub mod Files
pub mod Making
use Prim.Native.String.{String}
use alderkernel.Prelude.{
  ℕ, zero, suc, ◌+◌, ◌-◌, Bool, true, false, not, ◌&&◌, ◌||◌, Option, none, some, List, [], ◌∷◌,
  ◌==◌, leb, ltb, if◌then◌else◌, get_or, set, take, drop, length, replicate, codes, bit_and, add32,
  ◌|>◌, ℤ, pos, negsuc,
}
use alderkernel.Disk.{Device}
use alderkernel.Mbr.{Partition, mbr_read_partitions, mbr_write_partition}
use alderkernel.Fat16.{Fs}
use alderkernel.Fat16.Format.{fat16_format, fat16_mount}
use alderkernel.Fat16.Dir.{
  Dirent, fat16_list_root, fat16_list_dir, fat16_find_in_root, fat16_find_in_dir, fat16_mkdir_root,
}
use alderkernel.Fat16.File.{fat16_create_file_in_dir, fat16_read_file}
use alderkernel.Heap.{Heap, kmalloc, kfree}
use alderkernel.Console.{Console, print_text, print_uint, say}
use alderkernel.Util.{str_len}
use alderkernel.Elf.{Memory, poke, elf32_load_and_run}

-- The driver with its probe: `ata_identify` takes and gives the static `total_sectors_cache`.
pub record Drive : Type 1 where
  pub device : Device
  pub identify : ℕ → device.State → Bool × ℕ × device.State

module _ (k : Drive) where
  abbrev pub d : Device
  d = k.device

  pub record Machine : Type 0 where
    pub console : Console
    pub heap : Heap
    pub fs : Fs
    pub total_sectors_cache : ℕ
    pub drive : k.device.State
    pub memory : Memory

  abbrev pub print : (Console → Console) → Machine → Machine
  print f m = record m { console = f m.console }

  -- The start and the count of the partition, where the C function gives 1.
  unfoldable pub do_mkpart : Machine → Option (ℕ × ℕ) × Machine
  do_mkpart m =
      let (ok, total, s1) = k.identify m.total_sectors_cache m.drive in
      let m1 = record m { total_sectors_cache = total; drive = s1 } in
      let count = total - 2048 in
      let (done, s2) = mbr_write_partition k.device (pos 0) 1 0x06 2048 count s1 in
      if not ok
      then (none, m1)
      else if total == 0
      then (none, m1)
      else if leb total 2048
      then (none, m1)
      else if done
      then (some (2048, count), record m1 { drive = s2 })
      else (none, record m1 { drive = s2 })

  unfoldable pub do_mkfs : ℕ → ℕ → Machine → Bool × Machine
  do_mkfs start count m =
      let (ok, s1) = fat16_format k.device start count m.drive in (ok, record m { drive = s1 })

  unfoldable pub command_mkpart : Machine → Machine
  command_mkpart m =
      let (r, m1) = do_mkpart m in
      elim r [
        | none ↦ print (say "Failed to write partition table (no drive, or drive too small).\n") m1
        | some p ↦
            m1
            |> print (say "Partition table written: type=0x06 (FAT16) start_lba=")
            |> print (print_uint p.0)
            |> print (say " sectors=")
            |> print (print_uint p.1)
            |> print (say "\n")
      ]

  -- The partition that is formatted, with its index.
  unfoldable pub format_partition : ℕ → Partition → Machine → Machine
  format_partition i part m =
      let m1 =
        m
        |> print (say "Formatting partition ")
        |> print (print_uint i)
        |> print (say " as FAT16 (")
        |> print (print_uint part.sector_count)
        |> print (say " sectors)...\n") in
      let (ok, m2) = do_mkfs part.lba_start part.sector_count m1 in
      if ok
      then print (say "Format complete.\n") m2
      else print (say "Format failed (partition too small or invalid cluster count).\n") m2

  -- The loop of `command_mkfs` from partition `i` on.
  unfoldable pub format_from : ℕ → List Partition → Machine → Machine
  format_from i [] m = print (say "No FAT16 (type 0x06) partition found.\n") m
  format_from i (part ∷ parts) m =
      let rest = format_from (i + 1) parts m in
      if not (part.kind == 0x06) then rest else format_partition i part m

  unfoldable pub command_mkfs : Machine → Machine
  command_mkfs m =
      let ((parts, used), s1) = mbr_read_partitions k.device m.drive in
      let m1 = record m { drive = s1 } in
      if used == 0
      then print (say "No partition table found - run mkpart first.\n") m1
      else format_from 0 parts m1

  -- The loop of `mount_fat16_partition`.
  unfoldable pub mount_from : List Partition → Machine → Bool × Machine
  mount_from [] m = (false, m)
  mount_from (part ∷ parts) m =
      let rest = mount_from parts m in
      let ((ok, fs), s1) = fat16_mount k.device part.lba_start m.fs m.drive in
      if part.kind == 0x06 then (ok, record m { fs = fs; drive = s1 }) else rest

  unfoldable pub mount_fat16_partition : Machine → Bool × Machine
  mount_fat16_partition m =
      let ((parts, used), s1) = mbr_read_partitions k.device m.drive in
      let m1 = record m { drive = s1 } in if used == 0 then (false, m1) else mount_from parts m1
