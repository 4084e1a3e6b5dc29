-- ===== src/Shell/Info.antt =====
-- The commands that report: uname, req-syscallop, memtest, meminfo, diskinfo and partinfo of
-- kernel/shell/sysinfo_commands.c. An argument that is `none` is a null pointer.
use alderkernel.Prelude.{
  ℕ, zero, suc, ◌+◌, ◌*◌, not, Option, none, some, List, [], ◌∷◌, ◌==◌, if◌then◌else◌, get_or,
  codes, add32, mul32, le16, ◌|>◌,
}
use alderkernel.Util.{strcmp, str_to_uint}
use alderkernel.Console.{Console, print_text, print_uint, print_hex, say}
use alderkernel.Pmm.{pmm_get_free_page_count, pmm_get_total_page_count}
use alderkernel.Heap.{Heap, heap_get_free_bytes, heap_get_used_bytes}
use alderkernel.Syscalls.{Outcome, syscall_dispatch}
use alderkernel.Mbr.{Partition, mbr_read_partitions}
use alderkernel.Shell.Disks.{Drive, Machine, print}

unfoldable pub command_uname : Option (List ℕ) → Console → Console
command_uname none c = say "AlderKernel\n" c
command_uname (some option) c =
    if strcmp option (codes "-s") == 0
    then say "AlderKernel\n" c
    else if strcmp option (codes "-r") == 0
    then say "0.3\n" c
    else if strcmp option (codes "-m") == 0
    then say "i386\n" c
    else if strcmp option (codes "-a") == 0
    then say "AlderKernel 0.3 i386 zSlash\n" c
    else (c |> say "uname: unrecognized option: " |> print_text option |> say "\n")

unfoldable pub command_req_syscallop : ℕ → Option (List ℕ) → Heap → Console → Outcome
command_req_syscallop fuel none h c =
    Outcome.returned h (say "Usage: req-syscallop <syscall number>\n" c)
command_req_syscallop fuel (some arg) h c =
    let syscall_num = str_to_uint arg in
    c
    |> say "Syscall requested: #"
    |> print_uint syscall_num
    |> say "\n"
    |> syscall_dispatch fuel syscall_num h

-- The physical memory under test: a word is written or read at an address.
pub record Ram : Type 1 where
  pub State : Type 0
  pub store32 : ℕ → ℕ → State → State
  pub load32 : ℕ → State → ℕ × State

abbrev pub memtest_base : ℕ
memtest_base = 0x400000

abbrev pub memtest_words : ℕ
memtest_words = 4096

module _ (r : Ram) where
  open r use {State, store32, load32}

  -- The loops over the words from index `i` on, with `n` left.
  unfoldable pub fill_words : ℕ → ℕ → ℕ → State → State
  fill_words zero i pattern s = s
  fill_words (suc n) i pattern s =
      fill_words n (i + 1) pattern (store32 (memtest_base + i * 4) pattern s)

  unfoldable pub count_failures : ℕ → ℕ → ℕ → ℕ → State → ℕ × State
  count_failures zero i pattern failures s = (failures, s)
  count_failures (suc n) i pattern failures s =
      let (word, s1) = load32 (memtest_base + i * 4) s in
      count_failures n (i + 1) pattern (if word == pattern then failures else add32 failures 1) s1

  unfoldable pub command_memtest : State → Console → State × Console
  command_memtest s c =
      let c1 =
        c
        |> say "Running memory test at "
        |> print_hex memtest_base
        |> say " ("
        |> print_uint (memtest_words * 4)
        |> say " bytes)...\n" in
      let (failures1, s1) =
        count_failures memtest_words 0 0xaaaaaaaa 0 (fill_words memtest_words 0 0xaaaaaaaa s) in
      let (failures2, s2) =
        count_failures memtest_words 0 0x55555555 failures1
          (fill_words memtest_words 0 0x55555555 s1) in
      (
        s2,
        (if failures2 == 0
            then say "Memory test PASSED.\n" c1
            else (c1
                |> say "Memory test FAILED - "
                |> print_uint failures2
                |> say " word mismatches.\n")),
      )

unfoldable pub command_meminfo : Heap → Console → Console
command_meminfo h c =
    c
    |> say "Physical memory: "
    |> print_uint (pmm_get_free_page_count h.pmm)
    |> say " / "
    |> print_uint (pmm_get_total_page_count h.pmm)
    |> say " pages free ("
    |> print_uint (mul32 (pmm_get_free_page_count h.pmm) 4)
    |> say " KB)\n"
    |> say "Heap: "
    |> print_uint (heap_get_free_bytes h)
    |> say " bytes free, "
    |> print_uint (heap_get_used_bytes h)
    |> say " bytes used\n"

-- The loop over the first bytes of the sector.
unfoldable pub print_bytes : ℕ → ℕ → List ℕ → Console → Console
print_bytes zero i sector c = c
print_bytes (suc n) i sector c =
    print_bytes n (i + 1) sector (c |> print_hex (get_or sector i 0) |> say " ")

unfoldable pub print_partition : ℕ → Partition → Console → Console
print_partition i part c =
    c
    |> say "Partition "
    |> print_uint i
    |> say ": type="
    |> print_hex part.kind
    |> say " bootable="
    |> print_uint part.bootable
    |> say " start_lba="
    |> print_uint part.lba_start
    |> say " sectors="
    |> print_uint part.sector_count
    |> say "\n"

-- The loop over the partitions from index `i` on.
unfoldable pub print_partitions : ℕ → List Partition → Console → Console
print_partitions i [] c = c
print_partitions i (part ∷ parts) c =
    print_partitions (i + 1) parts (if part.kind == 0 then c else print_partition i part c)

module _ (k : Drive) where
  unfoldable pub command_diskinfo : Machine k → Machine k
  command_diskinfo m =
      let m0 = print k (say "Probing primary ATA bus (master)...\n") m in
      let (present, total, s1) = k.identify m0.total_sectors_cache m0.drive in
      let m1 = record m0 { total_sectors_cache = total; drive = s1 } in
      let m2 = print k (say "Drive detected. Reading sector 0 (MBR)...\n") m1 in
      let (ok, sector, s2) = k.device.read_sector 0 m2.drive in
      let m3 = record m2 { drive = s2 } in
      if not present
      then print k (say "No drive detected.\n") m1
      else if not ok
      then print k (say "Read failed.\n") m3
      else (m3
          |> print k (say "First 16 bytes: ")
          |> print k (print_bytes 16 0 sector)
          |> print k (say "\n")
          |> print k (say "Boot signature (should be 0xAA55 at offset 510): ")
          |> print k (print_hex (le16 (get_or sector 510 0) (get_or sector 511 0)))
          |> print k (say "\n"))

  unfoldable pub command_partinfo : Machine k → Machine k
  command_partinfo m =
      let ((parts, used), s1) = mbr_read_partitions k.device m.drive in
      let m1 = record m { drive = s1 } in
      if used == 0
      then print k (say "No valid MBR found (disk is unpartitioned).\n") m1
      else print k (print_partitions 0 parts) m1
