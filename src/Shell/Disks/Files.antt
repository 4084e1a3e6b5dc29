-- ===== src/Shell/Disks/Files.antt =====
-- The commands on files of the disk, lsdisk, catdisk and runelf of kernel/shell/sysinfo_commands.c.
use alderkernel.Prelude.{
  ℕ, zero, suc, ◌+◌, Bool, not, Option, none, some, List, [], ◌∷◌, ◌==◌, ltb, if◌then◌else◌, get_or,
  take, drop, bit_and, add32, ◌|>◌, ℤ, pos, negsuc,
}
use alderkernel.Fat16.Dir.{
  Dirent, fat16_list_root, fat16_list_dir, fat16_find_in_root, fat16_find_in_dir,
}
use alderkernel.Fat16.File.{fat16_read_file}
use alderkernel.Heap.{kmalloc, kfree}
use alderkernel.Console.{Console, print_text, print_uint, say}
use alderkernel.Elf.{Memory, poke, elf32_load_and_run}
use alderkernel.Shell.Disks.{Drive, Machine, print, mount_fat16_partition}

-- The first part of a name with a dot, 8 characters of it at most, and 3 of what follows the dot.
unfoldable pub find_char : ℕ → List ℕ → Option ℕ
find_char x [] = none
find_char x (c ∷ s) =
    let rest = find_char x s in
    if c == 0
    then none
    else if c == x
    then some 0
    else elim rest [ none ↦ none | some i ↦ some (suc i) ]

unfoldable pub up_to_nul : List ℕ → List ℕ
up_to_nul [] = []
up_to_nul (c ∷ s) = let rest = up_to_nul s in if c == 0 then [] else c ∷ rest

unfoldable pub name_part : ℕ → List ℕ → List ℕ
name_part dot s = take 8 (take dot s)

unfoldable pub ext_part : ℕ → List ℕ → List ℕ
ext_part dot s = take 3 (up_to_nul (drop (dot + 1) s))

module _ (k : Drive) where
  -- `attr & 0x10`
  unfoldable pub is_directory : Dirent → Bool
  is_directory e = not (bit_and e.attr 0x10 == 0)

  unfoldable pub print_dirent : Dirent → Console → Console
  print_dirent e c =
      let c1 = say (if is_directory e then "  DIR   " else "  FILE  ") c |> print_text e.name in
      let c2 = if get_or e.ext 0 0 == 0 then c1 else (c1 |> say "." |> print_text e.ext) in
      let c3 =
        if is_directory e then c2 else (c2 |> say "  (" |> print_uint e.size |> say " bytes)") in
      say "\n" c3

  unfoldable pub print_dirents : List Dirent → Console → Console
  print_dirents [] c = c
  print_dirents (e ∷ es) c = print_dirents es (print_dirent e c)

  -- A listing, where `count` may be more than the 32 entries that were kept, or -1.
  unfoldable pub show_listing : List Dirent → ℤ → Machine k → Machine k
  show_listing entries (pos zero) m = print k (say "(empty)\n") m
  show_listing entries (pos (suc n)) m =
      print k (print_dirents (take (if ltb (suc n) 32 then suc n else 32) entries)) m
  show_listing entries (negsuc n) m = m

  unfoldable pub command_lsdisk : Option (List ℕ) → Machine k → Machine k
  command_lsdisk arg m =
      let (mounted, m1) = mount_fat16_partition k m in
      if not mounted
      then print k (say "No FAT16 partition mounted - run mkpart/mkfs first.\n") m1
      else elim arg [
        | none ↦
            let ((entries, count), s2) = fat16_list_root k.device m1.fs 32 m1.drive in
            show_listing entries count (record m1 { drive = s2 })
        | some name ↦
            let (r, s2) = fat16_find_in_root k.device m1.fs name [] m1.drive in
            let m2 = record m1 { drive = s2 } in
            let missing =
              m2
              |> print k (say "No such directory: ")
              |> print k (print_text name)
              |> print k (say "\n") in
            elim r [
              | none ↦ missing
              | some dir ↦
                  let ((entries, count), s3) =
                    fat16_list_dir k.device m2.fs dir.cluster 32 m2.drive in
                  if is_directory dir
                  then show_listing entries count (record m2 { drive = s3 })
                  else missing
            ]
      ]

  -- A file in the directory that the argument names before the slash.
  unfoldable pub find_below : List ℕ → ℕ → Machine k → Option Dirent × Machine k
  find_below arg slash m =
      let rest = drop (slash + 1) arg in
      let (r, s1) = fat16_find_in_root k.device m.fs (take slash arg) [] m.drive in
      elim r [
        | none ↦ (none, record m { drive = s1 })
        | some dir ↦
            let (name, ext) = elim (find_char b'.' rest) as (λ _. List ℕ × List ℕ) [
              | none ↦ (rest, [])
              | some dot ↦ (name_part dot rest, ext_part dot rest)
            ] in
            let (file, s2) = fat16_find_in_dir k.device m.fs dir.cluster name ext s1 in
            if is_directory dir
            then (file, record m { drive = s2 })
            else (none, record m { drive = s1 })
      ]

  -- A name with a dot in the root.
  unfoldable pub find_dotted : List ℕ → ℕ → Machine k → Option Dirent × Machine k
  find_dotted arg dot m =
      let (r, s1) =
        fat16_find_in_root k.device m.fs (name_part dot arg) (ext_part dot arg) m.drive in
      (r, record m { drive = s1 })

  unfoldable pub find_plain : List ℕ → Machine k → Option Dirent × Machine k
  find_plain arg m =
      let (r, s1) = fat16_find_in_root k.device m.fs arg [] m.drive in (r, record m { drive = s1 })

  -- catdisk looks for the whole name first, runelf only where it has no dot.
  unfoldable pub find_for_cat : List ℕ → Machine k → Option Dirent × Machine k
  find_for_cat arg m = elim (find_char b'/' arg) [
    | some slash ↦ find_below arg slash m
    | none ↦
        let (r, m1) = find_plain arg m in
        elim r [
          | some file ↦ (some file, m1)
          | none ↦ elim (find_char b'.' arg) [
            | none ↦ (none, m1)
            | some dot ↦ find_dotted arg dot m1
          ]
        ]
  ]

  unfoldable pub find_for_run : List ℕ → Machine k → Option Dirent × Machine k
  find_for_run arg m = elim (find_char b'/' arg) [
    | some slash ↦ find_below arg slash m
    | none ↦ elim (find_char b'.' arg) [
      | none ↦ find_plain arg m
      | some dot ↦ find_dotted arg dot m
    ]
  ]

  -- The bytes of memory from an address on, and a store of bytes there.
  unfoldable pub load_bytes : ℕ → ℕ → Memory → List ℕ
  load_bytes zero at mem = []
  load_bytes (suc n) at mem = mem at ∷ load_bytes n (add32 at 1) mem

  unfoldable pub store_bytes : List ℕ → ℕ → Memory → Memory
  store_bytes [] at mem = mem
  store_bytes (b ∷ bs) at mem = store_bytes bs (add32 at 1) (poke mem at b)

  -- `fat16_read_file(file.cluster, file.size, buf, file.size)`
  unfoldable pub read_into : Dirent → ℕ → Machine k → Option (Bool × Machine k)
  read_into file buf m =
      let (r, s1) =
        fat16_read_file k.device m.fs file.cluster file.size (load_bytes file.size buf m.memory)
          file.size m.drive in
      elim r [
        | none ↦ none
        | some x ↦ some (x.0, record m { drive = s1; memory = store_bytes x.1 buf m.memory })
      ]

  unfoldable pub release : ℕ → Machine k → Machine k
  release buf m = record m { heap = kfree buf m.heap }

  -- From the allocation of `size` bytes on: the buffer is read, used by `body`, and freed.
  unfoldable pub with_file :
      ℕ → ℕ → Dirent → (ℕ → Machine k → Machine k) → Machine k → Option (Machine k)
  with_file fuel size file body m = elim (kmalloc fuel size m.heap) [
    | none ↦ none
    | some r ↦
        let m1 = record m { heap = r.1 } in
        if r.0 == 0
        then some (print k (say "Out of heap memory.\n") m1)
        else elim (read_into file r.0 m1) [
          | none ↦ none
          | some x ↦
              if x.0
              then some (release r.0 (body r.0 x.1))
              else some (release r.0 (print k (say "Read failed.\n") x.1))
        ]
  ]

  -- `buf[file.size] = '\0'` and the output.
  unfoldable pub print_file : Dirent → ℕ → Machine k → Machine k
  print_file file buf m =
      let mem = poke m.memory (add32 buf file.size) 0 in
      record m { memory = mem }
      |> print k (print_text (load_bytes (file.size + 1) buf mem))
      |> print k (say "\n")

  unfoldable pub command_catdisk : ℕ → Option (List ℕ) → Machine k → Option (Machine k)
  command_catdisk fuel none m =
      some (print k (say "Usage: catdisk <file> or catdisk <dir>/<file>\n") m)
  command_catdisk fuel (some arg) m =
      let (mounted, m1) = mount_fat16_partition k m in
      let (r, m2) = find_for_cat arg m1 in
      if not mounted
      then some (print k (say "No FAT16 partition mounted - run mkpart/mkfs first.\n") m1)
      else elim r [
        | none ↦ some (print k (say "File not found.\n") m2)
        | some file ↦
            if file.size == 0
            then some (print k (say "(empty file)\n") m2)
            else with_file fuel (add32 file.size 1) file (print_file file) m2
      ]

  -- `run` is the call of the loaded code, `out_entry` the address of the loader's local variable.
  unfoldable pub run_file : (ℕ → Memory → Memory) → ℕ → Dirent → ℕ → Machine k → Machine k
  run_file run out_entry file buf m =
      let m1 =
        m
        |> print k (say "Loading ELF32 (")
        |> print k (print_uint file.size)
        |> print k (say " bytes)...\n") in
      let (ok, mem) = elf32_load_and_run run buf file.size out_entry m1.memory in
      let m2 = record m1 { memory = mem } in
      if ok
      then print k (say "Program returned.\n") m2
      else print k
          (say "ELF load failed: invalid header, unsupported format, or corrupt program headers.\n")
          m2

  unfoldable pub command_runelf :
      (ℕ → Memory → Memory) → ℕ → ℕ → Option (List ℕ) → Machine k → Option (Machine k)
  command_runelf run out_entry fuel none m =
      some (print k (say "Usage: runelf <file> or runelf <dir>/<file>\n") m)
  command_runelf run out_entry fuel (some arg) m =
      let (mounted, m1) = mount_fat16_partition k m in
      let (r, m2) = find_for_run arg m1 in
      if not mounted
      then some (print k (say "No FAT16 partition mounted - run mkpart/mkfs first.\n") m1)
      else elim r [
        | none ↦ some (print k (say "File not found.\n") m2)
        | some file ↦
            if file.size == 0
            then some (print k (say "Empty file - not a valid ELF.\n") m2)
            else with_file fuel file.size file (run_file run out_entry file) m2
      ]
