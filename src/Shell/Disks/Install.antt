-- ===== src/Shell/Disks/Install.antt =====
-- The installer, `command_install` of kernel/shell/sysinfo_commands.c.
use Prim.Native.String.{String}
use alderkernel.Prelude.{
  ℕ, Bool, true, false, not, Option, none, some, List, [], if◌then◌else◌, codes, ◌|>◌,
}
use alderkernel.Fat16.Format.{fat16_mount}
use alderkernel.Fat16.Dir.{fat16_mkdir_root}
use alderkernel.Fat16.File.{fat16_create_file_in_dir}
use alderkernel.Console.{print_uint, say}
use alderkernel.Util.{str_len}
use alderkernel.Shell.Disks.{Drive, Machine, print, do_mkpart, do_mkfs}

module _ (k : Drive) where
  -- Part 4 of the installer: a directory, its file, and the message; `none` where the write of a file
  -- ran out of fuel. The C function returns early where the first part is false.
  unfoldable pub install_directory :
      List ℕ
      → String
      → Option (List ℕ × List ℕ × List ℕ)
      → String
      → Machine k
      → Option (Bool × Machine k)
  install_directory name failure placeholder done m =
      let (r, s1) = fat16_mkdir_root k.device m.fs name [] m.drive in
      let m1 = record m { drive = s1 } in
      elim r [
        | none ↦ some (false, print k (say failure) m1)
        | some cluster ↦ elim placeholder [
          | none ↦ some (true, print k (say done) m1)
          | some f ↦
              let (stored, s2) =
                fat16_create_file_in_dir k.device m.fs cluster f.0 f.1 f.2 (str_len f.2) s1 in
              elim stored [
                | none ↦ none
                | some _ ↦ some (true, print k (say done) (record m1 { drive = s2 }))
              ]
        ]
      ]

  -- The rest is done where the part before gave true.
  unfoldable pub and_then :
      Option (Bool × Machine k)
      → (Machine k → Option (Bool × Machine k))
      → Option (Bool × Machine k)
  and_then none f = none
  and_then (some (false, m)) f = some (false, m)
  and_then (some (true, m)) f = f m

  unfoldable pub install_tree : Machine k → Option (Bool × Machine k)
  install_tree m =
      and_then
        (and_then
          (and_then
            (install_directory (codes "APPS") "Failed to create /apps\n" none "      /apps\n" m)
            (install_directory (codes "KERNEL") "Failed to create /kernel\n"
              (some (
                codes "KERNEL",
                codes "ELF",
                codes "AlderKernel kernel.elf placeholder - no ELF loader yet.\n",
              ))
              "      /kernel/kernel.elf\n"))
          (install_directory (codes "SHELL") "Failed to create /shell\n"
            (some (
              codes "ZSLASH",
              codes "ELF",
              codes "zSlash zslash.elf placeholder - no ELF loader yet.\n",
            ))
            "      /shell/zslash.elf\n"))
        (install_directory (codes "SYSTEM") "Failed to create /system\n"
          (some (
            codes "README",
            codes "TXT",
            codes "AlderKernel FAT16 disk - installed via 'install'.\n",
          ))
          "      /system/readme.txt\n")

  -- From the mount on, for a partition from `start`.
  unfoldable pub install_on : ℕ → Machine k → Option (Machine k)
  install_on start m =
      let ((ok, fs), s1) = fat16_mount k.device start m.fs m.drive in
      let m1 = record m { fs = fs; drive = s1 } in
      if not ok
      then some
          (print k (say "Install failed: mount failed right after formatting (unexpected).\n") m1)
      else elim (install_tree (print k (say "[4/4] Creating directory structure...\n") m1)) [
        | none ↦ none
        | some r ↦
            if r.0
            then some (
                r.1
                |> print k (say "=== Install complete. ===\n")
                |> print k (say "Next: on the HOST, run tools/install_to_disk.sh to install\n")
                |> print k (say "GRUB and copy kernel.bin, making this disk directly bootable.\n"))
            else some r.1
      ]

  unfoldable pub command_install : Machine k → Option (Machine k)
  command_install m =
      let (r, m1) =
        m
        |> print k (say "=== AlderKernel Installer ===\n")
        |> print k (say "WARNING: this ERASES the attached disk.\n")
        |> print k (say "[1/4] Partitioning disk...\n")
        |> do_mkpart k in
      elim r [
        | none ↦ some (
            print k (say "Install failed: could not partition disk (no drive, or too small).\n") m1)
        | some p ↦
            let (ok, m2) =
              m1
              |> print k (say "      start_lba=")
              |> print k (print_uint p.0)
              |> print k (say " sectors=")
              |> print k (print_uint p.1)
              |> print k (say "\n")
              |> print k (say "[2/4] Formatting as FAT16...\n")
              |> do_mkfs k p.0 p.1 in
            if ok
            then install_on p.0 (print k (say "[3/4] Mounting filesystem...\n") m2)
            else some (print k (say "Install failed: FAT16 format failed.\n") m2)
      ]
