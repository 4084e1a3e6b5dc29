-- ===== src/Tests/Places.antt =====
-- A tree of two directories, a drive in memory, and an empty interrupt table.
use alderkernel.Prelude.{
  ℕ, zero, suc, ◌≤◌, ◌<◌, ◌≡◌, ◌≢◌, refl, ap, ◌∙◌, sym, true, false, ◌&&◌, some, List, [], ◌∷◌,
  ◌==◌, leb, ltb, if◌then◌else◌, if_eq, if_ne, get_or, replicate, length-replicate, codes, arith,
}
use native.Mathlib.Decide.{ℕ_discrete}
use alderkernel.Console.{Console, say}
use alderkernel.Vfs.{Allocator, Node, dir, Vfs}
use alderkernel.Shell.Files.{command_cd, command_pwd}
use alderkernel.Shell.Files.Paths.{
  IsChild, Located, top, below, IsTree, walk, enters, show_path, Located-command_cd,
  command_pwd_lem,
}
use alderkernel.Disk.{lba_limit}
use alderkernel.Disk.Ram.{ram, ram-IsDisk}
use alderkernel.Mbr.{mbr_write_partition}
use alderkernel.Fat16.Format.{can_format, write_all, write_fat, fat16_format}
use alderkernel.Fat16.Format.Geometry.{formatted}
use alderkernel.Shell.Disks.{Drive, Machine, do_mkpart, do_mkfs, mount_fat16_partition}
use alderkernel.Shell.Disks.Making.{IsDrive, mount-do_mkfs}
use alderkernel.Pmm.{Pmm}
use alderkernel.Heap.{Heap}
use alderkernel.Fat16.{Fs}
use alderkernel.Idt.{Idt, no_gate, idt_init}
use alderkernel.Idt.Gates.{IsGate, idt_init_lem}

abbrev pub no_memory : Allocator
no_memory = record { State = ℕ; kmalloc = λ n s. (0, s) }

abbrev screen : Console
screen = record { video = replicate 2000 0x0f20; cursor_index = 0; outs = [] }

abbrev root : Node
root = record {
  name = codes "/";
  kind = dir;
  parent = 0;
  children = 0x2000 ∷ [];
  child_count = 1;
  content = [];
}

abbrev kernel : Node
kernel = record {
  name = codes "kernel";
  kind = dir;
  parent = 0x1000;
  children = [];
  child_count = 0;
  content = [];
}

-- The working directory is /kernel.
abbrev pub tree : Vfs no_memory
tree = record {
  heap = 0;
  nodes = λ q. if q == 0x1000 then root else kernel;
  vfs_root = 0x1000;
  vfs_cwd = 0x2000;
}

only_kid : (j c : ℕ) → j < 1 → get_or (0x2000 ∷ []) j 0 ≡ c → c ≡ 0x2000
only_kid zero c h e = sym e
only_kid (suc j) c h e = absurd (omega arith)

only_child : (p c : ℕ) → IsChild no_memory tree p c → (p ≡ 0x1000) × (c ≡ 0x2000)
only_child p c (j, lt, at) = elim (ℕ_discrete p 0x1000) [
  | yes e ↦
      let here : tree.nodes p ≡ root = if_eq p 0x1000 root kernel e in
      (
        e,
        only_kid j c (omega (arith, ap (λ (n : Node). n.child_count) here))
            (sym (ap (λ (n : Node). get_or n.children j 0) here) ∙ at),
      )
  | no ne ↦ absurd (omega (arith, ap (λ (n : Node). n.child_count) (if_ne p 0x1000 root kernel ne)))
]

tree-IsTree : IsTree no_memory tree
tree-IsTree = record {
  root_not_null = omega arith;
  root_parent = refl;
  child_not_null = λ p c path l k. omega (arith, (only_child p c k).1);
  child_parent = λ p c path l k.
      ap (λ q. (tree.nodes q).parent) (only_child p c k).1 ∙ sym (only_child p c k).0;
}

at_kernel : Located no_memory tree 0x2000 (codes "kernel" ∷ [])
at_kernel = below 0x2000 (top 0x1000 refl) (0, omega arith, refl) (codes "kernel") refl

Located-command_cd_example :
    Located no_memory tree (command_cd no_memory (some (codes "..")) tree screen).0.vfs_cwd (
      walk no_memory
        (some (codes ".."))
        (enters no_memory (some (codes "..")) tree)
        (codes "kernel" ∷ []))
Located-command_cd_example =
    Located-command_cd no_memory (some (codes "..")) screen (codes "kernel" ∷ []) tree-IsTree
      at_kernel

command_pwd_lem_example :
    command_pwd no_memory 2 tree screen
    ≡ some (say "\n" (show_path no_memory (codes "kernel" ∷ []) screen))
command_pwd_lem_example =
    command_pwd_lem no_memory 2 screen (codes "kernel" ∷ []) tree-IsTree at_kernel (omega arith)

abbrev no_table : Idt
no_table = record {
  entries = replicate 256 no_gate;
  idtp = record { limit = 0; base = 0 };
  idtr = record { limit = 0; base = 0 };
}

abbrev stub : ℕ → ℕ
stub v = 0x101000

idt_init_lem_example :
    ((v : ℕ)
      → v < 32
      → IsGate (get_or (idt_init stub 0x102000 0x3000 no_table).entries v no_gate) (stub v))
    × IsGate (get_or (idt_init stub 0x102000 0x3000 no_table).entries 33 no_gate) 0x102000
    × ((v : ℕ)
        → 32 ≤ v
        → v < 256
        → v ≢ 33
        → get_or (idt_init stub 0x102000 0x3000 no_table).entries v no_gate ≡ no_gate)
    × ((idt_init stub 0x102000 0x3000 no_table).idtp ≡ record { limit = 2047; base = 0x3000 })
    × ((idt_init stub 0x102000 0x3000 no_table).idtr ≡ record { limit = 2047; base = 0x3000 })
idt_init_lem_example =
    idt_init_lem stub 0x102000 0x3000 no_table (length-replicate 256 no_gate) (λ v. omega arith)
      (omega arith)

-- A drive of 300000 sectors that never fails.
abbrev pub disk : Drive
disk = record { device = ram; identify = λ c s. (true, 300000, s) }

same_sector : (s : ram.State) (j : ℕ) → ram-IsDisk.sector s j ≡ ram-IsDisk.sector s j
same_sector s j = refl

disk-IsDrive : IsDrive disk
disk-IsDrive = record {
  disk = ram-IsDisk;
  sector-identify = λ c s j. same_sector s j;
  total_in = λ c s. omega arith;
}

abbrev no_pages : Pmm
no_pages = record { bitmap = []; free_pages_count = 0 }

abbrev no_heap : Heap
no_heap = record {
  mem = λ p. record { size = 0; free = false; next = 0; prev = 0 };
  heap_head = 0;
  used_bytes = 0;
  free_bytes = 0;
  pmm = no_pages;
}

abbrev unmounted : Fs
unmounted = record {
  vol = record {
    partition_lba = 0;
    bytes_per_sector = 0;
    sectors_per_cluster = 0;
    reserved_sectors = 0;
    num_fats = 0;
    root_entries = 0;
    fat_size_sectors = 0;
    root_dir_sectors = 0;
    fat_start = 0;
    root_start = 0;
    data_start = 0;
  };
  mounted = false;
}

pub blank_disk : ram.State
unfolding ram
blank_disk = λ l. []

abbrev pub machine : Machine disk
machine = record {
  console = screen;
  heap = no_heap;
  fs = unmounted;
  total_sectors_cache = 0;
  drive = blank_disk;
  memory = λ p. 0;
}

mkpart_done : (do_mkpart disk machine).0 ≡ some (2048, 297952)
unfolding do_mkpart mbr_write_partition ram
mkpart_done = refl

write_done : (n l : ℕ) (x : List ℕ) (s : ram.State) → (write_all ram n l x s).0 ≡ true
unfolding write_all ram
write_done zero l x s = refl
write_done (suc n) l x s = write_done n _ x _

can_format_part : can_format 297952 ≡ true
unfolding can_format
can_format_part = ground arith

mkfs_done : (do_mkfs disk 2048 297952 (do_mkpart disk machine).1).0 ≡ true
unfolding do_mkfs ram fat16_format write_fat
mkfs_done = simp (can_format_part, write_done)

always_read : (l : ℕ) (s : ram.State) → (ram.read_sector l s).0 ≡ true
unfolding ram
always_read l s = refl

mount-do_mkfs_example :
    ((mount_fat16_partition disk (do_mkfs disk 2048 297952 (do_mkpart disk machine).1).1).0 ≡ true)
    × ((mount_fat16_partition disk (do_mkfs disk 2048 297952 (do_mkpart disk machine).1).1).1.fs
        ≡ record { vol = formatted 2048; mounted = true })
    × ((j : ℕ)
        → 0 < j
        → j < lba_limit
        → (leb 2048 j && ltb j 2593) ≡ false
        → disk-IsDrive.disk.sector (do_mkfs disk 2048 297952 (do_mkpart disk machine).1).1.drive j
          ≡ disk-IsDrive.disk.sector blank_disk j)
mount-do_mkfs_example =
    mount-do_mkfs disk disk-IsDrive machine mkpart_done mkfs_done (always_read 0 _)
      (always_read 2048 _)
