-- ===== src/Lib.antt =====
-- AlderKernel: the parts of the kernel that manage memory, read the keyboard, print, load programs and
-- keep files on disk and in memory.
--
-- The parts, and the files that model them:
--   * The page allocator, kernel/mm/pmm.c: Pmm. Its state is the bitmap and the count of free pages;
--     every function of the source has its name here. Pmm/Bitmap and Pmm/Count are about single bits
--     and the number of clear ones, Pmm/Inv has the invariant, Pmm/Alloc and Pmm/Init the operations.
--   * The heap, kernel/mm/heap.c: Heap. The block headers are a store by address, and the heap calls
--     the page allocator for pages. Heap/Align, Heap/Alloc and Heap/Free follow its operations.
--     Heap/Chain reads the headers as a list of spans of memory, on which Heap/Taken and Heap/FirstFit
--     put `kmalloc`, Heap/Joined and Heap/Released `kfree`, and Heap/Start `heap_init`.
--   * The keyboard, kernel/drivers/ps2.c: Ps2, with the scan code tables in Ps2/Tables. Ps2/Queue reads
--     the ring as a list, Ps2/Handler has a description of the keyboard that the handler implements.
--   * The disk driver, kernel/drivers/ata.c: Ata, over an interface of port accesses. Its functions
--     `ata_read_sector` and `ata_write_sector` are the operations of the interface `Device` of Disk,
--     which the file systems take as a parameter; Disk states what a disk does (`IsDisk`), and
--     Disk/Ram is a device that does it. Ata/Drive describes a drive behind the ports, on which the
--     driver is such a disk (Ata/Steps, Ata/Transfer); Ata/Laws has what the driver sends. The driver
--     looks at no status after the last word of a write, and the drive of Ata/Drive stores each sector
--     it was sent.
--   * The partition table, kernel/fs/mbr.c: Mbr.
--   * FAT16, kernel/fs/fat16.c: Fat16 has the volume, Fat16/Format `fat16_format` and `fat16_mount`,
--     Fat16/Fat the allocation table (Fat16/Fat/Entries, Write and Alloc read the sectors as entries),
--     Fat16/Dir the directories, Fat16/File the contents of files.
--   * Paging, kernel/mm/paging.c: Paging, with the walk of the processor in Paging/Walk.
--   * The console, kernel/print.c: Console. Console/Screen has the invariant, Console/Sheet the endless
--     sheet that the screen is a window on, Console/Number the digits.
--   * The file tree in memory, kernel/fs/vfs.c: Vfs, over an allocator with the interface of `kmalloc`
--     (`Allocator`) as a parameter. Vfs/Names is about the name buffers, Vfs/Children about lookups.
--     Vfs/Memory has the kernel's heap as the allocator, with what the tree asks of it.
--   * The ELF loader, kernel/elf/elf32.c: Elf. The image stands in the memory that the loader writes to;
--     Elf/Bytes is about copies, Elf/Load about a round, Elf/Result about the whole.
--   * The shell's helpers, kernel/shell/util.c: Util; the choice of a command by its line,
--     kernel/shell/interpreter.c: Interpreter, where a command is a value.
--   * The shell, kernel/shell/shell.c: Shell has the line editor and the history (Shell/History), which
--     Shell/Editor compares with the editor of Shell/Abstract by way of Shell/Buffer and Shell/Keys.
--     Shell/Basics has its small commands. Shell/Files has those of fs_commands.c, with the paths of
--     the tree in Shell/Files/Paths; Shell/Info and Shell/Disks those of sysinfo_commands.c, over a
--     drive with its probe (`Drive`), and Shell/Disks/Making what they leave on the disk.
--     Shell/Session calls the commands and has the loop command and the main loop, over the state of
--     all the parts; Shell/Session/Typing is about a line that is typed.
--   * The start-up, kernel/main.c and kernel/initramfs.c: Boot, which calls the parts in order.
--   * System calls, kernel/syscalls/syscall.c: Syscalls. Interrupt tables, kernel/idt/idt.c and
--     kernel/interrupts/pic.c: Idt, with the gates in Idt/Gates.
--   * Prelude has the tests, lists, bits and machine words that these share. Tests has the runs at
--     concrete inputs.
--
-- Numbers are natural numbers. An `unsigned int` wraps at 2^32 by `add32`, `sub32` and `mul32`; a byte
-- is a number below 256. A pointer is its address, and 0 is null. The statics of a file are a record
-- that each operation takes and returns.
--
-- Loops with a counter recurse on the number of rounds that are left. The walk of the boot loader's
-- map has one round for each byte of the map and one more: each entry takes at least four bytes. The
-- walks along the heap's list take fuel: one more than the number of blocks is enough. The walks along
-- a chain of clusters take fuel as well, and polling the drive is bounded in the source.
--
-- The loop over the program headers ends by itself, since their number has 16 bits; the cursor is
-- brought back by as many rounds as it has rows.
--
-- The way up from the working directory takes fuel, one more than its path has names. The loop command
-- takes fuel for its rounds and for loops within loops. The scan codes that arrive before each look at
-- the ring of keys are a list of the session.
--
-- Not modelled: what is assembly or port access (the stubs of the interrupts, the entry of the kernel,
-- the flags of the processor and hlt), and the code of a program once it is entered, a parameter.
-- A buffer that is not initialised before a failed read holds what the
-- device's model gives. The fields of a program header are read once in its round, which is the same
-- where no segment is loaded over the image.
pub mod Prelude
pub mod Disk
pub mod Ata
pub mod Mbr
pub mod Fat16
pub mod Pmm
pub mod Heap
pub mod Ps2
pub mod Paging
pub mod Console
pub mod Util
pub mod Vfs
pub mod Elf
pub mod Interpreter
pub mod Syscalls
pub mod Idt
pub mod Shell
pub mod Boot
pub mod Tests
