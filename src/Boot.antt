-- ===== src/Boot.antt =====
-- The start of the kernel, kernel/main.c and kernel/initramfs.c, with `ps2_init` of kernel/drivers/ps2.c:
-- the order in which the parts are set up, up to the main loop of the shell.
use alderkernel.Prelude.{ℕ, zero, suc, List, Option, none, some, ◌==◌, if◌then◌else◌, bit_and, ◌|>◌}
use alderkernel.Ata.{Ports}
use alderkernel.Console.{Console, say, print_uint}
use alderkernel.Idt.{Idt, idt_init, pic_remap}
use alderkernel.Pmm.{pmm_init, pmm_get_free_page_count, pmm_get_total_page_count}
use alderkernel.Paging.{Paging, paging_init}
use alderkernel.Heap.{Heap, heap_init, heap_get_free_bytes}
use alderkernel.Vfs.{vfs_init}
use alderkernel.Shell.Basics.{clear_screen}
use alderkernel.Shell.Session.{Setup, Session, Ended, show_on, shell_welcome}

-- What the linker and the boot loader give: the memory that the loader has filled, the end of the
-- kernel, the static bitmap, the stubs and the addresses of the tables.
pub record Image : Type 0 where
  pub memory : ℕ → ℕ
  pub kernel_end : ℕ
  pub bitmap : List ℕ
  pub isr_stub_table : ℕ → ℕ
  pub keyboard_stub : ℕ
  pub idt_address : ℕ
  pub page_directory : ℕ
  pub page_tables : ℕ

module _ (p : Ports) where
  -- The state that the start sets up, before there is a file tree.
  pub record Hardware : Type 0 where
    pub ports : p.State
    pub console : Console
    pub idt : Idt
    pub heap : Heap
    pub paging : Paging

  -- while (inb(PS2_STATUS_PORT) & 0x01) on fuel: a byte is read as long as one waits.
  unfoldable pub ps2_init : ℕ → p.State → Option p.State
  ps2_init zero s = none
  ps2_init (suc fuel) s =
      let (status, s1) = p.inb 0x64 s in
      let rest = ps2_init fuel (p.inb 0x60 s1).1 in
      if bit_and status 0x01 == 0 then some s1 else rest

  abbrev pub multiboot_bootloader_magic : ℕ
  multiboot_bootloader_magic = 0x2badb002

  -- From the call of `pmm_init` to the report on the pages. A loader that is not multiboot is taken for
  -- one that gives no map.
  unfoldable pub start_pages : Image → ℕ → ℕ → Hardware → Option Hardware
  start_pages i magic info h =
      let known = magic == multiboot_bootloader_magic in
      let console =
        if known
        then h.console
        else say "WARNING: invalid multiboot magic - memory map may be missing.\n" h.console in
      elim (pmm_init i.memory i.kernel_end (if known then info else 0) i.bitmap) [
        | none ↦ none
        | some pmm ↦ some (record h {
          heap = record h.heap { pmm = pmm };
          console =
              console
              |> say "pmm: "
              |> print_uint (pmm_get_free_page_count pmm)
              |> say " / "
              |> print_uint (pmm_get_total_page_count pmm)
              |> say " pages free\n";
        })
      ]

  -- From the call of `paging_init` to the report on the heap.
  unfoldable pub start_heap : ℕ → Image → Hardware → Option Hardware
  start_heap fuel i h =
      let c = say "paging: enabled (identity-mapped first 128MB)\n" h.console in
      elim (heap_init fuel h.heap) [
        | none ↦ none
        | some heap ↦ some (record h {
          paging = paging_init i.page_directory i.page_tables h.paging;
          heap = heap;
          console =
              c |> say "heap: " |> print_uint (heap_get_free_bytes heap) |> say " bytes free\n";
        })
      ]

  -- `kernel_start` up to the call of `initramfs_init`.
  unfoldable pub kernel_start : ℕ → Image → ℕ → ℕ → Hardware → Option Hardware
  kernel_start fuel i magic info h =
      let console = clear_screen 0x00 h.console in
      let idt = idt_init i.isr_stub_table i.keyboard_stub i.idt_address h.idt in
      elim (ps2_init fuel (pic_remap p h.ports)) [
        | none ↦ none
        | some ports ↦
            elim (start_pages i magic info
              (record h { ports = ports; console = console; idt = idt })) [
                | none ↦ none
                | some h1 ↦ start_heap fuel i h1
              ]
      ]

module _ (u : Setup) where
  -- `kernel_main` up to the loop of the shell.
  unfoldable pub kernel_main : Session u → Ended u (Session u)
  kernel_main s = shell_welcome u (show_on u (say "Kernel loaded!") s)

  unfoldable pub initramfs_init : Session u → Ended u (Session u)
  initramfs_init s =
      let s1 = show_on u (say "initramfs: mounting in-RAM filesystem...\n") s in
      let s2 = record s1 { vfs = vfs_init u.allocator s1.vfs } in
      s2
      |> show_on u (say "initramfs: /, /kernel, /shell mounted.\n")
      |> show_on u (say "initramfs: handing control to kernel...\n")
      |> kernel_main
