-- ===== src/Syscalls.antt =====
-- The system calls, kernel/syscalls/syscall.c: the dispatch over the console and the heap. What does
-- not return is an outcome of its own.
use alderkernel.Prelude.{ℕ, none, some, ◌==◌, if◌then◌else◌, ◌|>◌}
use alderkernel.Console.{Console, say, print_uint, print_hex}
use alderkernel.Heap.{Heap, kmalloc, heap_get_free_bytes, heap_get_used_bytes}

-- `halted` is the loop around `hlt` with interrupts off, `divide_error` the processor's exception.
pub data Outcome : Type 0 where
  returned : Heap → Console → Outcome
  halted : Heap → Console → Outcome
  divide_error : Heap → Console → Outcome
  out_of_fuel : Outcome

abbrev pub sys_read : ℕ
sys_read = 0x00

abbrev pub sys_write : ℕ
sys_write = 0x01

abbrev pub sys_request_ram_number : ℕ
sys_request_ram_number = 0x02

abbrev pub sys_unknown_03 : ℕ
sys_unknown_03 = 0x03

abbrev pub sys_kernel_panic : ℕ
sys_kernel_panic = 0x10

abbrev pub sys_test_divzero_number : ℕ
sys_test_divzero_number = 0x11

abbrev pub syscall_test_alloc_size : ℕ
syscall_test_alloc_size = 128

unfoldable pub sys_panic : Heap → Console → Outcome
sys_panic h c = halted h (say "\n*** KERNEL PANIC (syscall 0x10) ***\n" c)

unfoldable pub sys_test_divzero : Heap → Console → Outcome
sys_test_divzero h c = divide_error h (say "Forcing a real divide-by-zero (#DE, vector 0)...\n" c)

-- The report on the block at `ptr`.
unfoldable pub report_ram : ℕ → Heap → Console → Console
report_ram ptr h c =
    c
    |> say "sys_request_ram: allocated "
    |> print_uint syscall_test_alloc_size
    |> say " bytes at "
    |> print_hex ptr
    |> say "\nheap now: "
    |> print_uint (heap_get_free_bytes h)
    |> say " bytes free, "
    |> print_uint (heap_get_used_bytes h)
    |> say " bytes used\n"

-- The heap's searches take fuel.
unfoldable pub sys_request_ram : ℕ → Heap → Console → Outcome
sys_request_ram fuel h c = elim (kmalloc fuel syscall_test_alloc_size h) [
  | none ↦ out_of_fuel
  | some r ↦
      if r.0 == 0
      then returned r.1 (say "sys_request_ram: kmalloc failed - out of heap memory.\n" c)
      else returned r.1 (report_ram r.0 r.1 c)
]

unfoldable pub syscall_dispatch : ℕ → ℕ → Heap → Console → Outcome
syscall_dispatch fuel num h c =
    if num == sys_read
    then returned h (say "sys_read: not implemented yet (no VFS-backed reads).\n" c)
    else if num == sys_write
    then returned h (say "sys_write: not implemented yet (no VFS-backed writes).\n" c)
    else if num == sys_request_ram_number
    then sys_request_ram fuel h c
    else if num == sys_unknown_03
    then returned h (say "syscall 0x03: reserved, not defined yet.\n" c)
    else if num == sys_kernel_panic
    then sys_panic h c
    else if num == sys_test_divzero_number
    then sys_test_divzero h c
    else returned h (c |> say "Unknown syscall number: " |> print_uint num |> say "\n")
