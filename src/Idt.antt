-- ===== src/Idt.antt =====
-- The interrupt tables, kernel/idt/idt.c, and the interrupt controllers, kernel/interrupts/pic.c. The
-- addresses of the stubs are parameters; of idt_asm.asm `idt_load` is modelled.
pub mod Gates
use alderkernel.Prelude.{
  ℕ, zero, suc, ◌+◌, ◌-◌, ◌*◌, ◌/◌, ◌%◌, ◌^◌, List, [], ◌∷◌, if◌then◌else◌, ◌|>◌, bit_and, set,
}
use alderkernel.Ata.{Ports}
use alderkernel.Console.{Console, say, print_uint}

-- `struct idt_entry`
pub record IdtEntry : Type 0 where
  pub base_low : ℕ
  pub selector : ℕ
  pub reserved : ℕ
  pub flags : ℕ
  pub base_high : ℕ

-- `struct idt_ptr`
pub record IdtPtr : Type 0 where
  pub limit : ℕ
  pub base : ℕ

-- `idt`, `idtp`, and the processor's register of the table.
pub record Idt : Type 0 where
  pub entries : List IdtEntry
  pub idtp : IdtPtr
  pub idtr : IdtPtr

abbrev pub no_gate : IdtEntry
no_gate = record { base_low = 0; selector = 0; reserved = 0; flags = 0; base_high = 0 }

unfoldable pub idt_set_gate : ℕ → ℕ → ℕ → ℕ → Idt → Idt
idt_set_gate n handler selector flags t = record t {
  entries = set t.entries n (record {
    base_low = bit_and handler 0xffff;
    selector = selector;
    reserved = 0;
    flags = flags;
    base_high = bit_and (handler / 2 ^ 16) 0xffff;
  });
}

-- The loops of `idt_init` from gate `i` on, with `n` left.
unfoldable pub clear_gates : ℕ → ℕ → Idt → Idt
clear_gates zero i t = t
clear_gates (suc n) i t = clear_gates n (i + 1) (record t { entries = set t.entries i no_gate })

unfoldable pub set_exceptions : ℕ → ℕ → (ℕ → ℕ) → Idt → Idt
set_exceptions zero i stubs t = t
set_exceptions (suc n) i stubs t =
    set_exceptions n (i + 1) stubs (idt_set_gate i (stubs i) 0x08 0x8e t)

-- `idt_load` of idt_asm.asm, at the address of `idtp`: the register takes what stands there.
unfoldable pub idt_load : Idt → Idt
idt_load t = record t { idtr = t.idtp }

-- `idt_address` is `&idt`; an entry has 8 bytes.
unfoldable pub idt_init : (ℕ → ℕ) → ℕ → ℕ → Idt → Idt
idt_init isr_stub_table keyboard_stub idt_address t =
    let t1 =
      idt_set_gate 33 keyboard_stub 0x08 0x8e
        (set_exceptions 32 0 isr_stub_table (clear_gates 256 0 t)) in
    idt_load (record t1 { idtp = record { limit = 256 * 8 - 1; base = idt_address } })

-- The report before the halt.
unfoldable pub isr_exception_handler : ℕ → ℕ → Console → Console
isr_exception_handler vector error_code c =
    c
    |> say "\nUnhandled CPU exception: "
    |> print_uint vector
    |> say " (error code: "
    |> print_uint error_code
    |> say ")\nSystem halted.\n"

unfoldable pub pic_remap : (p : Ports) → p.State → p.State
pic_remap p h =
    h
    |> p.outb 0x20 0x11
    |> p.outb 0xa0 0x11
    |> p.outb 0x21 0x20
    |> p.outb 0xa1 0x28
    |> p.outb 0x21 0x04
    |> p.outb 0xa1 0x02
    |> p.outb 0x21 0x01
    |> p.outb 0xa1 0x01
    |> p.outb 0x21 0xfd
    |> p.outb 0xa1 0xff
