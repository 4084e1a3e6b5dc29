-- ===== src/Idt/Gates.antt =====
-- Which gate the table has for each vector.
use alderkernel.Prelude.{
  ℕ, zero, suc, ◌+◌, ◌*◌, ◌/◌, ◌^◌, ◌≤◌, ◌<◌, ◌≡◌, ◌≢◌, refl, ◌∙◌, sym, ◌==◌, ltb, leb, ◌&&◌,
  if◌then◌else◌, get_or, set, length, length-set, get_or-set, bit_and, arith,
}
use mathlib.Core.Path.{subst}
use alderkernel.Prelude.Bits.{bit_and_word}
use alderkernel.Idt.{
  IdtEntry, Idt, no_gate, idt_set_gate, clear_gates, set_exceptions, idt_load, idt_init,
}

-- The address that the processor takes from a gate.
abbrev pub handler_of : IdtEntry → ℕ
handler_of g = g.base_low + g.base_high * 2 ^ 16

-- A present interrupt gate of the kernel's code segment, for that address.
pub record IsGate (g : IdtEntry) (handler : ℕ) : Type 0 where
  pub address : handler_of g ≡ handler
  pub segment : g.selector ≡ 0x08
  pub present : g.flags ≡ 0x8e
  pub zero_byte : g.reserved ≡ 0

abbrev gate : ℕ → IdtEntry
gate handler = record {
  base_low = bit_and handler 0xffff;
  selector = 0x08;
  reserved = 0;
  flags = 0x8e;
  base_high = bit_and (handler / 2 ^ 16) 0xffff;
}

gate-IsGate : (handler : ℕ) → handler < 2 ^ 32 → IsGate (gate handler) handler
gate-IsGate handler h = record {
  address = omega (arith, bit_and_word handler, bit_and_word (handler / 2 ^ 16));
  segment = refl;
  present = refl;
  zero_byte = refl;
}

cleared :
    (n i : ℕ) (t : Idt) (v : ℕ)
    → i + n ≤ length t.entries
    → get_or (clear_gates n i t).entries v no_gate
      ≡ (if leb i v && ltb v (i + n) then no_gate else get_or t.entries v no_gate)
unfolding clear_gates
cleared zero i t v h = ground arith
cleared (suc n) i t v h =
    cleared n (i + 1) (record t { entries = set t.entries i no_gate }) v
      (omega (arith, length-set t.entries i no_gate))
    ∙ ground (arith, get_or-set t.entries i v no_gate no_gate (omega arith))

length-cleared : (n i : ℕ) (t : Idt) → length (clear_gates n i t).entries ≡ length t.entries
unfolding clear_gates
length-cleared zero i t = refl
length-cleared (suc n) i t =
    length-cleared n (i + 1) (record t { entries = set t.entries i no_gate })
    ∙ length-set t.entries i no_gate

module _ (stubs : ℕ → ℕ) where
  length-set_exceptions :
      (n i : ℕ) (t : Idt) → length (set_exceptions n i stubs t).entries ≡ length t.entries
  unfolding set_exceptions idt_set_gate
  length-set_exceptions zero i t = refl
  length-set_exceptions (suc n) i t =
      length-set_exceptions n (i + 1) (idt_set_gate i (stubs i) 0x08 0x8e t)
      ∙ length-set t.entries i _

  exceptions :
      (n i : ℕ) (t : Idt) (v : ℕ)
      → i + n ≤ length t.entries
      → get_or (set_exceptions n i stubs t).entries v no_gate
        ≡ (if leb i v && ltb v (i + n) then gate (stubs v) else get_or t.entries v no_gate)
  unfolding set_exceptions idt_set_gate
  exceptions zero i t v h = ground arith
  exceptions (suc n) i t v h =
      exceptions n (i + 1) (idt_set_gate i (stubs i) 0x08 0x8e t) v
        (omega (arith, length-set t.entries i (gate (stubs i))))
      ∙ ground (arith, get_or-set t.entries i v (gate (stubs i)) no_gate (omega arith))

  -- The gate of every vector.
  found :
      (keyboard address : ℕ) (t : Idt) (v : ℕ)
      → length t.entries ≡ 256
      → v < 256
      → get_or (idt_init stubs keyboard address t).entries v no_gate
        ≡ (if 33 == v then gate keyboard else if ltb v 32 then gate (stubs v) else no_gate)
  unfolding idt_init idt_load idt_set_gate
  found keyboard address t v size h =
      let t0 : Idt = clear_gates 256 0 t in
      let size0 : length t0.entries ≡ 256 = length-cleared 256 0 t ∙ size in
      let size1 : length (set_exceptions 32 0 stubs t0).entries ≡ 256 =
        length-set_exceptions 32 0 t0 ∙ size0 in
      ground (
        arith,
        get_or-set (set_exceptions 32 0 stubs t0).entries 33 v (gate keyboard) no_gate
            (omega (arith, size1)),
        exceptions 32 0 t0 v (omega (arith, size0)),
        cleared 256 0 t v (omega (arith, size)),
      )

  -- After `idt_init`, on a table of 256 entries, each of the vectors 0 to 31 has a gate to its stub,
  -- 33 has one to the keyboard's, the other vectors have none, and the processor's register is loaded
  -- with a limit of 2047 and the address of the table. The addresses are machine words.
  pub idt_init_lem :
      (keyboard address : ℕ) (t : Idt)
      → length t.entries ≡ 256
      → ((v : ℕ) → stubs v < 2 ^ 32)
      → keyboard < 2 ^ 32
      → ((v : ℕ)
          → v < 32
          → IsGate (get_or (idt_init stubs keyboard address t).entries v no_gate) (stubs v))
        × IsGate (get_or (idt_init stubs keyboard address t).entries 33 no_gate) keyboard
        × ((v : ℕ)
            → 32 ≤ v
            → v < 256
            → v ≢ 33
            → get_or (idt_init stubs keyboard address t).entries v no_gate ≡ no_gate)
        × ((idt_init stubs keyboard address t).idtp ≡ record { limit = 2047; base = address })
        × ((idt_init stubs keyboard address t).idtr ≡ record { limit = 2047; base = address })
  unfolding idt_init idt_load
  idt_init_lem keyboard address t size words word = (
    λ v h.
        subst (λ g. IsGate g (stubs v))
          (sym (found keyboard address t v size (omega arith) ∙ ground arith))
          (gate-IsGate (stubs v) (words v)),
    subst (λ g. IsGate g keyboard) (sym (found keyboard address t 33 size (omega arith)))
        (gate-IsGate keyboard word),
    λ v low high ne. found keyboard address t v size high ∙ ground arith,
    refl,
    refl,
  )
