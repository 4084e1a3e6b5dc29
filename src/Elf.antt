-- ===== src/Elf.antt =====
-- The ELF loader, kernel/elf/elf32.c. Memory is a function from addresses to bytes: the image stands
-- in it, and the segments are written to it. The fields of a program header are read once, when its
-- round begins; the number of headers is read again in each round.
pub mod Bytes
pub mod Load
pub mod Result
use alderkernel.Prelude.{
  ℕ, zero, suc, ◌+◌, ◌-◌, Bool, true, false, not, ◌&&◌, ◌||◌, Option, none, some, ◌==◌, ltb,
  if◌then◌else◌, le16, add32, sub32, mul32,
}
use alderkernel.Pmm.{read32}

abbrev pub Memory : Type 0
Memory = ℕ → ℕ

abbrev pub poke : Memory → ℕ → ℕ → Memory
poke mem a v q = if a == q then v else mem q

-- An `unsigned short` in memory.
unfoldable pub read16 : Memory → ℕ → ℕ
read16 mem a = le16 (mem a) (mem (add32 a 1))

-- The fields of `elf32_ehdr_t` that the loader uses, by their offsets.
abbrev pub e_type : Memory → ℕ → ℕ
e_type mem image = read16 mem (add32 image 16)

abbrev pub e_machine : Memory → ℕ → ℕ
e_machine mem image = read16 mem (add32 image 18)

abbrev pub e_entry : Memory → ℕ → ℕ
e_entry mem image = read32 mem (add32 image 24)

abbrev pub e_phoff : Memory → ℕ → ℕ
e_phoff mem image = read32 mem (add32 image 28)

abbrev pub e_phentsize : Memory → ℕ → ℕ
e_phentsize mem image = read16 mem (add32 image 42)

abbrev pub e_phnum : Memory → ℕ → ℕ
e_phnum mem image = read16 mem (add32 image 44)

-- sizeof(elf32_ehdr_t)
abbrev pub ehdr_size : ℕ
ehdr_size = 52

-- The fields of `elf32_phdr_t` that the loader uses.
pub record ProgramHeader : Type 0 where
  pub p_type : ℕ
  pub p_offset : ℕ
  pub p_vaddr : ℕ
  pub p_filesz : ℕ
  pub p_memsz : ℕ

unfoldable pub read_program_header : Memory → ℕ → ProgramHeader
read_program_header mem a = record {
  p_type = read32 mem a;
  p_offset = read32 mem (add32 a 4);
  p_vaddr = read32 mem (add32 a 8);
  p_filesz = read32 mem (add32 a 16);
  p_memsz = read32 mem (add32 a 20);
}

-- The address of header `i`.
unfoldable pub program_header_at : Memory → ℕ → ℕ → ℕ
program_header_at mem image i =
    add32 (add32 image (e_phoff mem image)) (mul32 i (e_phentsize mem image))

-- The checks of `e_ident`.
unfoldable pub ident_ok : Memory → ℕ → Bool
ident_ok mem image =
    mem image == 0x7f
    && mem (add32 image 1) == b'E'
    && mem (add32 image 2) == b'L'
    && mem (add32 image 3) == b'F'
    && mem (add32 image 4) == 1
    && mem (add32 image 5) == 1

-- The table of program headers lies within the image.
unfoldable pub table_fits : Memory → ℕ → ℕ → Bool
table_fits mem image image_size =
    let phtable_size = mul32 (e_phentsize mem image) (e_phnum mem image) in
    not (
      ltb image_size (e_phoff mem image) || ltb (sub32 image_size (e_phoff mem image)) phtable_size)

-- The checks before the first segment.
unfoldable pub header_ok : Memory → ℕ → ℕ → Bool
header_ok mem image image_size =
    not (ltb image_size ehdr_size)
    && ident_ok mem image
    && e_type mem image == 2
    && e_machine mem image == 3
    && not (e_phnum mem image == 0)
    && table_fits mem image image_size

-- for (b = …; …; b++) dest[b] = src[b], with `n` rounds left
unfoldable pub copy_bytes : ℕ → ℕ → ℕ → ℕ → Memory → Memory
copy_bytes zero dest src b mem = mem
copy_bytes (suc n) dest src b mem =
    copy_bytes n dest src (b + 1) (poke mem (add32 dest b) (mem (add32 src b)))

unfoldable pub zero_bytes : ℕ → ℕ → ℕ → Memory → Memory
zero_bytes zero dest b mem = mem
zero_bytes (suc n) dest b mem = zero_bytes n dest (b + 1) (poke mem (add32 dest b) 0)

-- The two checks of a segment that is to be loaded.
unfoldable pub segment_ok : ℕ → ProgramHeader → Bool
segment_ok image_size ph =
    not (ltb image_size ph.p_offset || ltb (sub32 image_size ph.p_offset) ph.p_filesz)
    && not (ltb ph.p_memsz ph.p_filesz)

unfoldable pub place_segment : ℕ → ProgramHeader → Memory → Memory
place_segment image ph mem =
    zero_bytes (ph.p_memsz - ph.p_filesz) ph.p_vaddr ph.p_filesz
      (copy_bytes ph.p_filesz ph.p_vaddr (add32 image ph.p_offset) 0 mem)

-- The body of the loop: `false` is the return of 0.
unfoldable pub load_segment : ℕ → ℕ → ProgramHeader → Memory → Bool × Memory
load_segment image image_size ph mem =
    if not (ph.p_type == 1)
    then (true, mem)
    else if segment_ok image_size ph
    then (true, place_segment image ph mem)
    else (false, mem)

-- The loop from header `i` on. `i` and the number of headers are 16-bit, so that it ends at 65535.
unfoldable pub load_segments : ℕ → ℕ → ℕ → ℕ → Memory → Bool × Memory
load_segments zero i image image_size mem = (true, mem)
load_segments (suc n) i image image_size mem =
    let (ok, mem1) =
      load_segment image image_size (read_program_header mem (program_header_at mem image i)) mem in
    let rest = load_segments n (i + 1) image image_size mem1 in
    if ltb i (e_phnum mem image) then (if ok then rest else (false, mem1)) else (true, mem)

-- `some` is success, with what is put into `*out_entry`.
unfoldable pub elf32_load : ℕ → ℕ → ℕ → Memory → Option ℕ × Memory
elf32_load image image_size out_entry mem =
    let (ok, mem1) = load_segments 65535 0 image image_size mem in
    if image == 0 || out_entry == 0
    then (none, mem)
    else if not (header_ok mem image image_size)
    then (none, mem)
    else if ok
    then (some (e_entry mem1 image), mem1)
    else (none, mem1)

-- `run` is the call of the loaded code, from the entry point on; `out_entry` is the local variable.
unfoldable pub elf32_load_and_run : (ℕ → Memory → Memory) → ℕ → ℕ → ℕ → Memory → Bool × Memory
elf32_load_and_run run image image_size out_entry mem =
    let (r, mem1) = elf32_load image image_size out_entry mem in
    elim r [ none ↦ (false, mem1) | some entry ↦ (true, run entry mem1) ]
