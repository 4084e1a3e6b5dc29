-- ===== src/Tests/Image.antt =====
-- An executable of one segment: sixteen bytes of the file, and sixteen zeros behind them.
use alderkernel.Prelude.{
  ℕ, ◌-◌, ◌<◌, ◌≡◌, ◌⊎◌, refl, ap, ◌∙◌, sym, true, ◌&&◌, none, some, List, [], ◌∷◌, ◌++◌, ltb, leb,
  if◌then◌else◌, get_or, le16, le32, codes, arith,
}
use alderkernel.Disk.Sector.{AllBytes, AllBytes-AreBytes}
use alderkernel.Pmm.{read32}
use alderkernel.Elf.{
  Memory, ProgramHeader, read16, e_entry, e_phnum, read_program_header, program_header_at,
  header_ok, ident_ok, table_fits, elf32_load,
}
use alderkernel.Elf.Load.{header, Loads, IsLoadable, Loaded}
use alderkernel.Elf.Result.{Refused, elf32_load_lem}

abbrev half : ℕ → List ℕ
half n = n ∷ 0 ∷ []

abbrev word : ℕ → ℕ → List ℕ
word low third = low ∷ 0 ∷ third ∷ 0 ∷ []

abbrev file : List ℕ
file =
    (0x7f ∷ b'E' ∷ b'L' ∷ b'F' ∷ 1 ∷ 1 ∷ 1 ∷ 0 ∷ 0 ∷ 0 ∷ 0 ∷ 0 ∷ 0 ∷ 0 ∷ 0 ∷ 0 ∷ [])
    ++ (half 2 ++ half 3 ++ word 1 0 ++ word 0 0x30 ++ word 52 0 ++ word 0 0 ++ word 0 0)
    ++ (half 52 ++ half 32 ++ half 1 ++ half 40 ++ half 0 ++ half 0)
    ++ (word 1 0
        ++ word 84 0
        ++ word 0 0x30
        ++ word 0 0x30
        ++ word 16 0
        ++ word 32 0
        ++ word 5 0
        ++ word 0 0)
    ++ codes "0123456789abcdef"

file-AllBytes : AllBytes file
file-AllBytes = omega arith

memory : Memory
memory a = if leb 0x200000 a && ltb a 0x200064 then get_or file (a - 0x200000) 0 else 0xcc

memory-lt : (a : ℕ) → memory a < 256
unfolding memory
memory-lt a = ground (arith, AllBytes-AreBytes file file-AllBytes (a - 0x200000))

count_one : e_phnum memory 0x200000 ≡ 1
unfolding memory read16 le16
count_one = refl

only_header :
    header 0x200000 100 memory 0
    ≡ record { p_type = 1; p_offset = 84; p_vaddr = 0x300000; p_filesz = 16; p_memsz = 32 }
unfolding memory read16 read32 le16 le32 program_header_at read_program_header
only_header = refl

only : (i : ℕ) → Loads 0x200000 100 memory i → i ≡ 0
only i s = omega (arith, count_one, s.0)

extent :
    (i : ℕ)
    → Loads 0x200000 100 memory i
    → ((header 0x200000 100 memory i).p_vaddr ≡ 0x300000)
      × ((header 0x200000 100 memory i).p_memsz ≡ 32)
extent i s =
    let same = ap (header 0x200000 100 memory) (only i s) ∙ only_header in
    (ap (λ (h : ProgramHeader). h.p_vaddr) same, ap (λ (h : ProgramHeader). h.p_memsz) same)

entry_size_lem : read16 memory 0x20002a ≡ 32
unfolding memory read16 le16
entry_size_lem = refl

memory-IsLoadable : IsLoadable 0x200000 100 memory
memory-IsLoadable = record {
  bytes = memory-lt;
  in_memory = omega arith;
  not_null = omega arith;
  entry_size = omega (arith, entry_size_lem);
  no_wrap = λ i s. omega (arith, extent i s);
  apart = λ i s m j hm hj e. omega (arith, extent i s);
  disjoint = λ i j s t ne. absurd (ne (only i s ∙ sym (only j t)));
}

header_accepted : header_ok memory 0x200000 100 ≡ true
unfolding memory read16 read32 le16 le32 header_ok ident_ok table_fits
header_accepted = refl

elf32_load_lem_example :
    (((elf32_load 0x200000 100 0x1000 memory).0 ≡ some (e_entry memory 0x200000))
      × Loaded 0x200000 100 memory
          (elf32_load 0x200000 100 0x1000 memory).1
          (e_phnum memory 0x200000))
    ⊎ (((elf32_load 0x200000 100 0x1000 memory).0 ≡ none) × Refused 0x200000 100 memory)
elf32_load_lem_example =
    elf32_load_lem 0x200000 100 memory 0x1000 (omega arith) memory-IsLoadable header_accepted
