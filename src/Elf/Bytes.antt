-- ===== src/Elf/Bytes.antt =====
-- The copy and the zeros of a segment, seen from every address; and what a read of the image needs.
use alderkernel.Prelude.{
  ℕ, zero, suc, ◌+◌, ◌-◌, ◌^◌, ◌≤◌, ◌<◌, ◌≡◌, ◌≢◌, ap, ap₂, sym, ◌∙◌, ◌&&◌, ltb, leb, if◌then◌else◌,
  le16, le32, add32, arith,
}
use alderkernel.Pmm.{read32}
use alderkernel.Elf.{
  Memory, ProgramHeader, poke, read16, read_program_header, copy_bytes, zero_bytes, place_segment,
}

zero_bytes_lem :
    (n dest b : ℕ) (mem : Memory) (q : ℕ)
    → dest + b + n ≤ 2 ^ 32
    → zero_bytes n dest b mem q ≡ (if leb (dest + b) q && ltb q (dest + b + n) then 0 else mem q)
unfolding zero_bytes
zero_bytes_lem zero dest b mem q h = ground arith
zero_bytes_lem (suc n) dest b mem q h =
    ground (arith, zero_bytes_lem n dest (b + 1) (poke mem (add32 dest b) 0) q)

-- The source does not meet the bytes from `dest` on.
abbrev pub Apart : ℕ → ℕ → ℕ → ℕ → Type 0
Apart src n dest m = (i j : ℕ) → i < n → j < m → src + i ≢ dest + j

copy_bytes_lem :
    (n dest src b : ℕ) (mem : Memory) (q : ℕ)
    → dest + b + n ≤ 2 ^ 32
    → src + b + n ≤ 2 ^ 32
    → Apart src (b + n) dest (b + n)
    → copy_bytes n dest src b mem q
      ≡ (if leb (dest + b) q && ltb q (dest + b + n) then mem (src + (q - dest)) else mem q)
unfolding copy_bytes
copy_bytes_lem zero dest src b mem q h hs apart = ground arith
copy_bytes_lem (suc n) dest src b mem q h hs apart =
    let mem1 : Memory = poke mem (add32 dest b) (mem (add32 src b)) in
    let sides : (add32 dest b ≡ dest + b) × (add32 src b ≡ src + b) = (omega arith, omega arith) in
    let ih =
      copy_bytes_lem n dest src (b + 1) mem1 q (omega arith) (omega arith)
        (λ i j hi hj. apart i j (omega arith) (omega arith)) in
    let moved : q ≡ dest + b → mem (src + b) ≡ mem (src + (q - dest)) =
      λ e. ap (λ x. mem (src + x)) (omega arith) in
    let kept : dest + b < q → q < dest + b + suc n → add32 dest b ≢ src + (q - dest) =
      λ lo hi. λ e. apart (q - dest) b (omega arith) (omega arith) (omega (arith, e)) in
    ih ∙ ground (arith, sides, moved, kept, ap mem sides.1)

-- A segment in memory: its bytes from the image, then zeros.
pub place_segment_lem :
    (image : ℕ) (ph : ProgramHeader) (mem : Memory) (q : ℕ)
    → image + ph.p_offset + ph.p_filesz ≤ 2 ^ 32
    → ph.p_vaddr + ph.p_memsz ≤ 2 ^ 32
    → ph.p_filesz ≤ ph.p_memsz
    → Apart (image + ph.p_offset) ph.p_filesz ph.p_vaddr ph.p_filesz
    → image + ph.p_offset < 2 ^ 32
    → place_segment image ph mem q ≡ (
        if leb ph.p_vaddr q && ltb q (ph.p_vaddr + ph.p_memsz)
        then (if ltb (q - ph.p_vaddr) ph.p_filesz
            then mem (image + ph.p_offset + (q - ph.p_vaddr))
            else 0)
        else mem q)
unfolding place_segment
place_segment_lem image ph mem q hs hd le apart lt =
    let src : add32 image ph.p_offset ≡ image + ph.p_offset = omega arith in
    let copied : Memory = copy_bytes ph.p_filesz ph.p_vaddr (image + ph.p_offset) 0 mem in
    ap
      (λ a.
        zero_bytes (ph.p_memsz - ph.p_filesz) ph.p_vaddr ph.p_filesz
          (copy_bytes ph.p_filesz ph.p_vaddr a 0 mem) q)
      src
    ∙ zero_bytes_lem (ph.p_memsz - ph.p_filesz) ph.p_vaddr ph.p_filesz copied q (omega arith)
    ∙ ground (
      arith,
      copy_bytes_lem ph.p_filesz ph.p_vaddr (image + ph.p_offset) 0 mem q (omega arith)
          (omega arith) (λ i j hi hj. apart i j (omega arith) (omega arith)),
    )

-- Two memories with the same bytes from `image` on.
abbrev pub Agree : ℕ → ℕ → Memory → Memory → Type 0
Agree image size mem mem1 = (o : ℕ) → o < size → mem1 (image + o) ≡ mem (image + o)

module _ (image size : ℕ) (mem mem1 : Memory) (same : Agree image size mem mem1) where
  same_byte : (a o : ℕ) → a ≡ image + o → o < size → mem1 a ≡ mem a
  same_byte a o e h = ap mem1 e ∙ same o h ∙ ap mem (sym e)

  pub same_read16 :
      (a o : ℕ)
      → a ≡ image + o
      → o + 2 ≤ size
      → image + size ≤ 2 ^ 32
      → read16 mem1 a ≡ read16 mem a
  unfolding read16
  same_read16 a o e h fits =
      ap₂ le16 (same_byte a o e (omega arith))
        (same_byte (add32 a 1) (o + 1) (omega arith) (omega arith))

  pub same_read32 :
      (a o : ℕ)
      → a ≡ image + o
      → o + 4 ≤ size
      → image + size ≤ 2 ^ 32
      → read32 mem1 a ≡ read32 mem a
  unfolding read32
  same_read32 a o e h fits =
      let b0 = same_byte a o e (omega arith) in
      let b1 = same_byte (add32 a 1) (o + 1) (omega arith) (omega arith) in
      let b2 = same_byte (add32 a 2) (o + 2) (omega arith) (omega arith) in
      let b3 = same_byte (add32 a 3) (o + 3) (omega arith) (omega arith) in
      λ i. le32 (b0 i) (b1 i) (b2 i) (b3 i)

  pub same_program_header :
      (a o : ℕ)
      → a ≡ image + o
      → o + 32 ≤ size
      → image + size ≤ 2 ^ 32
      → read_program_header mem1 a ≡ read_program_header mem a
  unfolding read_program_header
  same_program_header a o e h fits =
      let f0 = same_read32 a o e (omega arith) fits in
      let f1 = same_read32 (add32 a 4) (o + 4) (omega arith) (omega arith) fits in
      let f2 = same_read32 (add32 a 8) (o + 8) (omega arith) (omega arith) fits in
      let f3 = same_read32 (add32 a 16) (o + 16) (omega arith) (omega arith) fits in
      let f4 = same_read32 (add32 a 20) (o + 20) (omega arith) (omega arith) fits in
      λ i. record {
        p_type = f0 i;
        p_offset = f1 i;
        p_vaddr = f2 i;
        p_filesz = f3 i;
        p_memsz = f4 i;
      }
