-- ===== src/Elf/Load.antt =====
-- What `elf32_load` leaves in memory, for an image that no segment is loaded over.
use alderkernel.Prelude.{
  ℕ, ◌+◌, ◌-◌, ◌*◌, ◌^◌, ◌≤◌, ◌<◌, ◌≡◌, ◌≢◌, ◌⊎◌, inl, inr, ap, ap₂, ◌∙◌, true, false, ◌&&◌, ltb,
  leb, if◌then◌else◌, add32, mul32, arith,
}
use mathlib.Core.Path.{subst}
use native.Mathlib.Decide.{ℕ_discrete, dec_lt}
use alderkernel.Elf.{
  Memory, ProgramHeader, e_phoff, e_phentsize, e_phnum, read_program_header, program_header_at,
  segment_ok, place_segment,
}
use alderkernel.Elf.Bytes.{
  Apart, Agree, place_segment_lem, same_read16, same_read32, same_program_header,
}

module _ (image size : ℕ) (mem : Memory) where
  -- Header `i` of the image as it was given.
  abbrev pub header : ℕ → ProgramHeader
  header i = read_program_header mem (program_header_at mem image i)

  -- Segment `i` of the image is one to load.
  abbrev pub Loads : ℕ → Type 0
  Loads i = (i < e_phnum mem image) × ((header i).p_type ≡ 1)

  -- The image lies in memory, its headers have the standard size at least, and no segment wraps
  -- round the address space, meets the image, or meets another segment.
  pub record IsLoadable : Type 0 where
    pub bytes : (a : ℕ) → mem a < 256
    pub in_memory : image + size < 2 ^ 32
    pub not_null : 0 < image
    pub entry_size : 32 ≤ e_phentsize mem image
    pub no_wrap : (i : ℕ) → Loads i → (header i).p_vaddr + (header i).p_memsz ≤ 2 ^ 32
    pub apart : (i : ℕ) → Loads i → Apart image size (header i).p_vaddr (header i).p_memsz
    pub disjoint :
        (i j : ℕ)
        → Loads i
        → Loads j
        → i ≢ j
        → Apart (header i).p_vaddr (header i).p_memsz (header j).p_vaddr (header j).p_memsz

  -- The address is in no byte of segment `i`.
  abbrev pub Outside : ℕ → ℕ → Type 0
  Outside i q = (q < (header i).p_vaddr) ⊎ ((header i).p_vaddr + (header i).p_memsz ≤ q)

  -- The first `n` segments are in memory, and nothing else has changed.
  pub record Loaded (m : Memory) (n : ℕ) : Type 0 where
    pub within :
        (i : ℕ)
        → i < n
        → Loads i
        → ((header i).p_offset + (header i).p_filesz ≤ size)
          × ((header i).p_filesz ≤ (header i).p_memsz)
    pub loaded :
        (i b : ℕ)
        → i < n
        → Loads i
        → b < (header i).p_memsz
        → m ((header i).p_vaddr + b)
          ≡ (if ltb b (header i).p_filesz then mem (image + (header i).p_offset + b) else 0)
    pub others : (q : ℕ) → ((i : ℕ) → i < n → Loads i → Outside i q) → m q ≡ mem q

  module _ (v : IsLoadable)
      (table : e_phoff mem image + e_phentsize mem image * e_phnum mem image ≤ size)
      (whole : 52 ≤ size) where
    pub Loaded-Agree : {m : Memory} {n : ℕ} → Loaded m n → Agree image size mem m
    Loaded-Agree l o h = l.others (image + o) (λ i lt s. out i s)
      where
        out : (i : ℕ) → Loads i → Outside i (image + o)
        out i s = elim (dec_lt (image + o) (header i).p_vaddr) [
          | yes below ↦ inl below
          | no above ↦ elim (dec_lt (image + o) ((header i).p_vaddr + (header i).p_memsz)) [
            | yes inside ↦
                absurd
                  (v.apart i s o (image + o - (header i).p_vaddr) h (omega arith) (omega arith))
            | no past ↦ inr (omega arith)
          ]
        ]

    table_row :
        (i : ℕ) → i < e_phnum mem image → e_phoff mem image + i * e_phentsize mem image + 32 ≤ size
    table_row i h =
        let rows : (i + 1) * e_phentsize mem image ≤ e_phentsize mem image * e_phnum mem image =
          grind arith in
        omega (arith, rows, table, v.entry_size)

    -- A round reads the number of headers and its own header as they were given.
    pub same_count : {m : Memory} {n : ℕ} → Loaded m n → e_phnum m image ≡ e_phnum mem image
    same_count {m} l =
        same_read16 image size mem m (Loaded-Agree l) (add32 image 44) 44
          (omega (arith, v.in_memory)) (omega arith) (omega (arith, v.in_memory))

    pub same_header :
        {m : Memory} {n : ℕ} (i : ℕ)
        → Loaded m n
        → i < e_phnum mem image
        → read_program_header m (program_header_at m image i) ≡ header i
    unfolding program_header_at
    same_header {m} i l h =
        let same : Agree image size mem m = Loaded-Agree l in
        let off =
          same_read32 image size mem m same (add32 image 28) 28 (omega (arith, v.in_memory))
            (omega arith) (omega (arith, v.in_memory)) in
        let step =
          same_read16 image size mem m same (add32 image 42) 42 (omega (arith, v.in_memory))
            (omega arith) (omega (arith, v.in_memory)) in
        let o : ℕ = e_phoff mem image + i * e_phentsize mem image in
        let inside : o + 32 ≤ size = table_row i h in
        ap₂ (λ a b. read_program_header m (add32 (add32 image a) (mul32 i b))) off step
        ∙ same_program_header image size mem m same
            (add32 (add32 image (e_phoff mem image)) (mul32 i (e_phentsize mem image))) o
            (omega (arith, v.in_memory, inside)) inside (omega (arith, v.in_memory))

    segment_ok_lem :
        (ph : ProgramHeader)
        → segment_ok size ph ≡ true
        → (ph.p_offset + ph.p_filesz ≤ size) × (ph.p_filesz ≤ ph.p_memsz)
    unfolding segment_ok
    segment_ok_lem ph e = ground (arith, v.in_memory, v.not_null)

    not_within :
        (n q : ℕ)
        → Outside n q
        → (leb (header n).p_vaddr q && ltb q ((header n).p_vaddr + (header n).p_memsz)) ≡ false
    not_within n q out = ground arith

    apart_from :
        (i n b : ℕ)
        → Loads i
        → Loads n
        → i ≢ n
        → b < (header i).p_memsz
        → Outside n ((header i).p_vaddr + b)
    apart_from i n b si s ne hb =
        let q : ℕ = (header i).p_vaddr + b in
        let x : ℕ = (header n).p_vaddr in
        elim (dec_lt q x) [
          | yes below ↦ inl below
          | no above ↦ elim (dec_lt q (x + (header n).p_memsz)) [
            | yes inside ↦ absurd (v.disjoint i n si s ne b (q - x) hb (omega arith) (omega arith))
            | no past ↦ inr (omega arith)
          ]
        ]

    -- What a round writes, seen from every address.
    placed_at :
        (m : Memory) (n : ℕ)
        → Loads n
        → ((header n).p_offset + (header n).p_filesz ≤ size)
          × ((header n).p_filesz ≤ (header n).p_memsz)
        → (q : ℕ)
        → place_segment image (header n) m q ≡ (
            if leb (header n).p_vaddr q && ltb q ((header n).p_vaddr + (header n).p_memsz)
            then (if ltb (q - (header n).p_vaddr) (header n).p_filesz
                then m (image + (header n).p_offset + (q - (header n).p_vaddr))
                else 0)
            else m q)
    placed_at m n s fits q =
        place_segment_lem image (header n) m q (omega (arith, v.in_memory, fits)) (v.no_wrap n s)
          fits.1
          (λ i j hi hj e.
            v.apart n s ((header n).p_offset + i) j (omega (arith, fits)) (omega (arith, fits))
              (omega (arith, e)))
          (omega (arith, v.in_memory, fits))

    placed_byte :
        {m : Memory} (n : ℕ)
        → Loaded m n
        → Loads n
        → ((header n).p_offset + (header n).p_filesz ≤ size)
          × ((header n).p_filesz ≤ (header n).p_memsz)
        → (b : ℕ) → b < (header n).p_memsz
        → place_segment image (header n) m ((header n).p_vaddr + b)
          ≡ (if ltb b (header n).p_filesz then mem (image + (header n).p_offset + b) else 0)
    placed_byte {m} n l s fits b hb =
        let x : ℕ = (header n).p_vaddr in
        let from : ℕ = image + (header n).p_offset in
        let copied : b < (header n).p_filesz → m (from + (x + b - x)) ≡ mem (from + b) = λ h.
          ap m (omega arith)
          ∙ Loaded-Agree l ((header n).p_offset + b) (omega (arith, fits))
          ∙ ap mem (omega arith) in
        let inside : (leb x (x + b) && ltb (x + b) (x + (header n).p_memsz)) ≡ true =
          ground arith in
        placed_at m n s fits (x + b) ∙ ground (arith, inside, copied)

    pub placed :
        {m : Memory} (n : ℕ)
        → Loaded m n
        → Loads n
        → segment_ok size (header n) ≡ true
        → Loaded (place_segment image (header n) m) (n + 1)
    placed {m} n l s e =
        let ph : ProgramHeader = header n in
        let fits = segment_ok_lem ph e in
        let bytes = placed_at m n s fits in
        record {
          within = λ i lt si. elim (ℕ_discrete i n) [
            | yes same_i ↦ rw same_i fits
            | no ne ↦ l.within i (omega arith) si
          ];
          loaded = λ i b lt si hb. elim (ℕ_discrete i n) [
            | yes same_i ↦
                rw same_i (placed_byte n l s fits b (subst (λ t. b < (header t).p_memsz) same_i hb))
            | no ne ↦
                let q : ℕ = (header i).p_vaddr + b in
                let out : (leb ph.p_vaddr q && ltb q (ph.p_vaddr + ph.p_memsz)) ≡ false =
                  not_within n q (apart_from i n b si s ne hb) in
                bytes q ∙ ground (arith, out) ∙ l.loaded i b (omega arith) si hb
          ];
          others = λ q out.
              let away : (leb ph.p_vaddr q && ltb q (ph.p_vaddr + ph.p_memsz)) ≡ false =
                not_within n q (out n (omega arith) s) in
              bytes q ∙ ground (arith, away) ∙ l.others q (λ i lt si. out i (omega arith) si);
        }
