-- ===== src/Elf/Result.antt =====
-- The loop over the program headers and `elf32_load` as a whole.
use alderkernel.Prelude.{
  ℕ, zero, suc, ◌+◌, ◌*◌, ◌^◌, ◌≤◌, ◌<◌, ◌≡◌, refl, ◌≢◌, ◌⊎◌, inl, inr, ap, ap₂, sym, ◌∙◌, Bool,
  true, false, not, ◌||◌, Option, none, some, ◌==◌, ltb, if◌then◌else◌, Bool-cases, le16_lem, add32,
  mul32, arith,
}
use mathlib.Core.Path.{subst}
use native.Mathlib.Nat.{mul-le-mul}
use native.Mathlib.Decide.{ℕ_discrete, dec_lt}
use alderkernel.Elf.{
  Memory, ProgramHeader, read16, e_entry, e_phoff, e_phentsize, e_phnum, read_program_header,
  program_header_at, header_ok, table_fits, segment_ok, place_segment, load_segment, load_segments,
  elf32_load,
}
use alderkernel.Elf.Bytes.{same_read32}
use alderkernel.Elf.Load.{
  header, Loads, IsLoadable, Loaded, Loaded-Agree, same_count, same_header, placed,
}

module _ (image size : ℕ) (mem : Memory) where
  -- A segment that is to be loaded, and that goes past the end of the file or is smaller in memory than
  -- in the file.
  abbrev pub Refused : Type 0
  Refused =
      (i : ℕ) × Loads image size mem i
      × ((size < (header image size mem i).p_offset + (header image size mem i).p_filesz)
          ⊎ ((header image size mem i).p_memsz < (header image size mem i).p_filesz))

  not_ok :
      (ph : ProgramHeader)
      → size < 2 ^ 32
      → segment_ok size ph ≡ false
      → (size < ph.p_offset + ph.p_filesz) ⊎ (ph.p_memsz < ph.p_filesz)
  unfolding segment_ok
  not_ok ph hs e = elim (dec_lt ph.p_memsz ph.p_filesz) [
    | yes smaller ↦ inr smaller
    | no large ↦ elim (dec_lt size (ph.p_offset + ph.p_filesz)) [
      | yes past ↦ inl past
      | no inside ↦ absurd (ground arith)
    ]
  ]

  -- All segments are loaded, or one of them was refused.
  abbrev Outcome : Bool × Memory → Type 0
  Outcome r =
      ((r.0 ≡ true) × Loaded image size mem r.1 (e_phnum mem image)) ⊎ ((r.0 ≡ false) × Refused)

  skipped :
      {m : Memory} (n : ℕ)
      → Loaded image size mem m n
      → (header image size mem n).p_type ≢ 1
      → Loaded image size mem m (n + 1)
  skipped n l ne = record {
    within = λ i lt s. elim (ℕ_discrete i n) [
      | yes e ↦ absurd (ne (ap (λ t. (header image size mem t).p_type) (sym e) ∙ s.1))
      | no other ↦ l.within i (omega arith) s
    ];
    loaded = λ i b lt s h. elim (ℕ_discrete i n) [
      | yes e ↦ absurd (ne (ap (λ t. (header image size mem t).p_type) (sym e) ∙ s.1))
      | no other ↦ l.loaded i b (omega arith) s h
    ];
    others = λ q out. l.others q (λ i lt s. out i (omega arith) s);
  }

  count-lt : IsLoadable image size mem → e_phnum mem image ≤ 65535
  unfolding read16
  count-lt v = omega (
    arith,
    le16_lem (mem (add32 image 44)) (mem (add32 (add32 image 44) 1)) (v.bytes (add32 image 44)),
    v.bytes (add32 image 44),
    v.bytes (add32 (add32 image 44) 1),
  )

  load_other :
      (ph : ProgramHeader) (m : Memory) → ph.p_type ≢ 1 → load_segment image size ph m ≡ (true, m)
  unfolding load_segment
  load_other ph m ne = ground arith

  load_good :
      (ph : ProgramHeader) (m : Memory)
      → ph.p_type ≡ 1
      → segment_ok size ph ≡ true
      → load_segment image size ph m ≡ (true, place_segment image ph m)
  unfolding load_segment
  load_good ph m e good = ground arith

  load_bad :
      (ph : ProgramHeader) (m : Memory)
      → ph.p_type ≡ 1
      → segment_ok size ph ≡ false
      → load_segment image size ph m ≡ (false, m)
  unfolding load_segment
  load_bad ph m e bad = ground arith

  module _ (v : IsLoadable image size mem)
      (table : e_phoff mem image + e_phentsize mem image * e_phnum mem image ≤ size)
      (whole : 52 ≤ size) where
    -- What follows a round, from its result.
    abbrev go_on : ℕ → ℕ → Bool × Memory → Bool × Memory
    go_on n i r = if r.0 then load_segments n (i + 1) image size r.1 else (false, r.1)

    round :
        (n i : ℕ) {m : Memory}
        → Loaded image size mem m i
        → i < e_phnum mem image
        → load_segments (suc n) i image size m
          ≡ go_on n i (load_segment image size (header image size mem i) m)
    unfolding load_segments
    round n i {m} l h =
        let more : ltb i (e_phnum m image) ≡ true =
          ground (arith, same_count image size mem v table whole l) in
        ap
          (λ t.
            if t
            then go_on n i
                (load_segment image size (read_program_header m (program_header_at m image i)) m)
            else (true, m))
          more
        ∙ ap (λ p. go_on n i (load_segment image size p m))
            (same_header image size mem v table whole i l h)

    loop :
        (n i : ℕ) {m : Memory}
        → Loaded image size mem m i
        → i ≤ e_phnum mem image
        → i + n ≡ 65535
        → Outcome (load_segments n i image size m)
    unfolding load_segments
    loop zero i {m} l le fuel =
        let all : i ≡ e_phnum mem image = omega (arith, count-lt v, le) in
        inl (refl, subst (λ t. Loaded image size mem m t) all l)
    loop (suc n) i {m} l le fuel = elim (dec_lt i (e_phnum mem image)) [
      | no over ↦
          let all : i ≡ e_phnum mem image = omega (arith, le) in
          let stop : ltb i (e_phnum m image) ≡ false =
            ground (arith, same_count image size mem v table whole l) in
          rw stop (inl (refl, subst (λ t. Loaded image size mem m t) all l))
      | yes more ↦
          let ph : ProgramHeader = header image size mem i in
          let next = round n i l more in
          elim (ℕ_discrete ph.p_type 1) [
            | no other ↦
                let r : load_segment image size ph m ≡ (true, m) = load_other ph m other in
                subst Outcome (sym (next ∙ ap (go_on n i) r))
                  (loop n (i + 1) (skipped i l other) (omega arith) (omega arith))
            | yes load ↦ elim (Bool-cases (segment_ok size ph)) [
              | inl good ↦
                  let m1 : Memory = place_segment image ph m in
                  let r : load_segment image size ph m ≡ (true, m1) = load_good ph m load good in
                  subst Outcome (sym (next ∙ ap (go_on n i) r)) (
                    loop n (i + 1) (placed image size mem v table whole i l (more, load) good)
                      (omega arith) (omega arith))
              | inr bad ↦
                  let r : load_segment image size ph m ≡ (false, m) = load_bad ph m load bad in
                  subst Outcome (sym (next ∙ ap (go_on n i) r))
                    (inr (refl, (i, (more, load), not_ok ph (omega (arith, v.in_memory)) bad)))
            ]
          ]
    ]

  nothing-Loaded : Loaded image size mem mem 0
  nothing-Loaded = record {
    within = λ i lt s. absurd (omega arith);
    loaded = λ i b lt s h. absurd (omega arith);
    others = λ q out. refl;
  }

  entry_size-lt : IsLoadable image size mem → e_phentsize mem image ≤ 65535
  unfolding read16
  entry_size-lt v = omega (
    arith,
    le16_lem (mem (add32 image 42)) (mem (add32 (add32 image 42) 1)) (v.bytes (add32 image 42)),
    v.bytes (add32 image 42),
    v.bytes (add32 (add32 image 42) 1),
  )

  first_and_last :
      header_ok mem image size ≡ true → (52 ≤ size) × (table_fits mem image size ≡ true)
  unfolding header_ok
  first_and_last e = ground arith

  table_lem :
      (p n : ℕ)
      → p ≡ e_phentsize mem image * e_phnum mem image
      → p < 2 ^ 32
      → size < 2 ^ 32
      → table_fits mem image size ≡ true
      → e_phoff mem image + p ≤ size
  unfolding table_fits
  table_lem p n e h hs t =
      let wrapped : mul32 (e_phentsize mem image) (e_phnum mem image) ≡ p = omega arith in
      ground (arith, wrapped)

  header_facts :
      IsLoadable image size mem
      → header_ok mem image size ≡ true
      → (52 ≤ size) × (e_phoff mem image + e_phentsize mem image * e_phnum mem image ≤ size)
  header_facts v e =
      let f = first_and_last e in
      let p : ℕ = e_phentsize mem image * e_phnum mem image in
      let small : p ≤ 65535 * 65535 = mul-le-mul (entry_size-lt v) (count-lt v) in
      (f.0, table_lem p 0 refl (omega (arith, small)) (omega (arith, v.in_memory)) f.1)

  -- The result of `elf32_load` from that of the loop.
  abbrev finish : Bool × Memory → Option ℕ × Memory
  finish r = if r.0 then (some (e_entry r.1 image), r.1) else (none, r.1)

  elf32_load_run :
      (out_entry : ℕ)
      → out_entry ≢ 0
      → 0 < image
      → header_ok mem image size ≡ true
      → elf32_load image size out_entry mem ≡ finish (load_segments 65535 0 image size mem)
  unfolding elf32_load
  elf32_load_run out_entry nz pos ok =
      let given : (image == 0 || out_entry == 0) ≡ false = ground arith in
      ap₂
        (λ x y.
          if x
          then (none, mem)
          else if not y
          then (none, mem)
          else finish (load_segments 65535 0 image size mem))
        given ok

  Ends : Option ℕ × Memory → Type 0
  Ends r =
      ((r.0 ≡ some (e_entry mem image)) × Loaded image size mem r.1 (e_phnum mem image))
      ⊎ ((r.0 ≡ none) × Refused)

  finish-Ends :
      IsLoadable image size mem
      → e_phoff mem image + e_phentsize mem image * e_phnum mem image ≤ size
      → 52 ≤ size
      → (r : Bool × Memory) → Outcome r
      → Ends (finish r)
  unfolding Ends
  finish-Ends v table whole r (inl (e, l)) =
      let entry : e_entry r.1 image ≡ e_entry mem image =
        same_read32 image size mem r.1 (Loaded-Agree image size mem v table whole l)
          (add32 image 24) 24 (omega (arith, v.in_memory)) (omega arith)
          (omega (arith, v.in_memory)) in
      let f : finish r ≡ (some (e_entry mem image), r.1) =
        ap (λ b. if b then (some (e_entry r.1 image), r.1) else (none, r.1)) e
        ∙ ap (λ t. (some t, r.1)) entry in
      inl (
        ap (λ (p : Option ℕ × Memory). p.0) f,
        subst (λ (p : Option ℕ × Memory). Loaded image size mem p.1 (e_phnum mem image)) (sym f) l,
      )
  finish-Ends v table whole r (inr (e, bad)) =
      let f : finish r ≡ (none, r.1) =
        ap (λ b. if b then (some (e_entry r.1 image), r.1) else (none, r.1)) e in
      inr (ap (λ (p : Option ℕ × Memory). p.0) f, bad)

  -- For an image that passes the checks of its header, whose segments lie apart from it and from each
  -- other, `elf32_load` ends in one of two ways. Either it returns the entry point and every loadable
  -- segment is in memory (the bytes of the file, then zeros up to its size in memory) with no other
  -- byte changed, or it returns failure and some loadable segment goes past the end of the file or is
  -- smaller in memory than in the file.
  pub elf32_load_lem :
      (out_entry : ℕ)
      → out_entry ≢ 0
      → IsLoadable image size mem
      → header_ok mem image size ≡ true
      → (((elf32_load image size out_entry mem).0 ≡ some (e_entry mem image))
          × Loaded image size mem (elf32_load image size out_entry mem).1 (e_phnum mem image))
        ⊎ (((elf32_load image size out_entry mem).0 ≡ none) × Refused)
  unfolding Ends
  elf32_load_lem out_entry nz v ok =
      let f = header_facts v ok in
      let start = loop v f.1 f.0 65535 0 nothing-Loaded (omega arith) (omega arith) in
      subst Ends (sym (elf32_load_run out_entry nz v.not_null ok))
        (finish-Ends v f.1 f.0 (load_segments 65535 0 image size mem) start)
