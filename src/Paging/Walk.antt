-- ===== src/Paging/Walk.antt =====
-- What the processor makes of the tables: the walk from an address to the frame.
use alderkernel.Prelude.{
  ℕ, zero, suc, ◌+◌, ◌-◌, ◌*◌, ◌/◌, ◌%◌, ◌^◌, ◌≤◌, ◌<◌, ◌≡◌, ap, ◌∙◌, ◌&&◌, Option, none, some,
  ◌==◌, ltb, leb, if◌then◌else◌, if_under, if_eq, bit_or, arith,
}
use native.Mathlib.Decide.{dec_lt}
use alderkernel.Prelude.Bits.{bit_or_step, bit_or-zero}
use alderkernel.Paging.{
  Paging, write, present_entry, frame_address, fill_table, table_address, fill_tables,
  clear_directory, paging_init,
}

-- The page of 4 KB that a present entry names.
abbrev frame : ℕ → Option ℕ
frame e = if e % 2 == 1 then some (e / 4096 * 4096) else none

abbrev follow : Option ℕ → (ℕ → Option ℕ) → Option ℕ
follow none k = none
follow (some a) k = k a

-- The walk of the processor, where `tables` is the address of `page_tables`: the upper ten bits of
-- an address index the directory, the next ten the table that its entry points at.
abbrev pub translate : ℕ → Paging → ℕ → Option ℕ
translate tables s address = follow (frame (s.page_directory (address / 2 ^ 22))) (λ t.
    follow (frame (s.page_tables ((t - tables) / 4096) (address / 2 ^ 12 % 1024)))
      (λ f. some (f + address % 4096)))

present_entry_lem : (a : ℕ) → a % 4 ≡ 0 → present_entry a ≡ a + 3
unfolding present_entry
present_entry_lem a h = omega (
  arith,
  bit_or_step a 1,
  bit_or-zero (a / 2),
  bit_or_step (bit_or a 1) 2,
  bit_or_step (bit_or a 1 / 2) 1,
  bit_or-zero (bit_or a 1 / 2 / 2),
)

fill_table_lem :
    (n table entry : ℕ) (t : ℕ → ℕ) (j : ℕ)
    → fill_table n table entry t j
      ≡ (if leb entry j && ltb j (entry + n) then present_entry (frame_address table j) else t j)
unfolding fill_table
fill_table_lem zero table entry t j = ground arith
fill_table_lem (suc n) table entry t j =
    let v : ℕ = present_entry (frame_address table entry) in
    ground (
      arith,
      fill_table_lem n table (entry + 1) (write t entry v) j,
      ap (λ k. present_entry (frame_address table k)),
    )

clear_directory_lem :
    (n table : ℕ) (d : ℕ → ℕ) (j : ℕ)
    → clear_directory n table d j ≡ (if leb table j && ltb j (table + n) then 0 else d j)
unfolding clear_directory
clear_directory_lem zero table d j = ground arith
clear_directory_lem (suc n) table d j =
    ground (arith, clear_directory_lem n (table + 1) (write d table 0) j)

fill_tables_directory :
    (n tables table : ℕ) (s : Paging) (j : ℕ)
    → (fill_tables n tables table s).page_directory j ≡ (
        if leb table j && ltb j (table + n)
        then present_entry (table_address tables j)
        else s.page_directory j)
unfolding fill_tables
fill_tables_directory zero tables table s j = ground arith
fill_tables_directory (suc n) tables table s j = ground (
  arith,
  fill_tables_directory n tables (table + 1)
      (record s {
        page_tables = write s.page_tables table (fill_table 1024 table 0 (s.page_tables table));
        page_directory = write s.page_directory table (present_entry (table_address tables table));
      })
      j,
  ap (λ k. present_entry (table_address tables k)),
)

fill_tables_entry :
    (n tables table : ℕ) (s : Paging) (j e : ℕ)
    → e < 1024
    → (fill_tables n tables table s).page_tables j e ≡ (
        if leb table j && ltb j (table + n)
        then present_entry (frame_address j e)
        else s.page_tables j e)
unfolding fill_tables
fill_tables_entry zero tables table s j e h = ground arith
fill_tables_entry (suc n) tables table s j e h =
    let filled : ℕ → ℕ = fill_table 1024 table 0 (s.page_tables table) in
    ground (
      arith,
      fill_tables_entry n tables (table + 1)
          (record s {
            page_tables = write s.page_tables table filled;
            page_directory =
                write s.page_directory table (present_entry (table_address tables table));
          })
          j e,
      if_under (λ (t : ℕ → ℕ). t e) (table == j) filled (s.page_tables j),
      fill_table_lem 1024 table 0 (s.page_tables table) e,
      ap (λ k. present_entry (frame_address k e)),
    )

frame_present : (a e : ℕ) → a % 4096 ≡ 0 → e ≡ a + 3 → frame e ≡ some a
frame_present a e h q = if_eq (e % 2) 1 _ _ (omega arith) ∙ ap some (omega arith)

module _ (directory tables : ℕ) (s : Paging) where
  directory_lem :
      (i : ℕ)
      → i < 1024
      → (paging_init directory tables s).page_directory i
        ≡ (if ltb i 32 then present_entry (table_address tables i) else 0)
  unfolding paging_init
  directory_lem i h = ground (
    arith,
    clear_directory_lem 992 32 (fill_tables 32 tables 0 s).page_directory i,
    fill_tables_directory 32 tables 0 s i,
  )

  entry_lem :
      (i e : ℕ)
      → i < 32
      → e < 1024
      → (paging_init directory tables s).page_tables i e ≡ present_entry (frame_address i e)
  unfolding paging_init
  entry_lem i e h he = ground (arith, fill_tables_entry 32 tables 0 s i e he)

  -- After `paging_init` the processor's walk takes each of the 2^32 addresses below 128 MB to itself,
  -- and finds no page at any other. The static tables must be aligned and lie within memory.
  pub translate-paging_init :
      (address : ℕ)
      → tables % 4096 ≡ 0
      → tables + 32 * 4096 ≤ 2 ^ 32
      → address < 2 ^ 32
      → translate tables (paging_init directory tables s) address
        ≡ (if ltb address (128 * 1024 * 1024) then some address else none)
  unfolding table_address frame_address
  translate-paging_init address al fits h = elim (dec_lt address (128 * 1024 * 1024)) [
    | yes low ↦
        let i : ℕ = address / 2 ^ 22 in
        let e : ℕ = address / 2 ^ 12 % 1024 in
        let t : Paging = paging_init directory tables s in
        let pde : t.page_directory i ≡ tables + i * 4096 + 3 = ground (
          arith,
          directory_lem i (omega arith),
          present_entry_lem (table_address tables i) (omega arith),
        ) in
        let found : frame (t.page_directory i) ≡ some (tables + i * 4096) =
          frame_present (tables + i * 4096) (t.page_directory i) (omega arith) pde in
        let index : (tables + i * 4096 - tables) / 4096 ≡ i = omega arith in
        let pte : t.page_tables i e ≡ (i * 1024 + e) * 4096 + 3 = omega (
          arith,
          entry_lem i e (omega arith) (omega arith),
          present_entry_lem (frame_address i e) (omega arith),
        ) in
        let mapped : frame (t.page_tables i e) ≡ some ((i * 1024 + e) * 4096) =
          frame_present ((i * 1024 + e) * 4096) (t.page_tables i e) (omega arith) pte in
        let same : (i * 1024 + e) * 4096 + address % 4096 ≡ address = omega arith in
        let second : ℕ → Option ℕ =
          λ k. follow (frame (t.page_tables k e)) (λ f. some (f + address % 4096)) in
        ap (λ o. follow o (λ a. second ((a - tables) / 4096))) found
        ∙ ap second index
        ∙ ap (λ o. follow o (λ f. some (f + address % 4096))) mapped
        ∙ ap some same
        ∙ ground arith
    | no high ↦
        let i : ℕ = address / 2 ^ 22 in
        let absent : (paging_init directory tables s).page_directory i ≡ 0 =
          ground (arith, directory_lem i (omega arith)) in
        ap
          (λ a. follow (frame a) (λ p.
            follow
              (frame (
                (paging_init directory tables s).page_tables ((p - tables) / 4096)
                  (address / 2 ^ 12 % 1024)))
              (λ f. some (f + address % 4096))))
          absent
        ∙ ground arith
  ]
