-- ===== src/Paging.antt =====
-- Paging, kernel/mm/paging.c: the identity map of the first 128 MB. The two static arrays are
-- functions of the index, and their addresses are parameters. `enable_paging` is inline assembly:
-- what it leaves in the control registers is a field.
pub mod Walk
use alderkernel.Prelude.{
  ℕ, zero, suc, ◌+◌, ◌-◌, ◌*◌, Option, none, some, ◌==◌, if◌then◌else◌, bit_or, add32, mul32,
}

-- TABLES_NEEDED and ENTRIES_PER_TABLE
abbrev pub tables_needed : ℕ
tables_needed = 32

abbrev pub entries_per_table : ℕ
entries_per_table = 1024

-- `cr3` is the directory's address once paging is on.
pub record Paging : Type 0 where
  pub page_directory : ℕ → ℕ
  pub page_tables : ℕ → ℕ → ℕ
  pub cr3 : Option ℕ

abbrev pub write {ℓ} : {A : Type ℓ} → (ℕ → A) → ℕ → A → ℕ → A
write a i v j = if i == j then v else a j

-- `address | PAGE_PRESENT | PAGE_RW`
unfoldable pub present_entry : ℕ → ℕ
present_entry address = bit_or (bit_or address 1) 2

unfoldable pub frame_address : ℕ → ℕ → ℕ
frame_address table entry = mul32 (add32 (mul32 table entries_per_table) entry) 4096

-- The inner loop from `entry` on, with `n` rounds left.
unfoldable pub fill_table : ℕ → ℕ → ℕ → (ℕ → ℕ) → ℕ → ℕ
fill_table zero table entry t = t
fill_table (suc n) table entry t =
    fill_table n table (entry + 1) (write t entry (present_entry (frame_address table entry)))

-- The address of `page_tables[table][0]`.
unfoldable pub table_address : ℕ → ℕ → ℕ
table_address tables table = add32 tables (mul32 table 4096)

-- The outer loop from `table` on.
unfoldable pub fill_tables : ℕ → ℕ → ℕ → Paging → Paging
fill_tables zero tables table s = s
fill_tables (suc n) tables table s = fill_tables n tables (table + 1) (record s {
  page_tables =
      write s.page_tables table (fill_table entries_per_table table 0 (s.page_tables table));
  page_directory = write s.page_directory table (present_entry (table_address tables table));
})

unfoldable pub clear_directory : ℕ → ℕ → (ℕ → ℕ) → ℕ → ℕ
clear_directory zero table d = d
clear_directory (suc n) table d = clear_directory n (table + 1) (write d table 0)

abbrev pub enable_paging : ℕ → Paging → Paging
enable_paging directory s = record s { cr3 = some directory }

-- `directory` and `tables` are the addresses of the arrays.
unfoldable pub paging_init : ℕ → ℕ → Paging → Paging
paging_init directory tables s =
    let filled = fill_tables tables_needed tables 0 s in
    enable_paging directory (record filled {
      page_directory = clear_directory (1024 - 32) tables_needed filled.page_directory;
    })
