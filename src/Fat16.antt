-- ===== src/Fat16.antt =====
-- The FAT16 file system, kernel/fs/fat16.c: the geometry of a mounted volume and the operations'
-- state. The children hold the formatter, the FAT, the directories and the files.
-- An operation that uses the disk is a function of the device's state (`M`). A local sector buffer
-- is the value that a read gives. A C `int` that says success or failure is a `Bool`.
pub mod Format
pub mod Fat
pub mod Dir
pub mod File
use alderkernel.Prelude.{
  ℕ, ◌+◌, Bool, true, false, List, if◌then◌else◌, replicate, add32, sub32, mul32,
}

-- `zero_sector`
unfoldable pub zero_sector : List ℕ
zero_sector = replicate 512 0

-- Operations over the device's state.
abbrev pub M : Type 0 → Type 0 → Type 0
M S A = S → A × S

abbrev pub pure : {S A : Type 0} → A → M S A
pure a s = (a, s)

infixl 5 ◌>>=◌
abbrev pub ◌>>=◌ : {S A B : Type 0} → M S A → (A → M S B) → M S B
◌>>=◌ m f s = let (a, s') = m s in f a s'

-- `if (!ok) return 0;` before the rest.
abbrev pub when_ok : {S : Type 0} → M S Bool → M S Bool → M S Bool
when_ok m k s = let (ok, s') = m s in if ok then k s' else (false, s')

-- `fat16_volume_t`
pub record Volume : Type 0 where
  pub partition_lba : ℕ
  pub bytes_per_sector : ℕ
  pub sectors_per_cluster : ℕ
  pub reserved_sectors : ℕ
  pub num_fats : ℕ
  pub root_entries : ℕ
  pub fat_size_sectors : ℕ
  pub root_dir_sectors : ℕ
  pub fat_start : ℕ
  pub root_start : ℕ
  pub data_start : ℕ

-- The statics `vol` and `mounted`.
pub record Fs : Type 0 where
  pub vol : Volume
  pub mounted : Bool

unfoldable pub cluster_to_lba : Volume → ℕ → ℕ
cluster_to_lba vol cluster = add32 vol.data_start (mul32 (sub32 cluster 2) vol.sectors_per_cluster)
