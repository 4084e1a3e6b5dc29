-- ===== src/Disk.antt =====
-- The block device that the file system stands on, as kernel/drivers/ata.h promises it: sectors of
-- 512 bytes under 28-bit addresses, read and written whole, each call of which may fail.
-- `Device` has the two calls; `IsDisk` has what a client relies on. The driver behind them is `Ata`.
pub mod Ram
pub mod Sector
use alderkernel.Prelude.{
  ℕ, ◌<◌, ◌^◌, ◌≡◌, ◌≢◌, Bool, true, false, List, ◌==◌, if◌then◌else◌, get_or, length,
}

-- A read gives its success, what is then in the caller's buffer, and the device's next state.
pub record Device : Type 1 where
  pub State : Type 0
  pub read_sector : ℕ → State → Bool × List ℕ × State
  pub write_sector : ℕ → List ℕ → State → Bool × State

-- The addresses that LBA28 can name.
abbrev pub lba_limit : ℕ
lba_limit = 2 ^ 28

pub record IsSector (x : List ℕ) : Type 0 where
  pub size : length x ≡ 512
  pub bytes : (i : ℕ) → get_or x i 0 < 256

-- The device keeps sectors: a read that succeeds gives what was last written, a write that succeeds
-- changes its own sector, and no call changes any other.
pub record IsDisk (d : Device) : Type 0 where
  pub sector : d.State → ℕ → List ℕ
  pub sector-IsSector : (s : d.State) (l : ℕ) → IsSector (sector s l)
  pub read-sector :
      (l : ℕ) (s : d.State)
      → l < lba_limit
      → (d.read_sector l s).0 ≡ true
      → (d.read_sector l s).1 ≡ sector s l
  pub sector-read : (l : ℕ) (s : d.State) (j : ℕ) → sector (d.read_sector l s).2 j ≡ sector s j
  pub sector-write :
      (l : ℕ) (x : List ℕ) (s : d.State)
      → l < lba_limit
      → IsSector x
      → (d.write_sector l x s).0 ≡ true
      → sector (d.write_sector l x s).1 l ≡ x
  pub sector-write_ne :
      (l : ℕ) (x : List ℕ) (s : d.State) (j : ℕ)
      → l < lba_limit
      → j < lba_limit
      → l ≢ j
      → sector (d.write_sector l x s).1 j ≡ sector s j
