-- ===== src/Fat16/Fat/Entries.antt =====
-- The table as an array of entries: what `fat_write_entry` does to every entry of every copy.
use alderkernel.Prelude.{
  ℕ, ◌+◌, ◌*◌, ◌%◌, ◌^◌, ◌<◌, ◌≤◌, ◌≡◌, ◌≢◌, ◌⊎◌, inl, inr, ap, ap₂, sym, ◌∙◌, true, List, [], ◌∷◌,
  ◌==◌, if_eq, if_ne, if◌then◌else◌, get_or, store, length, get_or-store_in, get_or-store_out, byte,
  le16, le16-byte, arith,
}
use native.Mathlib.Decide.{dec_lt, ℕ_discrete}
use alderkernel.Disk.{Device, lba_limit}
use alderkernel.Fat16.{Volume}
use alderkernel.Fat16.Fat.{patch}

-- A volume with sectors of 512 bytes whose tables lie within the device. The size of a table is a 16-bit
-- field of the boot sector.
pub record IsVolume (vol : Volume) : Type 0 where
  pub sectors : vol.bytes_per_sector ≡ 512
  pub size : vol.fat_size_sectors < 2 ^ 16
  pub tables : vol.fat_start + vol.num_fats * vol.fat_size_sectors < lba_limit

-- A device none of whose calls fails.
pub record IsReliable (d : Device) : Type 0 where
  pub reads : (l : ℕ) (s : d.State) → (d.read_sector l s).0 ≡ true
  pub writes : (l : ℕ) (x : List ℕ) (s : d.State) → (d.write_sector l x s).0 ≡ true

-- An entry of one sector, 256 to a sector.
abbrev pub entry_at : List ℕ → ℕ → ℕ
entry_at x i = le16 (get_or x (i * 2) 0) (get_or x (i * 2 + 1) 0)

beside : (i j k : ℕ) → j ≢ i → k < 2 → (j * 2 + k < i * 2) ⊎ (i * 2 + 2 ≤ j * 2 + k)
beside i j k ne hk = elim (dec_lt j i) [ yes l ↦ inl (omega arith) | no l ↦ inr (omega arith) ]

pub entry_at-patch :
    (x : List ℕ) (i j v : ℕ)
    → length x ≡ 512
    → i < 256
    → j < 256
    → entry_at (patch (i * 2) v x) j ≡ (if j == i then v % 2 ^ 16 else entry_at x j)
unfolding patch
entry_at-patch x i j v h hi hj = elim (ℕ_discrete j i) [
  | yes at ↦
      let low : get_or (store x (i * 2) (byte v 0 ∷ byte v 8 ∷ [])) (j * 2) 0 ≡ byte v 0 =
        get_or-store_in x (i * 2) (byte v 0 ∷ byte v 8 ∷ []) 0 (j * 2) 0 (omega arith) (omega arith)
          (omega arith) in
      let high : get_or (store x (i * 2) (byte v 0 ∷ byte v 8 ∷ [])) (j * 2 + 1) 0 ≡ byte v 8 =
        get_or-store_in x (i * 2) (byte v 0 ∷ byte v 8 ∷ []) 1 (j * 2 + 1) 0 (omega arith)
          (omega arith) (omega arith) in
      ap₂ le16 low high ∙ le16-byte v ∙ sym (if_eq j i _ _ at)
  | no ne ↦
      let apart : (k : ℕ) → k < 2 → (j * 2 + k < i * 2) ⊎ (i * 2 + 2 ≤ j * 2 + k) =
        λ k hk. beside i j k ne hk in
      let low : get_or (store x (i * 2) (byte v 0 ∷ byte v 8 ∷ [])) (j * 2) 0 ≡ get_or x (j * 2) 0 =
        get_or-store_out x (i * 2) (byte v 0 ∷ byte v 8 ∷ []) (j * 2) 0 (omega arith)
          (omega (arith, apart 0 (omega arith))) in
      let high : get_or (store x (i * 2) (byte v 0 ∷ byte v 8 ∷ [])) (j * 2 + 1) 0
          ≡ get_or x (j * 2 + 1) 0 =
        get_or-store_out x (i * 2) (byte v 0 ∷ byte v 8 ∷ []) (j * 2 + 1) 0 (omega arith)
          (omega (arith, apart 1 (omega arith))) in
      ap₂ le16 low high ∙ sym (if_ne j i _ _ ne)
]

-- Two places of the tables are one only if the copy and the sector are the same.
pub places : (f a b c e : ℕ) → b < f → e < f → a * f + b ≡ c * f + e → (a ≡ c) × (b ≡ e)
places f a b c e hb he h = elim (dec_lt a c) [
  | yes l ↦ absurd (grind arith)
  | no l ↦ elim (dec_lt c a) [
    | yes m ↦ absurd (grind arith)
    | no m ↦ let e' : a ≡ c = omega arith in (e', omega (arith, ap (λ (t : ℕ). t * f) e'))
  ]
]
