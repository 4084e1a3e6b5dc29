-- ===== src/Fat16/Fat/Write.antt =====
-- `fat_write_entry` and `fat_read_entry` on the disk, as operations on the entries of each copy.
use alderkernel.Prelude.{
  ℕ, zero, suc, ◌+◌, ◌*◌, ◌/◌, ◌%◌, ◌^◌, ◌<◌, ◌≤◌, ◌≡◌, refl, ◌⊎◌, ap, ap₂, sym, ◌∙◌, ◌&&◌, List,
  [], ◌∷◌, ◌==◌, ltb, leb, if_eq, if_ne, if◌then◌else◌, get_or, byte, le16, add32, mul32, arith,
}
use native.Mathlib.Decide.{ℕ_discrete}
use alderkernel.Disk.{Device, IsDisk, IsSector, lba_limit}
use alderkernel.Disk.Sector.{AllBytes-AreBytes, store-IsSector, sector-write_if}
use alderkernel.Fat16.{Volume}
use alderkernel.Fat16.Fat.{
  entry_sector, entry_offset, fat_base, patch, fat_read_entry, write_copy, write_copies,
  fat_write_entry,
}
use alderkernel.Fat16.Fat.Entries.{IsVolume, IsReliable, entry_at, entry_at-patch, places}

-- The sector of copy `copy` that holds the entry of a cluster.
abbrev pub place : Volume → ℕ → ℕ → ℕ
place vol copy c = vol.fat_start + copy * vol.fat_size_sectors + c / 256

place-lt :
    {vol : Volume}
    → IsVolume vol
    → (copy c : ℕ) → copy < vol.num_fats
    → c < vol.fat_size_sectors * 256
    → place vol copy c < vol.fat_start + vol.num_fats * vol.fat_size_sectors
place-lt {vol} v copy c hc h = grind arith

place_of :
    {vol : Volume}
    → IsVolume vol
    → (copy c : ℕ) → copy < vol.num_fats
    → c < vol.fat_size_sectors * 256
    → (add32 (fat_base vol copy) (entry_sector vol c) ≡ place vol copy c)
      × (entry_offset vol c ≡ c % 256 * 2)
unfolding fat_base entry_sector entry_offset
place_of {vol} v copy c hc h =
    let lt = place-lt v copy c hc h in
    let small : c < 2 ^ 24 = omega (arith, v.size) in
    let sector : mul32 c 2 / vol.bytes_per_sector ≡ c / 256 =
      ap (λ b. mul32 c 2 / b) v.sectors ∙ omega arith in
    let offset : mul32 c 2 % vol.bytes_per_sector ≡ c % 256 * 2 =
      ap (λ b. mul32 c 2 % b) v.sectors ∙ omega arith in
    (omega (arith, sector, v.tables), offset)

patch-IsSector : (o value : ℕ) {x : List ℕ} → IsSector x → IsSector (patch o value x)
unfolding patch
patch-IsSector o value v =
    store-IsSector o (byte value 0 ∷ byte value 8 ∷ []) v
      (AllBytes-AreBytes (byte value 0 ∷ byte value 8 ∷ []) (omega arith, (omega arith, tt)))

module _ (d : Device) (k : IsDisk d) (ok : IsReliable d) {vol : Volume} (v : IsVolume vol) where
  -- The entry of a cluster in one of the copies.
  abbrev pub entry : d.State → ℕ → ℕ → ℕ
  entry s copy c = entry_at (k.sector s (place vol copy c)) (c % 256)

  read-place :
      (copy c : ℕ) (s : d.State)
      → copy < vol.num_fats
      → c < vol.fat_size_sectors * 256
      → (d.read_sector (place vol copy c) s).1 ≡ k.sector s (place vol copy c)
  read-place copy c s hc h =
      k.read-sector (place vol copy c) s (omega (arith, place-lt v copy c hc h, v.tables))
        (ok.reads (place vol copy c) s)

  -- One round of the loop changes one sector, by the two bytes of the entry.
  sector-write_copy :
      (copy c value : ℕ) (s : d.State)
      → copy < vol.num_fats
      → c < vol.fat_size_sectors * 256
      → (j : ℕ) → j < lba_limit
      → k.sector (write_copy d vol copy c value s) j ≡ (
          if place vol copy c == j
          then patch (c % 256 * 2) value (k.sector s (place vol copy c))
          else k.sector s j)
  unfolding write_copy
  sector-write_copy copy c value s hc h j hj =
      let l : ℕ = place vol copy c in
      let p = place_of v copy c hc h in
      let lt : l < lba_limit = omega (arith, place-lt v copy c hc h, v.tables) in
      let s1 : d.State = (d.read_sector l s).2 in
      let old : List ℕ = k.sector s l in
      let x : List ℕ = patch (c % 256 * 2) value old in
      let run : write_copy d vol copy c value s ≡ (d.write_sector l x s1).1 =
        ap₂
          (λ a o. (d.write_sector a (patch o value (d.read_sector a s).1) (d.read_sector a s).2).1)
          p.0 p.1
        ∙ ap (λ y. (d.write_sector l (patch (c % 256 * 2) value y) s1).1)
            (read-place copy c s hc h) in
      ap (λ t. k.sector t j) run
      ∙ sector-write_if d k l x s1 lt (patch-IsSector (c % 256 * 2) value (k.sector-IsSector s l))
          (ok.writes l x s1) j hj
      ∙ ap (λ y. if l == j then x else y) (k.sector-read l s j)

  -- The round seen as a change of entries.
  entry-write_copy :
      (copy c value : ℕ) (s : d.State)
      → copy < vol.num_fats
      → c < vol.fat_size_sectors * 256
      → (b e : ℕ) → b < vol.num_fats
      → e < vol.fat_size_sectors * 256
      → entry (write_copy d vol copy c value s) b e
        ≡ (if b == copy && e == c then value % 2 ^ 16 else entry s b e)
  entry-write_copy copy c value s hc h b e hb he =
      let l : ℕ = place vol copy c in
      let m : ℕ = place vol b e in
      let x : List ℕ = patch (c % 256 * 2) value (k.sector s l) in
      let lt : m < lba_limit = omega (arith, place-lt v b e hb he, v.tables) in
      ap (λ y. entry_at y (e % 256)) (sector-write_copy copy c value s hc h m lt)
      ∙ elim (ℕ_discrete l m) [
        | yes at ↦
            let same : (copy ≡ b) × (c / 256 ≡ e / 256) =
              places vol.fat_size_sectors copy (c / 256) b (e / 256) (omega arith) (omega arith)
                (omega arith) in
            ap (λ y. entry_at y (e % 256)) (if_eq l m x (k.sector s m) at)
            ∙ entry_at-patch (k.sector s l) (c % 256) (e % 256) value (k.sector-IsSector s l).size
                (omega arith) (omega arith)
            ∙ ground (arith, same, ap (λ a. entry_at (k.sector s a) (e % 256)) at)
        | no ne ↦
            ap (λ y. entry_at y (e % 256)) (if_ne l m x (k.sector s m) ne)
            ∙ ground (arith, ap₂ (place vol))
      ]

  -- A sector that is in none of the tables.
  abbrev pub Outside : ℕ → Type 0
  Outside j = (j < vol.fat_start) ⊎ (vol.fat_start + vol.num_fats * vol.fat_size_sectors ≤ j)

  entry-write_copies :
      (n a c value : ℕ) (s : d.State)
      → a + n ≤ vol.num_fats
      → c < vol.fat_size_sectors * 256
      → (b e : ℕ) → b < vol.num_fats
      → e < vol.fat_size_sectors * 256
      → entry (write_copies d vol n a c value s) b e
        ≡ (if (leb a b && ltb b (a + n)) && e == c then value % 2 ^ 16 else entry s b e)
  unfolding write_copies
  entry-write_copies zero a c value s hn h b e hb he = ground arith
  entry-write_copies (suc n) a c value s hn h b e hb he =
      let s1 : d.State = write_copy d vol a c value s in
      let now : entry s1 b e ≡ (if b == a && e == c then value % 2 ^ 16 else entry s b e) =
        entry-write_copy a c value s (omega arith) h b e hb he in
      entry-write_copies n (a + 1) c value s1 (omega arith) h b e hb he
      ∙ ap (λ y. if (leb (a + 1) b && ltb b (a + 1 + n)) && e == c then value % 2 ^ 16 else y) now
      ∙ ground arith

  sector-write_copies :
      (n a c value : ℕ) (s : d.State)
      → a + n ≤ vol.num_fats
      → c < vol.fat_size_sectors * 256
      → (j : ℕ) → j < lba_limit
      → Outside j
      → k.sector (write_copies d vol n a c value s) j ≡ k.sector s j
  unfolding write_copies
  sector-write_copies zero a c value s hn h j hj out = refl
  sector-write_copies (suc n) a c value s hn h j hj out =
      let in_table = place-lt v a c (omega arith) h in
      sector-write_copies n (a + 1) c value (write_copy d vol a c value s) (omega arith) h j hj out
      ∙ sector-write_copy a c value s (omega arith) h j hj
      ∙ if_ne (place vol a c) j _ _ (omega (arith, in_table, out))

  -- `fat_write_entry` puts the low 16 bits of the value into the entry of the cluster in every copy of
  -- the table, and changes no other entry of any copy and no sector outside of the tables. The device
  -- is a disk on which no call fails, and the cluster is one of the table's.
  pub fat_write_entry_lem :
      (c value : ℕ) (s : d.State)
      → c < vol.fat_size_sectors * 256
      → ((b e : ℕ)
          → b < vol.num_fats
          → e < vol.fat_size_sectors * 256
          → entry (fat_write_entry d vol c value s) b e
            ≡ (if e == c then value % 2 ^ 16 else entry s b e))
        × ((j : ℕ)
            → j < lba_limit
            → Outside j
            → k.sector (fat_write_entry d vol c value s) j ≡ k.sector s j)
  unfolding fat_write_entry
  fat_write_entry_lem c value s h = (
    λ b e hb he.
        entry-write_copies vol.num_fats 0 c (value % 2 ^ 16) s (omega arith) h b e hb he
        ∙ ground arith,
    λ j hj out. sector-write_copies vol.num_fats 0 c (value % 2 ^ 16) s (omega arith) h j hj out,
  )

  -- A read of the table returns the entry of its first copy.
  pub fat_read_entry_lem :
      (c : ℕ) (s : d.State)
      → 0 < vol.num_fats
      → c < vol.fat_size_sectors * 256
      → (fat_read_entry d vol c s).0 ≡ entry s 0 c
  unfolding fat_read_entry fat_base
  fat_read_entry_lem c s some_copy h =
      let p = place_of v 0 c some_copy h in
      let l : add32 vol.fat_start (entry_sector vol c) ≡ place vol 0 c =
        omega (arith, p.0, v.tables) in
      ap₂ (λ a o. le16 (get_or (d.read_sector a s).1 o 0) (get_or (d.read_sector a s).1 (o + 1) 0))
        l p.1
      ∙ ap (λ y. entry_at y (c % 256)) (read-place 0 c s some_copy h)

  pub sector-fat_read_entry :
      (c : ℕ) (s : d.State) (j : ℕ) → k.sector (fat_read_entry d vol c s).1 j ≡ k.sector s j
  unfolding fat_read_entry
  sector-fat_read_entry c s j = k.sector-read (add32 vol.fat_start (entry_sector vol c)) s j

  -- What is read of a cluster after a write is what was written, cut to 16 bits, for the same cluster
  -- and what would have been read before, for any other.
  pub fat_read_entry-fat_write_entry :
      (c e value : ℕ) (s : d.State)
      → 0 < vol.num_fats
      → c < vol.fat_size_sectors * 256
      → e < vol.fat_size_sectors * 256
      → (fat_read_entry d vol e (fat_write_entry d vol c value s)).0
        ≡ (if e == c then value % 2 ^ 16 else (fat_read_entry d vol e s).0)
  fat_read_entry-fat_write_entry c e value s some_copy h he =
      fat_read_entry_lem e (fat_write_entry d vol c value s) some_copy he
      ∙ (fat_write_entry_lem c value s h).0 0 e some_copy he
      ∙ ap (λ y. if e == c then value % 2 ^ 16 else y) (sym (fat_read_entry_lem e s some_copy he))
