-- ===== src/Fat16/Fat/Alloc.antt =====
-- `fat_alloc_cluster`: which cluster it takes, and what it leaves in the tables.
use alderkernel.Prelude.{
  ℕ, zero, suc, ◌+◌, ◌-◌, ◌*◌, ◌/◌, ◌%◌, ◌<◌, ◌≤◌, ◌≡◌, refl, ◌≢◌, ◌⊎◌, inl, inr, ap, sym, ◌∙◌,
  ◌==◌, if_eq, if_ne, if◌then◌else◌, mul32, arith,
}
use native.Mathlib.Decide.{ℕ_discrete}
use alderkernel.Disk.{Device, IsDisk, lba_limit}
use alderkernel.Fat16.{Volume}
use alderkernel.Fat16.Fat.{
  max_cluster, fat_read_entry, fat_write_entry, alloc_from, fat_alloc_cluster,
}
use alderkernel.Fat16.Fat.Entries.{IsVolume, IsReliable, entry_at}
use alderkernel.Fat16.Fat.Write.{
  entry, Outside, place, fat_write_entry_lem, fat_read_entry_lem, sector-fat_read_entry,
}

max_cluster_lem : {vol : Volume} → IsVolume vol → max_cluster vol ≡ vol.fat_size_sectors * 256
unfolding max_cluster
max_cluster_lem {vol} v =
    ap (λ b. mul32 vol.fat_size_sectors b / 2) v.sectors ∙ omega (arith, v.size)

module _ (d : Device) (k : IsDisk d) (ok : IsReliable d) {vol : Volume} (v : IsVolume vol) where
  -- Every cluster from `a` up to `b` is in use, by the first copy of the table.
  abbrev pub InUse : d.State → ℕ → ℕ → Type 0
  InUse s a b = (e : ℕ) → a ≤ e → e < b → entry d k ok v s 0 e ≢ 0

  -- Cluster `c` was the first free one, and ends a chain now.
  pub record Taken (s : d.State) (r : ℕ × d.State) (first c : ℕ) : Type 0 where
    pub result : r.0 ≡ c
    pub not_before : first ≤ c
    pub in_table : c < vol.fat_size_sectors * 256
    pub was_free : entry d k ok v s 0 c ≡ 0
    pub lower_in_use : InUse s first c
    pub entries :
        (b e : ℕ)
        → b < vol.num_fats
        → e < vol.fat_size_sectors * 256
        → entry d k ok v r.1 b e ≡ (if e == c then 0xffff else entry d k ok v s b e)
    pub others : (j : ℕ) → j < lba_limit → Outside d k ok v j → k.sector r.1 j ≡ k.sector s j

  pub record IsFull (s : d.State) (r : ℕ × d.State) (first : ℕ) : Type 0 where
    pub result : r.0 ≡ 0
    pub in_use : InUse s first (vol.fat_size_sectors * 256)
    pub sectors : (j : ℕ) → k.sector r.1 j ≡ k.sector s j

  -- A state that has the same sectors.
  abbrev Same : d.State → d.State → Type 0
  Same s t = (j : ℕ) → k.sector t j ≡ k.sector s j

  Same-entry : {s t : d.State} → Same s t → (b e : ℕ) → entry d k ok v t b e ≡ entry d k ok v s b e
  Same-entry same b e = ap (λ y. entry_at y (e % 256)) (same (place vol b e))

  Taken-now :
      {s t : d.State} (c : ℕ)
      → Same s t
      → c < vol.fat_size_sectors * 256
      → entry d k ok v s 0 c ≡ 0
      → Taken s (c, fat_write_entry d vol c 0xffff t) c c
  Taken-now {s} {t} c same h free =
      let w = fat_write_entry_lem d k ok v c 0xffff t h in
      record {
        result = refl;
        not_before = omega arith;
        in_table = h;
        was_free = free;
        lower_in_use = λ e lo hi. absurd (omega arith);
        entries = λ b e hb he.
            w.0 b e hb he ∙ ap (λ y. if e == c then 0xffff else y) (Same-entry same b e);
        others = λ j hj out. w.1 j hj out ∙ same j;
      }

  InUse-from :
      {s t : d.State} (c b : ℕ)
      → Same s t
      → entry d k ok v s 0 c ≢ 0
      → InUse t (c + 1) b
      → InUse s c b
  InUse-from {s} {t} c b same used rest = λ e lo hi. elim (ℕ_discrete e c) [
    | yes at ↦ λ free. used (ap (entry d k ok v s 0) (sym at) ∙ free)
    | no ne ↦ λ free. rest e (omega arith) hi (Same-entry same 0 e ∙ free)
  ]

  -- What the search finds from the next cluster on, where this one is in use.
  Taken-later :
      {s t : d.State} {r : ℕ × d.State} (c : ℕ)
      → Same s t
      → entry d k ok v s 0 c ≢ 0
      → ((a : ℕ) × Taken t r (c + 1) a) ⊎ IsFull t r (c + 1)
      → ((a : ℕ) × Taken s r c a) ⊎ IsFull s r c
  Taken-later c same used (inl (a, w)) = inl (
    a,
    record {
      result = w.result;
      not_before = omega (arith, w.not_before);
      in_table = w.in_table;
      was_free = sym (Same-entry same 0 a) ∙ w.was_free;
      lower_in_use = InUse-from c a same used w.lower_in_use;
      entries = λ b e hb he.
          w.entries b e hb he ∙ ap (λ y. if e == a then 0xffff else y) (Same-entry same b e);
      others = λ j hj out. w.others j hj out ∙ same j;
    },
  )
  Taken-later c same used (inr w) = inr (record {
    result = w.result;
    in_use = InUse-from c (vol.fat_size_sectors * 256) same used w.in_use;
    sectors = λ j. w.sectors j ∙ same j;
  })

  alloc_from_lem :
      (n c : ℕ) (s : d.State)
      → 0 < vol.num_fats
      → c + n ≡ vol.fat_size_sectors * 256
      → ((a : ℕ) × Taken s (alloc_from d vol n c s) c a) ⊎ IsFull s (alloc_from d vol n c s) c
  unfolding alloc_from
  alloc_from_lem zero c s copy h =
      inr (record { result = refl; in_use = λ e lo hi. absurd (omega arith); sectors = λ j. refl })
  alloc_from_lem (suc n) c s copy h =
      let x : ℕ = (fat_read_entry d vol c s).0 in
      let s1 : d.State = (fat_read_entry d vol c s).1 in
      let read : x ≡ entry d k ok v s 0 c = fat_read_entry_lem d k ok v c s copy (omega arith) in
      let same : (j : ℕ) → k.sector s1 j ≡ k.sector s j = sector-fat_read_entry d k ok v c s in
      let found : ℕ × d.State = (c, fat_write_entry d vol c 0xffff s1) in
      let rest : ℕ × d.State = alloc_from d vol n (c + 1) s1 in
      elim (ℕ_discrete x 0) [
        | yes free ↦
            inl
              (c, rw (if_eq x 0 found rest free) (Taken-now c same (omega arith) (sym read ∙ free)))
        | no used ↦ rw (if_ne x 0 found rest used) (
            Taken-later c same (λ e. used (read ∙ e))
              (alloc_from_lem n (c + 1) s1 copy (omega arith)))
      ]

  -- On a disk on which no call fails, and with a copy of the table at least, `fat_alloc_cluster` either
  -- takes the first free cluster from 2 on (it returns it, marks it as the end of a chain in every
  -- copy, and changes nothing else), or finds that all are in use, returns 0 and changes nothing.
  pub fat_alloc_cluster_lem :
      (s : d.State)
      → 0 < vol.num_fats
      → 0 < vol.fat_size_sectors
      → ((a : ℕ) × Taken s (fat_alloc_cluster d vol s) 2 a) ⊎ IsFull s (fat_alloc_cluster d vol s) 2
  unfolding fat_alloc_cluster
  fat_alloc_cluster_lem s copy some =
      alloc_from_lem (max_cluster vol - 2) 2 s copy (omega (arith, max_cluster_lem v))
