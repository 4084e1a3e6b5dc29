-- ===== src/Mbr/Table.antt =====
-- The table on the disk: what a write leaves for the next read.
use alderkernel.Prelude.{
  ℕ, zero, suc, ◌+◌, ◌^◌, ◌<◌, ◌≡◌, ◌≢◌, ◌⊎◌, inl, inr, refl, ap, sym, ◌∙◌, Bool, Bool-cases,
  replicate, le32, true, if_both, ltb, List, ◌==◌, if_eq, if_ne, if◌then◌else◌, get_or, arith, pos,
}
use native.Mathlib.Decide.{ℕ_discrete}
use alderkernel.Disk.{Device, IsDisk, IsSector, lba_limit}
use alderkernel.Mbr.{
  Partition, no_partition, signature, parse_entry, parse_entries, entry_bytes, base_sector,
  put_entry, mbr_read_partitions, mbr_write_partition,
}
use alderkernel.Mbr.Entry.{
  signature-put_entry, parse_entry-put_entry, parse_entry-put_entry_ne, put_entry-IsSector,
  entry_bytes-AreBytes, length-entry_bytes,
}

get_or-parse_entries :
    (n i j : ℕ) (x : List ℕ)
    → j < n
    → get_or (parse_entries n i x).0 j no_partition ≡ parse_entry x (i + j)
unfolding parse_entries
get_or-parse_entries zero i j x h = absurd (omega arith)
get_or-parse_entries (suc n) i zero x h = ap (parse_entry x) (omega arith)
get_or-parse_entries (suc n) i (suc j) x h =
    get_or-parse_entries n (i + 1) j x (omega arith) ∙ ap (parse_entry x) (omega arith)

-- The number that is returned is not 0 where some entry is in use.
parse_entries_used :
    (n i j : ℕ) (x : List ℕ)
    → j < n
    → (parse_entry x (i + j)).kind ≢ 0
    → 0 < (parse_entries n i x).1
unfolding parse_entries
parse_entries_used zero i j x h u = absurd (omega arith)
parse_entries_used (suc n) i zero x h u =
    let e : (parse_entry x (i + 0)).kind ≡ (parse_entry x i).kind =
      ap (λ t. (parse_entry x t).kind) (omega arith) in
    ground arith
parse_entries_used (suc n) i (suc j) x h u = ground (
  arith,
  parse_entries_used n (i + 1) j x (omega arith)
      (λ e. u (ap (λ t. (parse_entry x t).kind) (omega arith) ∙ e)),
)

-- The table of a blank sector is empty.
blank_entry : (j : ℕ) → j < 4 → parse_entry (replicate 512 0) j ≡ no_partition
unfolding parse_entry le32
blank_entry zero h = refl
blank_entry (suc zero) h = refl
blank_entry (suc (suc zero)) h = refl
blank_entry (suc (suc (suc zero))) h = refl
blank_entry (suc (suc (suc (suc j)))) h = absurd (omega arith)

none_there :
    (j : ℕ)
    → j < 4
    → get_or (replicate 4 no_partition) j no_partition ≡ parse_entry (replicate 512 0) j
none_there zero h = sym (blank_entry 0 h)
none_there (suc zero) h = sym (blank_entry 1 h)
none_there (suc (suc zero)) h = sym (blank_entry 2 h)
none_there (suc (suc (suc zero))) h = sym (blank_entry 3 h)
none_there (suc (suc (suc (suc j)))) h = absurd (omega arith)

-- The record that stands for the arguments of a write.
abbrev pub given : ℕ → ℕ → ℕ → ℕ → Partition
given b t l c = record {
  bootable = if b == 0 then 0 else 1;
  kind = t;
  lba_start = l;
  sector_count = c;
}

module _ (d : Device) (k : IsDisk d) where
  -- A write that succeeds has read sector 0 and put the updated sector in its place.
  pub mbr_write_partition_done :
      (i b t l c : ℕ) (s : d.State)
      → i < 4
      → t < 256
      → (mbr_write_partition d (pos i) b t l c s).0 ≡ true
      → k.sector (mbr_write_partition d (pos i) b t l c s).1 0
        ≡ put_entry (k.sector s 0) i (entry_bytes b t l c)
  unfolding mbr_write_partition
  mbr_write_partition_done i b t l c s hi ht =
      let entry : List ℕ = entry_bytes b t l c in
      let P : Bool × d.State → Type 0 =
        λ r. r.0 ≡ true → k.sector r.1 0 ≡ put_entry (k.sector s 0) i entry in
      if_both P (ltb 3 i) (λ over e. cc)
        (λ _.
          if_both P (d.read_sector 0 s).0
            (λ done e.
              let same : (d.read_sector 0 s).1 ≡ k.sector s 0 =
                k.read-sector 0 s (omega arith) done in
              let v : IsSector (put_entry (d.read_sector 0 s).1 i entry) = rw same (
                put_entry-IsSector (k.sector-IsSector s 0) i hi entry (length-entry_bytes b t l c)
                  (entry_bytes-AreBytes b t l c ht)) in
              k.sector-write 0 _ (d.read_sector 0 s).2 (omega arith) v e
              ∙ ap (λ x. put_entry x i entry) same)
            (λ _ e. cc))

  -- No other sector is touched, whatever the outcome.
  pub mbr_write_partition_ne :
      (i b t l c : ℕ) (s : d.State) (j : ℕ)
      → j < lba_limit
      → 0 ≢ j
      → k.sector (mbr_write_partition d (pos i) b t l c s).1 j ≡ k.sector s j
  unfolding mbr_write_partition
  mbr_write_partition_ne i b t l c s j hj ne =
      let P : Bool × d.State → Type 0 = λ r. k.sector r.1 j ≡ k.sector s j in
      if_both P (ltb 3 i) (λ _. refl)
        (λ _.
          if_both P (d.read_sector 0 s).0
            (λ _.
              k.sector-write_ne 0 _ (d.read_sector 0 s).2 j (omega arith) hj ne
              ∙ k.sector-read 0 s j)
            (λ _. k.sector-read 0 s j))

  -- A read of the table changes no sector.
  pub sector-mbr_read_partitions :
      (s : d.State) (j : ℕ) → k.sector (mbr_read_partitions d s).1 j ≡ k.sector s j
  unfolding mbr_read_partitions
  sector-mbr_read_partitions s j =
      if_both (λ (r : (List Partition × ℕ) × d.State). k.sector r.1 j ≡ k.sector s j)
        (d.read_sector 0 s).0 (λ _. k.sector-read 0 s j) (λ _. k.sector-read 0 s j)

  -- The table that a read finds.
  pub mbr_read_partitions_done :
      (s : d.State) (j : ℕ)
      → j < 4
      → (d.read_sector 0 s).0 ≡ true
      → signature (k.sector s 0) ≡ 0xaa55
      → (get_or (mbr_read_partitions d s).0.0 j no_partition ≡ parse_entry (k.sector s 0) j)
        × ((parse_entry (k.sector s 0) j).kind ≢ 0 → 0 < (mbr_read_partitions d s).0.1)
  unfolding mbr_read_partitions
  mbr_read_partitions_done s j hj done sig =
      let same : (d.read_sector 0 s).1 ≡ k.sector s 0 = k.read-sector 0 s (omega arith) done in
      let x : List ℕ = k.sector s 0 in
      rw (done, same, sig)
        (
          get_or-parse_entries 4 0 j x hj ∙ ap (parse_entry x) (omega arith),
          λ u.
              parse_entries_used 4 0 j x hj
                (λ e. u (ap (λ n. (parse_entry x n).kind) (omega arith) ∙ e)),
        )

  -- What a read finds before a write is what the write starts from.
  read_before :
      (s : d.State) (j : ℕ)
      → j < 4
      → (d.read_sector 0 s).0 ≡ true
      → get_or (mbr_read_partitions d s).0.0 j no_partition
        ≡ parse_entry (base_sector (k.sector s 0)) j
  unfolding mbr_read_partitions base_sector
  read_before s j hj done =
      let same : (d.read_sector 0 s).1 ≡ k.sector s 0 = k.read-sector 0 s (omega arith) done in
      let x : List ℕ = k.sector s 0 in
      elim (Bool-cases (signature x == 0xaa55)) [
        | inl valid ↦
            rw (done, same, valid)
              (get_or-parse_entries 4 0 j x hj ∙ ap (parse_entry x) (omega arith))
        | inr no_table ↦ rw (done, same, no_table) (none_there j hj)
      ]

  write_has_read :
      (i b t l c : ℕ) (s : d.State)
      → (mbr_write_partition d (pos i) b t l c s).0 ≡ true
      → (d.read_sector 0 s).0 ≡ true
  unfolding mbr_write_partition
  write_has_read i b t l c s e = ground arith

  -- After `mbr_write_partition` reports success for one of the four entries, of a type below 256, with a
  -- start and a count below 2^32, a read of the table that the device does not fail finds that entry as
  -- it was given (a partition type that is not 0 is counted too), and finds every other entry as a read
  -- before the write finds it: the entry of a valid table, and an empty one where there is no valid
  -- table.
  pub mbr_read_partitions-mbr_write_partition :
      (i b t l c : ℕ) (s : d.State)
      → i < 4
      → t < 256
      → l < 2 ^ 32
      → c < 2 ^ 32
      → (mbr_write_partition d (pos i) b t l c s).0 ≡ true
      → (d.read_sector 0 (mbr_write_partition d (pos i) b t l c s).1).0 ≡ true
      → ((j : ℕ)
          → j < 4
          → get_or
              (mbr_read_partitions d (mbr_write_partition d (pos i) b t l c s).1).0.0
              j
              no_partition
            ≡ (if j == i
                then given b t l c
                else get_or (mbr_read_partitions d s).0.0 j no_partition))
        × ((t ≡ 0) ⊎ (0 < (mbr_read_partitions d (mbr_write_partition d (pos i) b t l c s).1).0.1))
  mbr_read_partitions-mbr_write_partition i b t l c s hi ht hl hc e done =
      let s' : d.State = (mbr_write_partition d (pos i) b t l c s).1 in
      let v : IsSector (k.sector s 0) = k.sector-IsSector s 0 in
      let entry : List ℕ = entry_bytes b t l c in
      let x : List ℕ = put_entry (k.sector s 0) i entry in
      let there : k.sector s' 0 ≡ x = mbr_write_partition_done i b t l c s hi ht e in
      let sig : signature (k.sector s' 0) ≡ 0xaa55 =
        rw there (signature-put_entry v i hi entry (length-entry_bytes b t l c)) in
      let mine : parse_entry (k.sector s' 0) i ≡ given b t l c =
        rw there (parse_entry-put_entry v i hi b t l c hl hc) in
      (
        λ j hj. (mbr_read_partitions_done s' j hj done sig).0 ∙ elim (ℕ_discrete j i) [
          | yes at ↦ ap (parse_entry (k.sector s' 0)) at ∙ (mine ∙ sym (if_eq j i _ _ at))
          | no ne ↦
              ap (λ y. parse_entry y j) there
              ∙ parse_entry-put_entry_ne v i hi entry (length-entry_bytes b t l c) j hj ne
              ∙ sym (read_before s j hj (write_has_read i b t l c s e))
              ∙ sym (if_ne j i _ _ ne)
        ],
        elim (ℕ_discrete t 0) [
          | yes z ↦ inl z
          | no u ↦ inr (
              (mbr_read_partitions_done s' i hi done sig).1
                (λ z. u (sym (ap (λ (q : Partition). q.kind) mine) ∙ z)))
        ],
      )
