-- ===== src/Shell/Disks/Making.antt =====
-- What mkpart and mkfs leave on the disk, and the mount of it.
use alderkernel.Prelude.{
  ℕ, ◌-◌, ◌^◌, ◌<◌, ◌≡◌, ap, ◌∙◌, sym, Bool, true, false, not, ◌&&◌, Option, some, List, [], ◌∷◌,
  ◌==◌, leb, ltb, if◌then◌else◌, if_both, if_eq, if_ne, get_or, pos, arith,
}
use alderkernel.Disk.{IsDisk, lba_limit}
use alderkernel.Mbr.{
  Partition, no_partition, signature, parse_entry, entry_bytes, put_entry, mbr_read_partitions,
  mbr_write_partition,
}
use alderkernel.Mbr.Entry.{signature-put_entry, parse_entry-put_entry, length-entry_bytes}
use alderkernel.Mbr.Table.{
  given, mbr_write_partition_done, mbr_write_partition_ne, mbr_read_partitions_done,
  sector-mbr_read_partitions,
}
use alderkernel.Fat16.{Fs}
use alderkernel.Fat16.Format.{boot_sector, fat16_format, fat16_mount}
use alderkernel.Fat16.Format.Geometry.{
  layout, formatted, sector-fat16_format, fat16_mount-boot_sector,
}
use alderkernel.Shell.Disks.{Drive, Machine, do_mkpart, do_mkfs, mount_from, mount_fat16_partition}

-- The device is a disk, and the probe changes no sector and tells a machine word.
pub record IsDrive (k : Drive) : Type 0 where
  pub disk : IsDisk k.device
  pub sector-identify :
      (c : ℕ) (s : k.device.State) (j : ℕ) → disk.sector (k.identify c s).2 j ≡ disk.sector s j
  pub total_in : (c : ℕ) (s : k.device.State) → (k.identify c s).1 < 2 ^ 32

same_pair : (a b c d : ℕ) → ◌≡◌ {A = Option (ℕ × ℕ)} (some (a, b)) (some (c, d)) → (a ≡ c) × (b ≡ d)
same_pair a b c d e = (ground arith, ground arith)

module _ (k : Drive) (w : IsDrive k) where
  abbrev sector : k.device.State → ℕ → List ℕ
  sector = w.disk.sector

  -- The write that do_mkpart makes.
  abbrev written : ℕ → Machine k → Bool × k.device.State
  written n m =
      mbr_write_partition k.device (pos 0) 1 0x06 2048 n
        (k.identify m.total_sectors_cache m.drive).2

  do_mkpart-some :
      (m : Machine k) {st n : ℕ}
      → (do_mkpart k m).0 ≡ some (st, n)
      → (st ≡ 2048)
        × (n < 2 ^ 32)
        × ((written n m).0 ≡ true)
        × ((do_mkpart k m).1.drive ≡ (written n m).1)
  unfolding do_mkpart
  do_mkpart-some m {st} {n} =
      let (ok, total, s1) = k.identify m.total_sectors_cache m.drive in
      let m1 : Machine k = record m { total_sectors_cache = total; drive = s1 } in
      let count : ℕ = total - 2048 in
      let P : Option (ℕ × ℕ) × Machine k → Type 0 = λ r.
        r.0 ≡ some (st, n)
        → (st ≡ 2048) × (n < 2 ^ 32) × ((written n m).0 ≡ true) × (r.1.drive ≡ (written n m).1) in
      if_both P (not ok) (λ _ e. cc)
        (λ _.
          if_both P (total == 0) (λ _ e. cc)
            (λ _.
              if_both P (leb total 2048) (λ _ e. cc)
                (λ _.
                  if_both P (written count m).0
                    (λ done e.
                      let (a, q) = same_pair 2048 count st n e in
                      (
                        sym a,
                        omega (arith, w.total_in m.total_sectors_cache m.drive),
                        ap (λ x. (written x m).0) (sym q) ∙ done,
                        ap (λ x. (written x m).1) q,
                      ))
                    (λ _ e. cc))))

  -- The first partition of the list is mounted.
  mount_first :
      (parts : List Partition) (n : ℕ) (m : Machine k)
      → get_or parts 0 no_partition ≡ given 1 0x06 2048 n
      → sector m.drive 2048 ≡ boot_sector 2048 n
      → (k.device.read_sector 2048 m.drive).0 ≡ true
      → ((mount_from k parts m).0 ≡ true)
        × ((mount_from k parts m).1.fs ≡ record { vol = formatted 2048; mounted = true })
  unfolding mount_from
  mount_first [] n m e boot done =
      let z : ◌≡◌ {A = ℕ} 0 6 = ap (λ (q : Partition). q.kind) e in absurd (omega arith)
  mount_first (part ∷ parts) n m e boot done =
      let kind : part.kind ≡ 6 = ap (λ (q : Partition). q.kind) e in
      let start : 2048 ≡ part.lba_start = sym (ap (λ (q : Partition). q.lba_start) e) in
      let mount : Bool × Fs = (fat16_mount k.device part.lba_start m.fs m.drive).0 in
      let done_at : mount ≡ (true, record { vol = formatted 2048; mounted = true }) =
        ap (λ p. (fat16_mount k.device p m.fs m.drive).0) (sym start)
        ∙ fat16_mount-boot_sector k.device w.disk 2048 n m.drive m.fs (omega arith) boot done in
      let chosen =
        if_eq {A = Bool × Machine k} part.kind 6
          (
            mount.0,
            record m { fs = mount.1; drive = (fat16_mount k.device part.lba_start m.fs m.drive).1 },
          )
          (mount_from k parts m) kind in
      (
        ap (λ (r : Bool × Machine k). r.0) chosen ∙ ap (λ (r : Bool × Fs). r.0) done_at,
        ap (λ (r : Bool × Machine k). r.1.fs) chosen ∙ ap (λ (r : Bool × Fs). r.1) done_at,
      )

  mounted :
      (n : ℕ) (m : Machine k)
      → signature (sector m.drive 0) ≡ 0xaa55
      → parse_entry (sector m.drive 0) 0 ≡ given 1 0x06 2048 n
      → sector m.drive 2048 ≡ boot_sector 2048 n
      → (k.device.read_sector 0 m.drive).0 ≡ true
      → (k.device.read_sector 2048 (mbr_read_partitions k.device m.drive).1).0 ≡ true
      → ((mount_fat16_partition k m).0 ≡ true)
        × ((mount_fat16_partition k m).1.fs ≡ record { vol = formatted 2048; mounted = true })
  unfolding mount_fat16_partition
  mounted n m sig part boot read0 read1 =
      let r : (List Partition × ℕ) × k.device.State = mbr_read_partitions k.device m.drive in
      let m1 : Machine k = record m { drive = r.1 } in
      let (first, used) =
        mbr_read_partitions_done k.device w.disk m.drive 0 (omega arith) read0 sig in
      let some_used : 0 < r.0.1 = used (λ z.
        let six : ◌≡◌ {A = ℕ} 6 0 = sym (ap (λ (q : Partition). q.kind) part) ∙ z in
        absurd (omega arith)) in
      let chosen =
        if_ne {A = Bool × Machine k} r.0.1 0 (false, m1) (mount_from k r.0.0 m1) (omega arith) in
      let all =
        mount_first r.0.0 n m1 (first ∙ part)
          (sector-mbr_read_partitions k.device w.disk m.drive 2048 ∙ boot) read1 in
      (
        ap (λ (r : Bool × Machine k). r.0) chosen ∙ all.0,
        ap (λ (r : Bool × Machine k). r.1.fs) chosen ∙ all.1,
      )

  -- When the partition was made and formatted with success, and the two reads of the mount do not
  -- fail, the mount succeeds on the partition from sector 2048, with the geometry that the formatter
  -- laid out, and no sector of the disk was changed but the table's and the first 545 of the partition.
  pub mount-do_mkfs :
      (m : Machine k) {st n : ℕ}
      → (do_mkpart k m).0 ≡ some (st, n)
      → (do_mkfs k st n (do_mkpart k m).1).0 ≡ true
      → (k.device.read_sector 0 (do_mkfs k st n (do_mkpart k m).1).1.drive).0 ≡ true
      → (k.device.read_sector 2048
          (mbr_read_partitions k.device (do_mkfs k st n (do_mkpart k m).1).1.drive).1).0
        ≡ true
      → ((mount_fat16_partition k (do_mkfs k st n (do_mkpart k m).1).1).0 ≡ true)
        × ((mount_fat16_partition k (do_mkfs k st n (do_mkpart k m).1).1).1.fs
            ≡ record { vol = formatted 2048; mounted = true })
        × ((j : ℕ)
            → 0 < j
            → j < lba_limit
            → (leb 2048 j && ltb j 2593) ≡ false
            → sector (do_mkfs k st n (do_mkpart k m).1).1.drive j ≡ sector m.drive j)
  unfolding do_mkfs
  mount-do_mkfs m {st} {n} e made read0 read1 =
      let (at, small, done, drive) = do_mkpart-some m e in
      let s0 : k.device.State = (k.identify m.total_sectors_cache m.drive).2 in
      let s1 : k.device.State = (do_mkpart k m).1.drive in
      let s2 : k.device.State = (fat16_format k.device st n s1).1 in
      let made' : (fat16_format k.device 2048 n s1).0 ≡ true =
        ap (λ p. (fat16_format k.device p n s1).0) (sym at) ∙ made in
      let kept : (j : ℕ)
          → j < lba_limit
          → sector s2 j ≡ (if leb 2048 j && ltb j 2593 then layout 2048 n j else sector s1 j) =
        λ j hj.
          ap (λ p. sector (fat16_format k.device p n s1).1 j) at
          ∙ sector-fat16_format k.device w.disk 2048 n s1 (omega arith) made' j hj in
      let table : sector s2 0 ≡ put_entry (sector s0 0) 0 (entry_bytes 1 0x06 2048 n) =
        kept 0 (omega arith)
        ∙ ap (λ s. sector s 0) drive
        ∙ mbr_write_partition_done k.device w.disk 0 1 0x06 2048 n s0 (omega arith) (omega arith)
            done in
      let v = w.disk.sector-IsSector s0 0 in
      let (ok, fs) =
        mounted n (do_mkfs k st n (do_mkpart k m).1).1
          (ap signature table
            ∙ signature-put_entry v 0 (omega arith) (entry_bytes 1 0x06 2048 n)
                (length-entry_bytes 1 0x06 2048 n))
          (ap (λ x. parse_entry x 0) table
            ∙ parse_entry-put_entry v 0 (omega arith) 1 0x06 2048 n (omega arith) small)
          (kept 2048 (omega arith)) read0 read1 in
      (
        ok,
        fs,
        λ j pos lt out.
            kept j lt
            ∙ ap (λ b. if b then layout 2048 n j else sector s1 j) out
            ∙ ap (λ s. sector s j) drive
            ∙ mbr_write_partition_ne k.device w.disk 0 1 0x06 2048 n s0 j lt (omega arith)
            ∙ w.sector-identify m.total_sectors_cache m.drive j,
      )
