-- ===== src/Fat16/Format/Geometry.antt =====
-- What a format leaves for the mount.
use alderkernel.Prelude.{
  ℕ, zero, suc, ◌+◌, ◌^◌, ◌<◌, ◌≤◌, ◌≡◌, refl, ap, sym, ◌∙◌, Bool, true, false, List, [], ◌∷◌, ◌==◌,
  leb, ltb, ◌||◌, ◌&&◌, if◌then◌else◌, if_both, get_or, length, length-store, get_or-store_in,
  get_or-store_out, store, le16_lem, add32, arith,
}
use alderkernel.Disk.{Device, IsDisk, IsSector, lba_limit}
use alderkernel.Disk.Sector.{
  AreBytes, AllBytes-AreBytes, store-IsSector, zero-IsSector, sector-write_if,
}
use alderkernel.Fat16.{Volume, Fs, zero_sector, when_ok}
use alderkernel.Fat16.Format.{
  can_format, boot_header, boot_sector, fat_head, write_all, write_fat, fat16_format, read_fields,
  locate, has_boot_signature, fat16_mount,
}

pub zero_sector-IsSector : IsSector zero_sector
unfolding zero_sector
zero_sector-IsSector = zero-IsSector

-- The header is 62 bytes.
length-boot_header : (p n : ℕ) → length (boot_header p n) ≡ 62
unfolding boot_header
length-boot_header p n = refl

boot_header-AreBytes : (p n : ℕ) → AreBytes (boot_header p n)
unfolding boot_header
boot_header-AreBytes p n = AllBytes-AreBytes (boot_header p n) (omega arith)

boot_sector-IsSector : (p n : ℕ) → IsSector (boot_sector p n)
unfolding boot_sector
boot_sector-IsSector p n =
    store-IsSector 510 (0x55 ∷ 0xaa ∷ [])
      (store-IsSector 0 (boot_header p n) zero_sector-IsSector (boot_header-AreBytes p n))
      (AllBytes-AreBytes (0x55 ∷ 0xaa ∷ []) (omega arith))

fat_head-IsSector : IsSector fat_head
unfolding fat_head
fat_head-IsSector =
    store-IsSector 0 (0xf8 ∷ 0xff ∷ 0xff ∷ 0xff ∷ []) zero_sector-IsSector
      (AllBytes-AreBytes (0xf8 ∷ 0xff ∷ 0xff ∷ 0xff ∷ []) (omega arith))

boot_byte : (p n k : ℕ) → k < 62 → get_or (boot_sector p n) k 0 ≡ get_or (boot_header p n) k 0
unfolding boot_sector
boot_byte p n k h =
    let inner : length (store zero_sector 0 (boot_header p n)) ≡ 512 =
      length-store zero_sector 0 (boot_header p n) ∙ zero_sector-IsSector.size in
    get_or-store_out (store zero_sector 0 (boot_header p n)) 510 (0x55 ∷ 0xaa ∷ []) k 0
      (omega (arith, inner)) (omega arith)
    ∙ get_or-store_in zero_sector 0 (boot_header p n) k k 0
        (omega (arith, length-boot_header p n, zero_sector-IsSector.size))
        (omega (arith, length-boot_header p n)) (omega arith)

boot_signature : (p n : ℕ) → has_boot_signature (boot_sector p n) ≡ true
unfolding boot_sector has_boot_signature
boot_signature p n =
    let x : List ℕ = store zero_sector 0 (boot_header p n) in
    let inner : length x ≡ 512 =
      length-store zero_sector 0 (boot_header p n) ∙ zero_sector-IsSector.size in
    ground (
      arith,
      get_or-store_in x 510 (0x55 ∷ 0xaa ∷ []) 0 510 0 (omega (arith, inner)) (omega arith) refl,
      get_or-store_in x 510 (0x55 ∷ 0xaa ∷ []) 1 511 0 (omega (arith, inner)) (omega arith) refl,
    )

-- The volume that the formatter lays out from sector `p` on.
abbrev pub formatted : ℕ → Volume
formatted p = record {
  partition_lba = p;
  bytes_per_sector = 512;
  sectors_per_cluster = 64;
  reserved_sectors = 1;
  num_fats = 2;
  root_entries = 512;
  fat_size_sectors = 256;
  root_dir_sectors = 32;
  fat_start = p + 1;
  root_start = p + 513;
  data_start = p + 545;
}

located :
    (vol : Volume) (p n : ℕ)
    → p + 545 < 2 ^ 32
    → locate (read_fields vol p (boot_sector p n)) ≡ formatted p
unfolding locate read_fields boot_header
located vol p n h = ground (
  arith,
  boot_byte p n 11 (omega arith),
  boot_byte p n 12 (omega arith),
  boot_byte p n 13 (omega arith),
  boot_byte p n 14 (omega arith),
  boot_byte p n 15 (omega arith),
  boot_byte p n 16 (omega arith),
  boot_byte p n 17 (omega arith),
  boot_byte p n 18 (omega arith),
  boot_byte p n 22 (omega arith),
  boot_byte p n 23 (omega arith),
  le16_lem 0 2 (omega arith),
  le16_lem 1 0 (omega arith),
  le16_lem 0 1 (omega arith),
)

field_sizes :
    (vol : Volume) (p n : ℕ)
    → p + 545 < 2 ^ 32
    → ((read_fields vol p (boot_sector p n)).bytes_per_sector ≡ 512)
      × ((read_fields vol p (boot_sector p n)).sectors_per_cluster ≡ 64)
unfolding locate
field_sizes vol p n h = (
  ap (λ (v : Volume). v.bytes_per_sector) (located vol p n h),
  ap (λ (v : Volume). v.sectors_per_cluster) (located vol p n h),
)

when_ok-done :
    {S : Type 0} (m k : S → Bool × S) (s : S)
    → (when_ok m k s).0 ≡ true
    → ((m s).0 ≡ true) × (when_ok m k s ≡ k (m s).1)
when_ok-done m k s =
    if_both (λ r. r.0 ≡ true → ((m s).0 ≡ true) × (r ≡ k (m s).1)) (m s).0 (λ e _. (e, refl))
      (λ _ e. cc)

-- The sectors of the partition after a format, by their address.
abbrev pub layout : ℕ → ℕ → ℕ → List ℕ
layout p n j =
    if j == p then boot_sector p n else if j == p + 1 || j == p + 257 then fat_head else zero_sector

module _ (d : Device) (k : IsDisk d) where
  sector-write_all :
      (n lba : ℕ) (x : List ℕ) (s : d.State)
      → lba + n ≤ lba_limit
      → IsSector x
      → (write_all d n lba x s).0 ≡ true
      → (j : ℕ) → j < lba_limit
      → k.sector (write_all d n lba x s).1 j
        ≡ (if leb lba j && ltb j (lba + n) then x else k.sector s j)
  unfolding write_all
  sector-write_all zero lba x s h v e j hj = ground arith
  sector-write_all (suc n) lba x s h v e j hj =
      let ok : (d.write_sector lba x s).0 ≡ true = ground arith in
      let up : add32 lba 1 ≡ lba + 1 = omega arith in
      let s1 : d.State = (d.write_sector lba x s).1 in
      let more : (write_all d n (lba + 1) x s1).0 ≡ true =
        ap (λ l. (write_all d n l x s1).0) (sym up)
        ∙ ap (λ (q : Bool). (if q then write_all d n (add32 lba 1) x s1 else (false, s1)).0)
            (sym ok)
        ∙ e in
      rw (ok, up)
        (ground (
          arith,
          sector-write_all n (lba + 1) x s1 (omega arith) v more j hj,
          sector-write_if d k lba x s (omega arith) v ok j hj,
        ))

  sector-write_fat :
      (base : ℕ) (s : d.State)
      → base + 256 ≤ lba_limit
      → (write_fat d base s).0 ≡ true
      → (j : ℕ) → j < lba_limit
      → k.sector (write_fat d base s).1 j ≡ (
          if j == base
          then fat_head
          else if leb base j && ltb j (base + 256)
          then zero_sector
          else k.sector s j)
  unfolding write_fat
  sector-write_fat base s h e j hj =
      let run =
        when_ok-done (d.write_sector base fat_head) (write_all d 255 (add32 base 1) zero_sector) s
          e in
      let up : add32 base 1 ≡ base + 1 = omega arith in
      let s1 : d.State = (d.write_sector base fat_head s).1 in
      let after : write_fat d base s ≡ write_all d 255 (base + 1) zero_sector s1 =
        run.1 ∙ ap (λ l. write_all d 255 l zero_sector s1) up in
      let done : (write_all d 255 (base + 1) zero_sector s1).0 ≡ true =
        ap (λ (r : Bool × d.State). r.0) (sym after) ∙ e in
      ap (λ (r : Bool × d.State). k.sector r.1 j) after
      ∙ ground (
        arith,
        sector-write_all 255 (base + 1) zero_sector s1 (omega arith) zero_sector-IsSector done j hj,
        sector-write_if d k base fat_head s (omega arith) fat_head-IsSector run.0 j hj,
      )

  -- The writes of a format, in their order, with the addresses that the sums come to.
  abbrev root_writes : ℕ → d.State → Bool × d.State
  root_writes p = write_all d 32 (p + 513) zero_sector

  abbrev second_writes : ℕ → d.State → Bool × d.State
  second_writes p = when_ok (write_fat d (p + 257)) (root_writes p)

  abbrev first_writes : ℕ → d.State → Bool × d.State
  first_writes p = when_ok (write_fat d (p + 1)) (second_writes p)

  sector-writes :
      (p n : ℕ) (s : d.State)
      → p + 545 < lba_limit
      → (when_ok (d.write_sector p (boot_sector p n)) (first_writes p) s).0 ≡ true
      → (j : ℕ) → j < lba_limit
      → k.sector (when_ok (d.write_sector p (boot_sector p n)) (first_writes p) s).1 j
        ≡ (if leb p j && ltb j (p + 545) then layout p n j else k.sector s j)
  sector-writes p n s h e j hj =
      let fst : Bool × d.State → Bool = λ r. r.0 in
      let r1 = when_ok-done (d.write_sector p (boot_sector p n)) (first_writes p) s e in
      let s1 : d.State = (d.write_sector p (boot_sector p n) s).1 in
      let e1 : (first_writes p s1).0 ≡ true = ap fst (sym r1.1) ∙ e in
      let r2 = when_ok-done (write_fat d (p + 1)) (second_writes p) s1 e1 in
      let s2 : d.State = (write_fat d (p + 1) s1).1 in
      let e2 : (second_writes p s2).0 ≡ true = ap fst (sym r2.1) ∙ e1 in
      let r3 = when_ok-done (write_fat d (p + 257)) (root_writes p) s2 e2 in
      let s3 : d.State = (write_fat d (p + 257) s2).1 in
      let e3 : (root_writes p s3).0 ≡ true = ap fst (sym r3.1) ∙ e2 in
      ap (λ (r : Bool × d.State). k.sector r.1 j) (r1.1 ∙ r2.1 ∙ r3.1)
      ∙ ground (
        arith,
        sector-write_if d k p (boot_sector p n) s (omega arith) (boot_sector-IsSector p n) r1.0 j
            hj,
        sector-write_fat (p + 1) s1 (omega arith) r2.0 j hj,
        sector-write_fat (p + 257) s2 (omega arith) r3.0 j hj,
        sector-write_all 32 (p + 513) zero_sector s3 (omega arith) zero_sector-IsSector e3 j hj,
      )

  fat16_format-writes :
      (p n : ℕ) (s : d.State)
      → p + 545 < lba_limit
      → (fat16_format d p n s).0 ≡ true
      → fat16_format d p n s ≡ when_ok (d.write_sector p (boot_sector p n)) (first_writes p) s
  unfolding fat16_format
  fat16_format-writes p n s h =
      let at1 : add32 p 1 ≡ p + 1 = omega arith in
      let at2 : add32 (p + 1) 256 ≡ p + 257 = omega arith in
      let at3 : add32 (p + 1) 512 ≡ p + 513 = omega arith in
      rw (at1, at2, at3)
        (if_both {A = Bool × d.State}
          (λ r. r.0 ≡ true → r ≡ when_ok (d.write_sector p (boot_sector p n)) (first_writes p) s)
          (can_format n) (λ _ _. refl) (λ _ e. cc))

  -- When `fat16_format` reports success on a disk, for a partition whose first 545 sectors have
  -- addresses below the limit of the device, every sector of the disk is known: the partition begins with
  -- its boot sector, two equal file allocation tables with nothing but the reserved entries, and an
  -- empty root directory, and no sector outside of these was changed.
  pub sector-fat16_format :
      (p n : ℕ) (s : d.State)
      → p + 545 < lba_limit
      → (fat16_format d p n s).0 ≡ true
      → (j : ℕ) → j < lba_limit
      → k.sector (fat16_format d p n s).1 j
        ≡ (if leb p j && ltb j (p + 545) then layout p n j else k.sector s j)
  sector-fat16_format p n s h e j hj =
      let run = fat16_format-writes p n s h e in
      ap (λ (r : Bool × d.State). k.sector r.1 j) run
      ∙ sector-writes p n s h (ap (λ (r : Bool × d.State). r.0) (sym run) ∙ e) j hj

  -- A partition whose boot sector is the formatter's mounts.
  pub fat16_mount-boot_sector :
      (p n : ℕ) (s : d.State) (fs : Fs)
      → p + 545 < lba_limit
      → k.sector s p ≡ boot_sector p n
      → (d.read_sector p s).0 ≡ true
      → (fat16_mount d p fs s).0 ≡ (true, record { vol = formatted p; mounted = true })
  unfolding fat16_mount
  fat16_mount-boot_sector p n s fs h at done =
      let there : (d.read_sector p s).1 ≡ boot_sector p n =
        k.read-sector p s (omega arith) done ∙ at in
      rw (done, there)
        (ground (
          arith,
          boot_signature p n,
          located fs.vol p n (omega arith),
          field_sizes fs.vol p n (omega arith),
        ))

  -- A partition of a disk that was formatted with success, with its first 545 sectors below the limit
  -- of the device, mounts, unless the read of its boot sector fails, and the volume
  -- has the geometry that the formatter laid out.
  pub fat16_mount-fat16_format :
      (p n : ℕ) (s : d.State) (fs : Fs)
      → p + 545 < lba_limit
      → (fat16_format d p n s).0 ≡ true
      → (d.read_sector p (fat16_format d p n s).1).0 ≡ true
      → (fat16_mount d p fs (fat16_format d p n s).1).0
        ≡ (true, record { vol = formatted p; mounted = true })
  fat16_mount-fat16_format p n s fs h e done =
      fat16_mount-boot_sector p n (fat16_format d p n s).1 fs h
        (sector-fat16_format p n s h e p (omega arith) ∙ ground arith) done
